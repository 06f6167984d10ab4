-- ===== src/Strings/Itoa.antt =====
-- What `itoa` of lib/string.c writes.
use oslab.Base.{
  ℕ, zero, suc, ◌-◌, ◌/◌, ◌^◌, ◌≤◌, ◌<◌, ◌≡◌, ◌≢◌, refl, ap, ◌∙◌, Bool, true, false, Option, some,
  List, [], ◌∷◌, All, ne→==, eq→==, lt→ltb, le→ltb, arith,
}
use native.Mathlib.Decide.{ℕ_discrete}
use native.Mathlib.Nat.{pow-suc}
use oslab.Printk.Digits.{read_dec}
use oslab.Strings.{digit, itoa_loop, itoa, strlen}

-- The last round,
pub itoa_loop-last :
    (room : ℕ) (negative : Bool) (a : ℕ) (p : List ℕ)
    → a / 10 ≡ 0
    → itoa_loop (suc room) negative a p ≡ some (digit negative a ∷ p)
unfolding itoa_loop
itoa_loop-last room negative a p e = rw (eq→== (a / 10) 0 e) refl

-- and the others.
pub itoa_loop-next :
    (room : ℕ) (negative : Bool) (a : ℕ) (p : List ℕ)
    → a / 10 ≢ 0
    → itoa_loop (suc room) negative a p ≡ itoa_loop room negative (a / 10) (digit negative a ∷ p)
unfolding itoa_loop
itoa_loop-next room negative a p ne = rw (ne→== (a / 10) 0 ne) refl

-- What the loop writes in front of `p` reads as `a`, and is not empty.
Reads : (a : ℕ) (p : List ℕ) (o : Option (List ℕ)) → Type 0
Reads a p o =
    (out : List ℕ) × (o ≡ some out) × (read_dec 0 out ≡ read_dec a p) × (strlen p < strlen out)

Reads-last : (room a : ℕ) (p : List ℕ) → a / 10 ≡ 0 → Reads a p (itoa_loop (suc room) false a p)
unfolding Reads strlen
Reads-last room a p e = (
  digit false a ∷ p,
  itoa_loop-last room false a p e,
  ap (λ n. read_dec n p) (omega arith),
  omega arith,
)

itoa_loop-Reads :
    (room a : ℕ) (p : List ℕ) → a < 10 ^ suc room → Reads a p (itoa_loop (suc room) false a p)
unfolding Reads strlen
itoa_loop-Reads zero a p h = Reads-last zero a p (omega arith)
itoa_loop-Reads (suc room) a p h = elim (ℕ_discrete (a / 10) 0) [
  | yes e ↦ Reads-last (suc room) a p e
  | no ne ↦
      let (out, run, value, longer) =
        itoa_loop-Reads room (a / 10) (digit false a ∷ p) (omega (arith, pow-suc 10 (suc room))) in
      (
        out,
        itoa_loop-next (suc room) false a p ne ∙ run,
        value ∙ ap (λ n. read_dec n p) (omega arith),
        omega arith,
      )
]

-- `itoa` of a number that is not negative fits its buffer, and writes at least one character; the
-- string reads back as the number.
pub itoa-read_dec :
    (a : ℕ)
    → a < 2 ^ 31
    → (out : List ℕ) × (itoa a ≡ some out) × (read_dec 0 out ≡ a) × (0 < strlen out)
unfolding itoa Reads strlen
itoa-read_dec a h =
    let (out, run, value, longer) = itoa_loop-Reads 28 a [] (omega arith) in
    (out, rw (lt→ltb a (2 ^ 31) h) run, value, longer)

abbrev pub AtMostZero : List ℕ → Type 0
AtMostZero cs = All (λ c. c ≤ 48) cs

itoa_loop-AtMostZero :
    (room a : ℕ) (p : List ℕ)
    → a < 10 ^ suc room
    → AtMostZero p
    → (out : List ℕ) × (itoa_loop (suc room) true a p ≡ some out) × AtMostZero out
itoa_loop-AtMostZero zero a p h low =
    (digit true a ∷ p, itoa_loop-last zero true a p (omega arith), (omega arith, low))
itoa_loop-AtMostZero (suc room) a p h low = elim (ℕ_discrete (a / 10) 0) [
  | yes e ↦ (digit true a ∷ p, itoa_loop-last (suc room) true a p e, (omega arith, low))
  | no ne ↦
      let (out, run, all) =
        itoa_loop-AtMostZero room (a / 10) (digit true a ∷ p) (omega (arith, pow-suc 10 (suc room)))
          (omega arith, low) in
      (out, itoa_loop-next (suc room) true a p ne ∙ run, all)
]

-- For a negative number the string has no digit but 0: each character is at most `0`.
pub itoa-AtMostZero :
    (a : ℕ) → 2 ^ 31 ≤ a → a < 2 ^ 32 → (out : List ℕ) × (itoa a ≡ some out) × AtMostZero out
unfolding itoa
itoa-AtMostZero a low h =
    let (out, run, all) = itoa_loop-AtMostZero 28 (2 ^ 32 - a) [] (omega arith) tt in
    (out, rw (le→ltb a (2 ^ 31) low) run, all)
