-- ===== src/Strings/Ascii.antt =====
-- The characters that `itoa` of lib/string.c writes, and how many they are.
use oslab.Base.{
  ℕ, zero, suc, ◌+◌, ◌-◌, ◌/◌, ◌^◌, ◌≤◌, ◌<◌, ◌≡◌, ◌∙◌, sym, ap, ◌⊎◌, Bool, true, false, some, List,
  [], ◌∷◌, All, Bool-cases, inl, inr, ltb, arith,
}
use native.Mathlib.Decide.{ℕ_discrete}
use native.Mathlib.Nat.{pow-suc}
use oslab.Strings.{digit, itoa_loop, itoa, strlen}
use mathlib.Core.Path.{subst}
use oslab.Printk.Digits.{read_dec}
use oslab.Strings.Itoa.{AtMostZero, itoa-read_dec, itoa-AtMostZero, itoa_loop-last, itoa_loop-next}

abbrev pub IsAscii : List ℕ → Type 0
IsAscii cs = All (λ c. c < 128) cs

digit-IsAscii : (negative : Bool) (a : ℕ) → digit negative a < 128
digit-IsAscii false a = omega arith
digit-IsAscii true a = omega arith

itoa_loop-IsAscii :
    (room : ℕ) (negative : Bool) (a : ℕ) (p : List ℕ)
    → a < 10 ^ suc room
    → IsAscii p
    → (out : List ℕ) × (itoa_loop (suc room) negative a p ≡ some out)
      × IsAscii out
      × (strlen out ≤ strlen p + suc room)
unfolding strlen
itoa_loop-IsAscii zero negative a p h ascii = (
  digit negative a ∷ p,
  itoa_loop-last zero negative a p (omega arith),
  (digit-IsAscii negative a, ascii),
  omega arith,
)
itoa_loop-IsAscii (suc room) negative a p h ascii = elim (ℕ_discrete (a / 10) 0) [
  | yes e ↦ (
    digit negative a ∷ p,
    itoa_loop-last (suc room) negative a p e,
    (digit-IsAscii negative a, ascii),
    omega arith,
  )
  | no ne ↦
      let (out, run, all, short) =
        itoa_loop-IsAscii room negative (a / 10) (digit negative a ∷ p)
          (omega (arith, pow-suc 10 (suc room))) (digit-IsAscii negative a, ascii) in
      (out, itoa_loop-next (suc room) negative a p ne ∙ run, all, omega arith)
]

-- `itoa` of any 32 bits fits its buffer, and writes at most 29 characters, all of them ASCII.
pub itoa-IsAscii :
    (a : ℕ) → a < 2 ^ 32 → (out : List ℕ) × (itoa a ≡ some out) × IsAscii out × (strlen out ≤ 29)
unfolding itoa strlen
itoa-IsAscii a h = elim (Bool-cases (ltb a (2 ^ 31))) [
  | inl on ↦
      let (out, run, all, short) = itoa_loop-IsAscii 28 false a [] (omega arith) tt in
      (out, rw on run, all, short)
  | inr off ↦
      let (out, run, all, short) = itoa_loop-IsAscii 28 true (2 ^ 32 - a) [] (omega arith) tt in
      (out, rw off run, all, short)
]

-- `itoa` of any 32 bits fits its buffer, and writes at most 29 characters, all of them ASCII. Those of a
-- number that is not negative read back as the number and are at least one; those of a negative number
-- have no digit but 0, since each character is at most the code of `0`.
pub itoa-written :
    (a : ℕ)
    → a < 2 ^ 32
    → (out : List ℕ) × (itoa a ≡ some out)
      × IsAscii out
      × (strlen out ≤ 29)
      × (((a < 2 ^ 31) × (read_dec 0 out ≡ a) × (0 < strlen out)) ⊎ ((2 ^ 31 ≤ a) × AtMostZero out))
itoa-written a h =
    let (out, run, ascii, short) = itoa-IsAscii a h in
    (
      out,
      run,
      ascii,
      short,
      elim (dec_lt a (2 ^ 31)) [
        | inl low ↦
            let (same, again, value, some_chars) = itoa-read_dec a low in
            let e = some-inj (sym run ∙ again) in
            inl (low, ap (read_dec 0) e ∙ value, subst (λ cs. 0 < strlen cs) (sym e) some_chars)
        | inr high ↦
            let (same, again, all) = itoa-AtMostZero a high h in
            inr (high, subst AtMostZero (some-inj (sym again ∙ run)) all)
      ],
    )
  where
    dec_lt : (m n : ℕ) → (m < n) ⊎ (n ≤ m)
    dec_lt m n = ground arith

    some-inj : {x y : List ℕ} → some x ≡ some y → x ≡ y
    some-inj e = cc
