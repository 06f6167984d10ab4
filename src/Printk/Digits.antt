-- ===== src/Printk/Digits.antt =====
-- The digits that lib/printk.c prints, read back.
use oslab.Base.{
  ℕ, zero, suc, ◌+◌, ◌-◌, ◌*◌, ◌/◌, ◌%◌, ◌^◌, ◌≤◌, ◌<◌, ◌≡◌, ◌↔◌, refl, sym, ap, ◌∙◌, some, List,
  [], ◌∷◌, All, ltb, ◌==◌, if◌then◌else◌, ne→==, eq→==, le→ltb, arith, inl, inr, Bool-cases,
}
use native.Mathlib.Decide.{ℕ_discrete}
use native.Mathlib.Nat.{pow-suc}
use oslab.Printk.{dec_loop, hex_loop, hex_digit, numchar_size, with_minus, print_d, print_x}

-- The number that a list of digits stands for, after digits that stand for `n`.
abbrev pub read_dec : (n : ℕ) → List ℕ → ℕ
read_dec n [] = n
read_dec n (c ∷ cs) = read_dec (n * 10 + (c - 48)) cs

abbrev pub hex_value : ℕ → ℕ
hex_value c = if ltb c 97 then c - 48 else c - 87

abbrev pub read_hex : (n : ℕ) → List ℕ → ℕ
read_hex n [] = n
read_hex n (c ∷ cs) = read_hex (n * 16 + hex_value c) cs

-- An optional minus sign, and the 32 bits of the number.
abbrev pub read_int : List ℕ → ℕ
read_int [] = 0
read_int (c ∷ cs) = if c == 45 then (2 ^ 32 - read_dec 0 cs) % 2 ^ 32 else read_dec 0 (c ∷ cs)

abbrev IsDigit : ℕ → Type 0
IsDigit c = (48 ≤ c) × (c ≤ 57)

dec_loop-read_dec :
    (room temp : ℕ) (cs : List ℕ)
    → temp < 10 ^ room
    → All IsDigit cs
    → (out : List ℕ) × (dec_loop room temp cs ≡ some out)
      × (read_dec 0 out ≡ read_dec temp cs)
      × All IsDigit out
unfolding dec_loop
dec_loop-read_dec zero temp cs h digits =
    let none_left : temp ≡ 0 = omega arith in
    (cs, rw (eq→== temp 0 none_left) refl, ap (λ n. read_dec n cs) (sym none_left), digits)
dec_loop-read_dec (suc room) temp cs h digits = elim (ℕ_discrete temp 0) [
  | yes e ↦ (cs, rw (eq→== temp 0 e) refl, ap (λ n. read_dec n cs) (sym e), digits)
  | no ne ↦
      let (out, run, value, all) =
        dec_loop-read_dec room (temp / 10) ((temp % 10 + 48) ∷ cs) (omega (arith, pow-suc 10 room))
          ((omega arith, omega arith), digits) in
      let back : temp / 10 * 10 + (temp % 10 + 48 - 48) ≡ temp = omega arith in
      (out, rw (ne→== temp 0 ne) run, value ∙ ap (λ n. read_dec n cs) back, all)
]

hex_digit-lem : (n : ℕ) → n < 16 → hex_value (hex_digit n) ≡ n
hex_digit-lem n h = ground arith

hex_loop-read_hex :
    (room temp : ℕ) (cs : List ℕ)
    → temp < 16 ^ room
    → (out : List ℕ) × (hex_loop room temp cs ≡ some out) × (read_hex 0 out ≡ read_hex temp cs)
unfolding hex_loop
hex_loop-read_hex zero temp cs h =
    let none_left : temp ≡ 0 = omega arith in
    (cs, rw (eq→== temp 0 none_left) refl, ap (λ n. read_hex n cs) (sym none_left))
hex_loop-read_hex (suc room) temp cs h = elim (ℕ_discrete temp 0) [
  | yes e ↦ (cs, rw (eq→== temp 0 e) refl, ap (λ n. read_hex n cs) (sym e))
  | no ne ↦
      let (out, run, value) =
        hex_loop-read_hex room (temp / 16) (hex_digit (temp % 16) ∷ cs)
          (omega (arith, pow-suc 16 room)) in
      let back : temp / 16 * 16 + hex_value (hex_digit (temp % 16)) ≡ temp =
        omega (arith, hex_digit-lem (temp % 16) (omega arith)) in
      (out, rw (ne→== temp 0 ne) run, value ∙ ap (λ n. read_hex n cs) back)
]

read_int-digits :
    (out : List ℕ) → All IsDigit out → 0 < read_dec 0 out → read_int out ≡ read_dec 0 out
read_int-digits [] digits some_value = absurd (omega arith)
read_int-digits (c ∷ cs) (digit, digits) some_value = rw (ne→== c 45 (omega (arith, digit.0))) refl

-- Every 32-bit `int` fits the buffer of `%d`, and what is printed reads back as that number.
pub print_d-read_int :
    (n : ℕ) → n < 2 ^ 32 → (out : List ℕ) × (print_d n ≡ some out) × (read_int out ≡ n)
unfolding print_d
print_d-read_int n h = elim (ℕ_discrete n 0) [
  | yes e ↦ (48 ∷ [], rw (eq→== n 0 e) refl, sym e)
  | no ne ↦ elim (ℕ_discrete n 0x80000000) [
    | yes e ↦ (
      45 ∷ 50 ∷ 49 ∷ 52 ∷ 55 ∷ 52 ∷ 56 ∷ 51 ∷ 54 ∷ 52 ∷ 56 ∷ [],
      rw (ne→== n 0 ne) (rw (le→ltb n (2 ^ 31) (omega arith)) (rw (eq→== n 0x80000000 e) refl)),
      sym e,
    )
    | no other ↦ elim (Bool-cases (ltb n (2 ^ 31))) [
      | inl low ↦
          let (out, run, value, digits) = dec_loop-read_dec numchar_size n [] (omega arith) tt in
          (
            out,
            rw (ne→== n 0 ne) (rw low run),
            read_int-digits out digits (omega (arith, value)) ∙ value,
          )
      | inr high ↦
          let (out, run, value, digits) =
            dec_loop-read_dec numchar_size (2 ^ 32 - n) [] (omega arith) tt in
          let large : 2 ^ 31 ≤ n = ground arith in
          (
            45 ∷ out,
            rw (ne→== n 0 ne) (rw high (rw (ne→== n 0x80000000 other) (ap with_minus run))),
            omega (arith, value),
          )
    ]
  ]
]

-- Every 32-bit `unsigned` fits the buffer of `%x`, and what is printed reads back as that number;
-- nothing is printed exactly for zero.
pub print_x-read_hex :
    (n : ℕ)
    → n < 2 ^ 32
    → (out : List ℕ) × (print_x n ≡ some out) × (read_hex 0 out ≡ n) × ((out ≡ []) ↔ (n ≡ 0))
unfolding print_x hex_loop
print_x-read_hex n h = elim (ℕ_discrete n 0) [
  | yes e ↦ ([], rw (eq→== n 0 e) refl, sym e, ((λ p. e), (λ p. refl)))
  | no ne ↦
      let (out, run, value) = hex_loop-read_hex numchar_size n [] (omega arith) in
      (out, run, value, ((λ p. sym value ∙ ap (read_hex 0) p), (λ p. absurd (ne p))))
]

-- Every 32-bit number fits the buffer, as an `int` for `%d` and unsigned for `%x`, and what is printed reads
-- back as that number; `%x` prints nothing exactly for zero.
pub print-read :
    (n : ℕ)
    → n < 2 ^ 32
    → ((out : List ℕ) × (print_d n ≡ some out) × (read_int out ≡ n))
      × ((out : List ℕ) × (print_x n ≡ some out) × (read_hex 0 out ≡ n) × ((out ≡ []) ↔ (n ≡ 0)))
print-read n h = (print_d-read_int n h, print_x-read_hex n h)
