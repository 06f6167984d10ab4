-- ===== src/Strings.antt =====
-- `itoa` and `strlen` of lib/string.c. A string is the list of its characters before the final 0.
pub mod Itoa
pub mod Ascii
mod Tests
use oslab.Base.{
  ℕ, zero, suc, ◌+◌, ◌-◌, ◌/◌, ◌%◌, ◌^◌, Bool, true, false, Option, none, some, List, [], ◌∷◌, ltb,
  ◌==◌, if◌then◌else◌,
}

-- The character of `a % 10`, which in C has the sign of `a`.
abbrev pub digit : (negative : Bool) (a : ℕ) → ℕ
digit negative a = if negative then 48 - a % 10 else 48 + a % 10

-- The loop, with `room` bytes in front of `p`; `a` is the absolute value. `none` is a write before `buf`.
unfoldable pub itoa_loop : (room : ℕ) (negative : Bool) (a : ℕ) (p : List ℕ) → Option (List ℕ)
itoa_loop zero negative a p = none
itoa_loop (suc room) negative a p =
    let rest = itoa_loop room negative (a / 10) (digit negative a ∷ p) in
    if a / 10 == 0 then some (digit negative a ∷ p) else rest

-- `buf` has 30 bytes and the last stays 0; `a` is the 32 bits of an `int`.
unfoldable pub itoa : (a : ℕ) → Option (List ℕ)
itoa a = if ltb a (2 ^ 31) then itoa_loop 29 false a [] else itoa_loop 29 true (2 ^ 32 - a) []

unfoldable pub strlen : List ℕ → ℕ
strlen [] = 0
strlen (c ∷ str) = strlen str + 1
