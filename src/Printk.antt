-- ===== src/Printk.antt =====
-- Formatted output, from lib/printk.c. A character is its code, and the output is the list of
-- characters that `printer` gets.
pub mod Digits
pub mod Formats
mod Tests
use oslab.Base.{
  ℕ, zero, suc, ◌+◌, ◌-◌, ◌/◌, ◌%◌, ◌^◌, Bool, true, false, Option, none, some, List, [], ◌∷◌, ◌++◌,
  ltb, leb, ◌==◌, if◌then◌else◌,
}

-- One of the `args`: a word, or a pointer to a string.
pub data Arg : Type 0 where
  word : ℕ → Arg
  text : (address : ℕ) → List ℕ → Arg

-- How a call ends: at the end of the format, in an assertion, with a read past `args` or of no string,
-- or past `numchar`.
pub data Status : Type 0 where
  finished asserted fault overflow : Status

pub record Output : Type 0 where
  pub chars : List ℕ
  pub status : Status

abbrev pub stop : Status → Output
stop s = record { chars = []; status = s }

abbrev pub emit : List ℕ → Output → Output
emit cs o = record o { chars = cs ++ o.chars }

abbrev pub percent : ℕ
percent = 37

-- `while(temp) { numchar[i++] = ...; temp /= 10; }` with `room` characters left in `numchar`. The
-- characters are listed as they are printed later, from the last to the first.
unfoldable pub dec_loop : (room temp : ℕ) (numchar : List ℕ) → Option (List ℕ)
dec_loop zero temp numchar = if temp == 0 then some numchar else none
dec_loop (suc room) temp numchar =
    let rest = dec_loop room (temp / 10) ((temp % 10 + 48) ∷ numchar) in
    if temp == 0 then some numchar else rest

abbrev pub hex_digit : ℕ → ℕ
hex_digit n = if ltb n 10 then n + 48 else n - 10 + 97

unfoldable pub hex_loop : (room temp : ℕ) (numchar : List ℕ) → Option (List ℕ)
hex_loop zero temp numchar = if temp == 0 then some numchar else none
hex_loop (suc room) temp numchar =
    let rest = hex_loop room (temp / 16) (hex_digit (temp % 16) ∷ numchar) in
    if temp == 0 then some numchar else rest

abbrev pub numchar_size : ℕ
numchar_size = 12

abbrev pub with_minus : Option (List ℕ) → Option (List ℕ)
with_minus none = none
with_minus (some cs) = some (45 ∷ cs)

-- `%d` of the 32 bits of an `int`.
unfoldable pub print_d : (temp : ℕ) → Option (List ℕ)
print_d temp =
    if temp == 0
    then some (48 ∷ [])
    else if ltb temp (2 ^ 31)
    then dec_loop numchar_size temp []
    else if temp == 0x80000000
    then some (45 ∷ 50 ∷ 49 ∷ 52 ∷ 55 ∷ 52 ∷ 56 ∷ 51 ∷ 54 ∷ 52 ∷ 56 ∷ [])
    else with_minus (dec_loop numchar_size (2 ^ 32 - temp) [])

-- `%x` of an `unsigned`.
unfoldable pub print_x : (temp : ℕ) → Option (List ℕ)
print_x temp = hex_loop numchar_size temp []

abbrev pub word_of : Arg → ℕ
word_of (word n) = n
word_of (text address cs) = address

-- What a directive prints of its argument.
abbrev pub string_of : Arg → Output
string_of (word n) = stop fault
string_of (text address cs) = record { chars = cs; status = finished }

abbrev pub number : Option (List ℕ) → Output
number none = stop overflow
number (some cs) = record { chars = cs; status = finished }

abbrev pub then_print : Output → Output → Output
then_print o next = elim o.status [
  | finished ↦ emit o.chars next
  | asserted ↦ o
  | fault ↦ o
  | overflow ↦ o
]

-- The character after `%`, with `next` the output of the rest of the format for the arguments left.
unfoldable pub directive : (kind : ℕ) (args : List Arg) (next : List Arg → Output) → Output
directive kind args next =
    let with_arg : (Arg → Output) → Output =
      λ show. elim args [ [] ↦ stop fault | a ∷ more ↦ then_print (show a) (next more) ] in
    if kind == 100
    then with_arg (λ a. number (print_d (word_of a)))
    else if kind == 120
    then with_arg (λ a. number (print_x (word_of a)))
    else if kind == 99
    then with_arg (λ a. record { chars = word_of a % 256 ∷ []; status = finished })
    else if kind == 115
    then with_arg string_of
    else if kind == percent
    then emit (percent ∷ []) (next args)
    else stop asserted

unfoldable pub vfprintf : (ctl : List ℕ) (args : List Arg) → Output
vfprintf [] args = stop finished
vfprintf (c ∷ []) args = if c == percent then stop asserted else emit (c ∷ []) (stop finished)
vfprintf (c ∷ kind ∷ ctl) args = elim (c == percent) [
  | true ↦ directive kind args (vfprintf ctl)
  | false ↦ emit (c ∷ []) (vfprintf (kind ∷ ctl) args)
]
