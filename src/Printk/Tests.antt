-- ===== src/Printk/Tests.antt =====
-- The theorems about formatted output at concrete arguments.
use oslab.Base.{ℕ, ◌≡◌, ◌↔◌, some, List, [], ◌∷◌, arith}
use oslab.Printk.{finished, print_d, print_x, vfprintf}
use oslab.Printk.Digits.{read_int, read_hex, print-read}
use oslab.Printk.Formats.{Piece, plain, decimal, string, format, args_of, printed, vfprintf-printed}

-- The least number but one as an `int`.
abbrev big : ℕ
big = 0x80000001

print-read_example :
    ((out : List ℕ) × (print_d big ≡ some out) × (read_int out ≡ big))
    × ((out : List ℕ) × (print_x big ≡ some out)
        × (read_hex 0 out ≡ big)
        × ((out ≡ []) ↔ (big ≡ 0)))
print-read_example = print-read big (omega arith)

-- "n=%d %s"
abbrev pieces : List Piece
pieces = plain 110 ∷ plain 61 ∷ decimal 0xffffffff ∷ plain 32 ∷ string 0 (111 ∷ 107 ∷ []) ∷ []

vfprintf-printed_example :
    vfprintf (format pieces) (args_of pieces) ≡ record { chars = printed pieces; status = finished }
vfprintf-printed_example =
    vfprintf-printed pieces (omega arith, (omega arith, (omega arith, (omega arith, tt))))
