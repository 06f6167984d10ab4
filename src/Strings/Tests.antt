-- ===== src/Strings/Tests.antt =====
-- Numbers as strings.
use oslab.Base.{ℕ, ◌≤◌, ◌<◌, ◌^◌, ◌≡◌, ◌⊎◌, some, List, arith}
use oslab.Printk.Digits.{read_dec}
use oslab.Strings.{itoa, strlen}
use oslab.Strings.Itoa.{AtMostZero}
use oslab.Strings.Ascii.{IsAscii, itoa-written}

itoa-written_example :
    (out : List ℕ) × (itoa 102030 ≡ some out)
    × IsAscii out
    × (strlen out ≤ 29)
    × (((102030 < 2 ^ 31) × (read_dec 0 out ≡ 102030) × (0 < strlen out))
        ⊎ ((2 ^ 31 ≤ 102030) × AtMostZero out))
itoa-written_example = itoa-written 102030 (omega arith)
