-- ===== src/Game/Random.antt =====
-- The random numbers of lib/random.c. The `int seed` is kept as its 32 bits; `&` with 0x7FFF keeps the
-- low 15 of them, which the sign does not reach.
use oslab.Base.{ℕ, ◌+◌, ◌*◌, ◌/◌, ◌%◌, ◌^◌}

-- What `rand` returns and the seed that it leaves.
abbrev pub next_seed : ℕ → ℕ
next_seed seed = (0x015a4e35 * seed + 1) % 2 ^ 32

unfoldable pub rand : ℕ → ℕ × ℕ
rand seed = (next_seed seed / 2 ^ 16 % 2 ^ 15, next_seed seed)
