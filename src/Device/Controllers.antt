-- ===== src/Device/Controllers.antt =====
-- The two 8259 after `init_intr` of kernel/irq/i8259.c, as their manual describes them.
use oslab.Base.{
  ℕ, ◌+◌, ◌-◌, ◌*◌, ◌/◌, ◌%◌, ◌^◌, ◌<◌, ◌≤◌, ◌≡◌, ◌⊎◌, refl, ap, inl, inr, Bool, true, false,
  Option, none, some, ◌==◌, ◌&&◌, ltb, if◌then◌else◌, List, [], ◌∷◌, lt→ltb, le→ltb, ◌≢◌, ne→==,
  arith,
}
use native.Mathlib.Nat.{zero-div}
use oslab.Device.{Write, init_intr, port_pic_master, port_pic_slave}

-- An 8259: the initialisation word that a byte of data is taken for, or 0 when it is the mask; the bits of
-- the first word that say whether it is alone (SNGL), whether the fourth follows (IC4) and whether the
-- lines are levels (LTIM); the other three words; the mask; and what commands set.
pub record Pic : Type 0 where
  pub expected : ℕ
  pub single : Bool
  pub has_mode : Bool
  pub level : Bool
  pub vector : ℕ
  pub cascade : ℕ
  pub mode : ℕ
  pub mask : ℕ
  pub special_mask : Bool
  pub reads_service : Bool

abbrev pub bit : (i value : ℕ) → Bool
bit i value = value / 2 ^ i % 2 == 1

-- Bit 4 makes a command the first word of an initialisation, which clears the mask and the special mask,
-- and the mode if no fourth word follows. Bit 3 makes it the third command word: bit 6 sets the special
-- mask to bit 5, and bit 1 the register that is read to bit 0. Any other ends an interrupt.
abbrev pub pic_command : ℕ → Pic → Pic
pic_command value p =
    if bit 4 value
    then record p {
      expected = 2;
      single = bit 1 value;
      has_mode = bit 0 value;
      level = bit 3 value;
      mode = if bit 0 value then p.mode else 0;
      mask = 0;
      special_mask = false;
      reads_service = false;
    }
    else if bit 3 value
    then record p {
      special_mask = if bit 6 value then bit 5 value else p.special_mask;
      reads_service = if bit 1 value then bit 0 value else p.reads_service;
    }
    else p

-- The second word is the vector, without its three low bits; the third, unless the controller is alone,
-- the cascade; the fourth, if announced, the mode.
abbrev pub last_word : Pic → ℕ
last_word p = if p.has_mode then 4 else 0

abbrev pub pic_data : ℕ → Pic → Pic
pic_data value p =
    if p.expected == 2
    then record p { expected = if p.single then last_word p else 3; vector = value / 2 ^ 3 * 2 ^ 3 }
    else if p.expected == 3
    then record p { expected = last_word p; cascade = value }
    else if p.expected == 4
    then record p { expected = 0; mode = value % 2 ^ 5 }
    else record p { mask = value }

-- The master and the slave.
abbrev pub pics_write : Write → Pic × Pic → Pic × Pic
pics_write (port, value) (master, slave) =
    if port == port_pic_master
    then (pic_command value master, slave)
    else if port == port_pic_master + 1
    then (pic_data value master, slave)
    else if port == port_pic_slave
    then (master, pic_command value slave)
    else if port == port_pic_slave + 1
    then (master, pic_data value slave)
    else (master, slave)

abbrev pub pics_run : List Write → Pic × Pic → Pic × Pic
pics_run [] p = p
pics_run (w ∷ ws) p = pics_run ws (pics_write w p)

-- An initialised controller, working with an 8086, lets a line through.
abbrev pub lets : Pic → (line : ℕ) → Bool
lets p line = p.expected == 0 && bit 0 p.mode && p.mask / 2 ^ line % 2 == 0

-- The interrupt that a request on one of the sixteen lines leads to. Those from 8 on are the lines of the
-- slave, which asks on the line of the master that its cascade word names, if the master expects it; no
-- device is on that line.
abbrev pub raised : Pic × Pic → (line : ℕ) → Option ℕ
raised (master, slave) line =
    if line == slave.cascade
    then none
    else if ltb line 8
    then if lets master line then some (master.vector + line) else none
    else if lets slave (line - 8) && bit slave.cascade master.cascade && lets master slave.cascade
    then some (slave.vector + (line - 8))
    else none

-- With the vectors, the cascade and the mode of the kernel, nothing masked.
abbrev pub initialised : (vector cascade : ℕ) → Pic
initialised vector cascade = record {
  expected = 0;
  single = false;
  has_mode = true;
  level = false;
  vector = vector;
  cascade = cascade;
  mode = 3;
  mask = 0;
  special_mask = true;
  reads_service = false;
}

no_mask : (line : ℕ) → (0 / 2 ^ line % 2 == 0) ≡ true
no_mask line = rw (zero-div (2 ^ line)) refl

below_or_not : (m n : ℕ) → (m < n) ⊎ (n ≤ m)
below_or_not m n = ground arith

initialised-raised :
    (line : ℕ)
    → line ≢ 2
    → raised (initialised 32 (2 ^ 2), initialised 40 2) line ≡ some (32 + line)
initialised-raised line ne = elim (below_or_not line 8) [
  | inl lt ↦ rw (ne→== line 2 ne) (rw (lt→ltb line 8 lt) (rw (no_mask line) refl))
  | inr le ↦
      rw (ne→== line 2 ne) (rw (le→ltb line 8 le) (rw (no_mask (line - 8)) (ap some (omega arith))))
]

-- After `init_intr` both interrupt controllers, whatever state they were in, are initialised in cascade,
-- with edge triggered lines, for an 8086 and with automatic end of interrupt (mode 3), no line masked, the
-- special mask on and the request register read. A request on any of the sixteen lines but line 2, which is
-- that of the slave, then leads to interrupt 32 + the number of the line.
pub init_intr-raised :
    (master slave : Pic) (line : ℕ)
    → line < 16
    → line ≢ 2
    → (pics_run init_intr (master, slave) ≡ (initialised 32 (2 ^ 2), initialised 40 2))
      × (raised (pics_run init_intr (master, slave)) line ≡ some (32 + line))
unfolding init_intr
init_intr-raised master slave line h ne = (refl, initialised-raised line ne)
