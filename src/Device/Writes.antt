-- ===== src/Device/Writes.antt =====
-- The color registers after the writes of kernel/device/palette.c, as the manual of the card describes them.
use oslab.Base.{
  ℕ, zero, suc, ◌+◌, ◌*◌, ◌/◌, ◌%◌, ◌^◌, ◌<◌, ◌≡◌, refl, ap, ◌∙◌, ◌==◌, if◌then◌else◌, List, [],
  ◌∷◌, length, get_or, ne→==, arith,
}
use oslab.Device.{Write, vga_dac_write_index, vga_dac_data, palette_loop, write_palette}
use oslab.Device.Palette.{palette}

-- The color registers of a VGA card: a write of the index selects entry and component 0; a write of
-- data goes to the component, of which only six bits are kept, and moves on.
pub record Dac : Type 0 where
  pub place : ℕ
  pub registers : ℕ → ℕ

abbrev pub dac_write : Write → Dac → Dac
dac_write (port, value) d =
    if port == vga_dac_write_index
    then record d { place = value * 3 }
    else if port == vga_dac_data
    then record {
      place = d.place + 1;
      registers = λ i. if i == d.place then value % 64 else d.registers i;
    }
    else d

abbrev pub dac_run : List Write → Dac → Dac
dac_run [] d = d
dac_run (w ∷ ws) d = dac_run ws (dac_write w d)

-- The three components of an entry, and an entry of a list.
abbrev pub component : ℕ × ℕ × ℕ → (c : ℕ) → ℕ
component (red, green, blue) c = if c == 0 then red else if c == 1 then green else blue

abbrev pub entry_of : List (ℕ × ℕ × ℕ) → ℕ → ℕ × ℕ × ℕ
entry_of entries i = get_or entries i (0, 0, 0)

-- Registers below the place are left alone,
palette_loop-below :
    (entries : List (ℕ × ℕ × ℕ)) (d : Dac) (j : ℕ)
    → j < d.place
    → (dac_run (palette_loop entries) d).registers j ≡ d.registers j
unfolding palette_loop
palette_loop-below [] d j h = refl
palette_loop-below ((red, green, blue) ∷ entries) d j h =
    palette_loop-below entries _ j (omega arith)
    ∙ rw (ne→== j (d.place + 1 + 1) (omega arith))
        (rw (ne→== j (d.place + 1) (omega arith)) (rw (ne→== j d.place (omega arith)) refl))

-- and from there on each gets its component.
palette_loop-component :
    (entries : List (ℕ × ℕ × ℕ)) (d : Dac) (i c : ℕ)
    → i < length entries
    → c < 3
    → (dac_run (palette_loop entries) d).registers (d.place + i * 3 + c)
      ≡ component (entry_of entries i) c / 2 ^ 2 % 64
unfolding palette_loop
palette_loop-component [] d i c h k = absurd (omega arith)
palette_loop-component ((red, green, blue) ∷ entries) d zero c h k =
    palette_loop-below entries _ (d.place + 0 * 3 + c) (omega arith) ∙ ground arith
palette_loop-component ((red, green, blue) ∷ entries) d (suc i) c h k =
    let next : Dac =
      dac_write (vga_dac_data, blue / 2 ^ 2)
        (dac_write (vga_dac_data, green / 2 ^ 2) (dac_write (vga_dac_data, red / 2 ^ 2) d)) in
    ap (dac_run (palette_loop entries) next).registers (omega arith)
    ∙ palette_loop-component entries next i c (omega arith) k

-- After `write_palette` each color register of the card, whatever it was, holds the component of the
-- palette without its two low bits.
pub write_palette-component :
    (d : Dac) (i c : ℕ)
    → i < length palette
    → c < 3
    → (dac_run write_palette d).registers (i * 3 + c)
      ≡ component (entry_of palette i) c / 2 ^ 2 % 64
unfolding write_palette
write_palette-component d i c h k =
    let start : Dac = record d { place = 0 } in
    ap (dac_run (palette_loop palette) start).registers (omega arith)
    ∙ palette_loop-component palette start i c h k
