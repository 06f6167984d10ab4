-- ===== src/Device/Tests.antt =====
-- The theorems about the devices at concrete states, and the rate of the timer.
use oslab.Base.{◌≡◌, refl, true, false, some, [], ◌∷◌, arith}
use oslab.Device.{write_palette, init_intr, init_timer}
use oslab.Device.Palette.{palette}
use oslab.Device.Writes.{Dac, dac_run, write_palette-component}
use oslab.Device.Controllers.{Pic, pics_run, raised, initialised, init_intr-raised}

abbrev dark : Dac
dark = record { place = 5; registers = λ i. 63 }

-- The green of entry 2, 128 of 255.
write_palette-component_example : (dac_run write_palette dark).registers 7 ≡ 32
unfolding palette
write_palette-component_example = write_palette-component dark 2 1 (omega arith) (omega arith)

abbrev unknown : Pic
unknown = record {
  expected = 2;
  single = true;
  has_mode = false;
  level = true;
  vector = 8;
  cascade = 0;
  mode = 0;
  mask = 1;
  special_mask = false;
  reads_service = true;
}

init_intr-raised_example :
    (pics_run init_intr (unknown, unknown) ≡ (initialised 32 4, initialised 40 2))
    × (raised (pics_run init_intr (unknown, unknown)) 14 ≡ some 46)
init_intr-raised_example = init_intr-raised unknown unknown 14 (omega arith) (omega arith)

-- The counter of the timer is 1193, low byte first.
init_timer_run : init_timer ≡ (0x43, 0x34) ∷ (0x40, 0xa9) ∷ (0x40, 4) ∷ []
unfolding init_timer
init_timer_run = refl
