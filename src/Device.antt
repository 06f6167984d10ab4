-- ===== src/Device.antt =====
-- What the kernel writes to the devices when it sets them up: kernel/device/ and kernel/irq/i8259.c. A
-- write is a port and a byte, and a function is the list of its writes in order.
mod Palette
pub mod Writes
pub mod Controllers
mod Tests
use oslab.Base.{ℕ, ◌+◌, ◌/◌, ◌%◌, ◌^◌, List, [], ◌∷◌, ◌++◌}
use Palette.{palette}

abbrev pub Write : Type 0
Write = ℕ × ℕ

abbrev pub vga_dac_write_index : ℕ
vga_dac_write_index = 0x3c8

abbrev pub vga_dac_data : ℕ
vga_dac_data = 0x3c9

-- The loop over the entries: each component without its two low bits.
unfoldable pub palette_loop : List (ℕ × ℕ × ℕ) → List Write
palette_loop [] = []
palette_loop ((red, green, blue) ∷ entries) =
    (vga_dac_data, red / 2 ^ 2)
    ∷ (vga_dac_data, green / 2 ^ 2)
    ∷ (vga_dac_data, blue / 2 ^ 2)
    ∷ palette_loop entries

unfoldable pub write_palette : List Write
write_palette = (vga_dac_write_index, 0) ∷ palette_loop palette

abbrev pub freq_8253 : ℕ
freq_8253 = 1193182

abbrev pub hz : ℕ
hz = 1000

abbrev pub timer_port : ℕ
timer_port = 0x40

unfoldable pub init_timer : List Write
init_timer =
    let counter = freq_8253 / hz in
    (timer_port + 3, 0x34) ∷ (timer_port, counter % 256) ∷ (timer_port, counter / 256) ∷ []

abbrev pub serial_port : ℕ
serial_port = 0x3f8

unfoldable pub init_serial : List Write
init_serial =
    (serial_port + 1, 0x00)
    ∷ (serial_port + 3, 0x80)
    ∷ (serial_port + 0, 0x01)
    ∷ (serial_port + 1, 0x00)
    ∷ (serial_port + 3, 0x03)
    ∷ (serial_port + 2, 0xc7)
    ∷ (serial_port + 4, 0x0b)
    ∷ []

abbrev pub port_pic_master : ℕ
port_pic_master = 0x20

abbrev pub port_pic_slave : ℕ
port_pic_slave = 0xa0

unfoldable pub init_intr : List Write
init_intr =
    (port_pic_master + 1, 0xff)
    ∷ (port_pic_slave + 1, 0xff)
    ∷ (port_pic_master, 0x11)
    ∷ (port_pic_master + 1, 32)
    ∷ (port_pic_master + 1, 2 ^ 2)
    ∷ (port_pic_master + 1, 0x3)
    ∷ (port_pic_slave, 0x11)
    ∷ (port_pic_slave + 1, 32 + 8)
    ∷ (port_pic_slave + 1, 2)
    ∷ (port_pic_slave + 1, 0x3)
    ∷ (port_pic_master, 0x68)
    ∷ (port_pic_master, 0x0a)
    ∷ (port_pic_slave, 0x68)
    ∷ (port_pic_slave, 0x0a)
    ∷ []
