-- ===== src/Lib.antt =====
-- A verification library for a small 32-bit x86 kernel with a snake game on top.
--
-- The program. The boot loader (boot/) loads the kernel. The kernel (kernel/) starts the memory system,
-- makes an environment, installs interrupt gates and loads the game (game/), which draws into video
-- memory, reads the keyboard and the timer through system calls and runs a fixed-rate loop. Both use
-- the small C library of lib/.
--
-- Files.
-- Abort: append and blue_screen of lib/abort.c with display_buffer of kernel/device/video.c.
--   Abort/Lines: strings of several lines on the screen. Abort/Display: video memory after
--   display_buffer. Abort/Message: the message. Abort/Tests: an example.
-- Base (with Tests, Lists, Bits): Booleans, lists, options and bit operations over native numbers.
-- Vm: the memory system of kernel/pmapjos.c with the macros of include/jos/.
--   Vm/Layout: PGNUM, PDX, PTX, PTE_ADDR, ROUNDUP, PADDR, KADDR, page2pa and their like.
--   Vm/State: the state, physical memory by words, `pages`, `page_free_list` and the flushed
--     addresses, and the commands that read and write it. A run is a value with a state, or a fault.
--   Vm/Pages: page_alloc, page_free, page_decref, page_init. Vm/Tables: pgdir_walk,
--     boot_map_region, page_lookup, page_remove, page_insert, region_alloc. Vm/Boot:
--     i386_detect_memory, boot_alloc, mem_init.
--   Vm/FreeList and Vm/FreeList/Init: the free list as a chain of pages. Vm/Mmu: `translate`, what
--     the MMU makes of a directory, and when a directory is a tree of tables. Vm/NewTable and
--     Vm/Walk: pgdir_walk. Vm/Fill: one entry and boot_map_region. Vm/Remove, Vm/Insert,
--     Vm/Insert/Replace, Vm/Backed and Vm/Region: page_remove, page_insert, region_alloc.
--     Vm/Boot/Layout and Vm/Boot/Init: the blocks of boot_alloc and mem_init. Vm/Boot/Entry: the first
--     directory, of kernel/entrypgdir.c. Vm/Tests: examples.
-- Game: the game of game/.
--   Game/Random: rand of lib/random.c. Game/Effect: create_new_food and update_snake_pos of
--     game/effect.c. Game/Keyboard: game/keyboard.c and update_keypress.
--   Game/Redraw: the loops that shift the nodes and redraw the board. Game/Alive: when a game is well
--     formed. Game/Food, Game/Start, Game/Ahead, Game/Step, Game/Grown and Game/Eat: the draw of food,
--     the first call, the game after the move of the head, a step onto an empty cell and a step onto
--     food. Game/Crash: when a step ends the game. Game/Keys: key presses. Game/Font and Game/Video: the
--     font of lib/font.c and game/video.c; Game/Paint: what draw_block paints. Game/Screen:
--     redraw_screen, draw_gg, show_logo and draw_logo. Game/Letters, Game/Text and Game/Text/Line: what
--     draw_string changes and what it paints. Game/Count and Game/Shown: the snake cells that
--     redraw_screen counts and what it shows. Game/Pictures: the logo and the end of the game.
--     Game/Tests: examples.
--   Game/Loop: the main loop of game/game.c. Game/Loop/Heading, Game/Loop/Fit and Game/Loop/Stepped:
--     what any turn of the snake keeps. Game/Loop/Clock: interrupts and the clock. Game/Loop/Play,
--     Game/Loop/Tick and Game/Loop/CatchUp: the inner loop against the game alone. Game/Loop/Turn,
--     Game/Loop/Draw and Game/Loop/Round: a round. Game/Loop/Wait: the wait for the space bar.
--     Game/Loop/Rounds: all rounds. Game/Loop/Safe: main_loop. Game/Loop/Tests: examples.
-- Env: the environments of kernel/env.c over the memory system: env_init, env_setup_vm, env_alloc.
--   Env/Segments: its segment descriptors, with the macros of include/jos/mmu.h. Env/FreeEnvs: the list
--   of free environments. Env/Copy and Env/Setup: the directory of a new environment. Env/Alloc:
--   env_alloc. Env/Tests: examples.
-- Device: the port writes of kernel/device/palette.c, kernel/device/timer.c, kernel/device/serial.c and
--   kernel/irq/i8259.c. Device/Palette: the palette. Device/Writes: the color registers after
--   them. Device/Controllers: the two interrupt controllers. Device/Tests: examples.
-- Disk: readsect and readseg of kernel/main.c, the contents of the disk being a parameter. Disk/Segment:
--   what they put where. Disk/Tests: an example.
-- Irq: interrupts. Irq/Gate: set_intr, set_trap and init_idt of kernel/irq/idt.c, the addresses of the
--   assembly routines being parameters. Irq/Gates: where the CPU goes. Irq/Dispatch: irq_handle of
--   kernel/irq/irq_handle.c and do_syscall of kernel/syscall/do_syscall.c; what they do to the
--   outside is a list of events. Irq/Handlers: registered handlers and the ways to stop.
--   Irq/Tests: examples.
-- Loader: bootmain of boot/main.c with the headers of boot/boot.h, over the reading of the disk in Disk.
--   Loader/Fields: headers in memory and in the file. Loader/Segment, Loader/Rounds and
--   Loader/Segments: what is loaded where. Loader/Tests: an example.
-- Printk: vfprintf of lib/printk.c over character codes, with its 12-byte digit buffer.
--   Printk/Digits: the digits read back. Printk/Formats: whole formats. Printk/Tests: examples.
-- Strings: itoa and strlen of lib/string.c. Strings/Itoa and Strings/Ascii: what itoa writes.
--   Strings/Tests: examples.
--
-- Numbers. A machine word is a natural number with its wrap-around written out (% 2 ^ 32); a shift is
-- a division or a multiplication by a power of two. A pointer to a `struct PageInfo` is an index into
-- `pages`, NULL is `none`; a pointer to a table entry is its kernel virtual address. The kernel
-- reaches the 4MB of physical memory that its page directories map at KERNBASE, and an access above
-- that faults.
--
-- The arrays `gamepool`, `snake` and `letter_pressed` are functions of their indices. The draw of food
-- has no bound in the source: it is recursion on fuel, which is enough if one of the first `fuel` draws
-- hits an empty cell, and on a full board no fuel is.
--
-- Loops are recursion on the number of rounds that are left. The loop of page_init runs down an index;
-- the loop of region_alloc has one round for each page and one for the last test, which the theorem
-- about it shows to be enough.
--
-- The main loop takes the interrupts as lists, for each place where they are enabled. Its inner loop is
-- recursion on fuel; the ticks that the loop is behind are enough, and the clock at the end of a round
-- bounds them. A run in which the search for a place for food runs out of fuel is a run without a result.
--
-- The arrays `pages` and `envs` have their own parts of the state and are not among the words of physical
-- memory, so no theorem says that writing them leaves physical memory alone.
--
-- An `int` of the disk routines is kept as its 32 bits, with the division and remainder of C.
--
-- Not modelled: assembly (boot/start.S, kernel/entry.S, kernel/irq/do_irq.S, and in kernel/env.c
-- env_init_percpu and env_pop_tf), the port instructions themselves, the messages that are printed,
-- which change no state, and the parts that kernel/env.c and kernel/pmapjos.c leave commented out. The
-- program loader of kernel/main.c has no model here. The functions of kernel/device/video.c other than
-- display_buffer are a second copy of those of game/video.c.
pub mod Abort
pub mod Base
pub mod Device
pub mod Disk
pub mod Env
pub mod Game
pub mod Irq
pub mod Loader
pub mod Printk
pub mod Strings
pub mod Vm
