-- ===== src/Lib.antt =====
-- The device emulator of this repository: it answers a guest's accesses to an emulated VGA
-- device, registers the addresses with Xen, and migrates the device under a control socket.
--
-- The parts. demu.c keeps lists of I/O spaces and hands each access of the guest to the callbacks
-- of the space that covers it; device.c is the VGA device, whose callbacks it registers;
-- control.c takes the commands of the migration and drives the migration stream of demu.c, in
-- which device.c puts the state of the VGA device; mapcache.c keeps guest pages mapped; surface.c
-- draws what the VGA registers and the dirty pages say; vmiop-env.c is the environment of the
-- graphics plugin, which registers its devices and regions with demu.c and calls the plugin back
-- outside its monitor. They interact by calls: `device_initialize` registers through `demu_register_*_space`, an access
-- goes from `demu_io_read` to a callback of `device_*_ops`, a request of the guest from
-- `demu_poll_buffered_iopage` through `demu_handle_ioreq` to `demu_io_write`, a command goes from
-- `demu_actions` to `demu_*_migrate`.
--
-- The files:
--   Prelude: names of the libraries that the other files share, tests, lists, memories, bits.
--   Space (demu.c): `demu_find_space`, `demu_register_space`, `demu_deregister_space`. Find and
--     Disjoint relate them to the addresses that a list covers.
--   Registry (demu.c): `demu_register_*_space`, `demu_deregister_*_space`, `demu_find_*_space`,
--     with the hypercalls. Undo is about the register functions' paths, Lookup about what is
--     found.
--   Io (demu.c): `demu_io_read`, `demu_io_write` and their loops. Read describes a read by the
--     bytes at an address, Keeps is about what every callback keeps.
--   Statefile (demu.c): the mode and the descriptor of the migration stream.
--   Control (control.c): every `do_*` handler. Loop is `migrate_loop` (Done), Cycle is about replies and
--     states, Threads about interleavings with the migration thread, Stuck about dead ends.
--   Vga (device.c, vga.h): the fields of `vga_t` and the dirty flags. Ports is
--     `device_vga_port_readb` and `device_vga_port_writeb` (Safe, Dac), Vbe the VBE ports (Modes,
--     Faults), Memory the memory window (Bounds, Chain) and the dirty map (Dirty), Reset the
--     reset, Reset/Register `device_initialize` and `device_teardown` (Rollback). Vga/State is
--     `dump_vga` and `read_vga` (RoundTrip).
--   Stream (demu.c, demu.h): headers, records, `do_read` and `read_record` (Bytes, Read,
--     Records). Write is `do_write` (Flushed), Dump is `do_vmiop_dump` (Phase).
--   Restore (demu.c): `process_record`, `readstate`, `demu_get_state`. Whole is about streams of
--     valid records, Ends about any stream, Migrate about the stream of a VGA device, Plugin
--     about the plugin's data.
--   Ioreq (demu.c): `demu_handle_io`, `demu_handle_ioreq`, `demu_poll_shared_iopage`. Guest is
--     the copies to and from the guest, Ring is `demu_poll_buffered_iopage` (Order), Address is
--     about the addresses of repeated accesses, Poll is `demu_poll_iopages`.
--   Startup (demu.c): `demu_initialize`, `init_io`, `demu_teardown`. Triples has the rules for
--     conditions before and after a part, Order is about the sequence numbers, Ports, Balance and
--     Tidy about what is held and given back. Registry/Enable is `enable_io`.
--   Console (demu.c): `demu_console_*` and `demu_socket_read`. Refresh is about ticks and
--     datagrams.
--   Log (demu.c): `demu_log_context` and `demu_dump_context` (Last).
--   Relocate (demu.c): `demu_relocate_guest_range` and `demu_set_vram_addr` (Pages).
--   Mapcache (mapcache.c): the cache of mapped guest pages. Hit is about the scan of a bucket,
--     Miss about lookups that fault.
--   Surface (surface.c): the parameters of the display. Palette is about colours, Lines the loop
--     over the lines (Exact, Linear), Draw `surface_draw_graphic` and `surface_refresh`.
--   Guest (demu.c): the functions that map, share and translate guest pages (Cover).
--   Env (drivers/vgpu/xen/vmioplugin-xs-6.5/environment/vmiop-env.c): handles and errors. Links is
--     the doubly linked lists (Chain, Remove), Devices the registered devices (Lists, Locate,
--     Register, Unregister), Monitor the monitor (Bracket, Threads), Access the callbacks for
--     guest accesses (Laws), Regions the relocation of regions (Moved, Lost),
--     Tables the object tables (Fresh, Objects, Unissued), Pages the release of pages (Chunks).
--   The Tests of each part run it on concrete states.
--
-- How code becomes definitions. A C struct is a record, an enum or a `switch` a data type, a
-- function on static state a function from state to state. `none` is where the program would stop
-- or where its behaviour is not defined: a failed `assert`, an array access past the end, a
-- division by zero, a NULL callback. Each file says which. Integers are ℕ with their wrap-around
-- written out where it can occur.
--
-- Bounds and fuel. The loops of `demu_io_read` and `demu_io_write` recurse on the number of
-- calls, 1, 2, 4 or 8. `migrate_loop` recurses on a script of what each round finds, and a script
-- that ends too early, or a `sem_wait` that does not return, is `none`; a round in which the plugin has nothing more to give ends it.
-- `do_read` takes the count as fuel, since each `read` gives a byte at least; `readstate` and the
-- ring take fuel, and theorems say how much is enough. A video memory is a function on addresses,
-- and the copies compare with the size of the mapping. A lookup in a linked list takes fuel, and
-- one more than the list has nodes is enough; a table has the list of its blocks.
--
-- Outside the model: Xen, libempserver, the vmiop plugin, the disk and `malloc` are arguments of
-- the functions that use them. Not modelled: the main loop, the creation of the timer and the
-- socket, and the command line of demu.c; the text mode and the pixel copies of surface.c and
-- template.h, which only write to the shared memory; of vmiop-env.c the configuration of plugins,
-- the threads, events, locks and logging of the interface and the guest mappings; vmiop-vga.c, the
-- presentation plugin, and the function declarations under sdk/.
pub mod Prelude
pub mod Space
pub mod Registry
pub mod Io
pub mod Statefile
pub mod Control
pub mod Vga
pub mod Mapcache
pub mod Stream
pub mod Restore
pub mod Ioreq
pub mod Startup
pub mod Console
pub mod Log
pub mod Relocate
pub mod Surface
pub mod Guest
pub mod Env
