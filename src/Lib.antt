-- ===== src/Lib.antt =====
-- Moonlight Embedded for the Allwinner H618: a GameStream client with an out-of-tree kernel driver.
--
-- The parts modelled here. A host is asked for its status, paired with and told what to start over
-- HTTP (libgamestream/client.c), for the settings of the command line and of files (src/config.c);
-- input is read as Linux events (src/input/evdev.c) or as events of SDL (src/input/sdl.c) and sent on
-- to the host; the kernel driver takes blits between dma-bufs (kernel/g2d/g2d_h616.c). The main
-- program waits for the devices in one loop (src/loop.c), which calls their handlers; the driver is
-- reached by its ioctls.
--
-- * Gamestream is libgamestream/client.c with client.h and errors.h. Gamestream/Server has the
--   server's data (SERVER_DATA), the requests, the answers and the chain of steps that `goto
--   cleanup` ends; Text has the texts and bytes_to_hex, hex_to_bytes; Info load_serverinfo,
--   load_server_status and the end of gs_init; Pair gs_unpair and gs_pair; App gs_applist,
--   gs_start_app and gs_quit_app; the other children are proofs. http_request and the xml functions
--   are the host, a function of the requests so far; OpenSSL and the random bytes are the record
--   Crypto.
-- * Evdev is src/input/evdev.c with the struct of src/input/mapping.h and the table of
--   src/input/keyboard.h. Evdev/Device has struct input_device; Parms the parameters of an axis
--   (evdev_init_parms); Axis the conversions of axis values; Keys, Abs and Event the cases of
--   evdev_handle_event, which Event puts together; Read the loop of evdev_handle that reads a
--   device; Remove evdev_remove; Rumble evdev_rumble. `none` is a fault: an index out of bounds, a
--   division by zero or a NULL mapping. Linux, libevdev and Limelight are the records of
--   Evdev/Host; what is sent is a list of messages.
-- * G2d is kernel/g2d/g2d_h616.c. G2d/Kernel has the dma-buf services; Import g2d_import and
--   g2d_release_import; Ioctl the file operations; Probe g2d_probe, g2d_remove and the interrupt
--   handler. What the driver does is a history, newest first, which G2d/Kernel and G2d/Lifecycle
--   judge.
-- * Sdl is src/input/sdl.c with the answers of src/sdl.h, from SDL 2.24 on. Sdl/Vk has
--   vk_for_sdl_scancode; Pads the table of controllers (gamepads, activeGamepadMask, sdl_gamepads)
--   with get_gamepad, add_gamepad, remove_gamepad and sdlinput_init; Event sdlinput_handle_event;
--   Request the requests of the host. A pointer into the table is an index; `none` is a read past its
--   end. SDL's numbers, its answers and its arithmetic of float are the records of Sdl/Host; what is
--   sent is a list of messages.
-- * Config is src/config.c with the struct of src/config.h. Config/Path has get_path; Argument the
--   options and parse_argument; File config_file_parse and config_save; Defaults config_parse. A part
--   returns or ends the program (Outcome of Config/Types). The options that
--   getopt finds are a list; files, variables, the processor and double are the record System.
-- * Mappings is src/input/mapping.c: Mappings/Parse has mapping_parse with its uses of strtok_r and
--   sscanf, and mapping_load; Print has mapping_print. The struct of src/input/mapping.h is the record
--   GamepadMapping, its flags and indices the record Mapping of Evdev/Device.
-- * Loop is the table of descriptors of src/loop.c: loop_add_fd and loop_remove_fd over a list of
--   entries, each a descriptor with its events and its handler.
-- * Prelude has the shared names, integers with C's division and its narrowing, bits, and the removal of
--   an element that the last one replaces.
--
-- Bounds and fuel. Addresses and sizes of the driver have 64 bits and wrap. The products of axis
-- values are exact integers: an int holds them for axes of up to 2^22 steps. The product of a
-- picture's sides is an int that wraps. Flags are unsigned values; a clear keeps 32 bits. The loop
-- over controller numbers runs on fuel, whose sixteen rounds are the source's; a printed number on
-- as many rounds as the number; files that name other files on a depth, which the descriptors
-- bound. The other loops run over lists.
--
-- Not modelled: the files and addresses that client.c writes and composes, the mouse emulation
-- thread (floating point), opening input devices and the mapping assistant, and the other parts of
-- the program: decoders, audio output, the SDL window, the main program and third-party code.
pub mod Config
pub mod Evdev
pub mod G2d
pub mod Gamestream
pub mod Loop
pub mod Mappings
pub mod Prelude
pub mod Sdl
