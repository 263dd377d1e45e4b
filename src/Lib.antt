-- ===== src/Lib.antt =====
-- Verification of AdrBubbleBooter, which starts PSP content from Vita bubbles through Adrenaline.
--
-- The program's parts. A bubble's data/boot.bin names a content on the memory stick.
-- src/vita/adrbubblebooter/main.c runs in the Vita process that hosts the PSP: it upgrades an old
-- boot.bin, writes the memory-stick location of the content's device to the settings, and ends the
-- process when something is missing. src/vita/bootconv/main.c makes a boot.bin from an older
-- boot.inf. src/psp/booter/main.c runs on the PSP side: it reads the same boot.bin through the
-- memory stick, turns the Vita path into an ms0: path, finds the kind of content and starts it.
-- integration/adrenaline-v7/overlay/user/msfs.c answers the PSP's accesses to the memory stick
-- with Vita files below the location's root. src/vita/common holds the C library of the modules.
--
-- The files.
--   Prelude: library names, Boolean tests, lists over native numbers, C integers.
--   Memory: byte memory and C strings in it.
--   Minilibc: src/vita/common/minilibc.c and strcasecmp.c. Each routine is a function of its name on
--   memory (Block, Strings, Token) or on an output record (Format).
--   Text: the string routines on values, which the modules are written over. Text/Link relates
--   strrchr and sprintf of Text to the routines in memory.
--   BootInfo: the record of src/common/adrenaline_compat.h and its bytes.
--   Vita: the kernel calls of the Vita as a record of functions on an abstract world, the monad of the
--   modules, and the file helpers check_file to get_device_name (Vita/Files).
--   Bubble: src/vita/adrbubblebooter/main.c. module_start is cut into load_boot, load_config,
--   save_config, start_bubble and launch_bubble, in the order of its statements. ADRBUBBLE_ISAGE_CONFIG
--   is the argument isage. Upgraded is about a legacy boot.bin over two launches.
--   Bootconv: src/vita/bootconv/main.c. module_start is cut into convert_bubble, convert and write_boot;
--   Value is about the lines of a boot.inf, Path about the path in the new record.
--   Booter: src/psp/booter/main.c: launch_content and the paths in Booter, the thread in
--   Booter/Thread, with the PSP's kernel as a record of functions.
--   Msfs: overlay/user/msfs.c: buildPspemuMsfsPath (Paths), ScePspemuMsfsDirectoryFilter (Filter), the
--   descriptor list (Table), reopening, reading, writing and seeking (Transfer), opening and
--   closing with the copy of a truncated file (Files), stats and listings (Folders), the other
--   requests (Requests), and one turn of ScePspemuRemoteMsfs (Serve).
--   Isofs: overlay/cef/vshctrl/isofs_driver/isofs_driver.c, which gives the files of an ISO image:
--   paths and names (Names), FindFileLBA and FindPathLBA (Search), isofs_read (Read), and the other
--   calls on the handle table (Files). Its runs say `fault` where C is undefined.
--   States: overlay/user/states.c, the savestate menu as a machine on its globals: ctrlStates is cut
--   into ctrl_options and ctrl_list, and what it calls is a list of actions.
--   LoadSelectedState of overlay/user/menu.c is one of its events. States/Files has the names of the
--   files and initStates.
--   Pad, Thumb, Clock: overlay/user/utils.c: readPad and doubleClick, the encoders of instructions, and
--   the texts of times and dates.
--   Usb (integration/adrenaline-v7/overlay/user/usb.c): startUsb and stopUsb.
--   Drm (integration/adrenaline-v7/overlay/cef/systemctrl/nodrm.c): the stand-ins of the system's
--   functions for encrypted files.
--   Conf (integration/adrenaline-v7/overlay/cef/systemctrl/conf.c): the settings files of the PSP side.
--   Ebooter (src/vita/ebooter): the text screen and the checks of main; its loops over rows and pixels are
--   on their numbers. Pixels is about the buffer behind the screen, Line about a line of text.
--   Roundtrip: one content path through Bubble, Booter and Msfs.
--   Tests: the theorems at concrete inputs.
--
-- Undefined behaviour of C is the result none: a write outside an array, a NULL or an unterminated
-- string read, a conversion without its argument. Addresses do not wrap around. A string loop runs
-- on fuel, and its theorem holds for every fuel above the string's length; format and the
-- directory filter take the length of their format or filter, since each turn steps over a byte of
-- it; a transfer takes one turn more than the bytes asked for, since a turn that goes on moves a
-- byte at least, and so does the copy of a truncated file. The search of an ISO directory takes a turn
-- for each place of the buffer, for each sector remaining and one more, and that of a path one for each
-- byte of it and one more. The count of a
-- transfer is taken not to overflow an int.
--
-- Not modelled: the rest of the overlay (the other menus, drawing, flash and video of
-- overlay/user, the kernel and vsh plugins, the other PSP patches of overlay/cef), the setters of
-- src/vita/ebooter, and the build tools. Code that the repository does not hold (the SDKs, taiHEN,
-- msfs.h, strncasecmp) is a parameter.
pub mod Prelude
pub mod Memory
pub mod Minilibc
pub mod Text
pub mod Vita
pub mod BootInfo
pub mod Bubble
pub mod Bootconv
pub mod Booter
pub mod Msfs
pub mod Isofs
pub mod States
pub mod Clock
pub mod Pad
pub mod Thumb
pub mod Usb
pub mod Drm
pub mod Conf
pub mod Ebooter
pub mod Roundtrip
pub mod Tests
