-- ===== src/Lib.antt =====
-- The software of the SVEC, a VME carrier of two FMC mezzanines with a System FPGA, which runs the
-- bootloader, and an Application FPGA, which the bootloader programs. The library models the kernel
-- driver, the flasher and the version tool, and the VME bus library that the flasher stands on.
--
-- The parts and the files
--   Base: booleans, lists measured by machine-readable numbers, 32-bit words of a little-endian host
--     and `htonl`, and the error codes.
--   Text: what a program prints, as a list of pieces.
--   Bus: an access to a register (read, write, pause, look at the clock), the history of accesses,
--     the hardware as a function from that history to the value of the next read, and runs that
--     return, exit, fault or use their fuel up. `Returns` is total correctness of a run.
--   Loader: the registers of the loader core, software/kernel/hw/xloader_regs.h and
--     software/tools/vme-flasher/sxldr_regs.h. Loader/Intake: what the core takes in from the writes
--     to its registers. This is a specification, independent of the programs: START opens a
--     bitstream, an entry needs a FIFO that was seen to have room, a pair of writes to R0 and R1 adds an entry, XLAST closes the bitstream.
--   Core: the FPGA manager operations of software/kernel/svec-core.c. The state is the driver's word
--     held back (`bitstream_last_word`, `bitstream_last_word_size`) and the history. Core/Program
--     has the loops, and Core/Manager the table `svec_fpga_ops` with the calls that the kernel's
--     FPGA manager makes through it; Core/Entry, Core/Word, Core/Stream, Core/Buffers, Core/Start, Core/Stop,
--     Core/Complete and Core/Image hold the proofs, from one word up to a whole bitstream;
--     Core/Polling is about a card that is slow within the limits of the driver, and Core/Serving
--     about loading a bitstream on it.
--   Flasher: software/tools/vme-flasher/svec-flasher.c: registers, SPI transactions and the commands
--     of the flash chip; Flasher/Program erases, programs and verifies, Flasher/Afpga loads the
--     Application FPGA, with its proofs in Flasher/Entries and Flasher/Loading, Flasher/Bounds is
--     about the map of erased sectors. Flasher/Spi is the SPI master as the transactions that the
--     register writes make, and Flasher/Chip the flash chip as what these leave in its memory, where
--     a chip that is busy with an erase or a page takes nothing but polls: both are specifications.
--     Flasher/Commands, Flasher/Content, Flasher/Pages, Flasher/Extent, Flasher/Progress,
--     Flasher/Verify and Flasher/Verified lead from them to `flash_program` as a whole, Flasher/Whole
--     and Flasher/Boot to `program_flash`. Flasher/FlashBoot is how the System FPGA boots from the flash
--     (hdl/rtl/bootloader/flash_boot.vhd), a specification too, and Flasher/PowerUp joins both.
--     Flasher/Main is the process with `main`, the mapping of the window and its release at exit
--     (proofs in Flasher/Release and Flasher/Complete, where Flasher/Asked says what the arguments ask
--     for), Flasher/Sdb the header that the flasher
--     writes for the flash file system. Flasher.Loading.Serves is a card whose FIFO can be full, and
--     that can take its time to be done, for a number of reads.
--   Fpga: software/kernel/svec-core-fpga.c: metadata and its test; Fpga/Board has the state of the
--     driver for a card, one field for each resource that it holds, and what the kernel answers;
--     Fpga/Resources has the tables of resources, Fpga/App the application's device with its name,
--     Fpga/I2c the choice of a bus for a slot (proofs in Fpga/Buses), Fpga/Attributes the files in
--     sysfs and debugfs (proofs in Fpga/BuildInfo, Fpga/Resets and Fpga/Sensors), Fpga/Files the
--     tables of these files with what a read or a write of any can do. Fpga/Parts has the init and
--     exit function of each part, Fpga/Lifecycle `svec_fpga_init` with a function for each label of
--     its goto chain, and `svec_fpga_exit`. Fpga/Metadata and Fpga/Valid are about the metadata,
--     Fpga/Holding, Fpga/Cycle and Fpga/Teardown about init and exit.
--   Driver: the rest of software/kernel/svec-core.c, and software/kernel/svec-compat.c. The state is
--     what the driver holds for a VME device; Driver/Vme is the VME interface, Driver/Probe `svec_probe`
--     with a function for each label and `svec_remove`, Driver/Firmware the attribute `firmware_name`,
--     Driver/Compat the reference to the FPGA manager and its lock, Driver/Show the metadata in debugfs.
--     The state also counts the FPGA devices that nothing refers to any more, and the warnings of
--     `svec_probe` about an FPGA that it could not set up. Driver/States and Driver/Gone say what can be
--     held, and proofs are in Driver/Interface, Driver/Manager, Driver/Loading, Driver/Ends, Driver/Reprogram,
--     Driver/Success and, over every sequence of calls, Driver/Invariant. Driver/Writers has several
--     writers of `firmware_name` at once, with the steps of one between those of others; its proofs are
--     in Driver/Race and Driver/Frees. Driver/Module has the module's tables, `svec_init` and
--     `svec_exit`, Driver/Cards lemmas on the cards of a bus, and Driver/Unload its life from the one to the other.
--   Version: software/tools/svec-firmware-version.c: what is printed, and in Version/Main the options
--     and the exit status.
--   VmeBus: software/tools/vme-flasher/libvmebus.c over the calls to the operating system.
--     VmeBus/Descriptors says which descriptors a history of calls leaves open.
--
-- How they interact
--   The VME core calls `svec_probe` and `svec_remove` for the cards on the bus (Driver/Module). The
--   board driver (Driver) sets up the FPGA manager and then the devices of the FPGA (Fpga). A
--   write of `firmware_name` takes these down, and has the kernel's FPGA manager call the driver's
--   operations (Core), which program the Application FPGA; the driver instance is then removed. The
--   flasher opens the card's window with the VME bus library (VmeBus) and writes the same loader
--   registers (Loader) from user space, for the FPGA or for the flash that the System FPGA boots
--   from. The version tool reads the metadata that the driver checks, through the window of the same
--   FPGA.
--
-- Parameters, which stand for what is not in the repository
--   Bus.Hardware is the card and the clock, Bus.KeepsTime what is assumed of the kernel's clock.
--   Driver.Host and Fpga.Board.Kernel are the answers of the kernel, Driver.Compat.Manager its FPGA
--   manager and Driver.Compat.Documented what it documents of it; Driver.Module.VmeCore is the VME
--   core, and Driver.Module.Binds what it documents of binding a driver to devices; Fpga.I2c.ForEach is its walk over
--   the I2C devices, Fpga.RegMap the constants of the header that the build generates. VmeBus.Os is
--   the operating system, and VmeBus.Descriptors.KeepsFlag what the VME bus driver documents of its
--   flag. Version.Main takes the card as what `mmap` gives.
--
-- Bounds and fuel
--   `poll_fifo` counts `try` down from 10000 and needs no fuel. `write_loop` has the size of the
--   buffer as fuel: each round advances by one byte at least. `wait_done` takes fuel from its
--   caller: each round pauses for 900 microseconds, so that the time limit in microseconds over 900,
--   and one more, rounds are enough on a clock that runs. The clock is a 64-bit counter that wraps
--   around, and the time limit is taken to be below 2 ^ 62 jiffies. Sizes and offsets of buffers are
--   numbers without a bound: the loop's `int i` is faithful for buffers below 2 ^ 31 bytes. The
--   loops of the flasher take fuel or run over a number that counts down: a transfer has as much
--   fuel as the SPI master is read, in a row, before it is ready, and one more, and a wait for the
--   flash as many polls as the chip is busy for, and one more; loading the FPGA takes, for each
--   byte, one round and as many as its FIFO can be full.
--
-- Not modelled
--   Messages to the log and to stderr; the names and flags of resources and the platform data that
--   the driver only passes to the kernel; calls that run at the same time, but for writers of
--   `firmware_name`: the locks are states, and each call runs from its start to its end. Fields of
--   the registers that no program uses, and the kernel tables of the debugfs files, are left out. Which
--   devices match `svec_id_table` is for the VME core to say. The hardware description in hdl has
--   Loader/Intake and Flasher/FlashBoot as its only counterparts.
--   Version leaves out a failure of `strndup` or `atexit`.
pub mod Base
pub mod Text
pub mod Bus
pub mod Loader
pub mod Core
pub mod Flasher
pub mod Fpga
pub mod Driver
pub mod Version
pub mod VmeBus
