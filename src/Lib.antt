-- ===== src/Lib.antt =====
-- A model of the kernel in student-distrib/: its memory and string routines, the console with three
-- terminals, the read-only file system, the virtual real-time clock, the interrupt controllers, the
-- page tables, the system calls, the start and the end of programs with their signals, the interrupt
-- table, the sound driver, and the boot; and of the library and most of the user programs in syscalls/.
--
-- The parts and their files:
--   Memory and below          memcpy, memmove, memset and its two variants of lib.c, with the
--                             alignment loop, the string instruction and the rest of their assembly
--                             (Memory/Block, Memory/Overlap); memory gives a byte at every 32-bit
--                             address; Memory/Bytes writes a list of bytes
--   Text and below            strlen, strncmp, strcpy, strncpy, strrev and itoa of lib.c
--   Print, Print/Digits       printf, puts and print_width of lib.c, and the digits of itoa
--   Console and below         putc, the cursor, scrolling, Enter, backspace and the line of keys of
--                             lib.c (Console), the same on the saved screens of hidden terminals
--                             (Console/Hidden), and clear, the blue screen and the screen copies
--                             (Console/Paint); what putc leaves of memory (Console/Frame),
--                             what a text makes of the rows and the cursor (Console/View), and
--                             what all of these write, in any order (Console/Steps)
--   Filesystem and below      filesystem.c: directory entries, read_data, the drivers for files and
--                             directories
--   Rtc and below             rtc.c, by the channel of each terminal
--   Pic, Pic/Lines            i8259.c
--   Paging, Paging/Maps       paging.c
--   Kernel, Kernel/Stacks     the globals of lib.h and syscall.c and the process control blocks of
--                             types.h, get_curr_pcb, get_pid and get_terminal_id
--   Process and below         how execute and halt of syscall.c keep the processes of a terminal
--   Execute and below         execute of syscall.c as a whole: the command line (Execute/Parse), the
--                             check of the file (Execute/Start) and its load (Execute/Loaded), and
--                             a refused command (Execute/Image)
--   Signals, Signals/Ends     _kill, kill, send_signal and signal_default of syscall.c
--   Idt, Idt/Gates            init_idt of idt.c and the handlers of exception.c
--   Sound and below           sb16.c, and play of syscall.c (Sound/Play)
--   Terminal and below        terminal.c: the switch of terminals (Terminal/Switch), what it
--                             does to the screen, the buffers and the keys (Terminal/Outside,
--                             Terminal/Shown, Terminal/Keys), and the way back (Terminal/Back);
--                             what a write shows (Terminal/Output)
--   Boot and below            entry of kernel.c: the boot loader's structures (Boot/Report), the
--                             descriptors (Boot/Descriptors), and the calls of the initializers
--                             (Boot/Devices, Boot/Ready)
--   Keyboard and below        keyboard.c
--   Scheduling and below      pit_handler of scheduling.c
--   Syscall and below         open, read, write, close, getargs, vidmap and set_handler of syscall.c
--   Startup                   init_pit, rtc_init, init_keyboard and enable_cursor
--   Programs and below        syscalls/ece391cat.c, ece391ls.c, ece391hello.c, ece391testprint.c and
--                             ece391shell.c, over a record of system calls, which
--                             Programs/OnKernel fills with those of Syscall; ece391counter.c,
--                             ece391grep.c and ece391pingpong.c (Programs/Tools); ece391syserr.c
--                             (Programs/Syserr), on the kernel in Programs/Passes; the loop of
--                             cat on the kernel (Programs/Cat, Programs/Shows)
--   Support and below         syscalls/ece391support.c, compared with lib.c in Support/Equal
--   Prelude, Word             shared names, lists, tables checked by evaluation, and 32-bit words
--   Tests and below           runs at concrete inputs
--
-- The parts meet in `Kernel`: a system call finds the control block of its process by the stack
-- pointer, reaches a driver through the block's descriptor, and the drivers share the memory of
-- the screen and of the file system image.
--
-- Numbers are natural numbers; a word wraps around where it is written, by `u8`, `u16` and `u32`, and
-- `slt`, `sle`, `sdiv` and `smod` read a word as signed. A function returns the new state; a pointer
-- is its address.
--
-- Fuel: strlen takes 2 ^ 32 steps, the size of the address space; itoa and printf 33 digits, one
-- more than the bits of a word; rtc_set_freq eleven halvings, which bring 1024 to 0; read_data one
-- round more than the bytes left after the first block, since a round that goes on copies a block.
-- A call that waits for an interrupt takes the number of interrupts that come, and a wait for the
-- sound card the bytes that the card answers.
-- The loops of cat, ls, shell, grep and pingpong, and that over the memory map at boot, take their
-- rounds as an argument, since a caller or a device can keep them going; the loop over the modules at
-- boot takes 2 ^ 32, all that its counter has.
--
-- Left out: the interrupt flag (cli, sti), and interleavings inside a call, but for the clock's
-- interrupts in rtc_read; the registers that paging, the interrupt table and the switch to a program
-- load, and the processor's page buffer; boot.S and the assembly linkage; sigtest and exception under
-- syscalls/, which fault on purpose, fish/, which rests on assembly of another project, and the
-- emulation of the calls on Linux; and the tests of tests.c. Where the page of a new process is mapped,
-- the bytes that it holds are a parameter, and so are the addresses that the linker chooses.
pub mod Prelude
pub mod Word
pub mod Memory
pub mod Text
pub mod Filesystem
pub mod Console
pub mod Rtc
pub mod Pic
pub mod Paging
pub mod Print
pub mod Kernel
pub mod Process
pub mod Keyboard
pub mod Scheduling
pub mod Terminal
pub mod Support
pub mod Startup
pub mod Programs
pub mod Execute
pub mod Idt
pub mod Sound
pub mod Signals
pub mod Syscall
pub mod Boot
pub mod Tests
