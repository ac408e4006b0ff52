-- ===== src/Lib.antt =====
-- A model of the kernel in student-distrib/ and the theorems that it meets its promises.
--
-- The parts and where they are modelled:
-- CharUtil: student-distrib/utils/char_util.c, strings in a byte memory. `length_loop`, `copy_loop`,
-- `equal_loop` and `substring_loop` are the loops of the functions of their names.
-- ArgUtil: student-distrib/utils/arg_util.c, the parser of command lines. Its specification is the
-- list of words of a text in ArgUtil/Words.
-- Exec: execute, getargs, halt and vidmap of student-distrib/syscalls.c on the scheduler's state and the
-- control blocks, with is_executable of student-distrib/utils/file_util.c. Exec/Execute has execute from its
-- call to the jump to the program, over CharUtil, ArgUtil, FileSys, Process and Paging; the addresses of its
-- local variables are a parameter, and what lies in the names of its two file descriptors is read from there.
-- vidmap gives `none` where the word that it writes goes over the end of the program's page. `halt` is for a process with a parent. The memory is the one that is seen
-- under the mapping.
-- FileSys: student-distrib/filesys.c, the read-only file system in memory, with the directory index
-- that dir_read and put_next_dir_name share.
-- Files: open, close, read and write of student-distrib/syscalls.c on the file array of a process,
-- and file_read of student-distrib/filesys.c;
-- it finds files with FileSys. The tables of file operations are known by their addresses, a
-- parameter.
-- Idt: student-distrib/idt.c, the table of the interrupt vectors, and the handlers there and in
-- student-distrib/irq_handle.c that print a message; the linker's addresses of the handlers are a
-- parameter.
-- Itoa: student-distrib/lib.c, itoa and strrev, which printf uses.
-- Keyboard: student-distrib/terminal.c, keyboard_handler and terminal_init, on the scheduler's state
-- and the terminals' keys. Keyboard/Draft has the stack of characters that the keys stand for, and
-- Keyboard/Layout the US layout. What a read outside the table of the keys gives is a parameter.
-- execute and the end of the interrupt are a list of calls, in order.
-- LibString: student-distrib/lib.c, the string functions strlen, strncmp, strcpy and strncpy.
-- Machine: the I/O ports that the drivers use, a parameter.
-- Paging: student-distrib/paging.c, the page directory and the one page table, as entries with the
-- fields of student-distrib/x86_desc.h; `walk` is the processor's translation of an address. The
-- address of the table is a parameter.
-- Pic: student-distrib/i8259.c, the interrupt controllers. PicMasks and PicService in Pic/Irq name
-- what is relied on of the two chips.
-- Pit: student-distrib/pit.c, the interval timer; its interrupt calls cycle_task. PitChip in Pit/Init names what is
-- relied on of the chip.
-- Process: the tables of processes that add_process and delete_process of student-distrib/syscalls.c
-- keep with student-distrib/terminal.c and student-distrib/sched.c.
-- Printf: student-distrib/lib.c, printf over the screen.
-- Programs: syscalls/ece391cat.c, syscalls/ece391ls.c and syscalls/ece391shell.c, user programs over the
-- interface `Syscalls`; Programs/FileStream fills the read of it with the kernel's file_read, and the write with
-- its terminal_write. The program's memory and the one that the screen is in are two there.
-- Rtc: student-distrib/rtc.c, the real-time clock; it uses the controllers for its interrupt line.
-- Sched: student-distrib/sched.c, the switch of the running terminal on the process table, the paging
-- and the screen, and switch_display_terminal of student-distrib/terminal.c. The registers esp and
-- ebp are two fields: behind the switch the code goes on with the other process.
-- Screen: student-distrib/lib.c, the text screen; it reads the number of keys in the buffer of the
-- displayed terminal, an argument of putc.
-- Terminal: student-distrib/terminal.c, reads from the keys of the displayed terminal and writes to
-- the screen. The wait of terminal_read for the enter key is left out: the keys are those at its
-- end.
-- Prelude holds the tests on numbers, lists over them, 32-bit words and byte memory.
--
-- A pointer is a number and NULL is 0; an `int32_t` and a `uint32_t` are their bit pattern, and -1
-- is `minus_one`. A function that writes through a pointer returns the memory beside its result. A
-- loop with a bound has the rounds that are left as its argument; a loop without one has fuel, and
-- its theorems give the fuel that is enough: the length of the text, or the period of the clock. The
-- address of a local variable that is passed on is an argument.
--
-- Not modelled: assembly, start-up, the end of a process without a parent, and the
-- user programs but for the three above.
pub mod Prelude
pub mod CharUtil
pub mod ArgUtil
pub mod FileSys
pub mod Exec
pub mod Files
pub mod Idt
pub mod Keyboard
pub mod Itoa
pub mod LibString
pub mod Machine
pub mod Paging
pub mod Pic
pub mod Pit
pub mod Printf
pub mod Process
pub mod Programs
pub mod Rtc
pub mod Sched
pub mod Screen
pub mod Terminal
