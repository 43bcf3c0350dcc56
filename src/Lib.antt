-- ===== src/Lib.antt =====
-- AdelaideOS: a small teaching kernel for the PC, in C, with processes, paging, pipes, a read-only
-- file system and messages. This library models the kernel of the directory source/, in the build
-- with all features of source/constants.h switched on, and states what its parts do.
--
-- How the parts fit together. A process is a slot of the table `processes`, and is in the ready list or
-- in the suspended list, which are threaded through the slots (source/kernel.h, source/process.c). A
-- timer or keyboard interrupt, or a system call that has to wait, runs `context_switch`, which saves
-- the registers of the current process and takes the next of the ready list. A system call
-- (source/syscall.c) checks the pointers it is given, and calls handlers on the descriptors of the
-- process (source/filedesc.c, source/fscalls.c, source/pipe.c). Pipes suspend their reader and writes
-- wake it. Physical pages and page tables come from source/page.c, objects of the kernel from the
-- buddy allocator of source/buddy.c, and the screen is written by source/main.c.
--
-- Files:
--   Common        lists, tests, bits, tables; `Run` for code that may stop in a failed assertion, a page
--                 fault, an access through NULL, or a loop that has run out of its fuel
--   Buddy         source/buddy.c, source/buddy.h: mforsize, get_buddy, the free lists, buddy_alloc,
--                 buddy_free, buddy_init
--   Page          source/page.c, and map_and_copy of source/unixproc.c
--   Screen        scroll and write_to_screen of source/main.c, addstr and move_cursor of
--                 source/interrupts.c
--   Kernel        the structures of source/kernel.h and source/user.h, and the global state
--   ProcessList   the macros list_add and list_remove of source/kernel.h
--   Process       source/process.c: lists and pids; Process/Start is start_process, Process/Kill is
--                 kill_process, Process/Switch is context_switch
--   UserMemory    the translation of addresses that the processor does with the page tables; the kernel
--                 copies to and from the memory of a process through it
--   Pipe          source/pipe.c, with kmalloc and kfree; PipeCall is syscall_pipe
--   FileDesc      source/filedesc.c
--   Libc          strlen, strcmp, strncmp and print_num of source/libc.c; Libc/Format is print_field,
--                 vsnprintf and snprintf, and Libc/Render says what text a format stands for
--   Filesystem    source/filesystem.c, source/filesystem.h
--   Pointers      valid_pointer and valid_string of source/syscall.c
--   FsCalls       source/fscalls.c
--   UnixProc      source/unixproc.c: fork, execve, waitpid
--   Syscall       source/syscall.c; Syscall/Dispatch is the function syscall
--   Segmentation  source/segmentation.c
--   User          programs of user mode: the system calls they make, as a record of parameters, and
--                 printf, perror and the functions on directories of source/libc.c; User/Programs is
--                 source/cat.c, source/ls.c, source/find.c, and the processes of source/main.c,
--                 User/Malloc is init_userspace_malloc of source/buddy.c
--   Shell         parse_command of source/sh.c; Shell/Commands is the rest of that file
--   Keyboard      keyboard_handler of source/main.c
--   Console       kprintf of source/libc.c; print_regs, fatal and __assert of source/interrupts.c
--   Interrupts    source/interrupts.c: the interrupt table and interrupt_handler, with timer_handler of
--                 source/main.c
--   Boot          kernel_main of source/main.c, and kmalloc_init of source/buddy.c
--   Fstool        the build of an image in source/fstool.c; Fstool/Inspect is what reads an image
--   Tests         the theorems at concrete inputs
-- The other files beside a module, such as Page/Free or Pipe/Queue, hold theorems about it.
--
-- State. The record `Kernel` holds the global variables. A pointer to a process is its index, NULL and
-- the pid -1 are `none`. A handle or a pipe is found by the address that kmalloc gave for it. Physical
-- memory is a table of words, the image of the file system a table of bytes. An unsigned int is a number
-- with its wrap-around written out (`% u32_mod`). An error number is a constructor of `Errno`; a call
-- that returns -ESUSPEND gives `suspended`.
--
-- Bounds and fuel. mforsize gets 33 rounds, since its power of two takes 33 values before it stays 0. The
-- walk along a free list gets a round for each block of the area and one more. The growth of a pipe
-- doubles at most 33 times, and so does the output of fstool.c. The loop of vsnprintf gets a round for
-- each byte of the format, of which it reads one at least. A call that is made again when its process
-- goes on may do so as often as the fuel of `syscall` says. A string of a process is searched for at
-- most 2 ^ 32 bytes. The loops of the programs of user mode run on fuel for their calls. A string of the
-- image is searched for at most 2 ^ 32 bytes where the tool prints it, and 1024 where the kernel copies
-- it. All other loops count the rounds that the code makes.
--
-- Not modelled: the assembly (start.s, calls.s, crtso.s), whose effects on the processor are parameters
-- or paging as UserMemory describes it; the way from a call in user mode to its handler, so the programs
-- of User and Shell run on calls that are parameters; the test drivers mptest.c and testbuddy.c; the
-- earlier versions under dist/. Parameters are also what memory holds before it is written, such as the
-- array of kprintf, and what the host tells fstool.c of its directories and files. Where fstool.c exits, or
-- cuts off a path, the model of the build stops.
pub mod Common
pub mod Buddy
pub mod Page
pub mod Screen
pub mod Kernel
pub mod ProcessList
pub mod Process
pub mod UserMemory
pub mod Pipe
pub mod Libc
pub mod FileDesc
pub mod Filesystem
pub mod Fstool
pub mod Pointers
pub mod FsCalls
pub mod PipeCall
pub mod UnixProc
pub mod Syscall
pub mod Segmentation
pub mod User
pub mod Shell
pub mod Tests
pub mod Keyboard
pub mod Console
pub mod Interrupts
pub mod Boot
