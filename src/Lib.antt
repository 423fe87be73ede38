-- ===== src/Lib.antt =====
-- OSN mini-project 1: a POSIX shell (mini-project1/c-shell) and an xv6 kernel with three schedulers
-- (mini-project1/xv6), modelled function by function. Paths below start in mini-project1.
--
-- Shell (Shell.antt). A line goes from `main` (c-shell/src/main.c, Shell/Front.antt) through
-- `maketoken` (c-shell/src/lexer.c, Shell/Lexer.antt) and `parsing` (c-shell/src/parser.c,
-- Shell/Parser.antt) to `run_cmd`. The lexer is a loop over bytes with the variables of the source as
-- a record; Shell/Lexer/Spelling.antt says independently how lines are written, and
-- Shell/Parser/Grammar.antt what a command line is.
--
-- Kernel (Kernel.antt). Kernel/Proc.antt is the process table of xv6/kernel/proc.h and
-- xv6/kernel/proc.c; below it stand allocation (Alloc), sleeping, waking and killing (Sleep), the MLFQ
-- (Mlfq), FIFO (Fifo) and round-robin (RoundRobin) schedulers, and exit and wait (Exit).
-- Kernel/Pipe.antt is xv6/kernel/pipe.c, Kernel/Console.antt xv6/kernel/console.c and
-- Kernel/Memory.antt xv6/kernel/string.c. Kernel/Pages.antt is xv6/kernel/kalloc.c, with the list of
-- free pages inside the pages. Kernel/Buffers.antt is the buffer cache of xv6/kernel/bio.c with its
-- ring of pointers, and Kernel/Log.antt xv6/kernel/log.c, with the writes to the disk in their order:
-- the log sees of a block what the cache shows of it. Kernel/Fs.antt is the file system above them,
-- xv6/kernel/fs.c on one device: the block map (Bitmap), inodes on disk (Dinode) and in memory
-- (Table), the blocks of a file (Inode, for `bmap`), its content (Content, for `readi` and `writei`)
-- and its end (Trunc), and the elements of a path (Path). It keeps the blocks as `bread` shows them
-- and the block numbers given to `log_write`. A function that runs under a lock is one step on the
-- state; one that gives its lock up to sleep is modelled up to the sleep.
--
-- Commands. Shell/Peek.antt and Shell/Hop.antt are the built-in commands of c-shell/src/peek.c and
-- c-shell/src/hop.c. User/Grep.antt is the matcher of xv6/user/grep.c.
--
-- State and values. A C array indexed by the table is a function from indices; a pointer into the
-- process table is an index; a null pointer is `none`, or 0 for a sleep channel. `uint` counters wrap
-- at 2 ^ 32 where the source relies on it (the counters of the pipe and the console, the boost timer);
-- `nextpid` wraps as the 32 bits of an `int`; tick counts and reference counts are unbounded. The lexer
-- has the room of `word[1024]` and of main's `tokens[256]`, and a run that writes behind one of them is
-- `out_of_bounds`. Common/Window.antt is a stretch of a circular buffer. A write of a block to the disk
-- is one step, and a crash falls between two.
--
-- Loops recur on the rounds left, which the source bounds. Where it does not, a number of rounds is
-- given that is enough: one more than NBUF for the walks of `bget` round the ring, 128 for the key that
-- kills a line of the console, whose buffer has 128 bytes, one more than the pages below the end of the
-- range for `freerange`, as many doublings as bytes for the buffer of peek, two more than the blocks of
-- the map for `balloc`, the number of inodes for `ialloc`, and two more than the whole blocks of the
-- length for `readi` and `writei`.
--
-- Parameters. What is not computed by the modelled code is an argument: the results of `kalloc` and
-- `proc_pagetable` in the process table, user memory behind `copyin`, `copyout` and `either_copyout`,
-- the addresses used as sleep channels, how many bytes of a copy succeed in `readi` and `writei`, what
-- a process does to the table while it runs and others do to it between two locks of the FIFO scheduler,
-- the contents of the disk below the buffer cache, and for the commands what the file system says of a
-- path and what `fscanf` reads of the `.frecency` that `fprintf` wrote.
--
-- Not modelled: the assembly and the hardware (swtch, trampolines, traps, UART, PLIC, the disk), page
-- tables, directories and the walk of `namex`, the file table, the system calls, and of the shell its
-- jobs, the running of commands, signals and the other built-in commands. The saved registers of a
-- process and the locks themselves are no part of the state.
pub mod Common
pub mod Shell
pub mod Kernel
pub mod User
