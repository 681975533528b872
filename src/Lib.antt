-- ===== src/Lib.antt =====
-- The xv6 kernel of this repository, with its four schedulers: a model of its parts and what is
-- proved of them.
--
-- Panic is the outcome of code that may call `panic`. Prelude holds the shared helpers: tests on
-- numbers, lists by index, maps from numbers, integers.
--
-- Pipe (kernel/pipe.c): `struct pipe` as a record, `pipewrite` and `piperead` as functions from one
-- sleep to the next, since `pi->lock` is held between two sleeps. `copyin`, `copyout` and `killed`
-- are parameters. Contents gives the bytes held across the wrap-around of the `uint` counters. Wakeup
-- interleaves a writer and a reader; `kill` may wake a sleeper at any time.
--
-- Log (kernel/log.c): Machine is what the log sees of kernel/bio.c and the disk: `bread` finds what
-- was last stored in a buffer, or the disk's block; `bwrite` writes a block atomically, or the power
-- fails before it, once `power` writes are done. A block is a function from the index of a 32-bit
-- word. Log has `read_head`, `write_head`, `install_trans`, `write_log`, `recover_from_log` and
-- `commit`. Transaction has `begin_op`, `end_op` and `log_write`, each between two acquisitions of
-- `log.lock`. `log.lh` is the list of its first `n` block numbers.
--
-- Proc (kernel/proc.h, kernel/proc.c): the table of processes as a list of entries, a pointer to an
-- entry as its index; what `allocproc`, `fork`, `sleep`, `wakeup`, `kill`, `exit`, `wait` and
-- `setpriority` do to it. Time has `waitx`, and `update_time` as it is built for PBS. Open files,
-- memory and saved registers are left out, the pages that an entry owns are named by numbers.
--
-- Sched (kernel/proc.c, `scheduler`): the choices of FCFS, lottery and priority scheduling over the
-- table that a pass sees, with the locks that the PBS pass holds or gives up (Pbs, and Tie for ties).
-- The number that `random` of kernel/rand.c draws is a parameter. `int` fields that only count are
-- natural numbers; priorities and tickets are integers without bound.
-- Mlfq (kernel/proc.c): the queues of the MLFQ scheduler. `delqueue` runs at most 65 rounds, one
-- for each slot, which suffices to come round to `back`; the walk over a level has the same fuel.
--
-- Kalloc (kernel/kalloc.c): physical memory as 64-bit words, the free list as the chain of words that
-- runs through it, `kinit`, `kfree` and `kalloc`. The linker's `end` is a parameter. Owners adds the
-- callers, who free and write only pages that they were given. `freerange` has fuel for `PHYSTOP`
-- divided by the page size, which is enough from any start.
--
-- Alarm (kernel/sysproc.c, kernel/trap.c): `sigalarm`, `sigreturn` and what `usertrap` does on a timer
-- interrupt, for a page that `kalloc` has given. `ticks_left` does not wrap around.
--
-- Grep (user/grep.c): the matcher on strings as lists, against the language of its patterns.
--
-- Spinlock (kernel/spinlock.c): `push_off`, `pop_off`, `acquire` and `release` on one CPU.
--
-- Strings (kernel/string.c): the functions on a memory of bytes, a function of the address.
--
-- Fs (kernel/fs.c): the disk as the buffer cache shows it, a byte for each block and index. Bits
-- and Bitmap are the map of used blocks, Balloc has `balloc` and `bfree`, Indirect and Bmap the
-- blocks of an inode, Free and Truncate `itrunc`. Transfer defines `writei` and `readi`; Contents
-- is the file as bytes, Overwrite, WriteBlock and Write follow a write, Read a read, Roundtrip
-- both. Memory is a function of the address, and a copy may stop early. The loops have fuel: `size
-- / BPB + 1` blocks of the map, and `n / BSIZE + 2` blocks of a file, which is enough from any
-- offset. A file system in order (`IsFs`) marks every block up to the end of its map as used; a
-- file in order (`IsFile`) has used data blocks, no two of them the same.
--
-- Shell (user/sh.c): the parser of commands on text as a list of character codes. A pointer into
-- the text is the text from there on, and a string between two pointers is a list. Lexer, Redirs,
-- Parses and Lines follow its functions through the tokens of a command that Print writes out;
-- Lengths and Termination follow them on any text. A nested line is shorter than the one around it,
-- so the fuel is one more than the number of characters; each round of a loop takes a character, so
-- a loop has one round more than the line has characters. Running out of either is a panic of the
-- model's own, which no text reaches.
--
-- File (kernel/file.c, kernel/sysfile.c): the table of open files by index, the descriptors of one
-- process, and the calls on them; Alloc has the entries, Counts the calls. The references of other
-- processes are a parameter. The loops have fuel for `NFILE` entries and `NOFILE` descriptors.
--
-- Vm (kernel/vm.c, kernel/riscv.h): the Sv39 page tables in the memory of Kalloc. Tables has the tree
-- of tables and the translation as the hardware makes it (`seen`); Grow, Walk and Store follow `walk`
-- and the store of a PTE, Map `walkaddr` and one page of `mappages`, Mappages its loop, Create
-- `uvmcreate`. `uvmalloc` has fuel for one page more than the new size, which is enough from any
-- old size.
--
-- Bio (kernel/bio.c): the buffer cache with the links of its list; Ring reads the links as a list,
-- Search has the two loops of `bget`, Fields what each step changes in a buffer, Lru `bget` and
-- `brelse`, Users the references held from `binit` on, Read `bread`. The buffer beyond the last
-- stands for the head. The loops have fuel for one buffer more than there are, which reaches it.
-- The disk is a parameter. Sleeplock (kernel/sleeplock.c) has the lock of a buffer.
--
-- Vm.Copy is `copyout` and `copyin` over a memory of bytes, in which the page tables are words. The
-- loops have fuel for the length divided by the page size and three rounds more, which is enough
-- from any address; Out and In follow them.
--
-- Names (kernel/fs.c): directories as lists of entries, and paths as lists of characters. Split has
-- the names of a path, Resolve `namex`, Dir `dirlink`. `namex` has a round for each character of the
-- path and one more, which is enough since every round takes a character. It is run on directories
-- that do not change meanwhile, and counts the references to inodes by their number, in a
-- table that does not run full; the name that it leaves to `nameiparent` is not kept.
--
-- Itable (kernel/fs.c): the table of inodes in memory beside the inodes on disk; Get has `iget`, Life
-- has `iput`. The inodes on disk are an array of records by number: `iupdate` is a step on it, and the
-- place of a record in the bytes of its block is left out, as is `ilock`; `itrunc` is what Fs shows of
-- it.
--
-- Console (kernel/console.c): the ring of input characters; Bounds has the interrupt handler and
-- `consoleread` one at a time, Calls any sequence of them. The line that is killed has at most
-- `INPUT_BUF_SIZE` characters, which is the fuel.
--
-- Not modelled: assembly and privileged registers, device drivers, kernel/rand.c, which is a copy of
-- a library, freewalk, uvmcopy and copyinstr, stati, the start of the file system, and the programs
-- of the user but for the shell and grep. Locks are taken as the atomicity that they give.
pub mod Prelude
pub mod Panic
pub mod Pipe
pub mod Log
pub mod Proc
pub mod Sched
pub mod Mlfq
pub mod Kalloc
pub mod Strings
pub mod Grep
pub mod Alarm
pub mod Shell
pub mod Spinlock
pub mod File
pub mod Fs
pub mod Vm
pub mod Bio
pub mod Names
pub mod Itable
pub mod Console
pub mod Sleeplock
