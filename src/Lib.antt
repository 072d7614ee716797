-- ===== src/Lib.antt =====
-- A verification library for the ENCE360 repository, whose largest part is the teaching kernel xv6
-- under lab10xv6/xv6; the other directories are exercises. Modelled are the kernel's pipes, its
-- buffer cache and write-ahead log, the blocks, inodes, files and directories of its file system, its
-- open files, its pages and page tables, its locks, its process table, its string functions and the
-- line editor of its console; of the user programs the parser of the shell, the matcher of grep and the
-- printing and reading of numbers; and of the exercises the linked list of lab1Revision and the merge
-- sort of lab8Distributed.
--
-- How the parts meet: processes (proc.c) sleep on channels and are woken through them; pipes (pipe.c)
-- and the log (log.c) are clients of that. The log lies between the file system and the buffer cache
-- (bio.c), whose blocks it makes last. The file system (fs.c) changes blocks within a transaction of
-- the log; file.c reads and writes files by it, and counts the descriptors of the processes. Page tables
-- (vm.c) are pages of the allocator (kalloc.c). Directories and program names are kept with string.c.
--
-- Base, with Base/Tests, Base/Lists, Base/Arrays and Base/Int: Boolean tests, lists, arrays and signed
--   integers over the native numbers, and the lemmas that the parts share. A uint is a number below
--   2 ^ 32, and `u32` is its wrap-around.
-- Pipe: struct pipe, pipewrite, piperead and pipeclose of lab10xv6/xv6/pipe.c, each as the segment from
--   one sleep to the next, under the lock. Pipe/Buffer is the view of a pipe as a bounded queue,
--   Pipe/Fifo compares the operations with that queue, Pipe/System has processes that share a pipe as a
--   step relation, and Pipe/System/Safety what holds of them.
-- Log: lab10xv6/xv6/log.c, every function but initlog, over blocks that are read and written by bread
--   and bwrite of bio.c. A crash is a bound on the number of disk writes that still take effect.
--   Log/Blocks and Log/Crash say what is on the disk after a given number of writes, Log/Commit is about
--   commit with recovery, Log/Space about the space that begin_op reserves, and Log/Short about a log that is
--   too short for it.
-- Cache: lab10xv6/xv6/bio.c over the disk of lab10xv6/xv6/memide.c, with the ring of buffers as a list.
--   Cache/Lookup is about bget, Cache/Once about the blocks that the buffers hold, with the calls in any
--   order as a step relation, and Cache/Read about bread.
-- Fs: blocks of lab10xv6/xv6/fs.c and fs.h, balloc and bfree over the blocks of a transaction.
--   Fs/Bitmap is about single bits, Fs/Alloc about allocation. Fs/Inode is the part of fs.c on inodes:
--   ialloc, iupdate, ilock, iget, idup, iput, bmap and itrunc, without the locks. Fs/Inode/Layout is
--   about fields in bytes, Fs/Inode/Stored about writing and reading an inode, Fs/Inode/Icache about
--   the cache of inodes, and Fs/Inode/Blocks about bmap. Fs/File is readi and writei, with what a
--   device does as an argument; Fs/File/Content and Fs/File/Write are about them.
--   Fs/Dir is dirlookup, with Fs/Dir/Lookup about it; Fs/Dir/Link is dirlink, with Fs/Dir/Link/Entry about
--   the bytes of an entry and Fs/Dir/Link/Added about the directory. Fs/Path is skipelem, and Fs/Walk is
--   namex on entries of the inode cache, with Fs/Walk/Elements about it.
-- Files: the table of files of lab10xv6/xv6/file.c, the descriptors of sysfile.c with sys_dup, sys_close,
--   sys_pipe (and pipealloc of pipe.c) and sys_open from filealloc on, and the loops of fork and exit in
--   proc.c over descriptors. Files/Count counts the descriptors that hold a file, Files/Calls,
--   Files/Pipes and Files/Loops say what calls, forks and exits do to that number, and Files/System has whole calls of all processes
--   as a step relation. Files/Io is fileread and filewrite, on Fs/File, and Files/Io/Chunks is about
--   the chunks of filewrite.
-- Memory: lab10xv6/xv6/kalloc.c on memory as words by their addresses. Memory/Chain is the free list in
--   memory, Memory/Range is about freerange, and Memory/Pages about who owns the pages.
-- Vm: walkpgdir, mappages, deallocuvm, uva2ka and clearpteu of lab10xv6/xv6/vm.c, on the memory of Memory.
--   Vm/Entries has a page directory as a map from addresses to entries, Vm/Walk and Vm/Write are about
--   finding and setting one entry, and Vm/Map about mappages.
-- Locks: acquire, release, holding, pushcli and popcli of lab10xv6/xv6/spinlock.c. A CPU stands at a place
--   in these functions, and a schedule says which one goes on. Locks/Flags is about pushcli and popcli,
--   Locks/Places says what is known at each place,
--   Locks/Exclusion about the lock in every schedule, and Locks/Progress about a CPU that spins.
--   Locks/Sleep is sleeplock.c with a step relation for the processes at one lock, and Locks/Sleep/Wakeup
--   is about it.
-- Console: consoleintr, consoleread and consolewrite of lab10xv6/xv6/console.c over the ring `input`.
--   Console/Ring has the ring as lists, Console/Editor the keys, and Console/Reader the reads.
-- Shell: lab10xv6/xv6/sh.c from gettoken to parsecmd. Shell/Fuel is about the parser's end,
--   Shell/Printer prints commands and says which ones the grammar has, Shell/Tokens, Shell/Simple and
--   Shell/Rounds are about tokens, words with redirections and the loops, and Shell/RoundTrip about
--   whole commands.
-- Process: the process table of lab10xv6/xv6/proc.c. A process is named by its slot; exit, wait, kill,
--   sleep and wakeup are functions of the table, which holds ptable.lock throughout. Process/Loops is
--   about the searches and the loops over the table, Process/System has the calls in any order as a step
--   relation, Process/Family what holds between parents and children, and Process/Kill is about kill.
-- Strings: lab10xv6/xv6/string.c over a memory of bytes, with stosb and stosl of x86.h. Strings/Memory,
--   Strings/Compare and Strings/Copy hold the theorems.
-- Grep: lab10xv6/xv6/grep.c. Grep/Language says what an expression matches, without a matcher;
--   Grep/Matcher is about match, and Grep/Lines about the loop that reads and splits lines.
-- Decimal: printint of lab10xv6/xv6/printf.c and atoi of lab10xv6/xv6/ulib.c.
-- LinkedList: lab1Revision/linkedList.c, the building, turning and freeing of lists over a heap, with
--   malloc as a parameter. LinkedList/Segment is about list_reverse, LinkedList/Free about list_free.
-- Sort: lab8Distributed/sort.c over elements with a test for order: merge, mergeTree, checkSorted,
--   nextPower2 and the sizes of main. Sort/Merge and Sort/Power are about merge and nextPower2.
-- The module Tests of each part runs the functions at small inputs.
--
-- Bounds and fuel: the loop of printint has 32 rounds of fuel, which is enough for 32 bits in any base
-- from 2 on. The loops of readi, writei, dirlookup and dirlink have as many rounds as there are bytes, namex one
-- more than there are bytes in the path, and the
-- loop that kills a line in consoleintr as many as there are bytes typed. The loop of strlen has fuel,
-- and a theorem that one round more than the length is enough; the loops over linked lists have fuel,
-- and as many rounds as there are links are enough. The functions of the shell's parser have
-- 4 * length + 4 rounds of fuel, with a theorem that they are enough on every text. The loops of freerange,
-- mappages and deallocuvm have 2 ^ 20 rounds, as many as there are pages; the loop of nextPower2 has 31,
-- as many as an int has powers of 2; and the loop of filewrite as many as there are bytes. All other loops
-- are structural, but mergeTree, whose depth of recursion is an argument. NPROC, NOFILE, NFILE, PIPESIZE,
-- NBUF, LOGSIZE, MAXOPBLOCKS, NINODE, NDIRECT, NINDIRECT, INPUT_BUF, PGSIZE, PHYSTOP and MAXARGS are the
-- source's.
--
-- Not modelled: what happens within a critical section seen from other processors (but for the lock itself,
-- a segment under one lock is one step), the calls on paths, the copying of
-- address spaces, malloc and free, saved registers and the switch between processes, devices, the boot,
-- the system calls around the shell's parser, and the other programs of the labs and of the assignment.
pub mod Base
pub mod Cache
pub mod Console
pub mod Decimal
pub mod Files
pub mod Fs
pub mod Grep
pub mod LinkedList
pub mod Locks
pub mod Log
pub mod Memory
pub mod Pipe
pub mod Process
pub mod Shell
pub mod Sort
pub mod Vm
pub mod Strings
