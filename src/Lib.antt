-- ===== src/Lib.antt =====
-- Verification of the laboratory programs: small C programs for Linux, each in a directory of its
-- own, which share no code. A program is a module here, in a file named after what it does.
--
-- CatGrep (lab1_cat_grep/main.c): one binary that is `mycat` or `mygrep` by the name that it is run
-- under. CatGrep/Stream has the lines that `getline` gives, and what a run prints and returns;
-- CatGrep/Cat has `display_text_line`, `stream_text_display`, `process_text_file` and
-- `text_processor_main`; CatGrep/Grep has `search_stream_pattern`, `search_file_pattern`,
-- `search_input_pattern` and `pattern_searcher_main`; CatGrep/Main has `main`. The files that `fopen`
-- opens, `getopt_long`, `regcomp` and `regexec` are parameters. A counter is printed with ten digits
-- at most, which is enough for an `int`.
--
-- Chmod (lab4_chmod/mychmod.c): Chmod/Numeric has `apply_numeric_mode` with the `strtol` of the C
-- library at base 8 and a 64-bit `long`; Chmod/Symbolic has `apply_symbolic_mode`, whose two parsing
-- loops, masks and final switch are functions of their own; Chmod/Main has `main`. The file system is
-- the record FileModes of `stat` and `chmod` in Chmod/Os; IsLawful says what chmod(2) documents of the
-- nine permission bits. A `mode_t` has 32 bits.
--
-- Archive (lab5_archive/main.c): Archive/Io has `complete_write`, `duplicate_content` and
-- `skip_bytes` over calls of `read` and `write` that may fail or fall short, given as a list of
-- results; once the list is used up each call transfers all that it can. The loops are on fuel equal
-- to the bytes that are left, as a round moves one byte or ends. Archive/Record has
-- `struct archive_record`; its layout in memory is the compiler's, so `encode` and `decode` are the
-- fields of the parameter Layout, and IsLayout says that they fit together. An archive is described
-- by a list of entries, which `serialize` writes out. Archive/Disk has the file system, a function
-- from names to files, and Env, the calls that the system refuses. Archive/Compress has
-- `compress_archive_file`, with one round more of fuel than the archive has bytes; Archive/Add has
-- `add_file_to_archive`; Archive/Scan and Archive/Extract have `extract_and_remove_file`, and
-- Archive/Display has `display_archive_contents`. The last two take the number of rounds as an
-- argument, since the sizes in a damaged archive can lead the walk backwards for ever.
-- Archive/Main has `main`. An offset has no bound, so `lseek` fails only where the archive cannot be
-- seeked.
--
-- Threads has what the programs with several threads or processes share: families of threads and the
-- owner of a lock, the array of letters of lab10 and lab11, and the loops that create and join threads.
-- A schedule is the list of the threads in the order in which they move, and a thread that is blocked
-- leaves the state as it is. There is a reader for every number in Mutex and RwLock, of which the
-- programs start ten; in CondVar only the readers 1 to 10 run. A listing of the array that is printed
-- by several calls of `printf` behind the mutex is one step and one line in CondVar: in the output of
-- the program the lines that are printed outside the mutex can stand in the middle of it, and its
-- letters are the same. In Mutex each call is a step.
--
-- Mutex (lab8_mtx/main.c, lab8_mtx/thread_ops.h): Mutex/System has `writer_routine` and
-- `reader_routine` as steps on the shared variables, and Mutex/Main has `main`.
--
-- CondVar (lab11_condvar/condvar.c): CondVar/System has `writer_thread` and `reader_thread` with the
-- readers that sleep in `pthread_cond_wait`. The schedule also says whom a signal wakes, and wakes
-- readers for no reason, and a signal may be lost as well. CondVar/Main
-- has `main`.
--
-- RwLock (lab10_rwlock/rwlock.c): RwLock/Format has the buffer and the calls of `snprintf`, with a
-- number of at most ten decimal or sixteen hexadecimal digits; RwLock/System has `writer_thread` and
-- `reader_thread`, and RwLock/Main has `main`. The lock is the set of those who hold it.
--
-- Sems (lab9_sems): Sems/Exchange has the loops of the two sides over a buffer, a semaphore and the
-- texts of the messages; Sems/Process gives it the texts of send.c and receive.c, and Sems/ThreadPair
-- those of thread_example.c. Sems/Startup has the calls with which send.c and receive.c start, and
-- `cleanup_handler`; the ids that `shmget` and `semget` give are parameters, and an object of an id is
-- one that the process may remove or one of another user. `semop` never fails there: what the loops do
-- behind the removal of the semaphore is left out, and `remove` of the key file works. The line of the writer in thread_example.c has the text of the
-- message, which it has just written into the buffer.
--
-- Shmem (lab7_shmem): Shmem/Transfer has `write_string_in_shm`, the copy of the string from its first byte on,
-- and a round of the receiver; Shmem/Startup has the start of both programs and `free_at_exit`. What
-- `strftime` writes is a parameter here and in Pipes.
--
-- Fork (lab3_fork/main.c): Fork/Status has the status that `wait` gives and `monitor_child_process`;
-- Fork/Hierarchy has `execute_process_hierarchy` and the handlers, with what happens to the two
-- processes as an argument.
--
-- Pipes (lab6_pipefifo): Pipes/Message has the text that is sent, Pipes/Pipe `main` of pipe.c, and
-- Pipes/Fifo `main` of fifo.c. The results of the calls are parameters; the order of the two calls of
-- `open` and of the first `unlink` is one too, and no signal comes from outside.
--
-- Ls (lab2_ls/myls.c): Ls/Order has `entry_sorter`; Ls/Entry has what `display_entry` shows of a
-- mode; Ls/Directory has `build_full_path`, `load_directory_entries`, `display_entry` and
-- `process_directory` with the copies of the entries at addresses of the heap, so that what is freed
-- can be counted; Ls/Main has `main`. `qsort` is an insertion sort, as equal entries may go anywhere.
-- `getopt`, `lstat`, `readlink` and the entries of a directory are parameters.
--
-- Not modelled: the text of the messages on errors, the columns of the listings, the names of owners,
-- the exhaustion of memory, the closing of descriptors, symbolic and hard links, the access times that
-- reading changes, the numbers of threads in the lines of lab8_mtx and lab11_condvar, the receiver's own
-- times in lab7_shmem and lab9_sems, the creation of the two threads of lab9_sems/thread_example.c, and
-- the handlers of the receivers, which only detach and exit.
pub mod Base
pub mod Archive
pub mod CatGrep
pub mod Chmod
pub mod CondVar
pub mod Fork
pub mod Ls
pub mod Mutex
pub mod Pipes
pub mod RwLock
pub mod Sems
pub mod Shmem
pub mod Threads
