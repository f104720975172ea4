-- ===== src/Lib.antt =====
-- A verification library for the C++ programs of this repository: concurrent queues, a thread pool,
-- ticket sellers, an echo server over TCP, a chat room over UDP, pipes, a shared
-- segment, a process pool, a shell and a buffered file.
--
-- Parts and files (paths from the repository's root):
-- - Sync: the semaphore of 0208/RingQueue/sem.hpp and the mutex of 0114/lockGuard.hpp, each with the
--   POSIX meaning of its calls; Sync/Cond is the choice that `pthread_cond_signal` makes.
-- - RingQueue: RingQueue<T> of 0208/RingQueue/ringQueue.hpp. Defs has the members (`RingQueue`) and
--   the constructor (`init`); `move` is one action of `push` or `pop`. System runs many threads.
-- - BlockQueue: BlockQueue<T> of 0114/BlockQueue.hpp, with `while` around each `pthread_cond_wait`;
--   Tasks has the threads of 0114/ConProd.cc, which add numbers: a consumer prints after `pop` has
--   returned, and the others may act between the two. Answers is about what they print.
-- - ThreadPool: ThreadPool<T> of 0211/threadPool.hpp: pushTask, run and the workers' routine;
--   Places tells the workers from the threads that push, Carries what their actions push. Effort is
--   what is left to do, Workforce counts the workers, and Rest and Draining say how work ends.
-- - Singleton: getThreadPool of the same file and GetInstance of xjh_multi_thread/test.cc.
-- - Tickets: getTickets of 0112/mythread1.cc (Locked) and of 0110/mythread.cc (Unlocked).
-- - Printers: the two threads of the last `main` of xjh_multi_thread/test1.cc that print in turn.
--   That text stands under `#if 0` and is not compiled; it is modelled as the program that it is when
--   the line is taken out.
--   Defs has their actions (`act`), Invariant what they keep, Waiting and Moves one action each, and
--   Turns whole schedules.
-- - Wakeup: func1 to func4 and main of 0113/demo/mycond.cc (Defs), how often they print (Bound) and
--   the threads that sleep when main joins them (Lost).
-- - Signals: the last program of 0105/mysignal.cc and the one of 0108/mysignal1.cc (Defs), and the
--   lines that they show (Pending). A signal that `sigaddset` refuses is not blocked; SIGCONT and the
--   stopping signals discard each other where they are pending.
-- - Polling: Load and main of 0919/myproc.cc (Defs), and the rounds of the father (Waits).
-- - Buffer: the `char` arrays that the socket programs fill, close with a 0 and read as C strings.
-- - Tcp: 0215/tcp: `service`, initServer, start and main of the server, and main of the client. The
--   server pushes a Task for each connection to the thread pool; a worker runs it, which calls
--   `service`. Pooled has `start` beside the pool's threads, Follows what their turns come to and
--   Connections what becomes of the connections. Fork is the server of 0215/tcp/tcp_backup_1, which
--   gives each connection a child.
-- - Udp: 0215/udp: the key of a user (Key), the loop of the server (Server), the chat room that it
--   keeps (Room, Relay), the two threads of the client (Client) and its main (Session), and the
--   server with a client (Copies, Chat).
-- - Pipe: father and child of 1119/pipe/mypipe.cc (Mypipe) and the children of 1126/fifo/server.cc
--   that read one fifo while its client writes (Fifo): a read and what is shown of it are two actions.
--   Events and Pieces are about single actions, Relay has main of that server and of its client.
-- - Log: logMessage in its three versions (Defs), and how its lines are read back (Bytes, Reading,
--   All).
-- - PoolProgram: main of 0211/testMain.cc with Task.hpp, thread.hpp, the pool and its log (Defs). Main
--   stays outside the workers' routine (Clients); the log's texts (Texts) and lines (Lines), the
--   program and the pool step by step (Follows), what `run` logs (Launch), and what the log says in
--   the end (Results).
-- - Shm: the loops of 1201/shm/shmServer.cc and 1201/shm/shmClient.cc on their segment (Segment), and
--   what holds between them (Protocol); `printf` and `strcmp` of the server are two actions. In 1201/shm_pipe a fifo wakes the server: Handshake has the
--   loops with Wait and Signal of comm.hpp; Setup has what comes before and behind the loops. Wakes,
--   Runs and Prints are about their schedules.
-- - ProcessPool: 1119/processPool: the table of tasks of Task.hpp (Task), the loop of a child of
--   ProcessPool.hpp, which waits on an empty pipe that is not closed (Child), the parent that hands out commands (Parent), and the two together
--   (Dispatch), from the menu on (Menu); the open ends of pipes (Fds). First is the
--   version before, ProcessPool.cc: the numbers of its descriptors, parent and children side by side
--   (Defs, Wires), and the queues that they stand for (Queues, Served).
-- - Shell: 1017/shell/myshell.c: CheckRedir on the line's bytes (Redirect, Scan), the words that
--   `strtok` gives (Words), one turn of main (Turn), what it means (Meaning), and the loop with its
--   children on a machine that is a parameter (Session). First is the shell of 0921/shell/myshell.c,
--   and Agree compares the two.
-- - MyFile: the buffered file of 1017/myfile.c (Defs) and the stream that it stands for (Stream).
-- - Base: lists, tests and threads counted by weights. Fifo: the abstract queue that traces refine.
--
-- How concurrent code is modelled. A thread is a place in its program, with the locals that it still
-- needs, and `move` makes its next action: one call of the thread library, or one access to the
-- shared members. A schedule is a list of actions of numbered threads in any order, and `exec` runs
-- it: all interleavings of any number of threads, of sequentially consistent accesses. A thread that
-- must wait for a mutex or a semaphore stays where it is. A thread that waits on a condition releases
-- the mutex, wakes when it is signalled or for no reason, and takes the mutex again; a signal wakes
-- one sleeper, which the schedule chooses. Undefined behaviour (`front` of an empty queue, a write
-- past an array, a read of an uninitialised array) is `none`, so that an exec that returns `some`
-- has none of it. Schedules are finite lists and all other loops recurse over their input: only
-- the father of Pipe/Mypipe, for his ten rounds, and the loop of the shell that collects words, for
-- the characters of the line, have fuel, and it is shown to be enough. The five digits
-- of `decimal` are all that a port has, and the ten of `compose` all that an int has.
--
-- System calls are arguments: what `read`, `recv`, `recvfrom` and `accept` return is a list, what
-- `socket`, `bind` and `listen` return is a record. `inet_ntoa` is a parameter, any function in Tcp,
-- and in Udp one with what its manual says (IsDotted); so are the order of the map of users and the
-- descriptor that `accept` takes, which is a new one. The C library's string functions are modelled
-- by what they do to the bytes.
--
-- A `write` takes all its bytes, and the fifo of 1201/shm_pipe never fills.
--
-- Not modelled: most of the printed texts, the calls of the logger outside PoolProgram, sleeping, how
-- random numbers are drawn, destructors, failing thread-library calls, weak memory, and the
-- demonstrations of single calls in the other directories.
pub mod Base
pub mod Fifo
pub mod Sync
pub mod RingQueue
pub mod BlockQueue
pub mod ThreadPool
pub mod Singleton
pub mod Tickets
pub mod Printers
pub mod Wakeup
pub mod Signals
pub mod Polling
pub mod Buffer
pub mod Tcp
pub mod Udp
pub mod Log
pub mod PoolProgram
pub mod Shm
pub mod Pipe
pub mod ProcessPool
pub mod Shell
pub mod MyFile
