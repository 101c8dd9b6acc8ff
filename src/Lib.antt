-- ===== src/Lib.antt =====
-- A verification library for the home-automation server of cofiTyHome and for the parts of its kernel.
--
-- The server receives frames from sensors over TCP (server/src/sensorsNetwork.c), decodes them into the
-- sensors' data (server/src/sensors.c), and lets a thread apply the rules (server/src/rules.c), whose
-- actions (server/src/actions.c) run functions of actuators (server/src/actionneurs.c): frames back to
-- outlets, fake keys, processes. Clients send commands over TCP (server/src/guiNetwork.c), an operator
-- types commands (server/src/main.c). Memory comes from a first-fit allocator (kernel/memory/memory.c).
-- The kernel also has threads with semaphores (kernel/ordo3.0).
--
-- Files:
--   Common         shared names, tests, lists, integers, C strings, the search of a list
--   Kernel.Memory  gMalloc, gFree, initMemory, getGMemFree of kernel/memory/memory.c: a memory of
--                  headers, an address counts headers. Blocks and Ring say what a free list is; Place,
--                  Merge, Join and Free follow gFree; Carve, Fit and First follow gMalloc; Heap, Session
--                  and Reach are about all calls together, Sum about getGMemFree.
--   Kernel.Interrupts, Kernel.Threads  disable_it and enable_it (kernel/ordo3.0/interrupt.c), the ring of
--                  active threads (scheduler.c) and the semaphores (semaphore.c): a store of ctx
--   Kernel.Links   linked lists that end in null, over any way to read a link
--   Kernel.Threads.Sleep  sleep and the loop of yield that wakes threads (scheduler.c): Agenda is about the
--                  order of their times, Chaining about falling asleep, Waking about the loop
--   Kernel.Rounds  yield, scheduler, kill, delete_current_thread and wait (scheduler.c); Turns is about
--                  calls of yield one after the other, Reaping about threads that have been killed, Sleeping
--                  about sleep
--   Kernel.Queues  kernel/ordo3.0/m_queue.c; Stock is about one call, Life about a whole queue
--   Kernel.Starting  start_scheduler, and the interruption of the timer (kernel/ordo3.0/hw.c)
--   Kernel.FirstThreads  the threads of kernel/ordo/gThreads.c; Stacks is saveCtx
--   Kernel.GThreads  the threads of kernel/ordo2.0/scheduler.c: Lists has their removal and creation,
--                  Switching yield, gSleep, killThreadById, exitCurrentThread and gc, Waiting the
--                  semaphores and messages; Removal, Ending, Killing and Messages are about them
--   Server.Hex, Server.Frame  itochar, hexToInt, calculateCheckSum, createMessageOpen and
--                  createMessageClose of server/src/actionneurs.c
--   Server.World   what the server does to the outside, as a list of events; X11 and popen are parameters
--   Server.Actuators, Server.Actions, Server.Sensors, Server.Rules  the C files of these names
--   Server.SensorsNetwork, Server.GuiNetwork  the receiving threads; GuiNetwork.Clients is the list of
--                  clients (server/src/guiNetwork.c)
--   Server.Sending  the loop of the two sending threads
--   Server.Cleaning  cleanMemory (server/src/init.c) and the functions it calls, over Kernel.Memory
--   Server.GuiInterface  the commands of clients (server/src/guiInterface.c): Desk is what they work on,
--                  Initialise, Update, History and Edits are the functions of these names, Dispatch
--                  is processCommand; Effects says what a command may change, Logs reads back the lines
--                  of logValue (server/src/sensors.c), Rereading that no command leaves it half built
--   Server.Configuration  server/parse/rules.y: Clock and Reducing are what the rules of the grammar
--                  do, Files parseFile, parseAll, reparseFiles and clean, Sentences the grammar for
--                  sensors, actions and rules. Wiring and Keeping are about every file, Building,
--                  ActionBuilding, RuleBuilding and RuleReading about right ones, Reloading about
--                  reading them again
--   Server.System  the threads of the server, as events in any order: Safety says what always holds,
--                  Reacting leads from a frame to the rules that fire
--   Server.Lifecycle  init and destroy (server/src/init.c) and what they start and stop
--   Server.Console  the main loop (Polling over what epoll_wait returns), server/src/logWatch.c and
--                  server/src/timedCheck.c
--   Kernel.Examples, Kernel.ThreadExamples, Kernel.RoundExamples, Kernel.GThreadExamples,
--   Kernel.FirstThreadExamples,
--   Server.Examples, Server.StreamExamples, Server.GuiExamples, Server.CleaningExamples,
--   Server.NetworkExamples, Server.ConfigurationExamples, Server.SystemExamples  concrete inputs
--
-- A linked list that is only read is a list; the free list and the ring of threads are stores of
-- pointers. The functions that hold a mutex are atomic steps. Loops of the
-- allocator run on fuel: twice the number of headers in the heap and three more are enough, since each
-- loop goes at most twice round the free list and a free block has a header at least. itochar runs on
-- one more than its number. The tables of threads and of semaphores have 256 entries, which is the
-- fuel of their search. A walk through a list of threads takes one unit of fuel for each node and one
-- more, as do the calls that drop all clients; the loop that hands a message to a socket takes one
-- more than the message has bytes. An int that counts or measures is an integer or a natural number
-- without overflow: in the allocator sizes are below 5000000, elsewhere the values are small. The JSON
-- library, files and processes are parameters of the commands, and what bison's automaton reduces in a
-- file is a parameter of the parser; the reductions of a sentence that breaks off between a sensor's
-- start and its type leave the sensor aside: the C program has a sensor without decoder and data at the
-- end of the list then, which has no id or name and is found by nobody. A null pointer that is read or
-- a variable without a value that is used gives no result or the result `undefined`. The logs of rules
-- and of sensors can be opened; gMalloc gives the small buffers of actionneurs.c.
--
-- Not modelled: the scanner and the automaton of the parser (generated), the file with the addresses
-- and the names of the logs, the vendored JSON headers, context switches in assembly, the stacks of
-- the threads of kernel/ordo2.0 and kernel/ordo3.0, the addresses of sockets, the names and the timers
-- of the older schedulers of the kernel.
pub mod Common
pub mod Kernel
pub mod Server
