-- ===== src/Lib.antt =====
-- Eltex_course: a verification library for the programs of the course. The programs are small and
-- stand beside each other; what they share are the C library and the habits of the author.
--
-- Base and its children hold numbers, lists, texts of bytes and results that may be missing. Memory
-- is the heap of `malloc`: a map from addresses to objects, where an access through `NULL` or a
-- freed address is a fault. Strtok and Decimal are the functions of the C library that the programs
-- lean on: `strtok`, `%d` of `printf`, and `atoi` on digits. A fault of a program, such as an access
-- outside an array, the use of a `NULL` token or a read that waits for ever, is `none`.
--
-- The parts, and the code they model:
--
--   Echo         task_echo/src/list.c (Echo/List) and server.c (Echo/Server): the linked list of
--                clients with its counts, and one packet of the loop of `main`. The list is in
--                memory; Chain, Counting, Adding and Killing give its operations, and
--                Server/Refinement compares the server with a list of clients.
--   Phonebook    task4/abonent_directory.c: the directory of 100 entries, its search and its menu, on
--                a stream of input words.
--   Linked       task6: the same phone book as a doubly linked list (DM_abonent_directory.c) and its
--                menu (main.c). Cells and abonents are two memories; Chain, Owned and Directories say
--                when they stand for a list.
--   Pipeline     task12/pipeline_bash/src/main.c: the parser of a command line (Parse), the
--                dispatch of `main` (Main) and the descriptors of the shell and of its children
--                (Descriptors, Wiring).
--   Shell        task10/simple_bash/src/main.c: `parse_command`.
--   Chat         task13/chat: src/data.c (Table), the texts (Protocol), src/server.c (Server) and
--                src/client.c: the reader and what it shows (Client), the typed line and the session
--                (Keyboard). Server and client have a table of members and one of messages; the
--                client is fed with what the server sends.
--   SharedChat   task14/chat: the same chat over shared memory and semaphores. src/server.c (Server),
--                src/client.c (Client), the place shm[0] through which clients speak to the server
--                (Exchange), and shm[1], which all clients read (Board). The order of the turns of the
--                clients is a parameter.
--   Drivers      task_drivers/main.c: `driver_handler` (Driver) and the commands of `main`
--                (Manager). The timer of the kernel is a parameter, of which nothing is assumed.
--   Producer     task16_cs_models/producer_consumer/server.c: `main`, the message queue and three
--                threads, in every order of their steps.
--   Servers      task16_cs_models: parallel_buff/server.c (Buffered), `main` and three threads in every
--                order of their steps, and multyplexed_fd/server.c (Multiplexed), the rounds of `select`.
--   Arrays       task2/array_revers.c: the array that is filled and reversed.
--   Substring    task3/substr.c: the search of a text (Finding) and the loop that reads a line (Reading).
--   Warehouse    task11/task11.3/main.c: customers and the loader, in every order of their steps.
--   Counters     task11/task11.2: the counts under a mutex, under a spinlock, and apart.
--   Panel        task9/fake_mc/src/indexes.c and my_funcs.c: the window of a panel under the keys.
--   Ether        task16_ether_header/client.c: the check sum of the IP header.
--
-- Bounds and fuel. The loops over an array count down the rounds that are left, which are given by
-- the size of the array, so that they never stop early. The loops of mapreduce.c, of `print_dirs` and
-- of the listing of task6 run on fuel, and the theorems about them say how much is enough. Numbers are
-- natural; where an `int` could overflow or go below 0 the file says what is assumed. `check_sum`
-- keeps the cut to 16 bits. The waiting loops of `broadcast` and `shair_database` in task14 run on fuel:
-- a fair order of turns ends them within the rounds that the theorems name, and two clients with one
-- slot let that of `broadcast` run for ever.
--
-- Not modelled: printing, the windows of ncurses, sockets, `fork` itself and the failure of `malloc`
-- or of a call of the system, unless a file says otherwise. The remaining tasks (task1, task7 and
-- task8, the rest of task2, task3 and task9, the other programs of task10 to task16) have no model.
pub mod Arrays
pub mod Base
pub mod Chat
pub mod Counters
pub mod Decimal
pub mod Drivers
pub mod Echo
pub mod Ether
pub mod Linked
pub mod Memory
pub mod Panel
pub mod Phonebook
pub mod Pipeline
pub mod Producer
pub mod Servers
pub mod SharedChat
pub mod Shell
pub mod Strtok
pub mod Substring
pub mod Warehouse
