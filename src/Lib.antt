-- ===== src/Lib.antt =====
-- The server of a chat over TCP, and the thread-safe libraries below it.
--
-- The program. `lib/` holds the containers that the threads share; `lab_2/chat` holds a server and
-- a client. The server's listener thread reads messages from sockets and hands them to the
-- controller, which unpacks them and hands them to worker threads. A worker answers a message:
-- it asks the data base, changes the table of connections and users (the connection manager) and
-- sends events to the loops of the controller and of the listener. The client's listener reads the
-- server's messages and sends events to the loop of its controller, which sends requests, and to that of
-- the screen.
--
-- The files, with the paths from the repository's root:
--   TsMap      lib/ts_map/src/ts_map.c. A tree is a value, and the chain of `parent` pointers from
--              a node to the root is a list of frames, so that `splay` is a recursion on that list.
--              TsMap/Ops has the global functions: ts_map_insert is `insert`, ts_map_find `find_val`,
--              ts_map_has `has_val`, ts_map_erase `erase_key`, ts_map_forall `forall_entries`.
--              TsMap/Spec has the list of entries that stands for a map.
--   TsQueue    lib/ts_queue/src/ts_queue.c. The nodes are cells of a heap at addresses, 0 is NULL,
--              and an access to no node is a fault, the outer `none`.
--   EventLoop  lib/event_loop/src/event_loop.c, on the models of the queue and the map. A handler or a
--              deleter is a number; an iteration returns the calls that it makes. What the handlers
--              send to the loop that runs them, as the urgent `EXIT_EVT`, is an argument.
--   ConnMgr    lab_2/chat/src/server/conn_mgr.c. The maps of a user's connections are cells of a
--              store, since the values of `uid_to_sid` point to them. ConnMgr/Inv says when the two
--              directions agree: the manager is consistent.
--   Message    lab_2/chat/src/common/message.c and pascal_string.c, on bytes.
--   Server     lab_2/chat/src/server: the constants, and in Server/Process the message handler of
--              events/process_message_job.c, which is `process_message`, a function `on_...` for each
--              type of message. It returns the new shared state and its effects in order.
--              Server/Listener has the reading of a message in parts by process_connection of
--              listener.c, Server/Close the functions close_connection and accept_connection,
--              Server/Broadcasts the files events/broadcast_message_event.c and
--              events/send_message_job.c, Server/Input the file events/input_msg_event.c. Server/Misc has the helpers of the two misc.c files.
--              Server/Sql has db.c over the results of sqlite3_step, and `database`, which fills the
--              interface Server/Database that the handlers use. Server/Workers has the count of the worker
--              threads of controller.c, worker.c and two files of events/, as a step relation.
--              Server/Rounds has the rounds of listener_thread over all connections, which are cells at
--              addresses, and the events of its loop; Server/Tables the tables of handlers that
--              listener_init, controller_init and workers_init fill; Server/Start prepare_db and
--              prepare_conn_mgr. Server/System puts the listener, the workers and the controller together,
--              as a step relation.
--   Client     lab_2/chat/src/client: Client/Listener the reading and the `switch` of listener.c, where the
--              name of a function in Server/Listener stands for the same code there; Client/Events the
--              handlers of events/, `on_...` for each type of event; Client/Control controller.c,
--              Client/Misc misc.c. Client/Received puts client and server together on the wire.
--              Client/Polls has client_listener_thread. Client/Screen has the loop of gui.c with
--              events/display_parsed_message_job.c, and Client/Screen/Dialogs the dialogs of
--              events/readinput_event.c with their callbacks in gui.c and controller.c.
--   Md5        lib/xenon_md5/src/xenon_md5.c.
--   TsVector   lib/ts_vector/src/ts_vector.c.
--   TablePrint lib/tableprint/src/tableprint.c, ParseArgs lib/parseargs/src/parseargs.c.
--   Base       lists, Boolean tests and signed numbers over the native natural numbers.
--   Tests      runs on small inputs.
--
-- Numbers. A `uint64_t` key, a uid, a socket and an address are natural numbers; where the code
-- wraps around or reads a sign, the model writes it out. Sizes and counters of nodes are taken not
-- to overflow 64 bits. Allocation succeeds.
--
-- Fuel. The loop of `unpack_message_2` moves through the body by lengths that the sender chose,
-- also negative ones, so it runs on fuel; more than twice the stated length plus one is enough. For a
-- packed message more than the number of tokens is enough. A message of `n` bytes is read in at most
-- `n` polls of its connection, which are the fuel of `read_message`. The loop of `ts_queue_destroy` runs on
-- fuel; more than the number of values is enough. So do the dialogs that follow one another: three are enough for
-- those up to the login, two for those of a kick.
--
-- Threads. Each call of a container or of the connection manager holds its mutex from its first
-- access to its last and is one step. The handler of a message and a round of the listener run as a whole
-- here: Server/System takes them in any order, but calls of other threads between the calls of one of them
-- are not modelled, and neither are the log and the results of `send`. Memory that is freed is modelled only as
-- an address that no client has any more.
--
-- Parameters. The handlers use the data base by the interface Server/Database; below it the results of
-- each SQL statement are the interface `Sqlite` of Server/Sql, with what SQL says of the INSERT into
-- a table with a primary key. The time is
-- an argument, and so are `recv` with what POSIX says of a stream socket, the insertion of a row into the
-- table of messages, the table of sines of MD5 (libm), the result of `realloc`, what `printf` makes of a
-- cell and `asprintf` of a number, and for the client `socket`, `gethostbyname`, `connect` and `atoi`. What `poll`
-- and `accept` answer is an argument of each round, the rows that `sqlite3_exec` gives and the password of
-- `getpass` are arguments of the start, and for the screen the keys of `wgetch`, the form with `form_driver` and
-- `field_buffer`, the height of the window and `ctime`. A list of keys or of rounds is all that happens.
--
-- Not modelled: the start of threads, the opening of sockets and of the data base file, the keys of the server's
-- terminal beyond the numbers of workers that they ask for, the sizes and places of the client's windows, the
-- start and the end of ncurses, and logger.c, which writes a file. The programs lab_2/test_* try out the
-- libraries by hand.
pub mod Base
pub mod TsMap
pub mod ConnMgr
pub mod Message
pub mod TsQueue
pub mod EventLoop
pub mod TsVector
pub mod TablePrint
pub mod ParseArgs
pub mod Md5
pub mod Server
pub mod Client
pub mod Tests
