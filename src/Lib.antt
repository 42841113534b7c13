-- ===== src/Lib.antt =====
-- The network programs of this repository: an HTTP server on Boost.Beast, a session class and
-- several echo servers on Boost.Asio, as functions on their states. Boost, the standard library
-- and the sockets are not modelled: what they report to a callback (an error, a number of bytes,
-- the bytes) is an argument of it, and what it starts is recorded in the state as an operation
-- that is under way. One thread runs the io_context, so that callbacks run one after the other;
-- the order in which operations complete is left open by step relations.
--
-- Base: shared names, Boolean tests, lists over native numbers, byte strings. A char is a number
-- below 256, and a std::string a list of them.
--
-- Http (beast/http_server): Server.antt is CServer::Start of src/cserver.cpp, which starts an
-- HttpConnection for each socket. Connection.antt is HttpConnection of src/http_connection.cpp:
-- `start`, `on_read` (the callback of async_read), `handle_req`, `write_response`, `on_write`,
-- `check_deadline` and `on_deadline`, on the record `Conn`; Connection/Steps.antt says which
-- operation can complete next. Query.antt is PreParseGetParam, and Url.antt is UrlEncode,
-- UrlDecode, ToHex and FromHex of the same file. Query/Table.antt is the map of parameters up to
-- the order of its entries. Logic.antt is LogicSystem of src/logic_system.cpp, which the
-- connection asks for a handler by its path. System.antt is the whole server: the accept loop with
-- the connections that it starts, the routes that they share, and the signals for which
-- src/main.cpp waits; System/Main.antt is `main` of that file, with a port that may be taken, and
-- its exit code.
-- Singleton.antt is the class of include/http_server/singleton.h, through which the connection
-- finds the routes. `none` is a failed assertion, which ends the process. The order in which a
-- std::unordered_map is walked (`walk`) and whether char is signed (`signed`, true on x86-64) are
-- arguments. Wire formats of Beast are not modelled.
--
-- SessionApi (asio/async/00_session_api): CSession of session_api.cpp, with a function for each
-- method, on the record `Session`; the operations under way are the lists `writes` and `reads`.
-- Writes.antt is the client that submits texts and the system that takes a part of them at a time;
-- Failures.antt lets writes fail besides. Mixed.antt is a session on which all functions are
-- called, in any order with the callbacks. Memory.antt follows which node or text each write
-- reads, and how long a node lives: as long as the queue, `send_node_` or a callback points to it.
-- How long a caller's text lives is not modelled. Connect is one call of the socket, and is left
-- out.
--
-- BadEcho (asio/async/01_bad_echo_server): CSession and CServer of session.cpp; sessions have
-- numbers for addresses, and `use_after_free` and `double_delete` are results.
--
-- GoodEcho (asio/async/02_good_echo_server): CSession and CServer of session.cpp. The private base
-- std::enable_shared_from_this is not set up by std::make_shared, so that `shared_from_this`
-- throws.
--
-- Duplex (asio/async/03_full_duplex_server): CSession and CServer of csession.cpp and cserver.cpp.
-- A session lives as long as the map `sessions_` or a pending accept holds it (`is_alive`), since
-- the callbacks capture `this` alone. Memory that is not initialised is an argument (`garbage`).
--
-- StickyPacks (asio/async/04_sticky_packs): the MsgNode of csession.h. Server.antt is CSession and
-- CServer of csession.cpp and cserver.cpp. They do not compile, since HandleWrite names a member
-- `max_len_` that MsgNode lacks: a write from the queue is recorded by its node, and the number of
-- bytes is a parameter `max_len_` where a theorem needs it. Server/Projection.antt takes the
-- header off the nodes, which gives the server of 03; Refines, Simulates and Disconnects carry
-- over what happens there, and Freed what is undefined.
--
-- AsyncMain: `main` of 01, 02, 03 and 04, by the constructor of the server, which may throw, and
-- by what io_context::run meets: any callback may throw, since it allocates, and `cout << data_` may
-- read beyond a buffer that a read has filled (`Overread`). The record `AsyncServer` is what `main`
-- needs of a server. The modules of the servers leave the printing and these exceptions out.
--
-- SyncEcho (asio/sync and basic): the loops of sync_server.cpp and blocking_tcp_echo_server.cpp,
-- and what the two clients send and read. Servers.antt accepts, with a thread for each client: the
-- record `EchoServer` is what the two servers have in common, and an event is what the accepting
-- thread does, failures included, or one round of one thread; a `Handle` is a std::thread.
-- Servers/Port.antt is the command line of blocking_tcp_echo_server.cpp. Clients.antt is `main` of
-- sync_client.cpp and of blocking_tcp_echo_client.cpp.
--
-- Snippets (basic/code_snippet.cpp, basic/main.cpp, main.cpp, xiaopeng/server.cpp): each function
-- by what its calls report, 0 or an error's value, or an exception with one.
--
-- Loops are structural recursion where the code goes through a text or a queue. On fuel are
-- decode_loop, whose rounds each take a character at least, pair_loop, whose rounds each take a
-- separator, decimal, which divides by ten, and the reader `unframe`. The length of the text, or
-- one more than the number, is enough: the functions that call them pass that fuel.
--
-- Not modelled: the demonstrations of std::bind in tests, and what goes to the terminal besides
-- the lines of the clients and of the snippets, and the messages that sync_server.cpp prints.
pub mod AsyncMain
pub mod BadEcho
pub mod Base
pub mod Duplex
pub mod GoodEcho
pub mod Http
pub mod SessionApi
pub mod Snippets
pub mod StickyPacks
pub mod SyncEcho
