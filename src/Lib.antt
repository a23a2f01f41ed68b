-- ===== src/Lib.antt =====
-- The spaceteam web server: a configuration file names handlers for URI prefixes; the server reads
-- one request for each connection, picks the handler with the longest registered prefix, writes
-- the handler's response, and counts it.
--
-- The parts, and the files that model them:
--
-- Config: config_parser/config_parser.cc, include/config_parser.h. Syntax has NginxConfig and
--   NginxConfigStatement as trees, Printer their ToString, Lexer ParseToken (round_in is the
--   switch over the state, scan the loop), Parser both overloads of Parse (turn is the body of the
--   loop, run the loop), Main the program that prints a file. The stack of pointers to open blocks
--   is the block at the top and those below it; a block is put into its owner when it is popped.
--   Undefined behaviour is an outcome.
-- Http: src/request.cc, src/response.cc and their headers. Characters has the tests of bytes,
--   Fields the members and the helpers, Request consume and Parse, Response the response.
-- Status: src/server_status.cc. Counters are below 2 ^ 32 and wrap around there. Counts compares
--   them with a history of requests, Order changes the order of its updates.
-- Handler: Base has src/request_handler.cc, the registry and each Init; Simple the echo,
--   not-found, status and holding handlers; Files src/static_handler.cc; Bucket src/s3_handler.cc.
--   Streams and Remote src/proxy_handler.cc: Streams reads the answer of the remote host, Remote
--   has the loop over the redirects. Dispatch is the virtual HandleRequest over the seven classes,
--   Served a whole read of a connection with it. Keeps is about what the operations on a response
--   keep, and Throws about the exceptions of the handlers.
-- Connection: src/connection.cc. handle_read is the parser, the search over ever shorter prefixes,
--   the handler and the counters, in the order of the code; the operations of the network that it
--   starts are values. Calls is a rule for whatever a read leads to, Messages and Referred are
--   about whole requests. The type of the handlers and their HandleRequest are parameters.
-- Server: getServerInfo of src/server.cc, from the bytes of the file to the two tables of
--   ServerInfo, and makeServer with the members that the constructor sets. Loop is the server at
--   work, run: a state of what the io_service waits for, what the threads are at, and what the
--   connections share, and a step for each completion of an accept, a read or a write that a free
--   thread takes, and for each UpdateStatus, which ends a read. Pool is the same with each
--   connection as an object, and the events and the texts given to async_write by connection.
--   Handlers is about the handlers that a configuration makes, Program is src/main.cc.
-- Common: shared names, texts, Boolean tests, and maps as association lists sorted by their keys.
--
-- A text is the list of its bytes. Numbers are natural; an unsigned counter and the version
-- numbers of a request wrap around at 2 ^ 32, where the overflow of a signed int is taken to wrap.
--
-- Fuel: the loop of Parse has one round more than the input has bytes, since each round but the
-- last takes a byte; the search for a handler has one round more than the prefix has bytes, since
-- each round shortens it; the loop over a pipe has one round more than its output has bytes; the
-- loop over the headers of a remote answer has one round more than the text has bytes. The modules
-- about these loops show that the bounds are enough for what they state. The redirects of the
-- proxy have no bound in the source; there the fuel is an argument, which Handler.Dispatch takes
-- from its Surroundings.
--
-- Parameters: the file system and the Markdown library (Handler.Files), the process that popen
-- starts (Handler.Bucket), the network (Handler.Remote), the virtual HandleRequest (Connection).
-- Handler.Dispatch keeps the first three in its Surroundings. They are fixed functions for the
-- whole life of a server, while the program asks anew at each request: files that change, and
-- commands or hosts that answer differently the next time, are not modelled. Only the rounds of
-- one call of the proxy may differ.
--
-- Not modelled: the sockets and the acceptor, which is taken to open without an exception; the
-- vendored Markdown library; the messages that the server program writes to its standard output
-- and error streams. The steps of Server.Loop and Server.Pool are atomic: two threads inside one
-- UpdateStatus, or inside one handler, at the same time are not modelled, while any steps of other
-- threads may come between a response and its UpdateStatus. A thread whose handler never returns
-- stays taken; an exception that leaves a handler ends the process. A read ends with at most the
-- 1024 bytes of its buffer, and the text of a response is the one given to async_write.
pub mod Common
pub mod Config
pub mod Http
pub mod Status
pub mod Handler
pub mod Connection
pub mod Server
