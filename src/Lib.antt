-- ===== src/Lib.antt =====
-- Verification of the network programming examples: what their own code does, above Boost.Asio.
--
-- The HTTP client, 05_http_ssl_tls/http_client.cpp, is HttpClient: Response has the error category,
-- HTTPResponse and the parsing of a status line and of headers, Request has HTTPRequest with one
-- function for each of its methods and handlers, and Machine runs the handlers on the completions of
-- their operations, with cancellations between them. A field keeps the name of the member without
-- its m_. The HTTP server, 05_http_ssl_tls/http_server.cpp, is HttpServer: Files has the choice of
-- the file, Service the class Service with one function for each method and handler, Machine the life
-- of one connection, Answering the answer that a
-- request should get. Exchange lets the client talk to the server.
--
-- The applications of 03_impl_client_apps and 04_impl_server_apps talk about one request, "emulate a
-- long computation of so many seconds": LongOp has its text and what a server makes of it. The
-- servers are AsyncServer (Acceptor, Server and main of 05_http_ssl_tls/http_server.cpp and
-- 04_impl_server_apps/tcp_asynchronous.cpp, whose code differs only in the service; TcpService is
-- that of the latter) and SyncServer (Iterative is tcp_iterative_synchronous.cpp, Parallel
-- tcp_parallel_synchronous.cpp). The clients are SyncClient (tcp_synchronous.cpp and
-- udp_synchronous.cpp) and AsyncTcpClient (03_impl_client_apps/tcp_asynchronous.cpp). Names in
-- camelCase are written in snake_case. Transfer has the loops of
-- 02_io_operations/write_synchronously.cpp and write_asynchronously.cpp, which write a buffer in
-- pieces, and Transfer.Reading those of read_synchronously.cpp and read_asynchronously.cpp, which fill
-- one; send_*.cpp and receive_*.cpp are the same loops. AsyncTcpClient.Registry is about the map of
-- active sessions, m_active_sessions, and the sessions that own the numbers in it.
--
-- Tls has the programs of 05_http_ssl_tls/ssl_synchronous_client.cpp and ssl_synchronous_server.cpp;
-- what the library does with a handshake, given the verification mode and callback, is a parameter. Shutdown has the two programs
-- 02_io_operations/shutdown_send_client.cpp and shutdown_send_server.cpp on one connection, as a
-- relation between the states of both and of the two ways between them. Programs has main functions
-- as calls in their order with the exit status: those of 01_basics (Programs.Basics) and of
-- 02_io_operations (Programs.Transfers, and Programs.Whole for the examples that leave the loop to a
-- free function). The clients' threads, close() and main functions are in AsyncTcpClient.Closing and
-- HttpClient.Client. Waits has operations that another part cancels: the timers of
-- 06_other/steady_timers.cpp and the connection of 02_io_operations/cancel_async_io.cpp.
--
-- Boost.Asio is not modelled. An operation that a handler starts is the field `pending`; what it
-- completes with, an error code and the bytes that it put into the buffer, is an argument
-- (Asio.Completion), and so is the error code that a shutdown of the socket would end with. A call
-- that throws, and an assertion that fails, are results (Asio.Result); so is a cancel of a socket, with
-- the state that it leaves. That a read with a delimiter which ends with success has put the delimiter
-- into the buffer is a hypothesis where it matters (HttpText.Holds). The file system is a record
-- of functions (HttpServer.Files.FileSystem). From the C++ standard library Cxx models what the
-- examples use: input streams with their flags, to_chars and from_chars, and a map of strings. Bytes
-- are numbers; no text of the sources leaves ASCII.
--
-- Loops that read headers run on fuel, one round more than there are characters left, since each
-- round takes at least one, and the loop that prints lines (Shutdown.Code) on one more;
-- the loop that writes runs on the answers of the socket. What threads and
-- users do is a list of events in any order, each of which is one handler or one turn of a loop.
--
-- Numbers of seconds are signed; ℤ is over the native numbers, and the ranges of int and of the
-- 64-bit count are hypotheses or tests (Cxx.Signed). Sleeping is recorded, not timed.
--
-- Not modelled: sockets, endpoints, resolvers and the passing of time as such, the cryptography of
-- TLS, most of the text of what is printed, the buffers of 02_io_operations, and the socket options,
-- streams and composed buffers of 06_other.
mod Common
mod Cxx
pub mod Asio
pub mod HttpText
pub mod HttpClient
pub mod HttpServer
pub mod Exchange
pub mod LongOp
pub mod AsyncServer
pub mod SyncServer
pub mod SyncClient
pub mod AsyncTcpClient
pub mod Transfer
pub mod Programs
pub mod Tls
pub mod Shutdown
pub mod Waits
