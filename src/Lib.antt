-- ===== src/Lib.antt =====
-- Lundi: an HTTP/1.1 server library in C++ (include/lundi.hpp, which includes include/lundi/*.hpp).
--
-- The program. `app::listen` starts worker threads and an accept loop; `handle_connection` runs one
-- connection: it reads bytes into a `read_buffer` until the end of the headers is found, parses
-- them into a `request`, passes it through the compiled middleware to `dispatch`, which resolves it
-- in the router, and serialises the `response` into a `write_buffer`.
--
-- A connection can also be handed to a WebSocket, an event stream or a chunked stream, and a request
-- that no route fits may be answered by a file.
--
-- Files and code.
--   Base          what std::string, std::string_view and std::from_chars do on lists of bytes, and
--                 the loops over the pieces between two bytes; a position that is not found is `none`.
--   Engine        include/lundi/engine: Itoa is fast_itoa.hpp, Buffer is buffer.hpp, Scan is
--                 header_scan.hpp with its SSE2 and its scalar form, DateCache is date_cache.hpp.
--   Url           core.hpp: hex_val, url_decode, to_lower, parse_query_string.
--   Router        router.hpp: parse_pattern, split_path_sv, split_path, match_route, class router.
--   Request       core.hpp: request, parse_headers; Request/Lookup has the getters of request,
--                 Request/Cookies the cookie parser and its getters, Request/Multipart those of forms (Request/PartLines and
--                 Request/FormParts write a form out),
--                 Request/Lazy the members that those getters fill when they are first called.
--   Response      core.hpp: response, set_header, status_text, serialize_into, serialize. A run of
--                 calls on a write buffer is a Writer (Response/Writer); Response/Wire states the text.
--   Callable      core.hpp: handler_fn, with the memory of its callables and operations on its objects
--                 in any order; Callable/Slots is what an object is to its user.
--   Middleware    middleware.hpp: middleware_chain, cors and logger; a handler is a function of the
--                 request and of everything that handlers share, and ends by returning or with an
--                 exception. A compiled chain has pointers to its layers, and is called with what is
--                 left of them; what a call of a destroyed layer does is a parameter.
--   Server        server.hpp: dispatch, the prefix of a route group, the choice of a worker in
--                 accept_loop; Server/Read has read_headers, Server/Routes the registration of
--                 handlers in app and app::route_group, Server/Listen the accept loop with the
--                 counters of connections and the signals, Server/Threads the threads and contexts of
--                 listen with the class joining_thread of core.hpp and spawn_safe, Server/Timer
--                 spawn_date_timer; Server/Survival joins the end of a connection to its thread.
--                 Server/Connection is handle_connection: its loop, the body, the responses and the
--                 streams that take a connection over (Connection/Setup has its data); Connection/Spec
--                 says what it means on one text, and Connection/Sessions follows requests from
--                 their bytes through the parser and the router to the bytes of their responses.
--   Socket        what asio documents of a stream socket: reads of an exact size, whole writes, and
--                 exceptions.
--   WebSocket     ws.hpp: Frame is the class websocket, Sha1, Base64 and Handshake the upgrade; Wire
--                 has the frames as RFC 6455 lays them out.
--   Sse, Chunked  sse.hpp and chunked.hpp: what the stream classes write, with readers of it.
--   Static        static_files.hpp: mounts, the lookup of a file and its headers; Static/Mime has the
--                 table of types.
-- In each part the module above models the code, the children state and prove what it does, and
-- Examples runs it on concrete inputs.
--
-- Choices. A byte is a number and a text a list of bytes. Sizes are numbers without a bound, since a
-- vector in memory is far shorter than 2^64; values that the code bounds keep their bound: 64 bits in
-- fast_itoa, `int` in route and query parameters, 16 path segments, 32 headers. A write
-- outside its memory is a fault: `none` in fast_itoa and in a Writer, the flag `faulted` in a Buffer. A
-- view whose string or vector is gone shows what a parameter, `stale`, says: the body of a request
-- always, and its method, target and headers where its body makes the read buffer grow.
--
-- Fuel. A loop that takes pieces off a view runs on the view's length, since each round takes one byte
-- at least; parse_headers' loop on the number of bytes that are left, since each round takes two at
-- least; the scan by blocks on the length of the data, since each round advances by 16; decimal
-- digits on the number itself; websocket::read on the bytes that are left, since each call of itself
-- is behind a frame; the loop of handle_connection on the length of what is still to come and one
-- more, since each round but the last takes a request off it; the loop of read_headers on the bytes
-- and pieces to come and one more, since each read takes one of them off. So none of them ends for
-- want of fuel.
--
-- Not in the library of the repository, and so parameters: the C library's functions on times and
-- dates, the clock, the standard output, handlers and middleware of users, what a callable does when
-- it is called, when `run` of a context returns and how a wait of a timer ends, with what asio documents
-- of them, the pieces in which the network brings the bytes, of which each read takes what it has room
-- for, and what a stale view shows. The file system is a record of functions in Static, which fills
-- the interface of two operations in Server; for a connection the timers, the stopping of the server
-- and the writes that the peer takes are data.
--
-- Not modelled: the handlers of a stream once they have a connection, the sockets and endpoints that listen
-- makes, which are asio's, what it writes to the standard output, and memory that cannot be allocated.
mod Base
pub mod Engine
pub mod Url
pub mod Router
pub mod Response
pub mod Request
pub mod Middleware
pub mod Socket
pub mod WebSocket
pub mod Sse
pub mod Callable
pub mod Chunked
pub mod Static
pub mod Server
