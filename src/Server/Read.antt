-- ===== src/Server/Read.antt =====
-- server.hpp: `read_headers`, the loop that reads a socket until the end of the headers.
use lundicpp.Base.{
  ℕ, zero, suc, ◌+◌, Bytes, List, Bool, [], ◌∷◌, ◌++◌, Option, none, some, ltb, leb, if◌then◌else◌,
  length, take, drop,
}
use lundicpp.Engine.Buffer.{Buffer, ensure_write, write_capacity, receive, contents}
use lundicpp.Engine.Scan.{find_header_end}

-- What is returned, with the buffer and what the socket has not delivered yet. `none` is an exception
-- of `async_read_some`, at the end of the stream.
abbrev pub ReadResult : Type 0
ReadResult = Option (ℕ × Buffer × List Bytes)

-- The socket is the pieces in which the network brings the bytes. `async_read_some` with so much room takes
-- what fits of the first, and leaves the rest for the next read.
unfoldable pub left_behind : ℕ → Bytes → List Bytes → List Bytes
left_behind room chunk socket = if ltb room (length chunk) then drop room chunk ∷ socket else socket

abbrev pub concat : List Bytes → Bytes
concat [] = []
concat (c ∷ cs) = c ++ concat cs

-- More than the reads that a socket can give, as each takes a byte or a piece off it.
abbrev pub reads : List Bytes → ℕ
reads socket = suc (length (concat socket) + length socket)

-- The loop, on the number of reads.
unfoldable pub read_loop : ℕ → ℕ → ℕ → List Bytes → Buffer → ReadResult
unfolding left_behind
read_loop zero max_size scan_start socket b = none
read_loop (suc fuel) max_size scan_start [] b =
    if leb max_size b.size then some (0, b, []) else none
read_loop (suc fuel) max_size scan_start (chunk ∷ socket) b =
    let grown = ensure_write 4096 b in
    let room = write_capacity grown in
    let left = left_behind room chunk socket in
    let b' = receive (take room chunk) grown in
    let end = find_header_end (contents b') scan_start in
    let rest = read_loop fuel max_size b'.size left b' in
    if leb max_size b.size
    then some (0, b, chunk ∷ socket)
    else if ltb 0 end
    then some (end, b', left)
    else rest

unfoldable pub read_headers : ℕ → List Bytes → Buffer → ReadResult
unfolding read_loop find_header_end
read_headers max_size socket b =
    let end = find_header_end (contents b) 0 in
    let rest = read_loop (reads socket) max_size b.size socket b in
    if ltb 0 b.size then (if ltb 0 end then some (end, b, socket) else rest) else rest

-- `read_headers_with_timeout`. Where the timer goes off, `||` ends with it, and also where the read ends with an
-- exception, since it then waits for the timer: the socket is closed and 0 returned.
unfoldable pub read_headers_with_timeout : Bool → ℕ → List Bytes → Buffer → ReadResult
unfolding read_headers
read_headers_with_timeout late max_size socket b =
    if late then some (0, b, []) else elim (read_headers max_size socket b) [
      | none ↦ some (0, b, [])
      | some result ↦ some result
    ]
