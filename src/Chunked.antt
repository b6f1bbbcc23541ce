-- ===== src/Chunked.antt =====
-- chunked.hpp: the class `chunked_writer` on a stream socket and `chunked_initial_headers`.
pub mod Chunks
mod Examples
use lundicpp.Base.{
  ℕ, zero, suc, ◌+◌, ◌-◌, ◌/◌, ◌%◌, Bytes, [], ◌∷◌, ◌++◌, Bool, true, false, is_empty, ltb,
  if◌then◌else◌, codes, length,
}
use lundicpp.Engine.Buffer.{empty_buffer, append, contents}
use lundicpp.Response.{raw}
use lundicpp.Socket.{Io, pure, async_write}

-- What `%zx` prints, the digits of base 16 in small letters; the number is fuel enough for its digits.
abbrev pub hex_digit : ℕ → ℕ
hex_digit d = if ltb d 10 then b'0' + d else b'a' + (d - 10)

abbrev pub hex_digits : ℕ → ℕ → Bytes → Bytes
hex_digits zero n after = hex_digit (n % 16) ∷ after
hex_digits (suc fuel) n after =
    let rest = hex_digits fuel (n / 16) (hex_digit (n % 16) ∷ after) in
    if ltb n 16 then hex_digit n ∷ after else rest

abbrev pub hex : ℕ → Bytes
hex n = hex_digits n n []

-- The field `finished_`.
pub record ChunkedWriter : Type 0 where
  pub finished : Bool

abbrev pub new_writer : ChunkedWriter
new_writer = record { finished = false }

-- `write`; both forms of it do this.
unfoldable pub write : Bytes → Io (Unit {0})
unfolding async_write
write text =
    if is_empty text
    then pure tt
    else async_write ((hex (length text) ++ codes "\r\n") ++ (text ++ raw (codes "\r\n") 2))

-- The writer after the call, whether the call throws or not, and what it does.
unfoldable pub finish : ChunkedWriter → ChunkedWriter × Io (Unit {0})
unfolding async_write
finish w =
    if w.finished
    then (w, pure tt)
    else (record w { finished = true }, async_write (raw (codes "0\r\n\r\n") 5))

-- `date` is what the date cache shows.
unfoldable pub chunked_initial_headers : Bytes → Bytes → Bytes
unfolding append empty_buffer
chunked_initial_headers date content_type = contents (
    append (raw (codes "\r\n") 2) (
      append (raw (codes "Connection: keep-alive\r\n") 24) (
        append (raw (codes "\r\n") 2) (
          append content_type (
            append (codes "Content-Type: ") (
              append (raw (codes "Transfer-Encoding: chunked\r\n") 28) (
                append (raw (codes "\r\n") 2) (
                  append date (
                    append (raw (codes "Server: Lundi\r\nDate: ") 21)
                      (append (raw (codes "HTTP/1.1 200 OK\r\n") 17) (empty_buffer 256)))))))))))
