-- ===== src/Engine/Buffer.antt =====
-- engine/buffer.hpp: `write_buffer` and `read_buffer`. Both keep a vector `data_`, whose size is the
-- capacity, and the number `size_` of bytes in use. Sizes stay far below 2^64, since the vector
-- holds them in memory, so the sums of `size_t` do not wrap.
pub mod Laws
mod Examples
use lundicpp.Base.{
  ℕ, ◌+◌, ◌-◌, ◌*◌, max, Bytes, [], ◌∷◌, ◌++◌, Bool, true, false, Option, none, some, ltb, leb,
  ◌==◌, if◌then◌else◌, length, take, drop, replicate, find_str, codes, is_empty,
}

-- The vector and the count that both classes keep, and whether a write went past the vector: nothing more
-- is said of a buffer behind such a fault.
pub record Buffer : Type 0 where
  pub bytes : Bytes
  pub size : ℕ
  pub faulted : Bool

-- The constructor: `data_( initial_capacity )`, zero bytes.
unfoldable pub empty_buffer : ℕ → Buffer
empty_buffer initial_capacity = record {
  bytes = replicate initial_capacity 0;
  size = 0;
  faulted = false;
}

-- `data_.resize( n )` for an `n` that is no smaller: zero bytes are added.
abbrev pub resize : ℕ → Bytes → Bytes
resize n bytes = bytes ++ replicate (n - length bytes) 0

abbrev pub overwrite : Bytes → ℕ → Bytes → Bytes
overwrite bytes pos src = take pos bytes ++ (src ++ drop (pos + length src) bytes)

-- `memcpy( data_.data() + pos, src, n )`. Past the vector it is a fault, and leaves it as it is.
unfoldable pub store : ℕ → Bytes → Buffer → Buffer
store pos src b =
    if leb (pos + length src) (length b.bytes)
    then record b { bytes = overwrite b.bytes pos src }
    else record b { faulted = true }

-- What a caller writes at `write_pos()`.
unfoldable pub write_here : Bytes → Buffer → Buffer
unfolding store
write_here src b = store b.size src b

-- `write_buffer::advance` and `read_buffer::advance_write`.
abbrev pub advance : ℕ → Buffer → Buffer
advance n b = record b { size = b.size + n }

-- The two, as the callers pair them.
unfoldable pub receive : Bytes → Buffer → Buffer
unfolding write_here
receive src b = advance (length src) (write_here src b)

-- `write_buffer::ensure`.
unfoldable pub ensure : ℕ → Buffer → Buffer
ensure additional b =
    if ltb (length b.bytes) (b.size + additional)
    then record b { bytes = resize (max (length b.bytes * 2) (b.size + additional)) b.bytes }
    else b

-- `write_buffer::append`, of raw bytes, of a view and of a C string.
unfoldable pub append : Bytes → Buffer → Buffer
unfolding ensure store
append src b = let b' = ensure (length src) b in advance (length src) (store b'.size src b')

-- `write_buffer::push`.
unfoldable pub push : ℕ → Buffer → Buffer
unfolding ensure store
push c b = let b' = ensure 1 b in advance 1 (store b'.size (c ∷ []) b')

-- `clear`, of both classes.
unfoldable pub clear : Buffer → Buffer
clear b = record b { size = 0 }

-- `memmove( data_.data(), data_.data() + n, size_ - n )` and the new size, of both classes.
unfoldable pub consume : ℕ → Buffer → Buffer
unfolding store
consume n b =
    if leb b.size n
    then record b { size = 0 }
    else record (store 0 (take (b.size - n) (drop n b.bytes)) b) { size = b.size - n }

-- `read_buffer::write_capacity`.
abbrev pub write_capacity : Buffer → ℕ
write_capacity b = length b.bytes - b.size

-- `read_buffer::ensure_write`.
unfoldable pub ensure_write : ℕ → Buffer → Buffer
ensure_write n b =
    if ltb (write_capacity b) n
    then record b { bytes = resize (max (length b.bytes * 2) (b.size + n)) b.bytes }
    else b

-- `empty`, of both classes.
abbrev pub empty : Buffer → Bool
empty b = b.size == 0

-- `std::string_view( data(), size() )`.
abbrev pub contents : Buffer → Bytes
contents b = take b.size b.bytes

-- `read_buffer::find_header_end`, as an offset. `memmem` finds the first occurrence.
unfoldable pub find_terminator : Buffer → Option ℕ
unfolding find_str
find_terminator b =
    if ltb b.size 4
    then none
    else elim (find_str (codes "\r\n\r\n") (contents b)) [ none ↦ none | some n ↦ some (n + 4) ]
