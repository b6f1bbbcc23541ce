-- ===== src/Engine/Scan.antt =====
-- engine/header_scan.hpp: `find_header_end`, with the loop over blocks of 16 bytes that SSE2 adds.
pub mod First
mod Examples
use lundicpp.Base.{
  ℕ, zero, suc, ◌+◌, ◌-◌, ◌<◌, Bytes, List, [], ◌∷◌, Bool, ◌&&◌, Option, none, some, ltb, ◌==◌,
  if◌then◌else◌, length, get_or,
}

abbrev pub cr : ℕ
cr = b'\r'

abbrev pub lf : ℕ
lf = b'\n'

-- `data[ i ]`. The callers read below the length; 0 stands for what they never read.
abbrev pub byte_at : Bytes → ℕ → ℕ
byte_at bytes i = get_or bytes i 0

-- The test of the scalar loop: CR LF CR LF at `i`.
unfoldable pub is_end_at : Bytes → ℕ → Bool
is_end_at bytes i =
    byte_at bytes i == cr
    && (byte_at bytes (i + 1) == lf && (byte_at bytes (i + 2) == cr && byte_at bytes (i + 3) == lf))

-- `for(; i + 3 < len; ++i )`, with the number of its rounds.
unfoldable pub scan_scalar : ℕ → Bytes → ℕ → ℕ
unfolding is_end_at
scan_scalar zero bytes i = 0
scan_scalar (suc rounds) bytes i =
    let rest = scan_scalar rounds bytes (i + 1) in if is_end_at bytes i then i + 4 else rest

-- `_mm_movemask_epi8( _mm_cmpeq_epi8( chunk, cr ) )`: the mask's set bits, lowest first, for the
-- `n` bytes of the block from its byte `bit` on.
unfoldable pub movemask : ℕ → Bytes → ℕ → ℕ → List ℕ
movemask zero bytes i bit = []
movemask (suc n) bytes i bit =
    let rest = movemask n bytes i (bit + 1) in
    if byte_at bytes (i + bit) == cr then bit ∷ rest else rest

-- `while( mask )`: the lowest set bit (`__builtin_ctz`) is tested and then taken off
-- (`mask &= mask - 1`). The result is that of a `return`.
unfoldable pub check_mask : List ℕ → Bytes → ℕ → Option ℕ
check_mask [] bytes i = none
check_mask (bit ∷ mask) bytes i =
    let pos = i + bit in
    let rest = check_mask mask bytes i in
    if ltb (pos + 3) (length bytes)
      && (byte_at bytes (pos + 1) == lf
          && (byte_at bytes (pos + 2) == cr && byte_at bytes (pos + 3) == lf))
    then some (pos + 4)
    else rest

-- `for(; i + 19 < len; i += 16 )`, and the scalar loop behind it. The length is fuel enough, since
-- `i` grows by 16.
unfoldable pub scan_blocks : ℕ → Bytes → ℕ → ℕ
unfolding scan_scalar movemask check_mask
scan_blocks zero bytes i = scan_scalar (length bytes - (i + 3)) bytes i
scan_blocks (suc fuel) bytes i =
    let here = check_mask (movemask 16 bytes i 0) bytes i in
    let rest = scan_blocks fuel bytes (i + 16) in
    let scalar = scan_scalar (length bytes - (i + 3)) bytes i in
    if ltb (i + 19) (length bytes) then elim here [ some r ↦ r | none ↦ rest ] else scalar

unfoldable pub find_header_end : Bytes → ℕ → ℕ
unfolding scan_blocks
find_header_end bytes scan_start =
    if ltb (length bytes) 4
    then 0
    else scan_blocks (length bytes) bytes (if ltb 3 scan_start then scan_start - 3 else 0)

-- The function as it is compiled where there is no SSE2.
unfoldable pub find_header_end_scalar : Bytes → ℕ → ℕ
unfolding scan_scalar
find_header_end_scalar bytes scan_start =
    if ltb (length bytes) 4
    then 0
    else let i = if ltb 3 scan_start then scan_start - 3 else 0 in
      scan_scalar (length bytes - (i + 3)) bytes i
