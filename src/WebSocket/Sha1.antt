-- ===== src/WebSocket/Sha1.antt =====
-- ws.hpp: `sha1`. A uint32_t is a number below 2^32, with the wrap-around written out.
use Prim.Native.Nat.{bit_and, bit_or, bit_xor}
use lundicpp.Base.{
  ℕ, zero, suc, ◌+◌, ◌-◌, ◌*◌, ◌/◌, ◌%◌, ◌^◌, Bytes, List, [], ◌∷◌, ◌++◌, ltb, ◌==◌, if◌then◌else◌,
  length, get_or, set, replicate,
}

abbrev word : ℕ
word = 2 ^ 32

pub record Sha1State : Type 0 where
  pub a : ℕ
  pub b : ℕ
  pub c : ℕ
  pub d : ℕ
  pub e : ℕ

-- `state`, `count` and `buffer`.
pub record Sha1 : Type 0 where
  pub state : Sha1State
  pub count : ℕ
  pub buffer : Bytes

-- `sha1 h;`
abbrev pub new_sha1 : Sha1
new_sha1 = record {
  state = record { a = 0x67452301; b = 0xEFCDAB89; c = 0x98BADCFE; d = 0x10325476; e = 0xC3D2E1F0 };
  count = 0;
  buffer = replicate 64 0;
}

unfoldable pub rol : ℕ → ℕ → ℕ
rol v bits = bit_or ((v * 2 ^ bits) % word) (v / 2 ^ (32 - bits))

-- The first 16 words, four bytes each.
unfoldable pub block_words : ℕ → Bytes → List ℕ
block_words (suc n) (p ∷ q ∷ r ∷ s ∷ rest) =
    bit_or (bit_or (bit_or (p * 2 ^ 24) (q * 2 ^ 16)) (r * 2 ^ 8)) s ∷ block_words n rest
block_words _ _ = []

-- `w[ i ] = rol( … )` for the next `n` values of `i`; `w` holds the words so far.
unfoldable pub extend : ℕ → ℕ → List ℕ → List ℕ
unfolding rol
extend zero i w = w
extend (suc n) i w = extend n (suc i) (
    w
    ++ rol
        (bit_xor (bit_xor (bit_xor (get_or w (i - 3) 0) (get_or w (i - 8) 0)) (get_or w (i - 14) 0))
          (get_or w (i - 16) 0))
        1
      ∷ [])

unfoldable pub round_value : ℕ → Sha1State → ℕ
round_value i s =
    if ltb i 20
    then bit_or (bit_and s.b s.c) (bit_and (word - 1 - s.b) s.d)
    else if ltb i 40
    then bit_xor (bit_xor s.b s.c) s.d
    else if ltb i 60
    then bit_or (bit_or (bit_and s.b s.c) (bit_and s.b s.d)) (bit_and s.c s.d)
    else bit_xor (bit_xor s.b s.c) s.d

unfoldable pub round_constant : ℕ → ℕ
round_constant i =
    if ltb i 20
    then 0x5A827999
    else if ltb i 40
    then 0x6ED9EBA1
    else if ltb i 60
    then 0x8F1BBCDC
    else 0xCA62C1D6

-- The rounds from `i` on, one for each of the words left.
unfoldable pub rounds : ℕ → List ℕ → Sha1State → Sha1State
unfolding rol round_value round_constant
rounds i [] s = s
rounds i (w ∷ ws) s = rounds (suc i) ws (record {
  a = (rol s.a 5 + round_value i s + s.e + round_constant i + w) % word;
  b = s.a;
  c = rol s.b 30;
  d = s.c;
  e = s.d;
})

unfoldable pub transform : Bytes → Sha1State → Sha1State
unfolding block_words extend rounds
transform block s =
    let t = rounds 0 (extend 64 16 (block_words 16 block)) s in
    record {
      a = (s.a + t.a) % word;
      b = (s.b + t.b) % word;
      c = (s.c + t.c) % word;
      d = (s.d + t.d) % word;
      e = (s.e + t.e) % word;
    }

-- The loop of `update`, with the index `idx`.
unfoldable pub update_loop : Bytes → ℕ → Sha1 → Sha1
unfolding transform
update_loop [] idx h = h
update_loop (p ∷ ps) idx h =
    let buffer = set h.buffer idx p in
    let full = idx + 1 == 64 in
    update_loop ps (if full then 0 else idx + 1)
      (record h { buffer = buffer; state = if full then transform buffer h.state else h.state })

unfoldable pub update : Bytes → Sha1 → Sha1
unfolding update_loop
update p h = update_loop p (h.count % 64) (record h { count = (h.count + length p) % 2 ^ 64 })

-- `while( count % 64 != 56 )`; 64 rounds are enough.
unfoldable pub pad_loop : ℕ → Sha1 → Sha1
unfolding update
pad_loop zero h = h
pad_loop (suc fuel) h =
    let rest = pad_loop fuel (update (0 ∷ []) h) in if h.count % 64 == 56 then h else rest

-- `len_be`: `bits & 0xFF` and `bits >>= 8`, from the last byte to the first.
unfoldable pub length_bytes : ℕ → ℕ → Bytes → Bytes
length_bytes zero bits be = be
length_bytes (suc n) bits be = length_bytes n (bits / 2 ^ 8) (bits % 256 ∷ be)

abbrev pub word_bytes : ℕ → Bytes
word_bytes w = (w / 2 ^ 24) % 256 ∷ (w / 2 ^ 16) % 256 ∷ (w / 2 ^ 8) % 256 ∷ w % 256 ∷ []

unfoldable pub digest : Sha1State → Bytes
digest s =
    word_bytes s.a ++ (word_bytes s.b ++ (word_bytes s.c ++ (word_bytes s.d ++ word_bytes s.e)))

unfoldable pub finalize : Sha1 → Bytes
unfolding update pad_loop length_bytes digest
finalize h =
    let bits = (h.count * 8) % 2 ^ 64 in
    let padded = pad_loop 64 (update (0x80 ∷ []) h) in
    digest (update (length_bytes 8 bits []) padded).state
