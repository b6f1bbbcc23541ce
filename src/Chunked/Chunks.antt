-- ===== src/Chunked/Chunks.antt =====
-- The chunks of a stream as a client takes them apart.
use lundicpp.Base.{
  ℕ, zero, suc, ◌+◌, ◌-◌, ◌*◌, ◌/◌, ◌%◌, ◌≤◌, ◌<◌, ◌≡◌, refl, ap, ◌∙◌, Bytes, List, [], ◌∷◌, ◌++◌,
  Bool, true, false, ◌&&◌, ◌||◌, Option, none, some, ltb, leb, ◌==◌, if◌then◌else◌, codes, length,
  take, drop, arith, length-append, append_assoc, append-nil, bytes_eq, Bool-cases, inl, inr,
}
use lundicpp.Base.Find.{take-length_append, drop-length_append}
use lundicpp.Socket.{Socket, Io, ◌>>◌, pure, async_write, >>=-some}
use lundicpp.Server.Delivery.{concat}
use lundicpp.Chunked.{hex_digit, hex_digits, hex, ChunkedWriter, new_writer, write, finish}

-- The value of a digit of base 16, in small letters.
abbrev pub is_hex : ℕ → Bool
is_hex c = (leb b'0' c && leb c b'9') || (leb b'a' c && leb c b'f')

abbrev pub hex_value : ℕ → ℕ
hex_value c = if leb c b'9' then c - b'0' else c - b'a' + 10

-- The digits at the front behind the number `n`, and what follows them.
unfoldable pub read_hex : Bytes → ℕ → ℕ × Bytes
read_hex [] n = (n, [])
read_hex (c ∷ s) n = if is_hex c then read_hex s (n * 16 + hex_value c) else (n, c ∷ s)

-- A chunk of `n` bytes behind its length: what it holds, and what follows its end of line.
abbrev pub chunk_of : ℕ × Bytes → Bytes × Bytes
chunk_of (n, s) = let behind = drop 2 s in (take n behind, drop 2 (drop n behind))

-- What a size and the text behind it stand for, with `again` for the chunks that follow. Behind the
-- size 0 the stream ends with two ends of line.
unfoldable pub read_sized : (Bytes → Option Bytes) → ℕ × Bytes → Option Bytes
unfolding bytes_eq
read_sized again size =
    let chunk = chunk_of size in
    let later = again chunk.1 in
    if size.0 == 0
    then if bytes_eq size.1 (codes "\r\n\r\n") then some [] else none
    else elim later [ none ↦ none | some t ↦ some (chunk.0 ++ t) ]

-- The chunks up to the one of length 0, on fuel for their number with that one.
unfoldable pub read_chunks : ℕ → Bytes → Option Bytes
unfolding read_hex read_sized
read_chunks zero s = none
read_chunks (suc fuel) s = read_sized (read_chunks fuel) (read_hex s 0)

read_digit :
    (d : ℕ) (s : Bytes) (n : ℕ) → d < 16 → read_hex (hex_digit d ∷ s) n ≡ read_hex s (n * 16 + d)
unfolding read_hex
read_digit d s n h =
    let is_one : is_hex (hex_digit d) ≡ true = ground arith in
    let same : hex_value (hex_digit d) ≡ d = ground arith in rw (is_one, same) refl

read_digits : (fuel n : ℕ) (s : Bytes) → n ≤ fuel → read_hex (hex_digits fuel n s) 0 ≡ read_hex s n
read_digits zero n s h =
    let same : 0 * 16 + n % 16 ≡ n = omega arith in
    read_digit (n % 16) s 0 (omega arith) ∙ ap (read_hex s) same
read_digits (suc fuel) n s h = elim (Bool-cases (ltb n 16)) [
  | inl small ↦
      let same : 0 * 16 + n ≡ n = omega arith in
      rw small (read_digit n s 0 (ground (arith, small)) ∙ ap (read_hex s) same)
  | inr large ↦
      let same : n / 16 * 16 + n % 16 ≡ n = omega arith in
      rw large (
        read_digits fuel (n / 16) (hex_digit (n % 16) ∷ s) (omega arith)
        ∙ (read_digit (n % 16) s (n / 16) (omega arith) ∙ ap (read_hex s) same))
]

hex_digits-append :
    (fuel n : ℕ) (a s : Bytes) → hex_digits fuel n a ++ s ≡ hex_digits fuel n (a ++ s)
hex_digits-append zero n a s = refl
hex_digits-append (suc fuel) n a s = elim (Bool-cases (ltb n 16)) [
  | inl small ↦ rw small refl
  | inr large ↦ rw large (hex_digits-append fuel (n / 16) (hex_digit (n % 16) ∷ a) s)
]

read_size : (n : ℕ) (s : Bytes) → read_hex (hex n ++ (13 ∷ s)) 0 ≡ (n, 13 ∷ s)
unfolding read_hex
read_size n s =
    ap (λ t. read_hex t 0) (hex_digits-append n n [] (13 ∷ s))
    ∙ read_digits n n (13 ∷ s) (omega arith)

abbrev pub chunk_text : Bytes → Bytes
chunk_text t = (hex (length t) ++ codes "\r\n") ++ (t ++ codes "\r\n")

abbrev with_rest : Bytes → Option Bytes → Option Bytes
with_rest t r = elim r [ none ↦ none | some u ↦ some (t ++ u) ]

sized_chunk :
    (again : Bytes → Option Bytes) (t s : Bytes)
    → (length t == 0) ≡ false
    → read_sized again (length t, 13 ∷ (10 ∷ (t ++ (13 ∷ (10 ∷ s))))) ≡ with_rest t (again s)
unfolding read_sized
sized_chunk again t s some_bytes =
    let front = take-length_append t (13 ∷ (10 ∷ s)) in
    let rest = ap (drop 2) (drop-length_append t (13 ∷ (10 ∷ s))) in
    rw some_bytes (
      ap (λ u. with_rest u (again (drop 2 (drop (length t) (t ++ (13 ∷ (10 ∷ s))))))) front
      ∙ ap (λ u. with_rest t (again u)) rest)

read_chunk :
    (fuel c : ℕ) (t s : Bytes)
    → read_chunks (suc fuel) (chunk_text (c ∷ t) ++ s) ≡ with_rest (c ∷ t) (read_chunks fuel s)
unfolding read_chunks
read_chunk fuel c t s =
    let size = hex (length (c ∷ t)) in
    let flat : chunk_text (c ∷ t) ++ s ≡ size ++ (13 ∷ (10 ∷ ((c ∷ t) ++ (13 ∷ (10 ∷ s))))) =
      append_assoc (size ++ codes "\r\n") ((c ∷ t) ++ codes "\r\n") s
      ∙ (append_assoc size (codes "\r\n") (((c ∷ t) ++ codes "\r\n") ++ s)
          ∙ ap (λ u. size ++ (13 ∷ (10 ∷ u))) (append_assoc (c ∷ t) (codes "\r\n") s)) in
    ap (read_chunks (suc fuel)) flat
    ∙ (ap (read_sized (read_chunks fuel)) (read_size (length (c ∷ t)) _)
        ∙ sized_chunk (read_chunks fuel) (c ∷ t) s (ground arith))

-- The calls of `write`, and what they send: nothing for an empty text.
unfoldable pub write_all : List Bytes → Io (Unit {0})
unfolding write
write_all [] = pure tt
write_all (t ∷ ts) = write t >> write_all ts

abbrev frames : List Bytes → List Bytes
frames [] = []
frames ([] ∷ ts) = frames ts
frames ((c ∷ t) ∷ ts) = chunk_text (c ∷ t) ∷ frames ts

abbrev pub socket : Bytes → List Bytes → ℕ → Socket
socket input output writes = record { input = input; output = output; writes = writes }

write_all-frames :
    (ts : List Bytes) (input : Bytes) (out : List Bytes) (w : ℕ)
    → write_all ts (socket input out (length (frames ts) + w))
      ≡ (some tt, socket input (out ++ frames ts) w)
unfolding write_all write async_write
write_all-frames [] input out w =
    let same : 0 + w ≡ w = omega arith in rw (same, append-nil out) refl
write_all-frames ([] ∷ ts) input out w = write_all-frames ts input out w
write_all-frames ((c ∷ t) ∷ ts) input out w =
    let count : suc (length (frames ts)) + w ≡ suc (length (frames ts) + w) = omega arith in
    rw count (
      write_all-frames ts input (out ++ chunk_text (c ∷ t) ∷ []) w
      ∙ ap (λ o. (some tt, socket input o w))
          (append_assoc out (chunk_text (c ∷ t) ∷ []) (frames ts)))

read-frames :
    (ts : List Bytes) (fuel : ℕ)
    → length ts < fuel
    → read_chunks fuel (concat (frames ts ++ codes "0\r\n\r\n" ∷ [])) ≡ some (concat ts)
unfolding read_chunks read_hex read_sized
read-frames ts zero h = absurd (omega arith)
read-frames [] (suc fuel) h = refl
read-frames ([] ∷ ts) (suc fuel) h = read-frames ts (suc fuel) (omega arith)
read-frames ((c ∷ t) ∷ ts) (suc fuel) h =
    read_chunk fuel c t (concat (frames ts ++ codes "0\r\n\r\n" ∷ []))
    ∙ ap (with_rest (c ∷ t)) (read-frames ts fuel (omega arith))

-- The calls of `finish` on a writer, one behind the other.
unfoldable pub finish_all : ℕ → ChunkedWriter → Io (Unit {0})
unfolding finish
finish_all zero w = pure tt
finish_all (suc n) w = let (w', sends) = finish w in sends >> finish_all n w'

finish_all-finished :
    (n : ℕ) (w : ChunkedWriter) (s : Socket) → w.finished ≡ true → finish_all n w s ≡ (some tt, s)
unfolding finish_all
finish_all-finished zero w s h = refl
finish_all-finished (suc n) w s h =
    let skipped : finish w ≡ (w, pure tt) = unfold finish in rw h refl in
    rw (ap (λ (p : ChunkedWriter × Io (Unit {0})). (p.1 >> finish_all n p.0) s) skipped)
      (finish_all-finished n w s h)

-- Any calls of `write` and then one or more calls of `finish` send one end of the stream behind the chunks:
-- a client that takes all that is sent apart, up to its last byte, gets the texts that were written, one behind
-- the other. The peer accepts as many writes as are sent, and `left` more.
pub write_all-read :
    (ts : List Bytes) (n : ℕ) (input : Bytes) (left : ℕ)
    → (sent : List Bytes) × ((write_all ts >> finish_all (suc n) new_writer)
          (socket input [] (length sent + left))
        ≡ (some tt, socket input sent left))
      × (read_chunks (suc (length ts)) (concat sent) ≡ some (concat ts))
unfolding finish_all finish async_write
write_all-read ts n input left =
    let sent = frames ts ++ codes "0\r\n\r\n" ∷ [] in
    let count : length sent + left ≡ length (frames ts) + suc left =
      omega (arith, length-append (frames ts) (codes "0\r\n\r\n" ∷ [])) in
    (
      sent,
      ap (λ k. (write_all ts >> finish_all (suc n) new_writer) (socket input [] k)) count
          ∙ (>>=-some (write_all ts) (λ _. finish_all (suc n) new_writer) _
                (write_all-frames ts input [] (suc left))
              ∙ finish_all-finished n _ (socket input sent left) refl),
      read-frames ts (suc (length ts)) (omega arith),
    )
