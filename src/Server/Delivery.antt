-- ===== src/Server/Delivery.antt =====
-- `read_headers` finds the end of the headers however the network cuts the bytes.
use lundicpp.Base.{
  ℕ, zero, suc, ◌+◌, ◌≤◌, ◌<◌, ◌≡◌, refl, ap, Bytes, List, [], ◌∷◌, ◌++◌, true, false, none, some,
  ltb, leb, ltb→lt, sym, ◌∙◌, take, drop, take-append-drop, length-append, length-drop, arith,
  length, get_or, inl, inr, if_cases, leb→le, append_assoc, append-nil, length-take,
}
use lundicpp.Base.Find.{take_all}
use lundicpp.Engine.Buffer.{Buffer, ensure_write, receive, contents, write_capacity}
use lundicpp.Engine.Buffer.Laws.{Holds, receive-Holds, ensure_write-Holds, ensure_write-room}
use lundicpp.Engine.Scan.{is_end_at, find_header_end}
use lundicpp.Engine.Scan.First.{IsFirstEnd, IsScanned, find_header_end-IsFirstEnd}
pub use lundicpp.Server.Read.{concat}
use lundicpp.Server.Read.{ReadResult, left_behind, reads, read_loop, read_headers}

pub get_or-append : (s t : Bytes) (i : ℕ) → i < length s → get_or (s ++ t) i 0 ≡ get_or s i 0
get_or-append [] t i h = absurd (omega arith)
get_or-append (x ∷ s) t zero h = refl
get_or-append (x ∷ s) t (suc i) h = get_or-append s t i (omega arith)

-- Bytes behind a text make no terminator inside it.
still_none : (s t : Bytes) → IsScanned s (length s) → IsScanned (s ++ t) (length s)
unfolding is_end_at
still_none s t old q h =
    rw
      (
        get_or-append s t q (omega arith),
        get_or-append s t (q + 1) (omega arith),
        get_or-append s t (q + 2) (omega arith),
        get_or-append s t (q + 3) (omega arith),
      )
      (old q h)

-- What the caller gets, when the buffer held `s` before: the bytes that were read are in the buffer
-- behind `s`, and the end is past the first terminator of all that, or it is 0 and the text has the
-- greatest size; an exception comes only where no terminator is in the whole stream.
abbrev pub IsDelivered : ℕ → Bytes → List Bytes → ReadResult → Type 0
IsDelivered max_size s socket none = IsFirstEnd (s ++ concat socket) 0 0
IsDelivered max_size s socket (some (end, b, left)) =
    (used : Bytes) × (concat socket ≡ used ++ concat left)
    × Holds b (s ++ used)
    × IsFirstEnd (s ++ used) 0 end
    × ((end ≡ 0) → max_size ≤ length (s ++ used))

-- Reads after the first, which took `got`.
later :
    (max_size : ℕ) (s got : Bytes) (socket left : List Bytes) (r : ReadResult)
    → concat socket ≡ got ++ concat left
    → IsDelivered max_size (s ++ got) left r
    → IsDelivered max_size s socket r
later max_size s got socket left none e h = rw (e, ← append_assoc s got (concat left)) h
later max_size s got socket left (some (end, b, left')) e (used, e', held, first, large) = (
  got ++ used,
  e ∙ (ap (λ t. got ++ t) e' ∙ sym (append_assoc got used (concat left'))),
  rw append_assoc at held,
  rw append_assoc at first,
  rw append_assoc at large,
)

-- One read takes a part of the stream, and leaves fewer reads.
one_read :
    (room : ℕ) (chunk : Bytes) (socket : List Bytes)
    → 0 < room
    → (concat (chunk ∷ socket) ≡ take room chunk ++ concat (left_behind room chunk socket))
      × (reads (left_behind room chunk socket) < reads (chunk ∷ socket))
unfolding left_behind
one_read room chunk socket lt =
    if_cases
      (λ left.
        (concat (chunk ∷ socket) ≡ take room chunk ++ concat left)
        × (reads left < reads (chunk ∷ socket)))
      (ltb room (length chunk))
      (λ more. (
        ap (λ u. u ++ concat socket) (sym (take-append-drop room chunk))
            ∙ append_assoc (take room chunk) (drop room chunk) (concat socket),
        omega (
          arith,
          ltb→lt room (length chunk) more,
          length-append chunk (concat socket),
          length-append (drop room chunk) (concat socket),
          length-drop room chunk,
        ),
      ))
      (λ all. (
        ap (λ u. u ++ concat socket) (sym (take_all room chunk (ground (arith, all)))),
        omega (arith, length-append chunk (concat socket)),
      ))

pub size-length : (b : Buffer) (s : Bytes) → Holds b s → b.size ≡ length s
size-length b s h = rw (← h.held) (omega (arith, length-take b.size b.bytes, h.valid.within))

-- A scan that found nothing.
none_so_far : (s : Bytes) → IsFirstEnd s 0 0 → IsScanned s (length s)
none_so_far s (inl (_, n)) q h = n q (omega arith) (omega arith)
none_so_far s (inr (p, e, _, _, _)) q h = absurd (omega arith)

large_text :
    (max_size : ℕ) (b : Buffer) (s : Bytes)
    → Holds b s
    → leb max_size b.size ≡ true
    → max_size ≤ length s
large_text max_size b s h large = omega (arith, size-length b s h, leb→le max_size b.size large)

read_loop-IsDelivered :
    (fuel max_size n : ℕ) (socket : List Bytes) (b : Buffer) (s : Bytes)
    → reads socket ≤ fuel
    → n ≡ length s
    → Holds b s
    → IsFirstEnd s 0 0
    → IsDelivered max_size s socket (read_loop fuel max_size n socket b)
unfolding read_loop
read_loop-IsDelivered zero max_size n socket b s enough e h old = absurd (omega arith)
read_loop-IsDelivered (suc fuel) max_size n [] b s enough e h old =
    if_cases (IsDelivered max_size s []) (leb max_size b.size)
      (λ large. (
        [],
        refl,
        rw append-nil h,
        rw append-nil old,
        λ _. rw append-nil (large_text max_size b s h large),
      ))
      (λ _. rw append-nil old)
read_loop-IsDelivered (suc fuel) max_size n (chunk ∷ socket) b s enough e h old =
    let grown = ensure_write-Holds 4096 b s h in
    let room = write_capacity (ensure_write 4096 b) in
    let some_room : 4096 ≤ room = ensure_write-room 4096 b h.valid in
    let got = take room chunk in
    let left = left_behind room chunk socket in
    let b' = receive got (ensure_write 4096 b) in
    let (split, fewer) = one_read room chunk socket (omega (arith, some_room)) in
    let h' : Holds b' (s ++ got) = rw (← grown.held) (
      receive-Holds got (ensure_write 4096 b) grown.valid
        (omega (arith, length-take room chunk))) in
    let first : IsFirstEnd (s ++ got) 0 (find_header_end (contents b') n) =
      rw (h'.held, e)
        (find_header_end-IsFirstEnd (s ++ got) (length s) (still_none s got (none_so_far s old))) in
    if_cases (IsDelivered max_size s (chunk ∷ socket)) (leb max_size b.size)
      (λ large. (
        [],
        refl,
        rw append-nil h,
        rw append-nil old,
        λ _. rw append-nil (large_text max_size b s h large),
      ))
      (λ _.
        if_cases (IsDelivered max_size s (chunk ∷ socket)) (ltb 0 (find_header_end (contents b') n))
          (λ found. later max_size s got (chunk ∷ socket) left (some (_, b', left)) split (
            [],
            refl,
            rw append-nil h',
            rw append-nil first,
            λ zero. absurd (ground (arith, zero, found)),
          ))
          (λ missing.
            let zero : find_header_end (contents b') n ≡ 0 = ground arith in
            later max_size s got (chunk ∷ socket) left _ split (
              read_loop-IsDelivered fuel max_size b'.size left b' (s ++ got)
                (omega (arith, enough, fewer)) (size-length b' (s ++ got) h') h'
                (rw zero at first))))

empty_size : (n : ℕ) → ltb 0 n ≡ false → n ≡ 0
empty_size n h = ground arith

-- In whatever pieces the network brings the bytes that follow those already in the buffer, and however
-- many of them each read has room for, the end that is returned is past the first terminator of the
-- whole text read so far, which the buffer holds; it is 0 only where that text has the greatest size
-- and no terminator; and the read fails only where the whole stream has no terminator.
pub read_headers-IsDelivered :
    (max_size : ℕ) (socket : List Bytes) (b : Buffer) (s : Bytes)
    → Holds b s
    → IsDelivered max_size s socket (read_headers max_size socket b)
unfolding read_headers
read_headers-IsDelivered max_size socket b s h =
    let first : IsFirstEnd s 0 (find_header_end (contents b) 0) =
      rw h.held (find_header_end-IsFirstEnd s 0 (λ q le. absurd (omega arith))) in
    let go : IsFirstEnd s 0 0
        → IsDelivered max_size s socket (read_loop (reads socket) max_size b.size socket b) =
      λ n.
        read_loop-IsDelivered (reads socket) max_size b.size socket b s (omega arith)
          (size-length b s h) h n in
    if_cases (IsDelivered max_size s socket) (ltb 0 b.size)
      (λ _.
        if_cases (IsDelivered max_size s socket) (ltb 0 (find_header_end (contents b) 0))
          (λ found. (
            [],
            refl,
            rw append-nil h,
            rw append-nil first,
            λ zero. absurd (ground (arith, zero, found)),
          ))
          (λ missing.
            let zero : find_header_end (contents b) 0 ≡ 0 = ground arith in go (rw zero at first)))
      (λ empty.
        go (
          inl (refl, λ q _ lt. absurd (omega (arith, size-length b s h, empty_size b.size empty)))))
