-- ===== src/Server/Connection/Streams.antt =====
-- What is still to come on a connection as one text: the buffer with the chunks behind it.
use lundicpp.Base.{
  ℕ, zero, suc, ◌+◌, ◌-◌, ◌≤◌, ◌<◌, ◌≡◌, refl, sym, ap, ◌∙◌, Bytes, List, [], ◌∷◌, ◌++◌, Option,
  none, some, ltb, if_cases, length, take, drop, arith, append_assoc, length-append, length-take,
  take-append-drop, inl, inr,
}
use lundicpp.Base.Find.{drop_all}
use lundicpp.Engine.Scan.{is_end_at}
use lundicpp.Engine.Scan.First.{IsFirstEnd, is_end_at-lt}
use lundicpp.Server.Delivery.{concat, get_or-append}
use lundicpp.Server.Connection.{take_exactly}

-- What `async_read` of `n` bytes means: the next `n` bytes of the stream, or it is too short.
abbrev pub IsTaken : ℕ → List Bytes → Option (Bytes × List Bytes) → Type 0
IsTaken n incoming none = length (concat incoming) < n
IsTaken n incoming (some (t, left)) = (t ++ concat left ≡ concat incoming) × (length t ≡ n)

later_chunk :
    (n : ℕ) (chunk : Bytes) (incoming : List Bytes) (r : Option (Bytes × List Bytes))
    → length chunk ≤ n
    → IsTaken (n - length chunk) incoming r
    → IsTaken n
        (chunk ∷ incoming)
        (elim r [ none ↦ none | some (t, left) ↦ some (chunk ++ t, left) ])
later_chunk n chunk incoming none le short = omega (arith, length-append chunk (concat incoming))
later_chunk n chunk incoming (some (t, left)) le (e, size) = (
  append_assoc chunk t (concat left) ∙ ap (λ u. chunk ++ u) e,
  omega (arith, length-append chunk t),
)

pub take_exactly-IsTaken :
    (n : ℕ) (incoming : List Bytes) → IsTaken n incoming (take_exactly n incoming)
take_exactly-IsTaken zero incoming = (refl, refl)
take_exactly-IsTaken (suc n) [] = omega arith
take_exactly-IsTaken (suc n) (chunk ∷ incoming) =
    if_cases (IsTaken (suc n) (chunk ∷ incoming)) (ltb (suc n) (length chunk))
      {x = some (take (suc n) chunk, drop (suc n) chunk ∷ incoming)}
      (λ part. (
        sym (append_assoc (take (suc n) chunk) (drop (suc n) chunk) (concat incoming))
            ∙ ap (λ u. u ++ concat incoming) (take-append-drop (suc n) chunk),
        ground (arith, part, length-take (suc n) chunk),
      ))
      (λ whole.
        later_chunk (suc n) chunk incoming (take_exactly (suc n - length chunk) incoming)
          (ground (arith, whole)) (take_exactly-IsTaken (suc n - length chunk) incoming))

-- A terminator stays the first one whatever follows.
pub same_test : (s t : Bytes) (q : ℕ) → q + 3 < length s → is_end_at (s ++ t) q ≡ is_end_at s q
unfolding is_end_at
same_test s t q h =
    rw
      (
        get_or-append s t q (omega arith),
        get_or-append s t (q + 1) (omega arith),
        get_or-append s t (q + 2) (omega arith),
        get_or-append s t (q + 3) (omega arith),
      )
      refl

pub IsFirstEnd-append :
    (s t : Bytes) (n : ℕ) → IsFirstEnd s 0 (suc n) → IsFirstEnd (s ++ t) 0 (suc n)
IsFirstEnd-append s t n (inl (e, none_in)) = absurd (omega (arith, e))
IsFirstEnd-append s t n (inr (p, e, le, hit, none_in)) =
    let inside = is_end_at-lt s p hit in
    inr (
      p,
      e,
      le,
      same_test s t p inside ∙ hit,
      λ q iq qp. same_test s t q (omega arith) ∙ none_in q iq qp,
    )

pub IsFirstEnd-le : (s : Bytes) (n : ℕ) → IsFirstEnd s 0 n → n ≤ length s
IsFirstEnd-le s n (inl (e, none_in)) = omega (arith, e)
IsFirstEnd-le s n (inr (p, e, le, hit, none_in)) = omega (arith, e, is_end_at-lt s p hit)

-- Inside the part that is kept.
pub take-drop-take :
    (n e k : ℕ) (s : Bytes) → e + n ≤ k → take n (drop e s) ≡ take n (drop e (take k s))
take-drop-take zero e k s h = refl
take-drop-take (suc n) zero zero s h = absurd (omega arith)
take-drop-take (suc n) zero (suc k) [] h = refl
take-drop-take (suc n) zero (suc k) (x ∷ s) h =
    ap (λ t. x ∷ t) (take-drop-take n zero k s (omega arith))
take-drop-take (suc n) (suc e) zero s h = absurd (omega arith)
take-drop-take (suc n) (suc e) (suc k) [] h = refl
take-drop-take (suc n) (suc e) (suc k) (x ∷ s) h = take-drop-take (suc n) e k s (omega arith)

pub take_inside : (n k : ℕ) (s : Bytes) → n ≤ k → take n s ≡ take n (take k s)
take_inside n k s h = take-drop-take n 0 k s (omega arith)

pub drop_prefix : (n : ℕ) (s t : Bytes) → n ≤ length s → drop n (s ++ t) ≡ drop n s ++ t
drop_prefix zero s t h = refl
drop_prefix (suc n) [] t h = absurd (omega arith)
drop_prefix (suc n) (x ∷ s) t h = drop_prefix n s t (omega arith)

pub drop-drop : (n k : ℕ) (s : Bytes) → drop (n + k) s ≡ drop k (drop n s)
drop-drop zero k s = let same : 0 + k ≡ k = omega arith in rw same refl
drop-drop (suc n) k [] = drop_all (suc n + k) [] (omega arith) ∙ sym (drop_all k [] (omega arith))
drop-drop (suc n) k (x ∷ s) =
    let same : suc n + k ≡ suc (n + k) = omega arith in rw same (drop-drop n k s)

-- Some bytes are moved into the text in front of them.
pub pieces_read :
    (t s used : Bytes) (incoming left : List Bytes)
    → concat incoming ≡ used ++ concat left
    → t ++ concat incoming ≡ s
    → (t ++ used) ++ concat left ≡ s
pieces_read t s used incoming left pieces joined =
    append_assoc t used (concat left) ∙ (ap (λ u. t ++ u) (sym pieces) ∙ joined)
