-- ===== src/Server/Connection/Heads.antt =====
-- The headers at the front of a text are unique, and what follows from that for a request without a body.
use lundicpp.Base.{
  ℕ, zero, suc, ◌≤◌, ◌<◌, ◌≡◌, refl, sym, ap, ◌∙◌, Bytes, ◌++◌, none, codes, length, take, drop,
  arith, inl, inr, Bool-cases, ltb,
}
use lundicpp.Base.Find.{take-length_append, drop-length_append}
use lundicpp.Engine.Scan.{is_end_at}
use lundicpp.Engine.Scan.First.{IsFirstEnd}
use lundicpp.Request.{Request}
use lundicpp.Request.Lookup.{find_header_ci}
use lundicpp.Response.{Response}
use lundicpp.Server.Connection.{ServerOptions, Surroundings}
use lundicpp.Server.Connection.Streams.{IsFirstEnd-append, same_test}
use lundicpp.Server.Connection.Spec.{Head, Refused, no_number, large, missing, Body, without, whole}

-- The first terminator is unique.
IsFirstEnd-unique :
    (s : Bytes) (a b : ℕ) → IsFirstEnd s 0 a → IsFirstEnd s 0 b → 0 < a → 0 < b → a ≡ b
IsFirstEnd-unique s a b (inl (e, _)) f la lb = absurd (omega (arith, e))
IsFirstEnd-unique s a b (inr e) (inl (e', _)) la lb = absurd (omega (arith, e'))
IsFirstEnd-unique s a b (inr (p, e, _, hit, none_in)) (inr (q, e', _, hit', none_in')) la lb =
    elim (Bool-cases (ltb p q)) [
      | inl less ↦ absurd (ground (arith, less, hit, none_in' p))
      | inr no_less ↦ elim (Bool-cases (ltb q p)) [
        | inl more_than ↦ absurd (ground (arith, more_than, hit', none_in q))
        | inr no_more ↦ ground (arith, no_less, no_more)
      ]
    ]

taken_front :
    (s h rest : Bytes) → s ≡ h ++ rest → (take (length h) s ≡ h) × (drop (length h) s ≡ rest)
taken_front s h rest e = (
  ap (λ t. take (length h) t) e ∙ take-length_append h rest,
  ap (λ t. drop (length h) t) e ∙ drop-length_append h rest,
)

pub Head-unique :
    (s h rest h' rest' : Bytes) → Head s h rest → Head s h' rest' → (h' ≡ h) × (rest' ≡ rest)
Head-unique s h rest h' rest' a b =
    let size : length h' ≡ length h =
      IsFirstEnd-unique s (length h') (length h) b.first a.first b.some_bytes a.some_bytes in
    let (ht, hd) = taken_front s h rest a.split in
    let (ht', hd') = taken_front s h' rest' b.split in
    (sym ht' ∙ (ap (λ k. take k s) size ∙ ht), sym hd' ∙ (ap (λ k. drop k s) size ∙ hd))

-- A text that has its first terminator at its end, and more behind it.
pub Head-append :
    (h rest : Bytes) → IsFirstEnd h 0 (length h) → 0 < length h → Head (h ++ rest) h rest
Head-append h rest first some_bytes = record {
  split = refl;
  first = longer (length h) first some_bytes;
  some_bytes = some_bytes;
}
  where
    longer : (n : ℕ) → IsFirstEnd h 0 n → 0 < n → IsFirstEnd (h ++ rest) 0 n
    longer zero first lt = absurd (omega arith)
    longer (suc n) first lt = IsFirstEnd-append h rest n first

-- A text without a terminator is no longer than the headers in front of it.
pub long_text :
    (s h rest t u : Bytes) → Head s h rest → s ≡ t ++ u → IsFirstEnd t 0 0 → length t < length h
long_text s h rest t u head e first = elim (Bool-cases (ltb (length t) (length h))) [
  | inl less ↦ ground (arith, less)
  | inr no_less ↦ absurd (inside head.first first (ground (arith, no_less)))
]
  where
    inside : IsFirstEnd s 0 (length h) → IsFirstEnd t 0 0 → length h ≤ length t → ⊥
    inside (inl (none_left, _)) f le = omega (arith, none_left, head.some_bytes)
    inside (inr a) (inr (q, past, _, _, _)) le = omega (arith, past)
    inside (inr (p, size, _, hit, _)) (inl (_, none_in)) le =
        let same = ap (λ v. is_end_at v p) e ∙ same_test t u p (omega (arith, size, le)) in
        let miss = none_in p (omega arith) (omega (arith, size, le)) in cc

pub empty_without_length :
    (opts : ServerOptions) (around : Surroundings) (n : ℕ) (req : Request) (rest : Bytes) (k : ℕ)
    (seen : Request)
    → find_header_ci (codes "content-length") req.headers ≡ none
    → Body opts around n req rest k seen
    → (k ≡ 0) × (seen ≡ req)
empty_without_length opts around n req rest k seen no_length (without e) = (refl, refl)
empty_without_length opts around n req rest k seen no_length
      (whole v _ behind kept e number allowed enough views) =
    absurd (cc)

pub refused_length :
    (opts : ServerOptions) (around : Surroundings) (n : ℕ) (req : Request) (rest : Bytes)
    (err : Response)
    → find_header_ci (codes "content-length") req.headers ≡ none
    → Refused opts around n req rest err
    → ⊥
refused_length opts around n req rest err no_length (no_number v e bad) = cc
refused_length opts around n req rest err no_length (large v k behind e number lt) = cc
refused_length opts around n req rest err no_length (missing v k behind e number le short) = cc
