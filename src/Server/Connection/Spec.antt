-- ===== src/Server/Connection/Spec.antt =====
-- What `handle_connection` means: the requests of one text of bytes are answered one after the other.
-- Neither the buffers nor the chunks of the network are in it.
use lundicpp.Base.{
  ℕ, suc, ◌-◌, ◌^◌, ◌≤◌, ◌<◌, ◌≡◌, ◌⊎◌, Bytes, List, [], ◌∷◌, ◌++◌, true, false, none, some, length,
  take, drop, codes, is_empty,
}
use lundicpp.Base.Decimal.{parsed, invalid_argument, result_out_of_range, from_chars}
use lundicpp.Engine.Scan.First.{IsFirstEnd}
use lundicpp.Request.{Request, parse_headers}
use lundicpp.Request.Lookup.{find_header_ci}
use lundicpp.Response.{Response, set_header, to_uint64}
use lundicpp.Response.Wire.{wire, IsCounted}
use lundicpp.Middleware.{Outcome, returned, thrown, thrown_other, Next}
use lundicpp.Server.Connection.{
  ServerOptions, StreamRoutes, Surroundings, Ending, closed, abandoned, take_over, stale_views,
  stays_open, too_large, timed_out,
}

abbrev pub closing : Response → Response
closing res = set_header (codes "Connection") (codes "close") res

-- The headers at the front of a text, up to the first blank line.
pub record Head (s h rest : Bytes) : Type 0 where
  pub split : s ≡ h ++ rest
  pub first : IsFirstEnd s 0 (length h)
  pub some_bytes : 0 < length h

-- A response that can be written: as many headers as it counts, and sizes of 64 bits.
abbrev pub IsSendable : Response → Type 0
IsSendable r = IsCounted r × (to_uint64 r.status < 2 ^ 64) × (length r.body < 2 ^ 64)

module _ {ℓ} {W : Type ℓ} where
  abbrev pub SendsWhole : Outcome Response × Request × W → Type 0
  SendsWhole (returned res, req, w) = IsSendable res
  SendsWhole (thrown what, req, w) = Unit
  SendsWhole (thrown_other, req, w) = Unit

module _ (opts : ServerOptions) (around : Surroundings) where
  -- No request can be read, before the request of number `n + 1`.
  pub data Silent : ℕ → Bytes → Type 0 where
    late : {n : ℕ} {s : Bytes} → n ≡ 0 → around.headers_late ≡ true → Silent n s
    ended : {n : ℕ} {s : Bytes} → IsFirstEnd s 0 0 → Silent n s
    long :
        {n : ℕ} {s : Bytes} (t u : Bytes)
        → s ≡ t ++ u
        → IsFirstEnd t 0 0
        → opts.max_header_size ≤ length t
        → Silent n s
    garbled :
        {n : ℕ} {s : Bytes} (h rest : Bytes)
        → Head s h rest
        → is_empty (parse_headers h).method ≡ true
        → Silent n s

  -- The body of request `n` is not read.
  pub data Refused : ℕ → Request → Bytes → Response → Type 0 where
    no_number :
        {n : ℕ} {req : Request} {rest : Bytes} (v : Bytes)
        → find_header_ci (codes "content-length") req.headers ≡ some v
        → (from_chars (2 ^ 64 - 1) v ≡ invalid_argument)
          ⊎ (from_chars (2 ^ 64 - 1) v ≡ result_out_of_range)
        → Refused n req rest too_large
    large :
        {n : ℕ} {req : Request} {rest : Bytes} (v : Bytes) (k : ℕ) (behind : Bytes)
        → find_header_ci (codes "content-length") req.headers ≡ some v
        → from_chars (2 ^ 64 - 1) v ≡ parsed k behind
        → opts.max_body_size < k
        → Refused n req rest too_large
    missing :
        {n : ℕ} {req : Request} {rest : Bytes} (v : Bytes) (k : ℕ) (behind : Bytes)
        → find_header_ci (codes "content-length") req.headers ≡ some v
        → from_chars (2 ^ 64 - 1) v ≡ parsed k behind
        → k ≤ opts.max_body_size
        → (around.body_late n ≡ true) ⊎ (length rest < k)
        → Refused n req rest timed_out

  -- The body of request `n` is the first `k` bytes behind the headers, and the request is looked at as its
  -- views show it: the body through a view of a string that is gone, the headers as they were or
  -- through views of a vector that was reallocated.
  pub data Body : ℕ → Request → Bytes → ℕ → Request → Type 0 where
    without :
        {n : ℕ} {req : Request} {rest : Bytes}
        → find_header_ci (codes "content-length") req.headers ≡ none
        → Body n req rest 0 req
    whole :
        {n : ℕ} {req : Request} {rest : Bytes} (v : Bytes) (k : ℕ) (behind : Bytes) (kept : Request)
        → find_header_ci (codes "content-length") req.headers ≡ some v
        → from_chars (2 ^ 64 - 1) v ≡ parsed k behind
        → k ≤ opts.max_body_size
        → k ≤ length rest
        → (kept ≡ req) ⊎ (kept ≡ stale_views (around.stale n) req)
        → Body n req rest k (record kept { body = around.stale n (take k rest) })

  module _ {ℓ} {W : Type ℓ} (routes : StreamRoutes) (handler : Next W) where
    -- A request that the handler gets, as it sees it, and how the handler ends.
    pub record Handled (n : ℕ) (w : W) (s : Bytes) (req : Request) (rest : Bytes) (k : ℕ)
        (out : Outcome Response × Request × W) : Type ℓ where
      pub h : Bytes
      pub after : Bytes
      pub seen : Request
      pub head : Head s h after
      pub parse : parse_headers h ≡ req
      pub no_stream : take_over routes (around.date (suc n)) req ≡ none
      pub content : Body (suc n) req after k seen
      pub result : handler seen w ≡ out
      pub remains : drop k after ≡ rest

    -- From request `n + 1` on, with the shared state `w`, `writes` writes that the peer takes, and the
    -- text `s` to come: what is sent, and how it ends.
    pub data Run : ℕ → W → ℕ → Bytes → List Bytes → Ending → Type ℓ where
      quiet : {n : ℕ} {w : W} {writes : ℕ} {s : Bytes} → Silent n s → Run n w writes s [] closed
      over :
          {n : ℕ} {w : W} {writes : ℕ} {s : Bytes} (h rest text : Bytes) (e : Ending)
          → Head s h rest
          → take_over routes (around.date (suc n)) (parse_headers h) ≡ some (e, text)
          → Run n w (suc writes) s (text ∷ []) e
      refusal :
          {n : ℕ} {w : W} {writes : ℕ} {s : Bytes} (h rest : Bytes) (err : Response)
          → Head s h rest
          → Refused (suc n) (parse_headers h) rest err
          → Run n w (suc writes) s (wire (closing err) (around.date (suc n)) ∷ []) closed
      unsent : {n : ℕ} {w : W} {s : Bytes} (h rest : Bytes) → Head s h rest → Run n w 0 s [] closed
      failed :
          {n : ℕ} {w w' : W} {writes : ℕ} {s rest what : Bytes} {req req' : Request} {k : ℕ}
          → Handled n w s req rest k (thrown what, req', w')
          → Run n w writes s [] closed
      escaped :
          {n : ℕ} {w w' : W} {writes : ℕ} {s rest : Bytes} {req req' : Request} {k : ℕ}
          → Handled n w s req rest k (thrown_other, req', w')
          → Run n w writes s [] abandoned
      last :
          {n : ℕ} {w w' : W} {writes : ℕ} {s rest : Bytes} {req req' : Request} {k : ℕ}
          {res : Response}
          → (done : Handled n w s req rest k (returned res, req', w'))
          → stays_open opts around (suc n) req ≡ false
          → Run n w (suc writes) s (wire (closing res) (around.date (suc n)) ∷ []) closed
      more :
          {n : ℕ} {w w' : W} {writes : ℕ} {s rest : Bytes} {req req' : Request} {k : ℕ}
          {res : Response} {sent : List Bytes} {e : Ending}
          → (done : Handled n w s req rest k (returned res, req', w'))
          → stays_open opts around (suc n) req ≡ true
          → Run (suc n) w' writes rest sent e
          → Run n w (suc writes) s (wire res (around.date (suc n)) ∷ sent) e
