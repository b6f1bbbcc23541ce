-- ===== src/Server/Connection/Answers.antt =====
-- What one round of `handle_connection` owes its meaning, and the responses that it writes.
use lundicpp.Base.{
  ℕ, zero, suc, ◌+◌, ◌<◌, ◌≡◌, refl, sym, ap, ◌∙◌, Bytes, List, [], ◌∷◌, ◌++◌, Bool, true, false,
  some, leb, if_cases, leb→le, length, take, drop, arith, append_assoc, append-nil, length-append,
  length-take, length-drop, take-append-drop,
}
use mathlib.Core.Path.{subst}
use lundicpp.Base.Find.{drop_all}
use lundicpp.Engine.Buffer.{Buffer, contents, clear}
use lundicpp.Engine.Buffer.Laws.{IsValid, Holds, clear-Holds, consume-Holds}
use lundicpp.Engine.Scan.First.{IsFirstEnd}
use lundicpp.Request.{Request, parse_headers}
use lundicpp.Response.{Response, set_header}
use lundicpp.Response.Wire.{wire, serialize-wire, Writes-serialize_into}
use lundicpp.Middleware.{returned, Next}
use lundicpp.Server.Delivery.{concat, size-length}
use lundicpp.Server.Connection.{
  ServerOptions, StreamRoutes, Surroundings, Ending, closed, Connection, Round, next, stop,
  stays_open, write_then, drop_consumed, send_error, refuse, send_response, respond,
}
use lundicpp.Server.Connection.Streams.{IsFirstEnd-append, IsFirstEnd-le}
use lundicpp.Server.Connection.Bodies.{held_part, refused-IsSendable}
use lundicpp.Server.Connection.Spec.{
  closing, Head, IsSendable, Refused, Handled, Run, refusal, unsent, last, more,
}

-- Behind the answer the buffer holds what follows the request.
drop_consumed-Holds :
    (consumed : ℕ) (b : Buffer) (t : Bytes)
    → Holds b t
    → Holds (drop_consumed consumed b) (drop consumed t)
unfolding drop_consumed
drop_consumed-Holds consumed b t h =
    if_cases (λ (b' : Buffer). Holds b' (drop consumed t)) (leb b.size consumed)
      (λ all.
        rw (drop_all consumed t (omega (arith, size-length b t h, leb→le b.size consumed all)))
          (clear-Holds b h.valid))
      (λ _. rw (← h.held) (consume-Holds consumed b h.valid))

-- The headers that the scan found in the buffer stand at the front of the stream.
pub held_front :
    (s t : Bytes) (m : ℕ) (b : Buffer) (later : Bytes)
    → Holds b t
    → IsFirstEnd t 0 (suc m)
    → t ++ later ≡ s
    → Head s (take (suc m) b.bytes) (drop (suc m) t ++ later)
held_front s t m b later held first joined =
    let e = suc m in
    let le = IsFirstEnd-le t e first in
    let same : take e b.bytes ≡ take e t = held_part e 0 b t held (omega (arith, le)) in
    let size : length (take e b.bytes) ≡ e = rw same (omega (arith, length-take e t, le)) in
    record {
      split =
          sym joined
          ∙ (ap (λ u. u ++ later) (sym (take-append-drop e t))
              ∙ (append_assoc (take e t) (drop e t) later
                  ∙ ap (λ u. u ++ (drop e t ++ later)) (sym same)));
      first = rw (size, ← joined) (IsFirstEnd-append t later m first);
      some_bytes = rw size (omega arith);
    }

module _ {ℓ} {W : Type ℓ} where
  -- The connection holds what is to come, `s`, in its buffer and in the chunks behind it.
  pub record Ready (c : Connection W) (s : Bytes) : Type ℓ where
    pub text : Bytes
    pub held : Holds c.buffer text
    pub sound : IsValid c.out_buf
    pub whole : text ++ concat c.incoming ≡ s

  -- A write ends the connection or goes on.
  pub write_then-cases {κ} :
      (P : ℕ → Round W → Type κ) (text : Bytes) (c : Connection W) (go : Connection W → Round W)
      → P 0 (stop closed c)
      → ((left : ℕ) → P (suc left) (go (record c { sent = c.sent ++ text ∷ []; writes = left })))
      → P c.writes (write_then text c go)
  unfolding write_then
  write_then-cases P text c go none_left some_left = by_writes c.writes
    where
      by_writes :
          (writes : ℕ)
          → P writes (elim writes as (λ _. Round W) [
            | zero ↦ stop closed c
            | suc left ↦ go (record c { sent = c.sent ++ text ∷ []; writes = left })
          ])
      by_writes zero = none_left
      by_writes (suc left) = some_left left

module _ {ℓ} {W : Type ℓ} (opts : ServerOptions) (routes : StreamRoutes) (around : Surroundings)
    (handler : Next W) where
  -- A round that began with `n`, `w`, `k`, `sent` and the text `s` to come.
  abbrev pub IsRound : ℕ → W → ℕ → List Bytes → Bytes → Round W → Type ℓ
  IsRound n w k sent s (stop e c) =
      (new : List Bytes) × (c.sent ≡ sent ++ new) × Run opts around routes handler n w k s new e
  IsRound n w k sent s (next b c) =
      (text : Bytes) × (rest : Bytes) × (c.sent ≡ sent ++ text ∷ [])
      × (length rest < length s)
      × Ready c rest
      × ((b ≡ false) → Run opts around routes handler n w k s (text ∷ []) closed)
      × ((b ≡ true)
          → (new : List Bytes) (e : Ending)
          → Run opts around routes handler c.request_count c.world c.writes rest new e
          → Run opts around routes handler n w k s (text ∷ new) e)

  module _ (n : ℕ) (w : W) (s h rest : Bytes) (head : Head s h rest) where
    send_error-IsRound :
        (err : Response) (c : Connection W)
        → Refused opts around (suc n) (parse_headers h) rest err
        → IsRound n w c.writes c.sent s
            (send_error (some (wire (closing err) (around.date (suc n)))) c)
    unfolding send_error
    send_error-IsRound err c r =
        write_then-cases (λ k. IsRound n w k c.sent s) _ c (stop closed)
          ([], sym (append-nil c.sent), unsent h rest head)
          (λ left. (_, refl, refusal h rest err head r))

    pub refuse-IsRound :
        (err : Response) (c : Connection W)
        → Refused opts around (suc n) (parse_headers h) rest err
        → IsRound n w c.writes c.sent s (refuse err (around.date (suc n)) c)
    unfolding refuse
    refuse-IsRound err c r =
        let (counted, status, size) =
          refused-IsSendable opts around (suc n) (parse_headers h) rest err r in
        rw (serialize-wire (closing err) (around.date (suc n)) counted status size)
          (send_error-IsRound err c r)

    shorter : (k : ℕ) → length (drop k rest) < length s
    shorter k =
        rw head.split (omega (arith, length-append h rest, length-drop k rest, head.some_bytes))

    -- Behind a handler that returned.
    module _ (e k : ℕ) (req' : Request) (c : Connection W) (u : Bytes)
        (count : c.request_count ≡ suc n) (held : Holds c.buffer u)
        (remains : drop (e + k) u ++ concat c.incoming ≡ drop k rest) where
      answered-Ready :
          (out_buf : Buffer) (sent : List Bytes) (left : ℕ)
          → IsValid out_buf
          → Ready
              (record c {
                out_buf = out_buf;
                sent = sent;
                writes = left;
                buffer = drop_consumed (e + k) c.buffer;
              })
              (drop k rest)
      answered-Ready out_buf sent left valid = record {
        text = drop (e + k) u;
        held = drop_consumed-Holds (e + k) c.buffer u held;
        sound = valid;
        whole = remains;
      }

      abbrev Sent : Bool → Bytes → Type ℓ
      Sent b text =
          ((b ≡ false)
            → (left : ℕ) → Run opts around routes handler n w (suc left) s (text ∷ []) closed)
          × ((b ≡ true)
              → (left : ℕ) (new : List Bytes) (e' : Ending)
              → Run opts around routes handler (suc n) c.world left (drop k rest) new e'
              → Run opts around routes handler n w (suc left) s (text ∷ new) e')

      send_response-IsRound :
          (b : Bool) (ob : Buffer)
          → IsValid ob
          → Sent b (contents ob)
          → IsRound n w c.writes c.sent s (send_response b (e + k) (some ob) c)
      unfolding send_response
      send_response-IsRound b ob valid (at_end, goes_on) =
          write_then-cases (λ k. IsRound n w k c.sent s) (contents ob) (record c { out_buf = ob })
            (λ c'. next b (record c' { buffer = drop_consumed (e + k) c'.buffer }))
            ([], sym (append-nil c.sent), unsent h rest head)
            (λ left. (
              contents ob,
              drop k rest,
              refl,
              shorter k,
              answered-Ready ob _ left valid,
              (λ same. at_end same left),
              (λ same new e' run. goes_on same left new e' (rw count at run)),
            ))

      pub respond-IsRound :
          (b : Bool) (res : Response)
          → IsValid c.out_buf
          → IsSendable res
          → (done : Handled opts around routes handler n w s
              (parse_headers h)
              (drop k rest)
              k
              (returned res, req', c.world))
          → stays_open opts around (suc n) (parse_headers h) ≡ b
          → IsRound n w c.writes c.sent s (respond b (around.date (suc n)) (e + k) res c)
      unfolding respond
      respond-IsRound true res valid (counted, status, size) done stays =
          let date = around.date (suc n) in
          let (ob, written, hb) =
            Writes-serialize_into res date counted status size (clear c.out_buf) []
              (clear-Holds c.out_buf valid) in
          rw written (
            send_response-IsRound true ob hb.valid (
              subst (λ t. Sent true t) (sym hb.held)
                ((λ no. absurd (cc)), (λ _ left new e' run. more done stays run))))
      respond-IsRound false res valid (counted, status, size) done stays =
          let date = around.date (suc n) in
          let (ob, written, hb) =
            Writes-serialize_into (closing res) date
              (unfold set_header in omega (arith, counted, length-append res.headers)) status size
              (clear c.out_buf) [] (clear-Holds c.out_buf valid) in
          rw written (
            send_response-IsRound false ob hb.valid (
              subst (λ t. Sent false t) (sym hb.held)
                ((λ _ left. last done stays), (λ no. absurd (cc)))))
