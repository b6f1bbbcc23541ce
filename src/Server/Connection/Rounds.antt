-- ===== src/Server/Connection/Rounds.antt =====
-- One round of `handle_connection` does what its meaning on one text says.
use lundicpp.Base.{
  ℕ, zero, suc, ◌+◌, ◌≤◌, ◌≡◌, refl, sym, Bytes, List, [], ◌++◌, Option, none, some, ◌==◌, if_cases,
  length, take, drop, arith, append-nil, is_empty,
}
use lundicpp.Engine.Buffer.{Buffer}
use lundicpp.Engine.Buffer.Laws.{IsValid, Holds}
use lundicpp.Engine.Scan.First.{IsFirstEnd}
use lundicpp.Request.{Request, parse_headers}
use lundicpp.Response.{Response}
use lundicpp.Middleware.{Outcome, returned, thrown, thrown_other, Next}
use lundicpp.Server.Read.{ReadResult, read_headers, read_headers_with_timeout}
use lundicpp.Server.Delivery.{concat, IsDelivered, read_headers-IsDelivered}
use lundicpp.Server.Connection.{
  ServerOptions, StreamRoutes, Surroundings, Ending, Connection, stop, take_over, stays_open,
  BodyRead, refused, read_whole, handled, with_body, normal_http, with_stream, on_headers, on_read,
  one_round,
}
use lundicpp.Server.Connection.Streams.{IsFirstEnd-le, pieces_read}
use lundicpp.Server.Connection.Bodies.{IsBody, read_body-IsBody}
use lundicpp.Server.Connection.Spec.{
  Head, SendsWhole, late, ended, long, garbled, Body, Handled, quiet, over, unsent, failed, escaped,
}
use lundicpp.Server.Connection.Answers.{
  held_front, Ready, IsRound, write_then-cases, refuse-IsRound, respond-IsRound,
}

module _ {ℓ} {W : Type ℓ} (opts : ServerOptions) (routes : StreamRoutes) (around : Surroundings)
    (handler : Next W) where
  module _ (sends : (req : Request) (w : W) → SendsWhole (handler req w)) where
    -- The headers are the first `e` bytes of `t`, which the buffer holds.
    module _ (s h t : Bytes) (e : ℕ) (c : Connection W)
        (head : Head s h (drop e t ++ concat c.incoming)) where
      abbrev n : ℕ
      n = c.request_count

      abbrev req_of : Request
      req_of = parse_headers h

      abbrev rest : Bytes
      rest = drop e t ++ concat c.incoming

      -- The connection behind `++request_count`.
      abbrev counted : Connection W
      counted = record c { request_count = suc c.request_count }

      module _ (no_stream : take_over routes (around.date (suc n)) req_of ≡ none) where
        -- What is known of the request when its handler has ended.
        abbrev outcome_of :
            (k : ℕ) (seen : Request) (w : W) (out : Outcome Response × Request × W)
            → Body opts around (suc n) req_of rest k seen
            → handler seen w ≡ out
            → Handled opts around routes handler n w s req_of (drop k rest) k out
        outcome_of k seen w out content result = record {
          h = h;
          after = rest;
          seen = seen;
          head = head;
          parse = refl;
          no_stream = no_stream;
          content = content;
          result = result;
          remains = refl;
        }

        handled-IsRound :
            (k : ℕ) (seen : Request) (b : Buffer) (incoming : List Bytes) (u : Bytes)
            → Body opts around (suc n) req_of rest k seen
            → Holds b u
            → IsValid c.out_buf
            → drop (e + k) u ++ concat incoming ≡ drop k rest
            → (out : Outcome Response × Request × W) → handler seen c.world ≡ out
            → SendsWhole out
            → IsRound opts routes around handler n c.world c.writes c.sent s (
                handled
                  (stays_open opts around (suc n) req_of)
                  (around.date (suc n))
                  (e + k)
                  out
                  (record counted { buffer = b; incoming = incoming }))
        unfolding handled
        handled-IsRound k seen b incoming u content held sound remains (returned res, req', w')
              result sendable =
            respond-IsRound opts routes around handler n c.world s h rest head e k req'
              (record counted { buffer = b; incoming = incoming; world = w' }) u refl held remains _
              res sound sendable (outcome_of k seen c.world _ content result) refl
        handled-IsRound k seen b incoming u content held sound remains (thrown what, req', w')
              result sendable =
            ([], sym (append-nil c.sent), failed (outcome_of k seen c.world _ content result))
        handled-IsRound k seen b incoming u content held sound remains (thrown_other, req', w')
              result sendable =
            ([], sym (append-nil c.sent), escaped (outcome_of k seen c.world _ content result))

        with_body-IsRound :
            (r : BodyRead)
            → IsValid c.out_buf
            → IsBody opts around (suc n) e req_of t c.incoming r
            → IsRound opts routes around handler n c.world c.writes c.sent s
                (with_body opts routes around handler e req_of r counted)
        unfolding with_body
        with_body-IsRound (refused err) sound r =
            refuse-IsRound opts routes around handler n c.world s h rest head err counted r
        with_body-IsRound (read_whole k seen b incoming) sound (content, (u, held, remains)) =
            handled-IsRound k seen b incoming u content held sound remains _ refl
              (sends seen c.world)

        normal_http-IsRound :
            Holds c.buffer t
            → e ≤ length t
            → IsValid c.out_buf
            → IsRound opts routes around handler n c.world c.writes c.sent s
                (normal_http opts routes around handler e req_of counted)
        unfolding normal_http
        normal_http-IsRound held le sound =
            with_body-IsRound _ sound
              (read_body-IsBody opts around (suc n) e req_of t c.incoming c.buffer held le)

      with_stream-IsRound :
          (r : Option (Ending × Bytes))
          → take_over routes (around.date (suc n)) req_of ≡ r
          → Holds c.buffer t
          → e ≤ length t
          → IsValid c.out_buf
          → IsRound opts routes around handler n c.world c.writes c.sent s
              (with_stream opts routes around handler e req_of r counted)
      unfolding with_stream
      with_stream-IsRound none no_stream held le sound = normal_http-IsRound no_stream held le sound
      with_stream-IsRound (some (ending, text)) taken held le sound =
          write_then-cases (λ k. IsRound opts routes around handler n c.world k c.sent s) text
            counted (stop ending) ([], sym (append-nil c.sent), unsent h rest head)
            (λ left. (_, refl, over h rest text ending head taken))

    -- The buffer holds `t`, which has its first terminator before byte `e`.
    on_headers-IsRound :
        (s t : Bytes) (m : ℕ) (c : Connection W)
        → Holds c.buffer t
        → IsFirstEnd t 0 (suc m)
        → IsValid c.out_buf
        → t ++ concat c.incoming ≡ s
        → IsRound opts routes around handler c.request_count c.world c.writes c.sent s
            (on_headers opts routes around handler (suc m) c)
    unfolding on_headers
    on_headers-IsRound s t m c held first sound joined =
        let e = suc m in
        let h = take e c.buffer.bytes in
        let rest = drop e t ++ concat c.incoming in
        let le = IsFirstEnd-le t e first in
        let head = held_front s t m c.buffer (concat c.incoming) held first joined in
        if_cases (IsRound opts routes around handler c.request_count c.world c.writes c.sent s)
          (is_empty (parse_headers h).method)
          (λ no_method. ([], sym (append-nil c.sent), quiet (garbled h rest head no_method)))
          (λ _. with_stream-IsRound s h t e c head _ refl held le sound)

    on_read-IsRound :
        (s t : Bytes) (c : Connection W) (r : ReadResult)
        → t ++ concat c.incoming ≡ s
        → IsValid c.out_buf
        → IsDelivered opts.max_header_size t c.incoming r
        → IsRound opts routes around handler c.request_count c.world c.writes c.sent s
            (on_read opts routes around handler r c)
    unfolding on_read
    on_read-IsRound s t c none joined sound first =
        ([], sym (append-nil c.sent), quiet (ended (rw (← joined) first)))
    on_read-IsRound s t c (some (zero, b, left)) joined sound (used, pieces, held, first, size) = (
      [],
      sym (append-nil c.sent),
      quiet (
          long (t ++ used) (concat left) (sym (pieces_read t s used c.incoming left pieces joined))
            first (size refl)),
    )
    on_read-IsRound s t c (some (suc m, b, left)) joined sound (used, pieces, held, first, size) =
        let joined' = pieces_read t s used c.incoming left pieces joined in
        on_headers-IsRound s (t ++ used) m (record c { buffer = b; incoming = left }) held first
          sound joined'

    -- The first headers: behind the timer or an exception the loop ends.
    timed-IsRound :
        (s : Bytes) (c : Connection W)
        → c.request_count ≡ 0
        → IsRound opts routes around handler c.request_count c.world c.writes c.sent s (
            on_read opts routes around handler
              (read_headers opts.max_header_size c.incoming c.buffer)
              c)
        → IsRound opts routes around handler c.request_count c.world c.writes c.sent s (
            on_read opts routes around handler
              (read_headers_with_timeout around.headers_late opts.max_header_size c.incoming
                c.buffer)
              c)
    unfolding read_headers_with_timeout on_read
    timed-IsRound s c count in_time =
        if_cases
          (λ (r : ReadResult).
            IsRound opts routes around handler c.request_count c.world c.writes c.sent s
              (on_read opts routes around handler r c))
          around.headers_late (λ is_late. ([], sym (append-nil c.sent), quiet (late count is_late)))
          (λ _. not_late (read_headers opts.max_header_size c.incoming c.buffer) in_time)
      where
        not_late :
            (r : ReadResult)
            → IsRound opts routes around handler c.request_count c.world c.writes c.sent s
                (on_read opts routes around handler r c)
            → IsRound opts routes around handler c.request_count c.world c.writes c.sent s (
                on_read opts routes around handler
                  (elim r as (λ _. ReadResult) [
                    | none ↦ some (0, c.buffer, [])
                    | some result ↦ some result
                  ])
                  c)
        not_late none h = h
        not_late (some result) h = h

    pub one_round-IsRound :
        (s : Bytes) (c : Connection W)
        → Ready c s
        → IsRound opts routes around handler c.request_count c.world c.writes c.sent s
            (one_round opts routes around handler c)
    unfolding one_round
    one_round-IsRound s c ready =
        let in_time = on_read-IsRound s ready.text c _ ready.whole ready.sound (
          read_headers-IsDelivered opts.max_header_size c.incoming c.buffer ready.text
            ready.held) in
        if_cases
          (λ (r : ReadResult).
            IsRound opts routes around handler c.request_count c.world c.writes c.sent s
              (on_read opts routes around handler r c))
          (c.request_count == 0) (λ first. timed-IsRound s c (ground (arith, first)) in_time)
          (λ _. in_time)
