-- ===== src/Server/Connection/Bodies.antt =====
-- The part of `handle_connection` that reads a body takes what follows the headers on the stream.
use lundicpp.Base.{
  ℕ, zero, suc, ◌+◌, ◌-◌, ◌^◌, ◌≤◌, ◌≡◌, refl, sym, ap, ◌∙◌, Bytes, List, ◌++◌, Bool, true, false,
  Option, none, some, ltb, Bool-cases, if_cases, if◌then◌else◌, ◌⊎◌, length, take, drop, arith,
  append_assoc, length-append, length-drop, inl, inr, codes,
}
use mathlib.Core.Path.{subst}
use lundicpp.Base.Find.{take_prefix}
use lundicpp.Base.Decimal.{parsed, invalid_argument, result_out_of_range, from_chars}
use lundicpp.Engine.Buffer.{Buffer, ensure_write, receive, write_capacity}
use lundicpp.Engine.Buffer.Laws.{Holds, receive-Holds, ensure_write-Holds, ensure_write-room}
use lundicpp.Request.{Request}
use lundicpp.Request.Lookup.{find_header_ci}
use lundicpp.Response.{Response, text_response, set_header}
use lundicpp.Server.Delivery.{concat, size-length}
use lundicpp.Server.Connection.{
  ServerOptions, Surroundings, take_exactly, BodyRead, refused, read_whole, timed_out, read_rest,
  stale_views, with_stale_body, read_body,
}
use lundicpp.Server.Connection.Streams.{
  IsTaken, take_exactly-IsTaken, take-drop-take, drop_prefix, drop-drop,
}
use lundicpp.Server.Connection.Spec.{
  closing, IsSendable, Refused, no_number, large, missing, Body, without, whole,
}

-- What the buffer holds, read from the vector.
pub held_part :
    (n e : ℕ) (b : Buffer) (t : Bytes)
    → Holds b t
    → e + n ≤ length t
    → take n (drop e b.bytes) ≡ take n (drop e t)
held_part n e b t h le =
    take-drop-take n e b.size b.bytes (omega (arith, size-length b t h))
    ∙ ap (λ u. take n (drop e u)) h.held

pub refused-IsSendable :
    (opts : ServerOptions) (around : Surroundings) (n : ℕ) (req : Request) (rest : Bytes)
    (err : Response)
    → Refused opts around n req rest err
    → IsSendable (closing err)
unfolding set_header text_response
refused-IsSendable opts around n req rest err (no_number v e bad) = (refl, omega arith, omega arith)
refused-IsSendable opts around n req rest err (large v k behind e e' lt) =
    (refl, omega arith, omega arith)
refused-IsSendable opts around n req rest err (missing v k behind e e' le short) =
    (refl, omega arith, omega arith)

-- The body, behind headers of `e` bytes, with `t` in the buffer and `incoming` behind it.
module _ (opts : ServerOptions) (around : Surroundings) (n e : ℕ) (req : Request) (t : Bytes)
    (incoming : List Bytes) where
  abbrev pub rest_of : Bytes
  rest_of = drop e t ++ concat incoming

  abbrev pub IsBody : BodyRead → Type 0
  IsBody (refused err) = Refused opts around n req rest_of err
  IsBody (read_whole k seen b left) =
      Body opts around n req rest_of k seen
      × ((u : Bytes) × Holds b u × (drop (e + k) u ++ concat left ≡ drop k rest_of))

  module _ (v : Bytes) (k : ℕ) (behind : Bytes)
      (named : find_header_ci (codes "content-length") req.headers ≡ some v)
      (number : from_chars (2 ^ 64 - 1) v ≡ parsed k behind)
      (allowed : k ≤ opts.max_body_size) where
    read_whole-IsBody :
        (b : Buffer) (u : Bytes) (left : List Bytes) (kept : Request)
        → (kept ≡ req) ⊎ (kept ≡ stale_views (around.stale n) req)
        → Holds b u
        → rest_of ≡ drop e u ++ concat left
        → e + k ≤ length u
        → IsBody (read_whole k (with_stale_body (around.stale n) e k b kept) b left)
    unfolding with_stale_body
    read_whole-IsBody b u left kept views h same le =
        let here : take k (drop e b.bytes) ≡ take k rest_of =
          held_part k e b u h le
          ∙ (sym (take_prefix k (drop e u) (concat left) (omega (arith, length-drop e u)))
              ∙ ap (λ s. take k s) (sym same)) in
        let enough : k ≤ length rest_of =
          rw same (omega (arith, length-append (drop e u) (concat left), length-drop e u)) in
        let behind_it : drop (e + k) u ++ concat left ≡ drop k rest_of =
          ap (λ s. s ++ concat left) (drop-drop e k u)
          ∙ (sym (drop_prefix k (drop e u) (concat left) (omega (arith, length-drop e u)))
              ∙ ap (λ s. drop k s) (sym same)) in
        (
          subst (λ t. Body opts around n req rest_of k (record kept { body = around.stale n t }))
              (sym here) (whole v k behind kept named number allowed enough views),
          (u, h, behind_it),
        )

    read_rest-IsBody :
        (m : ℕ) (slow : Bool) (b : Buffer)
        → m ≡ k - (length t - e)
        → slow ≡ around.body_late n
        → Holds b t
        → e ≤ length t
        → IsBody (read_rest (around.stale n) slow e k m req b incoming)
    unfolding read_rest
    read_rest-IsBody zero slow b m_is slow_is h le =
        read_whole-IsBody b t incoming req (inl refl) h refl (omega arith)
    read_rest-IsBody (suc m) true b m_is slow_is h le =
        missing v k behind named number allowed (inl (sym slow_is))
    read_rest-IsBody (suc m) false b m_is slow_is h le =
        taken (take_exactly (suc m) incoming) (take_exactly-IsTaken (suc m) incoming)
      where
        kept : Request
        kept = if ltb (write_capacity b) (suc m) then stale_views (around.stale n) req else req

        views : (kept ≡ req) ⊎ (kept ≡ stale_views (around.stale n) req)
        views =
            if_cases (λ (q : Request). (q ≡ req) ⊎ (q ≡ stale_views (around.stale n) req))
              (ltb (write_capacity b) (suc m)) (λ _. inr refl) (λ _. inl refl)

        taken :
            (r : Option (Bytes × List Bytes))
            → IsTaken (suc m) incoming r
            → IsBody (elim r as (λ _. BodyRead) [
              | none ↦ refused timed_out
              | some (x, left) ↦
                  read_whole k
                    (with_stale_body (around.stale n) e k (receive x (ensure_write (suc m) b)) kept)
                    (receive x (ensure_write (suc m) b))
                    left
            ])
        taken none short = missing v k behind named number allowed (
            inr (
              omega
                (arith, short, m_is, length-append (drop e t) (concat incoming), length-drop e t)))
        taken (some (x, left)) (joined, size) =
            let grown = ensure_write-Holds (suc m) b t h in
            let room = ensure_write-room (suc m) b h.valid in
            let h' : Holds (receive x (ensure_write (suc m) b)) (t ++ x) =
              rw (← grown.held) (
                receive-Holds x (ensure_write (suc m) b) grown.valid (omega (arith, room, size))) in
            let same : rest_of ≡ drop e (t ++ x) ++ concat left =
              ap (λ s. drop e t ++ s) (sym joined)
              ∙ (sym (append_assoc (drop e t) x (concat left))
                  ∙ ap (λ s. s ++ concat left) (sym (drop_prefix e t x le))) in
            read_whole-IsBody _ (t ++ x) left kept views h' same
              (omega (arith, length-append t x, size, m_is))

  pub read_body-IsBody :
      (b : Buffer)
      → Holds b t
      → e ≤ length t
      → IsBody (read_body opts (around.stale n) (around.body_late n) e req b incoming)
  unfolding read_body
  read_body-IsBody b h le =
      let goal = IsBody (read_body opts (around.stale n) (around.body_late n) e req b incoming) in
      elim (find_header_ci (codes "content-length") req.headers)
          as (λ o. find_header_ci (codes "content-length") req.headers ≡ o → goal) [
            | none ↦ λ named.
                let same : e + 0 ≡ e = omega arith in
                rw (named, read_body) (without named, (t, h, rw same refl))
            | some v ↦ λ named.
                elim (from_chars (2 ^ 64 - 1) v) as (λ r. from_chars (2 ^ 64 - 1) v ≡ r → goal) [
                  | invalid_argument ↦
                      λ bad. rw (named, bad, read_body) (no_number v named (inl bad))
                  | result_out_of_range ↦
                      λ bad. rw (named, bad, read_body) (no_number v named (inr bad))
                  | parsed k behind ↦ λ number. elim (Bool-cases (ltb opts.max_body_size k)) [
                    | inl big ↦
                        rw (named, number, big, read_body)
                          (large v k behind named number (ground (arith, big)))
                    | inr fits ↦
                        let m_is : k - (b.size - e) ≡ k - (length t - e) =
                          omega (arith, size-length b t h) in
                        rw (named, number, fits, read_body)
                          (read_rest-IsBody v k behind named number (ground (arith, fits))
                            (k - (b.size - e)) (around.body_late n) b m_is refl h le)
                  ]
                ]
                  refl
          ]
        refl
