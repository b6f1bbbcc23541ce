-- ===== src/Server/Connection/Pipelines.antt =====
-- Requests that are sent one behind the other are answered in order.
use lundicpp.Base.{
  ℕ, suc, ◌≤◌, ◌≡◌, refl, ap, ◌∙◌, Bytes, List, [], ◌∷◌, ◌++◌, Bool, true, false, some, length,
  arith, append_assoc, inl, inr,
}
use mathlib.Core.Path.{subst}
use lundicpp.Request.{Request, parse_headers}
use lundicpp.Response.{Response}
use lundicpp.Response.Wire.{wire}
use lundicpp.Middleware.{Outcome, returned, thrown, thrown_other, Next}
use lundicpp.Server.Delivery.{concat}
use lundicpp.Server.Connection.{
  ServerOptions, StreamRoutes, Surroundings, Ending, closed, Connection, stays_open,
  handle_connection,
}
use lundicpp.Server.Connection.Spec.{closing, SendsWhole, Run}
use lundicpp.Server.Connection.Requests.{Asked, Run-Answered}
use lundicpp.Server.Connection.Runs.{handle_connection-Run}

is_returned : Outcome Response → Bool
is_returned (returned res) = true
is_returned (thrown what) = false
is_returned thrown_other = false

response_in : Response → Outcome Response → Response
response_in other (returned res) = res
response_in other (thrown what) = other
response_in other thrown_other = other

module _ {ℓ} {W : Type ℓ} (opts : ServerOptions) (routes : StreamRoutes) (around : Surroundings)
    (handler : Next W) where
  -- Requests that the handler answers one after the other. The last asks to close, or the limit is
  -- reached or the server stopping; the others leave the connection open.
  pub data Pipeline : ℕ → W → List Bytes → List Response → Type ℓ where
    ends_with :
        {n : ℕ} {w w' : W} {text : Bytes} {res : Response}
        → Asked opts routes around handler n w text res w'
        → stays_open opts around (suc n) (parse_headers text) ≡ false
        → Pipeline n w (text ∷ []) (res ∷ [])
    goes_on :
        {n : ℕ} {w w' : W} {text : Bytes} {res : Response} {hs : List Bytes} {rs : List Response}
        → Asked opts routes around handler n w text res w'
        → stays_open opts around (suc n) (parse_headers text) ≡ true
        → Pipeline (suc n) w' hs rs
        → Pipeline n w (text ∷ hs) (res ∷ rs)

  -- The responses as they are sent from number `n + 1` on; the last one closes.
  abbrev pub wires : ℕ → List Response → List Bytes
  wires n [] = []
  wires n (res ∷ []) = wire (closing res) (around.date (suc n)) ∷ []
  wires n (res ∷ (res' ∷ rs)) = wire res (around.date (suc n)) ∷ wires (suc n) (res' ∷ rs)

  wires-goes_on :
      (n : ℕ) (res : Response) (rs : List Response) (w : W) (hs : List Bytes)
      → Pipeline (suc n) w hs rs
      → wire res (around.date (suc n)) ∷ wires (suc n) rs ≡ wires n (res ∷ rs)
  wires-goes_on n res [] w hs p = elim p [ ]
  wires-goes_on n res (r ∷ rs) w hs p = refl

  Run-Pipeline :
      (n : ℕ) (w : W) (hs : List Bytes) (rs : List Response) (after : Bytes) (k : ℕ)
      (new : List Bytes) (e : Ending)
      → around.headers_late ≡ false
      → length hs ≤ k
      → Pipeline n w hs rs
      → Run opts around routes handler n w k (concat hs ++ after) new e
      → (new ≡ wires n rs) × (e ≡ closed)
  Run-Pipeline n w [] rs after k new e on_time le p run = elim p [ ]
  Run-Pipeline n w (h ∷ hs) [] after k new e on_time le p run = elim p [ ]
  Run-Pipeline n w (h ∷ []) (res ∷ []) after k new e on_time le (ends_with {w' = w'} asked stays)
        run =
      let run' =
        subst (λ s. Run opts around routes handler n w k s new e) (append_assoc h [] after) run in
      elim (Run-Answered opts routes around handler n w w' h after res asked k new e on_time
        (omega arith) run') [
          | inl (_, sent, at_end) ↦ (sent, at_end)
          | inr (opens, _) ↦ absurd (cc)
        ]
  Run-Pipeline n w (h ∷ hs) (res ∷ rs) after k new e on_time le (goes_on {w' = w'} asked stays p)
        run =
      let run' =
        subst (λ s. Run opts around routes handler n w k s new e) (append_assoc h (concat hs) after)
          run in
      elim (Run-Answered opts routes around handler n w w' h (concat hs ++ after) res asked k new e
        on_time (omega arith) run') [
          | inl (closes, _, _) ↦ absurd (cc)
          | inr (_, (k', later, less, sent, run2)) ↦
              let (sent', at_end) =
                Run-Pipeline (suc n) w' hs rs after k' later e on_time (omega (arith, le, less)) p
                  run2 in
              (
                sent
                    ∙ (ap (λ u. wire res (around.date (suc n)) ∷ u) sent'
                        ∙ wires-goes_on n res rs w' hs p),
                at_end,
              )
        ]

  -- Requests that a client sends one behind the other, in whatever pieces the network
  -- brings them, are all answered, in their order and each before the handler gets the next; the last
  -- response closes the connection, and nothing behind it is looked at. The client sends the first
  -- headers in time and takes the responses, no headers are longer than the greatest
  -- size, and each response of the handler has as many headers as it counts.
  pub handle_connection-Pipeline :
      (w : W) (hs : List Bytes) (rs : List Response) (after : Bytes) (incoming : List Bytes)
      (writes : ℕ)
      → ((req : Request) (w : W) → SendsWhole (handler req w))
      → around.headers_late ≡ false
      → Pipeline 0 w hs rs
      → length hs ≤ writes
      → concat incoming ≡ concat hs ++ after
      → (c : Connection W) × (handle_connection opts routes around handler w incoming writes
          ≡ some (closed, c))
        × (c.sent ≡ wires 0 rs)
  handle_connection-Pipeline w hs rs after incoming writes sends on_time p le joined =
      let (e, c, ends, run) =
        handle_connection-Run opts routes around handler w incoming writes sends in
      let run' = subst (λ s. Run opts around routes handler 0 w writes s c.sent e) joined run in
      let (sent, at_end) = Run-Pipeline 0 w hs rs after writes c.sent e on_time le p run' in
      (c, rw ends (ap (λ t. some (t, c)) at_end), sent)
