-- ===== src/Server/Connection/Runs.antt =====
-- The loop of `handle_connection` does what its meaning on one text says.
use lundicpp.Base.{
  ℕ, zero, suc, ◌<◌, ◌≡◌, refl, ap, ◌∙◌, Bytes, List, [], ◌∷◌, ◌++◌, true, false, Option, some,
  length, arith, append_assoc,
}
use lundicpp.Engine.Buffer.Laws.{empty_buffer-Holds}
use lundicpp.Request.{Request}
use lundicpp.Middleware.{Next}
use lundicpp.Server.Delivery.{concat}
use lundicpp.Server.Connection.{
  ServerOptions, StreamRoutes, Surroundings, Ending, closed, Connection, Round, next, stop,
  one_round, loop, new_connection, handle_connection,
}
use lundicpp.Server.Connection.Spec.{SendsWhole, Run}
use lundicpp.Server.Connection.Answers.{Ready, IsRound}
use lundicpp.Server.Connection.Rounds.{one_round-IsRound}

module _ {ℓ} {W : Type ℓ} (opts : ServerOptions) (routes : StreamRoutes) (around : Surroundings)
    (handler : Next W) where
  module _ (sends : (req : Request) (w : W) → SendsWhole (handler req w)) where
    -- What the loop ends with, when it began with `c` and the text `s` to come.
    abbrev IsEnd : Connection W → Bytes → Option (Ending × Connection W) → Type ℓ
    IsEnd c s r =
        (e : Ending) × (c' : Connection W) × (new : List Bytes) × (r ≡ some (e, c'))
        × (c'.sent ≡ c.sent ++ new)
        × Run opts around routes handler c.request_count c.world c.writes s new e

    -- Behind the first round, with `again` for the others.
    loop_behind :
        (s : Bytes) (c : Connection W) (again : Connection W → Option (Ending × Connection W))
        → ((s' : Bytes) (c' : Connection W)
            → length s' < length s
            → Ready c' s'
            → IsEnd c' s' (again c'))
        → (r : Round W)
        → IsRound opts routes around handler c.request_count c.world c.writes c.sent s r
        → IsEnd c s (elim r as (λ _. Option (Ending × Connection W)) [
          | stop ending c' ↦ some (ending, c')
          | next true c' ↦ again c'
          | next false c' ↦ some (closed, c')
        ])
    loop_behind s c again each (stop e c') (new, sent, run) = (e, c', new, refl, sent, run)
    loop_behind s c again each (next true c') (text, s', sent, less, ready', at_end, goes_on) =
        let (e, c2, new, eq, sent', run) = each s' c' less ready' in
        (
          e,
          c2,
          text ∷ new,
          eq,
          sent' ∙ (ap (λ u. u ++ new) sent ∙ append_assoc c.sent (text ∷ []) new),
          goes_on refl new e run,
        )
    loop_behind s c again each (next false c') (text, s', sent, less, ready', at_end, goes_on) =
        (closed, c', text ∷ [], refl, sent, at_end refl)

    pub loop-IsEnd :
        (fuel : ℕ) (s : Bytes) (c : Connection W)
        → length s < fuel
        → Ready c s
        → IsEnd c s (loop opts routes around handler fuel c)
    unfolding loop
    loop-IsEnd zero s c enough ready = absurd (omega arith)
    loop-IsEnd (suc fuel) s c enough ready =
        loop_behind s c (loop opts routes around handler fuel)
          (λ s' c' less. loop-IsEnd fuel s' c' (omega (arith, enough, less)))
          (one_round opts routes around handler c)
          (one_round-IsRound opts routes around handler sends s c ready)

  -- Where each response of the handler can be written, as many headers as it counts and sizes of 64
  -- bits, the loop ends in whatever pieces the network brings the bytes, and the responses that were sent and the
  -- way it ends are those of a run over the whole text: the requests one after the other, each read
  -- up to its blank line with a body of the length that it gives, and each answered before the next is
  -- looked at. The handler sees the request as its views show it.
  pub handle_connection-Run :
      (w : W) (incoming : List Bytes) (writes : ℕ)
      → ((req : Request) (w : W) → SendsWhole (handler req w))
      → (e : Ending) × (c : Connection W) × (handle_connection opts routes around handler w incoming
            writes
          ≡ some (e, c))
        × Run opts around routes handler 0 w writes (concat incoming) c.sent e
  unfolding handle_connection
  handle_connection-Run w incoming writes sends =
      let ready : Ready (new_connection w incoming writes) (concat incoming) = record {
        text = [];
        held = empty_buffer-Holds 8192;
        sound = (empty_buffer-Holds 4096).valid;
        whole = refl;
      } in
      let (e, c, new, ends, sent, run) =
        loop-IsEnd sends (suc (length (concat incoming))) (concat incoming)
          (new_connection w incoming writes) (omega arith) ready in
      (e, c, ends, rw sent run)
