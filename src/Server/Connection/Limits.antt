-- ===== src/Server/Connection/Limits.antt =====
-- How many responses one connection gets.
use lundicpp.Base.{ℕ, suc, ◌+◌, ◌≤◌, ◌≡◌, Bytes, List, true, length, some, arith}
use lundicpp.Base.Int.{pos}
use lundicpp.Request.{Request}
use lundicpp.Middleware.{Next}
use lundicpp.Server.Delivery.{concat}
use lundicpp.Server.Connection.{
  ServerOptions, StreamRoutes, Surroundings, Ending, Connection, hit_limit, stays_open,
  handle_connection,
}
use lundicpp.Server.Connection.Spec.{
  SendsWhole, Run, quiet, over, refusal, unsent, failed, escaped, last, more,
}
use lundicpp.Server.Connection.Runs.{handle_connection-Run}

below_limit :
    (opts : ServerOptions) (around : Surroundings) (m n : ℕ) (req : Request)
    → opts.max_keepalive_requests ≡ pos (suc m)
    → stays_open opts around (suc n) req ≡ true
    → suc n ≤ m
unfolding stays_open hit_limit
below_limit opts around m n req limit stays =
    let stays' = rw limit at stays in ground (arith, stays')

module _ {ℓ} {W : Type ℓ} (opts : ServerOptions) (routes : StreamRoutes) (around : Surroundings)
    (handler : Next W) where
  Run-bounded :
      (m n : ℕ) (w : W) (writes : ℕ) (s : Bytes) (sent : List Bytes) (e : Ending)
      → opts.max_keepalive_requests ≡ pos (suc m)
      → n ≤ m
      → Run opts around routes handler n w writes s sent e
      → length sent + n ≤ suc m
  Run-bounded m n w writes s sent e limit le (quiet silent) = omega arith
  Run-bounded m n w writes s sent e limit le (over h rest text e' head taken) = omega arith
  Run-bounded m n w writes s sent e limit le (refusal h rest err head r) = omega arith
  Run-bounded m n w writes s sent e limit le (unsent h rest head) = omega arith
  Run-bounded m n w writes s sent e limit le (failed done) = omega arith
  Run-bounded m n w writes s sent e limit le (escaped done) = omega arith
  Run-bounded m n w writes s sent e limit le (last done stays) = omega arith
  Run-bounded m n w writes s sent e limit le
        (more {rest = rest} {req = req} {sent = later} done stays run) =
      omega (
        arith,
        Run-bounded m (suc n) _ _ rest later e limit (below_limit opts around m n req limit stays)
            run,
      )

  -- With a limit on the requests of a connection, however many it pipelines, the loop ends and has sent no
  -- more responses than that, where each response of the handler can be written: as many headers as
  -- it counts, and sizes of 64 bits.
  pub handle_connection-bounded :
      (m : ℕ) (w : W) (incoming : List Bytes) (writes : ℕ)
      → ((req : Request) (w : W) → SendsWhole (handler req w))
      → opts.max_keepalive_requests ≡ pos (suc m)
      → (e : Ending) × (c : Connection W) × (handle_connection opts routes around handler w incoming
            writes
          ≡ some (e, c))
        × (length c.sent ≤ suc m)
  handle_connection-bounded m w incoming writes sends limit =
      let (e, c, ends, run) =
        handle_connection-Run opts routes around handler w incoming writes sends in
      (
        e,
        c,
        ends,
        omega (arith, Run-bounded m 0 w writes (concat incoming) c.sent e limit (omega arith) run),
      )
