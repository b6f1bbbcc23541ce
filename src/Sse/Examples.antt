-- ===== src/Sse/Examples.antt =====
-- A stream of events, and one with a heartbeat in it.
use lundicpp.Base.{◌≡◌, refl, Bytes, List, [], ◌∷◌, some, codes, arith}
use lundicpp.Socket.{◌>>◌}
use lundicpp.Server.Delivery.{concat}
use lundicpp.Sse.{heartbeat, send}
use lundicpp.Sse.Events.{
  blank, read_events, Call, text_only, with_name, with_id, run_all, events, run_all-read,
}

abbrev calls : List Call
calls =
    text_only (codes "one")
    ∷ with_name (record blank { name = codes "tick"; text = codes "two" })
    ∷ with_id (record { id = codes "3"; name = []; text = codes "three" })
    ∷ []

run_all-read_example :
    (sent : List Bytes) × (run_all calls (record { input = []; output = []; writes = 4 })
      ≡ (some tt, record { input = []; output = sent; writes = 1 }))
    × (read_events (concat sent) [] blank ≡ events calls)
run_all-read_example = run_all-read calls [] 1 (ground arith)

-- The zero byte of a heartbeat stands at the start of the next line, so that the event behind it has no
-- text.
heartbeat_then_event :
    read_events
      (concat
        ((heartbeat >> send (codes "x")) (record { input = []; output = []; writes = 2 })).1.output)
      []
      blank
    ≡ blank ∷ blank ∷ []
unfolding read_events heartbeat send
heartbeat_then_event = refl
