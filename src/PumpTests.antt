-- ===== src/PumpTests.antt =====
-- A concrete run of the client side of internal/session/pump.go, and the theorem about it there.
use ferngeist_acp_gateway.Prelude.{◌≡◌, refl, List, [], ◌∷◌}
use ferngeist_acp_gateway.Map
use ferngeist_acp_gateway.Session.Pump.{
  new_pump, push, queue_frames, queue_to, queue_bound, queue_client_reply, attach, bind, detach,
  write_queued, fail_write, end_drain,
}
use ferngeist_acp_gateway.Session.Pump.Lossless.{IsHeld}
use ferngeist_acp_gateway.Session.Pump.Delivery.{
  Event, sends, replies, attaches, binds, writes, step, meant, taken, run, all_meant, all_taken,
  run-IsHeld,
}

-- Opens every operation, for the runs below.
pump_runs : Unit {0}
unfolding new_pump push queue_frames queue_to queue_bound queue_client_reply attach bind detach
    write_queued fail_write end_drain step meant taken run all_meant all_taken Map.empty Map.lookup
    Map.insert
pump_runs = tt

-- A client binds, is sent frames, and is taken over by another.
abbrev takeover : List Event
takeover =
    attaches
    ∷ binds 10 1
    ∷ sends ("a" ∷ "b" ∷ [])
    ∷ writes 0
    ∷ replies 1 ("c" ∷ [])
    ∷ attaches
    ∷ replies 1 ("late" ∷ [])
    ∷ binds 10 1
    ∷ binds 11 2
    ∷ sends ("d" ∷ [])
    ∷ []

taken_first : all_taken 0 new_pump takeover ≡ "a" ∷ "b" ∷ []
unfolding pump_runs
taken_first = refl

meant_first : all_meant 0 new_pump takeover ≡ "a" ∷ "b" ∷ "c" ∷ []
unfolding pump_runs
meant_first = refl

meant_second : all_meant 1 new_pump takeover ≡ "d" ∷ []
unfolding pump_runs
meant_second = refl

run-IsHeld_example :
    IsHeld 0 (all_taken 0 new_pump takeover) (all_meant 0 new_pump takeover) (run new_pump takeover)
run-IsHeld_example = run-IsHeld 0 takeover
