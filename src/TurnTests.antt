-- ===== src/TurnTests.antt =====
-- Concrete runs of internal/turns, and the theorems about them at inputs that meet their
-- hypotheses.
use ferngeist_acp_gateway.Prelude.{
  ℕ, ◌≤◌, ◌≡◌, ◌≢◌, ◌⊎◌, ◌↔◌, refl, ap, true, false, none, some, List, [], ◌∷◌, arith, by_text,
  by_number, length, String, if◌then◌else◌,
}
use ferngeist_acp_gateway.Map
use ferngeist_acp_gateway.Turns.Types.{
  Status, Key, key_of, by_key, StopReasons, outcome, outcome-succeeded, state_succeeded,
  state_running, same_status, same_key_as, equal_items,
}
use ferngeist_acp_gateway.Turns.Keys.{present, OneEach, last_of}
use ferngeist_acp_gateway.Turns.Diff.{
  Snapshot, diff_turns, index_turns, upserts_of, removed_of, drop_keys, apply, diff_turns-apply,
}
use ferngeist_acp_gateway.Turns.Store.{
  new_store, max_outcomes, compare_age, oldest_of, oldest_locked, keep_latest, record_outcome,
  compare_keys, insert_sorted, sort_turns, resting, snapshot, finished,
}
use ferngeist_acp_gateway.Turns.Store.Outcomes.{
  IsSound as IsSoundStore, record_all, record_all-IsSound, record_outcome-lookup,
  record_outcome-others,
}
use ferngeist_acp_gateway.Turns.Store.Sorted.{snapshot_lem, snapshot-OneEach}
use ferngeist_acp_gateway.Turns.Feed.{
  new_feed, without, leave_device, forget_last, end_found, end_sub, enqueue, publish, publish_each,
  sample, serve_subscribe, limit_streams, activate, ready_found, serve_ready, serve_close, poke,
  window_elapsed, backstop, end_each, stop, take_from, receive,
}
use ferngeist_acp_gateway.Turns.Feed.Ending.{IsSound}
use ferngeist_acp_gateway.Turns.Feed.Bounds.{
  Event, subscribes, readies, pokes, elapses, step, run, run-IsSound,
}
use ferngeist_acp_gateway.Turns.Feed.Clients.{Same, held_by, apply_all}
use ferngeist_acp_gateway.Turns.Feed.Readers.{observe, watch, watch-IsCurrent}

-- Opens every operation, for the runs below.
turn_runs : Unit {0}
unfolding outcome same_status same_key_as equal_items present OneEach last_of diff_turns index_turns
    upserts_of removed_of drop_keys apply new_store compare_age oldest_of oldest_locked keep_latest
    record_outcome compare_keys insert_sorted sort_turns resting snapshot record_all new_feed
    without leave_device forget_last end_found end_sub enqueue publish publish_each sample
    serve_subscribe limit_streams activate ready_found serve_ready serve_close poke window_elapsed
    backstop end_each stop take_from receive step run observe watch apply_all Map.empty Map.lookup
    Map.insert Map.delete Map.size
turn_runs = tt

abbrev turn : String → String → ℕ → Status
turn session_id state started_at = record {
  agent_id = "agent";
  session_id = session_id;
  gateway_session_id = "g";
  runtime_id = "r";
  state = state;
  attention = [];
  started_at = started_at;
  changed_at = started_at;
  stop_reason = "";
}

abbrev two_turns : List Status
two_turns = turn "s1" state_succeeded 5 ∷ turn "s2" state_succeeded 7 ∷ []

abbrev later : Snapshot
later = record {
  observed_at = 20;
  turns = turn "s2" state_running 9 ∷ turn "s3" state_running 8 ∷ [];
}

diff_turns-apply_example :
    Map.lookup
      (key_of (turn "s2" "" 0))
      (apply (diff_turns two_turns later) (index_turns two_turns Map.empty))
    ≡ Map.lookup (key_of (turn "s2" "" 0)) (index_turns later.turns Map.empty)
unfolding turn_runs
diff_turns-apply_example =
    diff_turns-apply two_turns later (key_of (turn "s2" "" 0)) (refl, (refl, tt))

abbrev reasons : StopReasons
reasons = record {
  end_turn = "end_turn";
  cancelled = "cancelled";
  max_tokens = "max_tokens";
  max_turn_requests = "max_turn_requests";
  refusal = "refusal";
}

outcome-succeeded_example :
    (outcome reasons false "end_turn" ≡ state_succeeded)
    ↔ ((false ≡ false) × ("end_turn" ≡ reasons.end_turn))
outcome-succeeded_example = outcome-succeeded reasons false "end_turn"

record_all-IsSound_example : IsSoundStore (record_all new_store two_turns)
record_all-IsSound_example = record_all-IsSound two_turns

record_outcome-lookup_example :
    (kept : Status) × (Map.lookup
        (key_of (turn "s2" "" 6))
        (record_outcome (turn "s2" "" 6) (record_all new_store two_turns)).outcomes
      ≡ some kept)
    × (6 ≤ kept.started_at)
    × ((kept ≡ finished (turn "s2" "" 6))
        ⊎ (Map.lookup (key_of (turn "s2" "" 6)) (record_all new_store two_turns).outcomes
            ≡ some kept))
    × ((old : Status)
        → Map.lookup (key_of (turn "s2" "" 6)) (record_all new_store two_turns).outcomes ≡ some old
        → old.started_at ≤ kept.started_at)
record_outcome-lookup_example =
    record_outcome-lookup (turn "s2" "" 6) (record_all new_store two_turns)

record_outcome-others_example :
    (Map.lookup
        (key_of (turn "s1" "" 5))
        (record_outcome (turn "s3" "" 9) (record_all new_store two_turns)).outcomes
      ≡ some (turn "s1" state_succeeded 5))
    ⊎ ((max_outcomes ≤ Map.size (record_all new_store two_turns).outcomes)
        × (Map.lookup (key_of (turn "s3" "" 9)) (record_all new_store two_turns).outcomes ≡ none)
        × ((j : Key) (x : Status)
            → Map.lookup j (record_all new_store two_turns).outcomes ≡ some x
            → 5 ≤ x.changed_at))
unfolding turn_runs
record_outcome-others_example =
    record_outcome-others (turn "s3" "" 9) (record_all new_store two_turns)
      (key_of (turn "s1" "" 5)) (turn "s1" state_succeeded 5) (record_all-IsSound two_turns).0
      (λ e. distinct (ap (λ k. k.session_id) e)) refl
  where
    distinct : ◌≢◌ {A = String} "s1" "s3"
    distinct e = ground (arith, by_text.same_key_iff "s1" "s3")

snapshot_lem_example :
    last_of (key_of (turn "s2" "" 0)) (snapshot later.turns (record_all new_store two_turns)) none
    ≡ (if present (key_of (turn "s2" "" 0)) later.turns
        then last_of (key_of (turn "s2" "" 0)) later.turns none
        else Map.lookup (key_of (turn "s2" "" 0)) (record_all new_store two_turns).outcomes)
unfolding turn_runs
snapshot_lem_example =
    snapshot_lem later.turns (record_all new_store two_turns) (key_of (turn "s2" "" 0))
      (refl, (refl, tt)) (record_all-IsSound two_turns).0

snapshot-OneEach_example : OneEach (snapshot later.turns (record_all new_store two_turns))
unfolding turn_runs
snapshot-OneEach_example =
    snapshot-OneEach later.turns (record_all new_store two_turns) (refl, (refl, tt))
      (record_all-IsSound two_turns).0

abbrev stream : List Event
stream =
    subscribes false "phone" (record { observed_at = 10; turns = two_turns })
    ∷ readies 0
    ∷ pokes
    ∷ elapses later
    ∷ []

one_change : length (run new_feed stream).subs.entries ≡ 1
unfolding turn_runs
one_change = refl

run-IsSound_example : IsSound (run new_feed stream)
run-IsSound_example = run-IsSound stream

abbrev nothing_held : ℕ → Map.Map Key Status
nothing_held id = Map.empty

-- The subscription has a change queued, which its client has not taken.
watch-IsCurrent_example :
    Same (apply_all (diff_turns two_turns later ∷ []) (held_by two_turns)) (held_by later.turns)
unfolding turn_runs
watch-IsCurrent_example =
    watch-IsCurrent stream nothing_held 0
      (record {
        device_id = "phone";
        changes = diff_turns two_turns later ∷ [];
        pending = false;
        active = true;
        base = [];
        err = none;
      })
      ((refl, (refl, tt)), (tt, (tt, ((refl, (refl, tt)), tt)))) refl refl
