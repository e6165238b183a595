-- ===== src/SessionTests.antt =====
-- Concrete runs of the prompts and turn results of internal/session, and the theorems about them at inputs that meet
-- their hypotheses.
use ferngeist_acp_gateway.Prelude.{
  ◌≤◌, ◌≡◌, refl, true, false, none, String, List, [], ◌∷◌, arith, by_text, length,
}
use ferngeist_acp_gateway.Prelude.Int.{pos}
use ferngeist_acp_gateway.Map
use ferngeist_acp_gateway.Session.TurnResults.{
  TurnResult, TurnResults, Call as ResultCall, stores, run as run_results, take_turn_result,
  owed_after, run-take_turn_result,
}
use ferngeist_acp_gateway.Session.Prompts.{
  new_delivered_prompts, max_delivered_prompts, contains_id, delete_all, drop_first, claim, forget,
  release, drop_duplicate_prompt,
}
use ferngeist_acp_gateway.Session.Prompts.Bounds.{
  Call, claims, releases, step, run, recorded, run-recorded_bounded,
}
use ferngeist_acp_gateway.Session.Prompts.Repeats.{
  claims_of, releases_of, claim-run-claim, release-claim,
}

-- Opens every operation, for the runs below.
prompt_runs : Unit {0}
unfolding new_delivered_prompts contains_id delete_all drop_first claim forget release
    drop_duplicate_prompt step run claims_of releases_of Map.empty Map.lookup Map.insert
prompt_runs = tt

abbrev chat : List Call
chat = claims "s1" "p2" ∷ claims "s2" "p1" ∷ releases "s1" "p2" ∷ claims "s1" "p3" ∷ []

two_recorded : recorded "s1" (run new_delivered_prompts chat) ≡ "p3" ∷ []
unfolding prompt_runs
two_recorded = refl

run-recorded_bounded_example :
    length (recorded "s1" (run new_delivered_prompts chat)) ≤ max_delivered_prompts
run-recorded_bounded_example = run-recorded_bounded chat "s1"

claim-run-claim_example :
    (claim "s1" "p1" (run (claim "s1" "p1" new_delivered_prompts).0 chat)).1 ≡ false
unfolding prompt_runs
claim-run-claim_example =
    claim-run-claim "s1" "p1" new_delivered_prompts chat (run-recorded_bounded [])
      (λ e. ground (arith, by_text.same_key_iff "p1" "")) refl (omega arith) refl

release-claim_example :
    (claim "s1" "p3" (release "s1" "p3" (run new_delivered_prompts chat))).1 ≡ true
release-claim_example = release-claim "s1" "p3" (run new_delivered_prompts chat)

abbrev ended : String → TurnResult String
ended stop_reason = record { stop_reason = stop_reason; usage = none; duration_ms = pos 12 }

abbrev no_results : TurnResults String
no_results = record { results = Map.empty }

abbrev missed : List (ResultCall String)
missed =
    stores "s1" (ended "refusal")
    ∷ stores "s1" (ended "end_turn")
    ∷ stores "s2" (ended "cancelled")
    ∷ []

run-take_turn_result_example :
    (take_turn_result "s1" (run_results no_results missed)).1
    ≡ owed_after "s1" (Map.lookup "s1" no_results.results) missed
run-take_turn_result_example = run-take_turn_result "s1" no_results missed
