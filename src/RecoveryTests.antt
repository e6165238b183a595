-- ===== src/RecoveryTests.antt =====
-- Concrete runs of the buffered updates of internal/session/load_recovery.go, and the theorems about
-- them at inputs that meet their hypotheses.
use ferngeist_acp_gateway.Prelude.{
  ◌≡◌, refl, true, false, some, List, [], ◌∷◌, ◌++◌, arith, ok, err,
}
use ferngeist_acp_gateway.Session.LoadRecovery.{
  SessionLog, empty_log, drop_oldest, evict_over, evict_reply, trim, append_history, record_update,
  mark_last, buffer_block, gap, collect, catch_up, is_answered, merge_ranges, invalidate_prompt,
  remove_prompt, forget_prompt,
}
use ferngeist_acp_gateway.Session.LoadRecovery.CatchUp.{
  Event, updates, prompts, step, run, all_buffered, catch_up-run,
}
use ferngeist_acp_gateway.Session.LoadRecovery.Forgetting.{
  adds, forgets, run_calls, may_hold, forget_prompt-run-catch_up,
}
use ferngeist_acp_gateway.Session.LoadRecovery.Bounds.{IsBuffered, run_calls-IsBuffered}

-- Opens every operation, for the runs below.
recovery_runs : Unit {0}
unfolding drop_oldest evict_over evict_reply trim append_history record_update mark_last
    buffer_block collect catch_up is_answered merge_ranges invalidate_prompt remove_prompt
    forget_prompt step run all_buffered run_calls may_hold
recovery_runs = tt

abbrev opening : List Event
opening = prompts "7" (some "ask") ∷ updates "reply" false (some "reply 2") ∷ []

abbrev rest : List Event
rest = prompts "8" (some "more") ∷ updates "done" false (some "done 4") ∷ []

abbrev opened : SessionLog
opened = run empty_log opening

catch_up-run_example : "reply 2" ∷ "more" ∷ "done 4" ∷ [] ≡ ("reply 2" ∷ []) ++ all_buffered rest
unfolding recovery_runs
catch_up-run_example =
    catch_up-run 1 opened rest ("reply 2" ∷ []) ("reply 2" ∷ "more" ∷ "done 4" ∷ []) refl refl

-- The agent rejects the second prompt; a client that saw its message cannot catch up.
abbrev asked : SessionLog
asked = run opened (prompts "8" (some "more") ∷ [])

forget_prompt-run-catch_up_example :
    catch_up true 3 (run_calls (forget_prompt "8" asked) (adds (prompts "9" (some "again")) ∷ []))
    ≡ err gap
unfolding recovery_runs
forget_prompt-run-catch_up_example =
    forget_prompt-run-catch_up 3 "8" true (adds (prompts "9" (some "again")) ∷ []) asked refl refl
      (omega arith)

-- A client that did not see it reads on.
reads_on :
    catch_up true 2 (run_calls (forget_prompt "8" asked) (adds (prompts "9" (some "again")) ∷ []))
    ≡ ok ("again" ∷ [])
unfolding recovery_runs
reads_on = refl

run_calls-IsBuffered_example :
    IsBuffered (run_calls empty_log (adds (prompts "7" (some "ask")) ∷ forgets "7" ∷ []))
run_calls-IsBuffered_example =
    run_calls-IsBuffered (adds (prompts "7" (some "ask")) ∷ forgets "7" ∷ [])
