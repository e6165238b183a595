-- ===== src/Session/LoadRecovery/Forgetting.antt =====
-- `forgetPrompt` of internal/session/load_recovery.go: a message that the agent did not accept leaves
-- the buffer, and a client that may hold it is told to load the session again.
use ferngeist_acp_gateway.Prelude.{
  ℕ, ◌+◌, ◌≤◌, ◌<◌, ◌≡◌, Bool, true, false, ◌&&◌, ◌||◌, none, some, List, [], ◌∷◌, ◌++◌, String,
  by_text, by_number, arith, leb, if-cases, Bool-cases, inl, inr, ◌⊎◌, err,
}
use ferngeist_acp_gateway.Session.LoadRecovery.{
  HistoryFrame, CursorRange, SessionLog, drop_oldest, appended, append_history, record_update,
  buffer_block, is_of, is_answered, still_held, merge_ranges, invalidate_prompt, uncounted,
  remove_prompt, forget_prompt, gap, is_invalid, catch_up,
}
use ferngeist_acp_gateway.Session.LoadRecovery.Trimming.{trim-keeps}
use ferngeist_acp_gateway.Session.LoadRecovery.CatchUp.{Event, updates, prompts, step}

is_invalid-append :
    (after : ℕ) (rs : List CursorRange) (r : CursorRange)
    → is_invalid after (rs ++ r ∷ [])
      ≡ (is_invalid after rs || (leb r.from after && leb after r.through))
is_invalid-append after [] r = ground arith
is_invalid-append after (s ∷ rs) r = ground (arith, is_invalid-append after rs r)

merge_ranges-le : (seq : ℕ) (rs : List CursorRange) → (merge_ranges seq rs).1 ≤ seq
unfolding merge_ranges
merge_ranges-le seq [] = omega arith
merge_ranges-le seq (r ∷ rs) = ground (arith, merge_ranges-le seq rs)

-- A merge loses no cursor that the new range does not take.
merge_ranges-covers :
    (after seq : ℕ) (rs : List CursorRange)
    → is_invalid after rs ≡ true
    → (is_invalid after (merge_ranges seq rs).0 ≡ true) ⊎ ((merge_ranges seq rs).1 ≤ after)
unfolding merge_ranges
merge_ranges-covers after seq [] h = ground arith
merge_ranges-covers after seq (r ∷ rs) h = ground (arith, merge_ranges-covers after seq rs)

still_held-covers :
    (after evicted : ℕ) (rs : List CursorRange)
    → is_invalid after rs ≡ true
    → (after < evicted) ⊎ (is_invalid after (still_held evicted rs) ≡ true)
still_held-covers after evicted [] h = ground arith
still_held-covers after evicted (r ∷ rs) h = ground (arith, still_held-covers after evicted rs)

-- The cursor is not answered: it is before what was evicted, or in a rejected range.
abbrev pub IsStale : ℕ → SessionLog → Type 0
IsStale after log = (after < log.evicted) ⊎ (is_invalid after log.rejected ≡ true)

-- A stale cursor, none of the log's future.
abbrev pub IsLost : ℕ → SessionLog → Type 0
IsLost after log = (after ≤ log.seq) × IsStale after log

invalidate_prompt_self :
    (after seq : ℕ) (log : SessionLog)
    → seq ≤ after
    → after ≤ log.seq
    → IsLost after (invalidate_prompt seq log)
unfolding invalidate_prompt
invalidate_prompt_self after seq log ge le =
    let ranges = still_held log.evicted log.rejected in
    let merged = merge_ranges seq ranges in
    let added : CursorRange = record { from = merged.1; through = log.seq } in
    (le, inr (ground (arith, is_invalid-append after merged.0 added, merge_ranges-le seq ranges)))

invalidate_prompt-IsLost :
    (after seq : ℕ) (log : SessionLog) → IsLost after log → IsLost after (invalidate_prompt seq log)
unfolding invalidate_prompt
invalidate_prompt-IsLost after seq log (le, inl gone) = (le, inl gone)
invalidate_prompt-IsLost after seq log (le, inr bad) =
    let ranges = still_held log.evicted log.rejected in
    let merged = merge_ranges seq ranges in
    let added : CursorRange = record { from = merged.1; through = log.seq } in
    elim (still_held-covers after log.evicted log.rejected bad) [
      | inl gone ↦ (le, inl gone)
      | inr held ↦ elim (merge_ranges-covers after seq ranges held) [
        | inl kept ↦ (le, inr (ground (arith, is_invalid-append after merged.0 added)))
        | inr taken ↦ (le, inr (ground (arith, is_invalid-append after merged.0 added)))
      ]
    ]

remove_prompt-IsLost :
    (after : ℕ) (prompt_id : String) (l : List HistoryFrame) (log : SessionLog)
    → IsLost after log
    → IsLost after (remove_prompt prompt_id l log).0
unfolding remove_prompt
remove_prompt-IsLost after prompt_id [] log h = h
remove_prompt-IsLost after prompt_id (f ∷ l) log h =
    if-cases (λ (x : SessionLog × List HistoryFrame). IsLost after x.0) (is_of prompt_id f)
      (λ q.
        remove_prompt-IsLost after prompt_id l (invalidate_prompt f.seq (uncounted f log))
          (invalidate_prompt-IsLost after f.seq (uncounted f log) (h.0, h.1)))
      (λ q. remove_prompt-IsLost after prompt_id l log h)

-- A client at the cursor may hold a frame of the prompt.
unfoldable pub may_hold : ℕ → String → List HistoryFrame → Bool
may_hold after prompt_id [] = false
may_hold after prompt_id (f ∷ l) =
    (is_of prompt_id f && leb f.seq after) || may_hold after prompt_id l

remove_prompt-held :
    (after : ℕ) (prompt_id : String) (l : List HistoryFrame) (log : SessionLog)
    → may_hold after prompt_id l ≡ true
    → after ≤ log.seq
    → IsLost after (remove_prompt prompt_id l log).0
unfolding remove_prompt may_hold
remove_prompt-held after prompt_id [] log h le = absurd (ground arith)
remove_prompt-held after prompt_id (f ∷ l) log h le =
    if-cases (λ (x : SessionLog × List HistoryFrame). IsLost after x.0) (is_of prompt_id f)
      (λ q. elim (Bool-cases (leb f.seq after)) [
        | inl here ↦
            remove_prompt-IsLost after prompt_id l (invalidate_prompt f.seq (uncounted f log))
              (invalidate_prompt_self after f.seq (uncounted f log) (ground arith) le)
        | inr there ↦
            remove_prompt-held after prompt_id l (invalidate_prompt f.seq (uncounted f log))
              (ground arith) (unfold invalidate_prompt in le)
      ])
      (λ q. remove_prompt-held after prompt_id l log (ground arith) le)

forget_prompt-IsLost :
    (after : ℕ) (prompt_id : String) (log : SessionLog)
    → IsLost after log
    → IsLost after (forget_prompt prompt_id log)
unfolding forget_prompt
forget_prompt-IsLost after prompt_id log h =
    let (le, stale) = remove_prompt-IsLost after prompt_id log.history log h in
    if-cases (IsLost after) (is_answered prompt_id false log.history) (λ q. h)
      (λ q. (ground (arith, h.0), stale))

drop_oldest-IsLost :
    (after : ℕ) (f : HistoryFrame) (rest : List HistoryFrame) (log : SessionLog)
    → log.history ≡ f ∷ rest
    → IsLost after log
    → IsLost after (drop_oldest f rest log)
unfolding drop_oldest
drop_oldest-IsLost after f rest log e (le, inl gone) = (le, inl (ground arith))
drop_oldest-IsLost after f rest log e (le, inr bad) = (le, inr bad)

append_history-IsLost :
    (after : ℕ) (line : String) (user : Bool) (seq : ℕ) (log : SessionLog)
    → IsLost after log
    → IsLost after (append_history line user seq log)
unfolding append_history
append_history-IsLost after line user seq log h =
    trim-keeps (IsLost after) (drop_oldest-IsLost after) (λ l k. k) (appended line user seq log) h

-- An update or a prompt, or a prompt that the agent rejects.
pub data Call : Type 0 where
  adds : Event → Call
  forgets : String → Call

unfoldable pub run_calls : SessionLog → List Call → SessionLog
run_calls log [] = log
run_calls log (adds e ∷ cs) = run_calls (step log e) cs
run_calls log (forgets prompt_id ∷ cs) = run_calls (forget_prompt prompt_id log) cs

step-IsLost :
    (after : ℕ) (e : Event) (log : SessionLog) → IsLost after log → IsLost after (step log e)
unfolding step record_update buffer_block
step-IsLost after (updates line user none) log h = append_history-IsLost after line user 0 log h
step-IsLost after (updates line user (some stamped)) log h =
    append_history-IsLost after stamped user (log.seq + 1) (record log { seq = log.seq + 1 })
      (omega (arith, h.0), h.1)
step-IsLost after (prompts prompt_id none) log h = h
step-IsLost after (prompts prompt_id (some line)) log h =
    append_history-IsLost after line true (log.seq + 1) (record log { seq = log.seq + 1 })
      (omega (arith, h.0), h.1)

run_calls-IsLost :
    (after : ℕ) (cs : List Call) (log : SessionLog)
    → IsLost after log
    → IsLost after (run_calls log cs)
unfolding run_calls
run_calls-IsLost after [] log h = h
run_calls-IsLost after (adds e ∷ cs) log h =
    run_calls-IsLost after cs (step log e) (step-IsLost after e log h)
run_calls-IsLost after (forgets prompt_id ∷ cs) log h =
    run_calls-IsLost after cs (forget_prompt prompt_id log)
      (forget_prompt-IsLost after prompt_id log h)

-- Once a prompt was removed that no update follows, a client that may hold a message of it, since its
-- cursor was one of the log's and past the message, is answered with a gap, after any history of
-- updates, prompts and rejections.
pub forget_prompt-run-catch_up :
    (after : ℕ) (prompt_id : String) (same_epoch : Bool) (cs : List Call) (log : SessionLog)
    → is_answered prompt_id false log.history ≡ false
    → may_hold after prompt_id log.history ≡ true
    → after ≤ log.seq
    → catch_up same_epoch after (run_calls (forget_prompt prompt_id log) cs) ≡ err gap
unfolding forget_prompt catch_up
forget_prompt-run-catch_up after prompt_id same_epoch cs log unanswered held le =
    let lost = remove_prompt-held after prompt_id log.history log held le in
    let now : IsLost after (forget_prompt prompt_id log) =
      rw (unanswered, forget_prompt) (ground (arith, le), lost.1) in
    let ended = run_calls-IsLost after cs (forget_prompt prompt_id log) now in ground arith
