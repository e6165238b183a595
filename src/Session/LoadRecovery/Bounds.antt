-- ===== src/Session/LoadRecovery/Bounds.antt =====
-- After any history of calls of internal/session/load_recovery.go the buffer of a session is counted
-- right, and within its cap or a single frame.
use Prim.Native.String.{len}
use ferngeist_acp_gateway.Prelude.{
  ℕ, suc, ◌+◌, ◌≤◌, ◌≡◌, refl, ap, ◌∙◌, true, false, none, some, List, [], ◌∷◌, String, by_text,
  arith, All, length, if◌then◌else◌, if-cases, inl, inr, ◌⊎◌,
}
use ferngeist_acp_gateway.Session.LoadRecovery.{
  HistoryFrame, SessionLog, empty_log, max_load_history_bytes, trim, append_history, record_update,
  appended, buffer_block, is_of, is_answered, invalidate_prompt, uncounted, remove_prompt,
  forget_prompt,
}
use ferngeist_acp_gateway.Session.LoadRecovery.Trimming.{IsSmall, trim-IsSmall}
use ferngeist_acp_gateway.Session.LoadRecovery.CatchUp.{Event, updates, prompts, step}
use ferngeist_acp_gateway.Session.LoadRecovery.Sizes.{
  bytes, users, IsPrompt, IsCounted, append_history-IsCounted, buffer_block-IsCounted,
  length-mark_last,
}
use ferngeist_acp_gateway.Session.LoadRecovery.Forgetting.{Call, adds, forgets, run_calls}

-- The counters count the rest of the loop's list and what stands before it.
record IsLeft (x y : ℕ) (l : List HistoryFrame) (log : SessionLog) : Type 0 where
  size : log.hist_size ≡ bytes l + x
  counted : log.user_frames ≡ users l + y
  prompted : All IsPrompt l

uncounted-IsLeft :
    (x y : ℕ) (prompt_id : String) (f : HistoryFrame) (l : List HistoryFrame) (log : SessionLog)
    → is_of prompt_id f ≡ true
    → IsLeft x y (f ∷ l) log
    → IsLeft x y l (invalidate_prompt f.seq (uncounted f log))
unfolding invalidate_prompt bytes users
uncounted-IsLeft x y prompt_id f l log q h =
    let user : f.user ≡ true = h.prompted.0 (λ e.
      ground
        (arith, by_text.same_key_iff f.prompt_id prompt_id, by_text.same_key_iff prompt_id "")) in
    let size : log.hist_size ≡ len f.line + bytes l + x = h.size in
    let counted : log.user_frames ≡ suc (users l) + y =
      h.counted ∙ ap (λ b. (if b then suc (users l) else users l) + y) user in
    record { size = omega arith; counted = omega arith; prompted = h.prompted.1 }

-- What the loop keeps is counted.
abbrev IsKept : ℕ → ℕ → List HistoryFrame → SessionLog × List HistoryFrame → Type 0
IsKept x y l r = IsLeft x y r.1 r.0 × (length r.1 ≤ length l) × (bytes r.1 ≤ bytes l)

remove_prompt-IsKept :
    (x y : ℕ) (prompt_id : String) (l : List HistoryFrame) (log : SessionLog)
    → IsLeft x y l log
    → IsKept x y l (remove_prompt prompt_id l log)
unfolding remove_prompt bytes users
remove_prompt-IsKept x y prompt_id [] log h = (h, omega arith, omega arith)
remove_prompt-IsKept x y prompt_id (f ∷ l) log h =
    if-cases (IsKept x y (f ∷ l)) (is_of prompt_id f)
      (λ q.
        let (left, short, small) =
          remove_prompt-IsKept x y prompt_id l (invalidate_prompt f.seq (uncounted f log))
            (uncounted-IsLeft x y prompt_id f l log q h) in
        (left, omega (arith, short), omega (arith, small)))
      (λ q.
        let more : ℕ = if f.user then 1 else 0 in
        let (left, short, small) =
          remove_prompt-IsKept (len f.line + x) (more + y) prompt_id l log (record {
            size = omega (arith, h.size);
            counted = ground (arith, h.counted);
            prompted = h.prompted.1;
          }) in
        (
          record {
            size = omega (arith, left.size);
            counted = ground (arith, left.counted);
            prompted = (h.prompted.0, left.prompted);
          },
          omega (arith, short),
          omega (arith, small),
        ))

pub record IsBuffered (log : SessionLog) : Type 0 where
  pub small : (bytes log.history ≤ max_load_history_bytes) ⊎ (length log.history ≤ 1)
  pub counts : IsCounted log

IsBuffered-of : (log : SessionLog) → IsSmall log → IsCounted log → IsBuffered log
IsBuffered-of log s c = record {
  small = elim s [ inl le ↦ inl (omega (arith, c.size)) | inr one ↦ inr one ];
  counts = c;
}

forget_prompt-IsBuffered :
    (prompt_id : String) (log : SessionLog)
    → IsBuffered log
    → IsBuffered (forget_prompt prompt_id log)
unfolding forget_prompt
forget_prompt-IsBuffered prompt_id log h =
    let (left, short, small) = remove_prompt-IsKept 0 0 prompt_id log.history log (record {
      size = omega (arith, h.counts.size);
      counted = omega (arith, h.counts.counted);
      prompted = h.counts.prompted;
    }) in
    if-cases IsBuffered (is_answered prompt_id false log.history) (λ q. h)
      (λ q. record {
        small = elim h.small [
          | inl le ↦ inl (omega (arith, le, small))
          | inr one ↦ inr (omega (arith, one, short))
        ];
        counts = record {
          size = omega (arith, left.size);
          counted = omega (arith, left.counted);
          prompted = left.prompted;
        };
      })

step-IsBuffered : (e : Event) (log : SessionLog) → IsBuffered log → IsBuffered (step log e)
unfolding step record_update append_history
step-IsBuffered (updates line user none) log h =
    IsBuffered-of _ (trim-IsSmall (appended line user 0 log))
      (append_history-IsCounted line user 0 log h.counts)
step-IsBuffered (updates line user (some stamped)) log h =
    let numbered : SessionLog = record log { seq = log.seq + 1 } in
    IsBuffered-of _ (trim-IsSmall (appended stamped user (log.seq + 1) numbered)) (
      append_history-IsCounted stamped user (log.seq + 1) numbered
        (record { size = h.counts.size; counted = h.counts.counted; prompted = h.counts.prompted }))
step-IsBuffered (prompts prompt_id none) log h = unfold buffer_block in h
step-IsBuffered (prompts prompt_id (some line)) log h =
    let numbered : SessionLog = record log { seq = log.seq + 1 } in
    let added = trim (appended line true (log.seq + 1) numbered) in
    let small : IsSmall (buffer_block prompt_id (some line) log) =
      unfold buffer_block append_history in
      elim (trim-IsSmall (appended line true (log.seq + 1) numbered)) [
        | inl le ↦ inl le
        | inr one ↦ inr (omega (arith, one, length-mark_last prompt_id added.history))
      ] in
    IsBuffered-of (buffer_block prompt_id (some line) log) small
      (buffer_block-IsCounted prompt_id (some line) log h.counts)

run_calls_from-IsBuffered :
    (cs : List Call) (log : SessionLog) → IsBuffered log → IsBuffered (run_calls log cs)
unfolding run_calls
run_calls_from-IsBuffered [] log h = h
run_calls_from-IsBuffered (adds e ∷ cs) log h =
    run_calls_from-IsBuffered cs (step log e) (step-IsBuffered e log h)
run_calls_from-IsBuffered (forgets prompt_id ∷ cs) log h =
    run_calls_from-IsBuffered cs (forget_prompt prompt_id log)
      (forget_prompt-IsBuffered prompt_id log h)

-- After any history of updates, prompts and rejections, a session's buffer takes at most
-- maxLoadHistoryBytes or is a single frame, and its sizes and its user's messages are counted right.
pub run_calls-IsBuffered : (cs : List Call) → IsBuffered (run_calls empty_log cs)
unfolding bytes users
run_calls-IsBuffered cs = run_calls_from-IsBuffered cs empty_log (record {
  small = inr (omega arith);
  counts = record { size = refl; counted = refl; prompted = tt };
})
