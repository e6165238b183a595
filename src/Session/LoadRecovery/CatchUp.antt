-- ===== src/Session/LoadRecovery/CatchUp.antt =====
-- What a client that catches up reads of internal/session/load_recovery.go: the updates since its
-- cursor, without a hole.
use ferngeist_acp_gateway.Prelude.{
  ℕ, ◌+◌, ◌≤◌, ◌<◌, ◌≡◌, refl, sym, ap, ◌∙◌, Bool, true, Option, none, some, List, [], ◌∷◌, ◌++◌,
  String, by_text, by_number, arith, ltb, if◌then◌else◌, Bool-cases, inl, inr, ◌⊎◌, Result, ok, err,
}
use ferngeist_acp_gateway.Session.LoadRecovery.{
  HistoryFrame, SessionLog, boundary_of, drop_oldest, appended, append_history, record_update,
  mark_last, history_frame, buffer_block, Gap, collect, catch_up,
}
use ferngeist_acp_gateway.Session.LoadRecovery.Trimming.{trim-keeps}

-- The lines of the frames past a cursor.
unfoldable pub newer : ℕ → List HistoryFrame → List String
newer after [] = []
newer after (f ∷ l) =
    let rest = newer after l in if ltb after (boundary_of f) then f.line ∷ rest else rest

newer-append :
    (after : ℕ) (l : List HistoryFrame) (f : HistoryFrame)
    → after < boundary_of f
    → newer after (l ++ f ∷ []) ≡ newer after l ++ f.line ∷ []
unfolding newer
newer-append after [] f h = ground arith
newer-append after (g ∷ l) f h = ground (arith, newer-append after l f h)

newer-mark_last :
    (after : ℕ) (prompt_id : String) (l : List HistoryFrame)
    → newer after (mark_last prompt_id l) ≡ newer after l
unfolding newer mark_last
newer-mark_last after prompt_id [] = refl
newer-mark_last after prompt_id (f ∷ []) = refl
newer-mark_last after prompt_id (f ∷ g ∷ l) =
    ground (arith, newer-mark_last after prompt_id (g ∷ l))

-- A frame that a cursor lacks was evicted, or the history has exactly the lines past the cursor.
abbrev Holds : ℕ → List String → SessionLog → Type 0
Holds after lines log =
    (after ≤ log.seq) × ((after < log.evicted) ⊎ (newer after log.history ≡ lines))

drop_oldest-Holds :
    (after : ℕ) (lines : List String) (f : HistoryFrame) (rest : List HistoryFrame)
    (log : SessionLog)
    → log.history ≡ f ∷ rest
    → Holds after lines log
    → Holds after lines (drop_oldest f rest log)
unfolding drop_oldest newer
drop_oldest-Holds after lines f rest log e (le, inl gone) = (le, inl (ground arith))
drop_oldest-Holds after lines f rest log e (le, inr same) =
    elim (Bool-cases (ltb after (boundary_of f))) [
      | inl q ↦ (le, inl (ground arith))
      | inr q ↦
          let split : newer after log.history ≡ newer after rest =
            ap (newer after) e ∙ rw (q, newer) refl in
          (le, inr (sym split ∙ same))
    ]

append_history-Holds :
    (after : ℕ) (lines : List String) (line : String) (user : Bool) (seq : ℕ) (log : SessionLog)
    → after < boundary_of (history_frame line user seq log)
    → Holds after lines log
    → Holds after (lines ++ line ∷ []) (append_history line user seq log)
unfolding append_history
append_history-Holds after lines line user seq log past (le, held) =
    trim-keeps (Holds after (lines ++ line ∷ [])) (drop_oldest-Holds after (lines ++ line ∷ []))
      (λ l h. h) (appended line user seq log)
      (
        le,
        elim held [
          | inl gone ↦ inl gone
          | inr same ↦ inr (
              newer-append after log.history (history_frame line user seq log) past
              ∙ ap (λ l. l ++ line ∷ []) same)
        ],
      )

-- An update of the agent with its numbered line, and a block of a client's prompt.
pub data Event : Type 0 where
  updates : String → Bool → Option String → Event
  prompts : String → Option String → Event

unfoldable pub step : SessionLog → Event → SessionLog
unfolding record_update buffer_block
step log (updates line user stamped) = record_update line user stamped log
step log (prompts prompt_id line) = buffer_block prompt_id line log

unfoldable pub run : SessionLog → List Event → SessionLog
unfolding step
run log [] = log
run log (e ∷ es) = run (step log e) es

-- The lines that the calls buffer.
abbrev pub buffered : Event → List String
buffered (updates line user none) = line ∷ []
buffered (updates line user (some stamped)) = stamped ∷ []
buffered (prompts prompt_id none) = []
buffered (prompts prompt_id (some line)) = line ∷ []

unfoldable pub all_buffered : List Event → List String
all_buffered [] = []
all_buffered (e ∷ es) = buffered e ++ all_buffered es

append_nil : (l : List String) → l ++ [] ≡ l
append_nil [] = refl
append_nil (x ∷ l) = ap (λ t. x ∷ t) (append_nil l)

append_assoc : (k l m : List String) → (k ++ l) ++ m ≡ k ++ (l ++ m)
append_assoc [] l m = refl
append_assoc (x ∷ k) l m = ap (λ t. x ∷ t) (append_assoc k l m)

step-Holds :
    (after : ℕ) (lines : List String) (e : Event) (log : SessionLog)
    → Holds after lines log
    → Holds after (lines ++ buffered e) (step log e)
unfolding step record_update buffer_block
step-Holds after lines (updates line user none) log h =
    append_history-Holds after lines line user 0 log (ground arith) h
step-Holds after lines (updates line user (some stamped)) log h =
    append_history-Holds after lines stamped user (log.seq + 1) (record log { seq = log.seq + 1 })
      (ground arith) (omega (arith, h.0), h.1)
step-Holds after lines (prompts prompt_id none) log h =
    (h.0, elim h.1 [ inl gone ↦ inl gone | inr same ↦ inr (same ∙ sym (append_nil lines)) ])
step-Holds after lines (prompts prompt_id (some line)) log h =
    let added =
      append_history-Holds after lines line true (log.seq + 1) (record log { seq = log.seq + 1 })
        (ground arith) (omega (arith, h.0), h.1) in
    (
      added.0,
      elim added.1 [
        | inl gone ↦ inl gone
        | inr same ↦ inr (newer-mark_last after prompt_id _ ∙ same)
      ],
    )

run-Holds :
    (after : ℕ) (es : List Event) (lines : List String) (log : SessionLog)
    → Holds after lines log
    → Holds after (lines ++ all_buffered es) (run log es)
unfolding run all_buffered
run-Holds after [] lines log h =
    (h.0, elim h.1 [ inl gone ↦ inl gone | inr same ↦ inr (same ∙ sym (append_nil lines)) ])
run-Holds after (e ∷ es) lines log h =
    let (le, held) =
      run-Holds after es (lines ++ buffered e) (step log e) (step-Holds after lines e log h) in
    (
      le,
      elim held [
        | inl gone ↦ inl gone
        | inr same ↦ inr (same ∙ append_assoc lines (buffered e) (all_buffered es))
      ],
    )

collect_ok :
    (after : ℕ) (l : List HistoryFrame) (lines : List String)
    → collect after l ≡ ok lines
    → newer after l ≡ lines
unfolding collect newer
collect_ok after [] lines h = ground arith
collect_ok after (f ∷ l) lines h = elim (result-cases (collect after l)) [
  | inl (e, q) ↦ ground (arith, q)
  | inr (rest, q) ↦ ground (arith, q, collect_ok after l rest q)
]
  where
    result-cases :
        (r : Result Gap (List String))
        → ((e : Gap) × (r ≡ err e)) ⊎ ((a : List String) × (r ≡ ok a))
    result-cases (ok a) = inr (a, refl)
    result-cases (err e) = inl (e, refl)

catch_up_ok :
    (after : ℕ) (log : SessionLog) (lines : List String)
    → catch_up true after log ≡ ok lines
    → (log.evicted ≤ after) × (after ≤ log.seq) × (newer after log.history ≡ lines)
unfolding catch_up
catch_up_ok after log lines h = ground (arith, collect_ok after log.history lines)

-- A cursor that is answered without a gap, and again after any updates and prompts, is answered with
-- the lines that it was answered before and then those buffered since, each once and in order.
pub catch_up-run :
    (after : ℕ) (log : SessionLog) (es : List Event) (lines lines' : List String)
    → catch_up true after log ≡ ok lines
    → catch_up true after (run log es) ≡ ok lines'
    → lines' ≡ lines ++ all_buffered es
catch_up-run after log es lines lines' h h' =
    let (fresh, le, same) = catch_up_ok after log lines h in
    let (fresh', le', same') = catch_up_ok after (run log es) lines' h' in
    elim (run-Holds after es lines log (le, inr same)).1 [
      | inl gone ↦ absurd (omega arith)
      | inr held ↦ sym same' ∙ held
    ]
