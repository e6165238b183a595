-- ===== src/Api/Attempts/Lockout.antt =====
-- The lock on a source address that guesses codes.
use ferngeist_acp_gateway.Prelude.{
  ℕ, suc, ◌+◌, ◌-◌, Option-cases, ◌≤◌, ◌≡◌, ◌≢◌, refl, ap, ◌∙◌, some, String, by_text, arith, List,
  [], ◌∷◌, ◌==◌, Bool-cases, inl, inr, if◌then◌else◌, beq→eq,
}
use ferngeist_acp_gateway.Map
use ferngeist_acp_gateway.Map.{Map}
use ferngeist_acp_gateway.Api.Attempts.{
  source_key, pairing_attempt_key, Answer, paired, Request, Handlers, arrive, request_at,
  without_at, finish_found, finish,
}
use ferngeist_acp_gateway.Api.Attempts.Budget.{left, budget_max, is_locked-options}
use ferngeist_acp_gateway.Api.Attempts.Requests.{
  Event, step, count_waiting, guessed, guesses, peak, Within, AllWithin, count-at, arrives, answers,
}
use ferngeist_acp_gateway.Api.Attempts.Rooms.{
  record_answer-options, room_of, IsReady, room_less, room_full,
}
use ferngeist_acp_gateway.Api.Attempts.Moves.{
  arrive-room, arrive-IsReady, record_answer-away, own-room,
}

-- The answer for a waiting request.
finish-room :
    (cap start until later n : ℕ) (source : String) (answer : Answer) (q : Request) (h : Handlers)
    → request_at n h.waiting ≡ some q
    → start ≤ later
    → until ≤ start + h.tracker.lockout_window
    → 1 ≤ h.tracker.max_attempts
    → (source_key q.ip ≡ source → answer ≢ paired)
    → IsReady until source h
    → count_waiting source h.waiting ≤ cap
    → let after = finish_found n (some q) later answer h in
      (guessed source (some q) answer + room_of cap until source after ≤ room_of cap until source h)
      × IsReady until source after
unfolding finish_found
finish-room cap start until later n source answer q h found late w pos unpaired ready few =
    let key = pairing_attempt_key q.challenge_id in
    let count = count-at source n h.waiting q found in
    elim (Bool-cases (source_key q.ip == source)) [
      | inr away ↦
          let ne : source_key q.ip ≢ source =
            λ e. ground (arith, by_text.same_key_iff (source_key q.ip) source) in
          let same = record_answer-away source q.ip key later answer h.tracker ne in
          rw (away, same, (record_answer-options q.ip key later answer h.tracker).0)
            (
              omega (
                arith,
                room_less cap (left until source h.tracker) (left until source h.tracker)
                    (count_waiting source h.waiting) (count_waiting source (without_at n h.waiting))
                    (omega arith) (omega (arith, count)) (omega (arith, count, few)),
              ),
              λ some_waits state end f locked.
                  ready (omega (arith, count, some_waits)) state end f locked,
            )
      | inl own ↦
          let same = beq→eq (source_key q.ip) source own in
          let one : count_waiting source h.waiting
              ≡ suc (count_waiting source (without_at n h.waiting)) =
            count
            ∙ (ap (λ b. (if b then 1 else 0) + count_waiting source (without_at n h.waiting)) own
                ∙ omega arith) in
          let (spent, locks) =
            own-room cap start until later (count_waiting source h.waiting)
              (count_waiting source (without_at n h.waiting)) source q.ip key answer h.tracker
              (unpaired same) same late w pos (ready (omega (arith, one))) one few in
          rw own (spent, λ some_waits. locks)
    ]

-- Neither step changes the options.
step-options :
    (h : Handlers) (e : Event)
    → ((step h e).tracker.max_attempts ≡ h.tracker.max_attempts)
      × ((step h e).tracker.lockout_window ≡ h.tracker.lockout_window)
unfolding step arrive finish finish_found
step-options h (arrives q now) =
    is_locked-options q.ip (pairing_attempt_key q.challenge_id) now h.tracker
step-options h (answers n later answer) = elim (Option-cases (request_at n h.waiting)) [
  | inl z ↦ rw z (refl, refl)
  | inr (q, z) ↦
      rw z (record_answer-options q.ip (pairing_attempt_key q.challenge_id) later answer h.tracker)
]

answers-room :
    (cap start until later n : ℕ) (source : String) (answer : Answer) (h : Handlers)
    → Within start until source h (answers n later answer)
    → until ≤ start + h.tracker.lockout_window
    → 1 ≤ h.tracker.max_attempts
    → IsReady until source h
    → count_waiting source h.waiting ≤ cap
    → (guessed source (request_at n h.waiting) answer
          + room_of cap until source (finish n later answer h)
        ≤ room_of cap until source h)
      × IsReady until source (finish n later answer h)
unfolding Within finish
answers-room cap start until later n source answer h (late, unpaired) w pos ready few =
    elim (Option-cases (request_at n h.waiting)) [
      | inl z ↦ rw (z, finish_found) (omega arith, ready)
      | inr (q, z) ↦ rw z (
          finish-room cap start until later n source answer q h z late w pos (unpaired q z) ready
            few)
    ]

now-le-peak :
    (source : String) (h : Handlers) (es : List Event)
    → count_waiting source h.waiting ≤ peak source h es
unfolding peak
now-le-peak source h [] = omega arith
now-le-peak source h (e ∷ es) = ground arith

run-room :
    (cap start until : ℕ) (source : String) (h : Handlers) (es : List Event)
    → AllWithin start until source h es
    → until ≤ start + h.tracker.lockout_window
    → 1 ≤ h.tracker.max_attempts
    → IsReady until source h
    → peak source h es ≤ cap
    → guesses source h es ≤ room_of cap until source h
unfolding guesses peak AllWithin Within step finish
run-room cap start until source h [] all w pos ready few = omega arith
run-room cap start until source h (arrives q now ∷ es) (early, all) w pos ready few =
    let next = arrive q now h in
    let (same_max, same_window) = step-options h (arrives q now) in
    let later : peak source next es ≤ cap = ground arith in
    omega (
      arith,
      arrive-room cap until now source q h early pos
          (omega (arith, now-le-peak source next es, later)),
      run-room cap start until source next es all (omega (arith, same_window))
          (omega (arith, same_max)) (arrive-IsReady until now source q h ready) later,
    )
run-room cap start until source h (answers n at answer ∷ es) (within, all) w pos ready few =
    let next = step h (answers n at answer) in
    let (same_max, same_window) = step-options h (answers n at answer) in
    let later : peak source next es ≤ cap = ground arith in
    let (spent, ready') =
      answers-room cap start until at n source answer h within w pos ready
        (omega (arith, now-le-peak source h (answers n at answer ∷ es), few)) in
    omega (
      arith,
      spent,
      run-room cap start until source next es all (omega (arith, same_window))
          (omega (arith, same_max)) ready' later,
    )

-- Where at least one attempt is allowed and no request of an address waits: while a window of the lockout's
-- length lasts in which no device pairs from the address, at most maxAttempts wrong codes from it are
-- answered, and one more for each request beyond the first that waits for its answer at the same time,
-- whatever was recorded before, whatever other addresses do, and in whatever order the requests come past
-- the lock and are answered.
pub guesses-le :
    (start until : ℕ) (source : String) (h : Handlers) (es : List Event)
    → AllWithin start until source h es
    → until ≤ start + h.tracker.lockout_window
    → 1 ≤ h.tracker.max_attempts
    → count_waiting source h.waiting ≡ 0
    → guesses source h es ≤ h.tracker.max_attempts + (peak source h es - 1)
guesses-le start until source h es all w pos idle =
    let cap = suc (peak source h es - 1) in
    let t = h.tracker in
    omega (
      arith,
      run-room cap start until source h es all w pos (λ waits. absurd (omega (arith, idle, waits)))
          (omega arith),
      room_full cap (left until source t) t.max_attempts
          (budget_max t.max_attempts until (Map.lookup source t.ip_attempts) pos)
          (count_waiting source h.waiting) idle,
    )
