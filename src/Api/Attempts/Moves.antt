-- ===== src/Api/Attempts/Moves.antt =====
-- What a request that arrives, and a recorded answer, leave of the guesses of an address.
use ferngeist_acp_gateway.Prelude.{
  ℕ, suc, ◌+◌, ltb, ltb→lt, ltb→le, ◌≤◌, ◌≡◌, ◌≢◌, refl, sym, ap, subst, ◌∙◌, false, some, String,
  by_text, arith, ◌∷◌, ◌==◌, Bool-cases, inl, inr, if◌then◌else◌, beq→eq,
}
use ferngeist_acp_gateway.Map
use ferngeist_acp_gateway.Map.{Map}
use ferngeist_acp_gateway.Api.Attempts.{
  AttemptState, PairingAttemptTracker, next_attempt_state, state_of, source_key, record_failure,
  is_locked, reset, pairing_attempt_key, Answer, record_answer, paired, code_mismatch, other,
  Request, Handlers, arrive,
}
use ferngeist_acp_gateway.Api.Attempts.Budget.{
  left, is_locked-ip_attempts, is_locked-options, next-budget, LocksPast, budget_free,
  next-LocksPast, next-locked, attempt_locked-some, budget,
}
use ferngeist_acp_gateway.Api.Attempts.Requests.{count_waiting, mismatches}
use ferngeist_acp_gateway.Api.Attempts.Rooms.{
  record_failure_self, record_answer-options, is_locked-left, is_locked-free, room, room_of,
  IsReady, free-budget, room_less, room_free, room_guess, room_locked,
}

-- A request of the address comes past the test only where a guess is left.
pub past-free :
    (source ip key : String) (now until : ℕ) (t : PairingAttemptTracker)
    → 1 ≤ t.max_attempts
    → source_key ip ≡ source
    → (is_locked ip key now t).1 ≡ false
    → 1 ≤ left until source (is_locked ip key now t).0
past-free source ip key now until t pos own h =
    subst (λ k. 1 ≤ left until k (is_locked ip key now t).0) own
      (free-budget (is_locked ip key now t).0.max_attempts until
        (Map.lookup (source_key ip) (is_locked ip key now t).0.ip_attempts)
        (omega (arith, (is_locked-options ip key now t).0))
        (λ state f. is_locked-free ip key now t state h f))

pub is_locked-some :
    (source ip key : String) (now : ℕ) (t : PairingAttemptTracker) (state : AttemptState)
    → Map.lookup source (is_locked ip key now t).0.ip_attempts ≡ some state
    → Map.lookup source t.ip_attempts ≡ some state
is_locked-some source ip key now t state f =
    attempt_locked-some source (source_key ip) now t.ip_attempts state
      (ap (λ m. Map.lookup source m) (sym (is_locked-ip_attempts ip key now t)) ∙ f)

pub arrive-room :
    (cap until now : ℕ) (source : String) (q : Request) (h : Handlers)
    → now ≤ until
    → 1 ≤ h.tracker.max_attempts
    → count_waiting source (arrive q now h).waiting ≤ cap
    → room_of cap until source (arrive q now h) ≤ room_of cap until source h
unfolding arrive count_waiting
arrive-room cap until now source q h early pos few =
    let key = pairing_attempt_key q.challenge_id in
    let less = is_locked-left source q.ip key now until h.tracker early pos in
    elim (Bool-cases (is_locked q.ip key now h.tracker).1) [
      | inl locked ↦ rw locked (
          room_less cap _ _ _ _ less (omega arith) (
            subst (λ w. count_waiting source w ≤ cap)
              (ap (λ b. if b then h.waiting else q ∷ h.waiting) locked) few))
      | inr past ↦ elim (Bool-cases (source_key q.ip == source)) [
        | inl own ↦ room_free cap _ _ _ _ less (
            past-free source q.ip key now until h.tracker pos (beq→eq (source_key q.ip) source own)
              past)
        | inr away ↦
            let same : count_waiting source (arrive q now h).waiting
                ≡ count_waiting source h.waiting =
              ap (λ b. count_waiting source (if b then h.waiting else q ∷ h.waiting)) past
              ∙ ap (λ b. (if b then 1 else 0) + count_waiting source h.waiting) away
              ∙ omega arith in
            room_less cap _ _ _ _ less (omega (arith, same)) few
      ]
    ]

pub arrive-IsReady :
    (until now : ℕ) (source : String) (q : Request) (h : Handlers)
    → IsReady until source h
    → IsReady until source (arrive q now h)
unfolding arrive count_waiting
arrive-IsReady until now source q h ready some_waits state end f locked =
    let key = pairing_attempt_key q.challenge_id in
    let before = is_locked-some source q.ip key now h.tracker state f in
    elim (Bool-cases (is_locked q.ip key now h.tracker).1) [
      | inl yes_locked ↦ ready (rw yes_locked at some_waits) state end before locked
      | inr past ↦ elim (Bool-cases (source_key q.ip == source)) [
        | inl own ↦
            let same = beq→eq (source_key q.ip) source own in
            absurd (
              ground (
                arith,
                is_locked-free q.ip key now h.tracker state past (
                    ap (λ k. Map.lookup k (is_locked q.ip key now h.tracker).0.ip_attempts) same
                    ∙ f),
              ))
        | inr away ↦ ready (omega (arith, rw (past, away) at some_waits)) state end before locked
      ]
    ]

pub record_answer-away :
    (source ip key : String) (later : ℕ) (answer : Answer) (t : PairingAttemptTracker)
    → source_key ip ≢ source
    → Map.lookup source (record_answer ip key later answer t).ip_attempts
      ≡ Map.lookup source t.ip_attempts
unfolding record_failure reset
record_answer-away source ip key later paired t ne =
    Map.lookup-delete_ne source (source_key ip) t.ip_attempts ne
record_answer-away source ip key later code_mismatch t ne =
    Map.lookup-insert_ne source (source_key ip) _ t.ip_attempts ne
record_answer-away source ip key later other t ne = refl

pub record_failure_own :
    (source ip key : String) (later : ℕ) (t : PairingAttemptTracker)
    → source_key ip ≡ source
    → Map.lookup source (record_failure ip key later t).ip_attempts
      ≡ some (
          next_attempt_state
            (state_of (Map.lookup source t.ip_attempts))
            later
            t.max_attempts
            t.lockout_window)
record_failure_own source ip key later t own =
    subst
      (λ k.
        Map.lookup k (record_failure ip key later t).ip_attempts
        ≡ some (
            next_attempt_state (state_of (Map.lookup k t.ip_attempts)) later t.max_attempts
              t.lockout_window))
      own (record_failure_self ip key later t)

-- A wrong code takes a guess, or a request that came past the lock before it.
pub failure-room :
    (cap start until later waiting waiting' : ℕ) (source ip key : String)
    (t : PairingAttemptTracker)
    → source_key ip ≡ source
    → start ≤ later
    → until ≤ start + t.lockout_window
    → 1 ≤ t.max_attempts
    → LocksPast until (Map.lookup source t.ip_attempts)
    → waiting ≡ suc waiting'
    → waiting ≤ cap
    → suc (room cap (left until source (record_failure ip key later t)) waiting')
      ≤ room cap (left until source t) waiting
failure-room cap start until later waiting waiting' source ip key t own late w pos locks count few =
    let o = Map.lookup source t.ip_attempts in
    let max = t.max_attempts in
    let spent =
      budget max until (some (next_attempt_state (state_of o) later max t.lockout_window)) in
    rw
      (
        record_failure_own source ip key later t own,
        (record_answer-options ip key later code_mismatch t).0,
      )
      (elim (Bool-cases (ltb 0 (budget max until o))) [
        | inl free ↦
            room_guess cap (budget max until o) spent waiting waiting'
              (next-budget later start until max t.lockout_window o late w pos
                (λ state e. budget_free max until o state locks (ltb→lt 0 _ free) e))
              (omega (arith, count, few))
        | inr locked ↦
            let z : budget max until o ≡ 0 = omega (arith, ltb→le 0 (budget max until o) locked) in
            room_locked cap (budget max until o) spent waiting waiting' z
              (next-locked later start until max t.lockout_window o late w pos locks z)
              (omega (arith, count))
      ])

pub own-room :
    (cap start until later waiting waiting' : ℕ) (source ip key : String) (answer : Answer)
    (t : PairingAttemptTracker)
    → answer ≢ paired
    → source_key ip ≡ source
    → start ≤ later
    → until ≤ start + t.lockout_window
    → 1 ≤ t.max_attempts
    → LocksPast until (Map.lookup source t.ip_attempts)
    → waiting ≡ suc waiting'
    → waiting ≤ cap
    → (mismatches answer
          + room cap (left until source (record_answer ip key later answer t)) waiting'
        ≤ room cap (left until source t) waiting)
      × LocksPast until (Map.lookup source (record_answer ip key later answer t).ip_attempts)
own-room cap start until later waiting waiting' source ip key paired t ne own late w pos locks count
      few =
    absurd (ne refl)
own-room cap start until later waiting waiting' source ip key other t ne own late w pos locks count
      few =
    (
      omega (
        arith,
        room_less cap (left until source t) (left until source t) waiting waiting' (omega arith)
            (omega (arith, count)) (omega (arith, count, few)),
      ),
      locks,
    )
own-room cap start until later waiting waiting' source ip key code_mismatch t ne own late w pos
      locks count few =
    (
      omega (
        arith,
        failure-room cap start until later waiting waiting' source ip key t own late w pos locks
            count few,
      ),
      subst (LocksPast until) (sym (record_failure_own source ip key later t own)) (
          next-LocksPast later start until t.max_attempts t.lockout_window
            (Map.lookup source t.ip_attempts) late w locks),
    )
