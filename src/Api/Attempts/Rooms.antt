-- ===== src/Api/Attempts/Rooms.antt =====
-- What an address may still guess under internal/api/pairing_attempt.go, with its waiting requests, as a
-- number that a request or an answer does not raise.
use ferngeist_acp_gateway.Prelude.{
  ℕ, suc, ◌+◌, ◌-◌, ltb, Option, ◌≤◌, ◌≡◌, refl, sym, ap, ◌∙◌, false, none, some, String, by_text,
  arith, if◌then◌else◌,
}
use ferngeist_acp_gateway.Map
use ferngeist_acp_gateway.Map.{Map}
use ferngeist_acp_gateway.Api.Attempts.{
  AttemptState, PairingAttemptTracker, next_attempt_state, state_of, source_key, record_failure,
  is_locked, reset, Answer, record_answer, paired, code_mismatch, other, Handlers,
}
use ferngeist_acp_gateway.Api.Attempts.Budget.{
  left, attempt_locked-budget, attempt_locked-free, is_locked-ip_attempts, is_locked-options,
  is_locked-past, LocksPast, budget,
}
use ferngeist_acp_gateway.Api.Attempts.Requests.{count_waiting}

pub record_failure_self :
    (ip key : String) (later : ℕ) (t : PairingAttemptTracker)
    → Map.lookup (source_key ip) (record_failure ip key later t).ip_attempts
      ≡ some (
          next_attempt_state
            (state_of (Map.lookup (source_key ip) t.ip_attempts))
            later
            t.max_attempts
            t.lockout_window)
unfolding record_failure
record_failure_self ip key later t = Map.lookup-insert_self (source_key ip) _ t.ip_attempts

pub record_answer-options :
    (ip key : String) (later : ℕ) (answer : Answer) (t : PairingAttemptTracker)
    → ((record_answer ip key later answer t).max_attempts ≡ t.max_attempts)
      × ((record_answer ip key later answer t).lockout_window ≡ t.lockout_window)
unfolding record_failure reset
record_answer-options ip key later paired t = (refl, refl)
record_answer-options ip key later code_mismatch t = (refl, refl)
record_answer-options ip key later other t = (refl, refl)

pub is_locked-left :
    (source ip key : String) (now until : ℕ) (t : PairingAttemptTracker)
    → now ≤ until
    → 1 ≤ t.max_attempts
    → left until source (is_locked ip key now t).0 ≤ left until source t
is_locked-left source ip key now until t h pos =
    rw (is_locked-ip_attempts ip key now t, (is_locked-options ip key now t).0)
      (attempt_locked-budget source (source_key ip) now until t.max_attempts t.ip_attempts h pos)

pub is_locked-free :
    (ip key : String) (now : ℕ) (t : PairingAttemptTracker) (state : AttemptState)
    → (is_locked ip key now t).1 ≡ false
    → Map.lookup (source_key ip) (is_locked ip key now t).0.ip_attempts ≡ some state
    → state.locked_until ≡ none
is_locked-free ip key now t state h f =
    attempt_locked-free (source_key ip) now t.ip_attempts state (is_locked-past ip key now t h)
      (ap (λ m. Map.lookup (source_key ip) m) (sym (is_locked-ip_attempts ip key now t)) ∙ f)

-- What the address may still guess, with those of its requests that wait: `cap` bounds how many do at once.
abbrev pub room : ℕ → ℕ → ℕ → ℕ
room cap free waiting = if ltb 0 free then free + (cap - 1) else waiting

abbrev pub room_of : ℕ → ℕ → String → Handlers → ℕ
room_of cap until source h = room cap (left until source h.tracker) (count_waiting source h.waiting)

-- A lock of an address that has waiting requests came in the window.
abbrev pub IsReady : ℕ → String → Handlers → Type 0
IsReady until source h =
    1 ≤ count_waiting source h.waiting → LocksPast until (Map.lookup source h.tracker.ip_attempts)

-- No locks: at least one guess is left.
pub free-budget :
    (max until : ℕ) (o : Option AttemptState)
    → 1 ≤ max
    → ((state : AttemptState) → o ≡ some state → state.locked_until ≡ none)
    → 1 ≤ budget max until o
free-budget max until none pos free = pos
free-budget max until (some state) pos free = ground (arith, free state refl)

pub room_less :
    (cap free free' waiting waiting' : ℕ)
    → free' ≤ free
    → waiting' ≤ waiting
    → waiting' ≤ cap
    → room cap free' waiting' ≤ room cap free waiting
room_less cap free free' waiting waiting' less fewer few = ground arith

pub room_free :
    (cap free free' waiting waiting' : ℕ)
    → free' ≤ free
    → 1 ≤ free'
    → room cap free' waiting' ≤ room cap free waiting
room_free cap free free' waiting waiting' less pos = ground arith

pub room_guess :
    (cap free free' waiting waiting' : ℕ)
    → suc free' ≤ free
    → suc waiting' ≤ cap
    → suc (room cap free' waiting') ≤ room cap free waiting
room_guess cap free free' waiting waiting' less few = ground arith

pub room_full :
    (cap free max : ℕ)
    → free ≤ max
    → (waiting : ℕ) → waiting ≡ 0
    → room cap free waiting ≤ max + (cap - 1)
room_full cap free max less waiting idle = ground arith

pub room_locked :
    (cap free free' waiting waiting' : ℕ)
    → free ≡ 0
    → free' ≡ 0
    → suc waiting' ≤ waiting
    → suc (room cap free' waiting') ≤ room cap free waiting
room_locked cap free free' waiting waiting' z z' less = ground arith
