-- ===== src/Api/Attempts.antt =====
-- internal/api/pairing_attempt.go: failed pairing attempts by source address and by challenge. Times
-- are nanoseconds, and `none` is the zero `time.Time`. `strings.TrimSpace` and the reading of the
-- request are the standard library's: the keys are arguments.
pub mod Budget
pub mod Requests
pub mod Rooms
pub mod Moves
pub mod Lockout
use ferngeist_acp_gateway.Prelude.{
  ℕ, zero, suc, ◌+◌, ◌*◌, Bool, true, false, Option, none, some, List, [], ◌∷◌, String, by_text,
  leb, ◌==◌, if◌then◌else◌,
}
use ferngeist_acp_gateway.Prelude.Int.{ℤ, is_nonpos, to_ℕ}
use ferngeist_acp_gateway.Map
use ferngeist_acp_gateway.Map.{Map}

pub record AttemptState : Type 0 where
  pub failures : ℕ
  pub locked_until : Option ℕ

pub record PairingAttemptTracker : Type 0 where
  pub ip_attempts : Map String AttemptState
  pub challenge_attempts : Map String AttemptState
  pub max_attempts : ℕ
  pub lockout_window : ℕ

abbrev pub pairing_max_attempts : ℕ
pairing_max_attempts = 5

-- 2 * time.Minute, in nanoseconds
abbrev pub pairing_lockout_window : ℕ
pairing_lockout_window = 2 * 60 * 1_000_000_000

-- The two members of the configuration that it reads.
unfoldable pub new_pairing_attempt_tracker : ℤ → ℤ → PairingAttemptTracker
unfolding Map.empty
new_pairing_attempt_tracker max_attempts lockout_window = record {
  ip_attempts = Map.empty;
  challenge_attempts = Map.empty;
  max_attempts = if is_nonpos max_attempts then pairing_max_attempts else to_ℕ max_attempts;
  lockout_window = if is_nonpos lockout_window then pairing_lockout_window else to_ℕ lockout_window;
}

-- `attempts[key]`, with Go's zero value where there is none.
abbrev pub state_of : Option AttemptState → AttemptState
state_of none = record { failures = 0; locked_until = none }
state_of (some state) = state

unfoldable pub next_attempt_state : AttemptState → ℕ → ℕ → ℕ → AttemptState
next_attempt_state state now max_attempts lockout_window =
    if leb max_attempts (suc state.failures)
    then (record { failures = 0; locked_until = some (now + lockout_window) })
    else record state { failures = suc state.failures }

abbrev pub source_key : String → String
source_key ip = if ip == "" then "unknown" else ip

unfoldable pub record_failure : String → String → ℕ → PairingAttemptTracker → PairingAttemptTracker
record_failure ip challenge_key now t =
    let next = λ (key : String) (m : Map String AttemptState).
      Map.insert key
        (next_attempt_state (state_of (Map.lookup key m)) now t.max_attempts t.lockout_window) m in
    record t {
      ip_attempts = next (source_key ip) t.ip_attempts;
      challenge_attempts =
          if challenge_key == ""
          then t.challenge_attempts
          else next challenge_key t.challenge_attempts;
    }

-- The state found is an argument.
unfoldable pub locked_state :
    Option AttemptState → String → ℕ → Map String AttemptState → Map String AttemptState × Bool
locked_state none key now attempts = (attempts, false)
locked_state (some state) key now attempts = elim state.locked_until [
  | none ↦ (attempts, false)
  | some until ↦ if leb now until then (attempts, true) else (Map.delete key attempts, false)
]

unfoldable pub attempt_locked :
    String → ℕ → Map String AttemptState → Map String AttemptState × Bool
unfolding locked_state
attempt_locked key now attempts = locked_state (Map.lookup key attempts) key now attempts

unfoldable pub is_locked :
    String → String → ℕ → PairingAttemptTracker → PairingAttemptTracker × Bool
is_locked ip challenge_key now t =
    let by_ip = attempt_locked (source_key ip) now t.ip_attempts in
    let by_challenge = attempt_locked challenge_key now t.challenge_attempts in
    if by_ip.1
    then (record t { ip_attempts = by_ip.0 }, true)
    else (if challenge_key == "" then (record t { ip_attempts = by_ip.0 }, false) else (
      record t { ip_attempts = by_ip.0; challenge_attempts = by_challenge.0 },
      by_challenge.1,
    ))

unfoldable pub reset : String → String → PairingAttemptTracker → PairingAttemptTracker
reset ip challenge_key t = record t {
  ip_attempts = Map.delete (source_key ip) t.ip_attempts;
  challenge_attempts =
      if challenge_key == ""
      then t.challenge_attempts
      else Map.delete challenge_key t.challenge_attempts;
}

-- `pairingAttemptKey`, after `strings.TrimSpace`.
unfoldable pub pairing_attempt_key : String → String
pairing_attempt_key challenge_id = if challenge_id == "" then "active" else challenge_id

-- What `CompletePairingWithProofKey` answers, as far as `handlePairComplete` tells it apart for the
-- tracker: `other` is any other error, and an answer before the call.
pub data Answer : Type 0 where
  paired code_mismatch other : Answer

abbrev pub record_answer :
    String → String → ℕ → Answer → PairingAttemptTracker → PairingAttemptTracker
record_answer ip key now paired t = reset ip key t
record_answer ip key now code_mismatch t = record_failure ip key now t
record_answer ip key now other t = t

-- A request of `handlePairComplete` that came past the lock, while the pairing service answers it.
pub record Request : Type 0 where
  pub ip : String
  pub challenge_id : String

-- The tracker and the requests that are served at once. The handler's goroutines meet in the tracker's
-- mutex, which each of its methods holds for itself.
pub record Handlers : Type 0 where
  pub tracker : PairingAttemptTracker
  pub waiting : List Request

-- `handlePairComplete` up to the test of the lock: a request that is locked out is answered at once.
unfoldable pub arrive : Request → ℕ → Handlers → Handlers
arrive q now h =
    let tested = is_locked q.ip (pairing_attempt_key q.challenge_id) now h.tracker in
    record { tracker = tested.0; waiting = if tested.1 then h.waiting else q ∷ h.waiting }

unfoldable pub request_at : ℕ → List Request → Option Request
request_at n [] = none
request_at zero (q ∷ l) = some q
request_at (suc n) (q ∷ l) = request_at n l

unfoldable pub without_at : ℕ → List Request → List Request
without_at n [] = []
without_at zero (q ∷ l) = l
without_at (suc n) (q ∷ l) = q ∷ without_at n l

-- `handlePairComplete` from the answer of the pairing service on, for one of the waiting requests.
unfoldable pub finish_found : ℕ → Option Request → ℕ → Answer → Handlers → Handlers
finish_found n none later answer h = h
finish_found n (some q) later answer h = record {
  tracker = record_answer q.ip (pairing_attempt_key q.challenge_id) later answer h.tracker;
  waiting = without_at n h.waiting;
}

unfoldable pub finish : ℕ → ℕ → Answer → Handlers → Handlers
unfolding request_at finish_found
finish n later answer h = finish_found n (request_at n h.waiting) later answer h
