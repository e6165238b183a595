-- ===== src/Pairing/Challenges.antt =====
-- internal/pairing/service.go: the public methods about pairing challenges. Each takes the reading of
-- the clock that it makes, and the texts that it draws from the random source.
use ferngeist_acp_gateway.Prelude.{
  ℕ, ◌+◌, Bool, true, false, Option, none, some, String, by_text, Result, ok, err, ◌==◌,
  if◌then◌else◌,
}
use ferngeist_acp_gateway.Map
use ferngeist_acp_gateway.Pairing.Types.{
  Service, Challenge, ChallengeRecord, ChallengeStatus, Disk, active, cancelled, PairingError,
  challenge_not_found, pairing_not_armed, default_challenge_ttl, to_status,
}
use ferngeist_acp_gateway.Pairing.Locked.{
  prune_expired_locked, is_active, active_challenge_locked, is_armed_locked,
}

-- The challenge that `StartPairing` makes, once it is armed.
unfoldable pub open_challenge : String → String → ℕ → Service → Service × Challenge
open_challenge id code now s =
    let challenge : Challenge = record {
      id = id;
      code = code;
      expires_at = now + default_challenge_ttl;
    } in
    let r : ChallengeRecord = record {
      challenge = challenge;
      state = active;
      completed_device = none;
      state_changed_at = now;
    } in
    (record s { active_id = id; challenges = Map.insert id r s.challenges }, challenge)

unfoldable pub start_if_armed :
    String → String → ℕ → Service × Bool → Service × Result PairingError Challenge
start_if_armed id code now (s, false) = (s, err pairing_not_armed)
start_if_armed id code now (s, true) =
    let (s', challenge) = open_challenge id code now s in (s', ok challenge)

unfoldable pub start_or_return :
    String → String → ℕ → Service × Option ChallengeRecord → Service × Result PairingError Challenge
start_or_return id code now (s, some r) = (s, ok r.challenge)
start_or_return id code now (s, none) = start_if_armed id code now (is_armed_locked now s)

unfoldable pub start_pairing :
    Disk → String → String → ℕ → Service → Service × Result PairingError Challenge
start_pairing disk id code now s =
    start_or_return id code now (active_challenge_locked (prune_expired_locked disk now s))

-- The lock is released between the two halves: the second reads the clock again.
unfoldable pub arm : ℕ → Service → Service
arm now s = record s { armed_until = now + s.arm_ttl }

unfoldable pub start_pairing_with_local_approval :
    Disk → String → String → ℕ → ℕ → Service → Service × Result PairingError Challenge
start_pairing_with_local_approval disk id code now later s =
    start_pairing disk id code later (arm now s)

unfoldable pub active_challenge : Disk → ℕ → Service → Service × Option ChallengeStatus
active_challenge disk now s =
    let (s', found) = active_challenge_locked (prune_expired_locked disk now s) in
    (s', elim found [ none ↦ none | some r ↦ some (to_status r) ])

unfoldable pub get_challenge_status :
    Disk → String → ℕ → Service → Service × Result PairingError ChallengeStatus
get_challenge_status disk id now s =
    let s' = prune_expired_locked disk now s in
    (
      s',
      elim (Map.lookup id s'.challenges) [
        | none ↦ err challenge_not_found
        | some r ↦ ok (to_status r)
      ],
    )

unfoldable pub cancel_record :
    String → ℕ → Service → Option ChallengeRecord → Service × Result PairingError ChallengeStatus
cancel_record id now s none = (s, err challenge_not_found)
cancel_record id now s (some r) =
    if is_active r.state
    then (let r' : ChallengeRecord = record r { state = cancelled; state_changed_at = now } in
        (
          record s {
            challenges = Map.insert id r' s.challenges;
            active_id = if s.active_id == id then "" else s.active_id;
          },
          ok (to_status r'),
        ))
    else (s, ok (to_status r))

unfoldable pub cancel_challenge :
    Disk → String → ℕ → Service → Service × Result PairingError ChallengeStatus
cancel_challenge disk challenge_id now s =
    let s' = prune_expired_locked disk now s in
    let id = if challenge_id == "" then s'.active_id else challenge_id in
    if id == ""
    then (s', err challenge_not_found)
    else cancel_record id now s' (Map.lookup id s'.challenges)
