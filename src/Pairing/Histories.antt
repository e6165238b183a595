-- ===== src/Pairing/Histories.antt =====
-- Histories of calls of internal/pairing's service.
use ferngeist_acp_gateway.Prelude.{
  ℕ, ◌+◌, ◌≢◌, List, [], ◌∷◌, String, by_text, by_number, if◌then◌else◌, is_ok,
}
use ferngeist_acp_gateway.Pairing.Types.{Service, Disk, Libraries}
use ferngeist_acp_gateway.Pairing.Challenges.{
  start_pairing, start_pairing_with_local_approval, active_challenge, get_challenge_status,
  cancel_challenge,
}
use ferngeist_acp_gateway.Pairing.Completion.{Completion, complete_pairing_with_proof_key}
use ferngeist_acp_gateway.Pairing.Credentials.{
  validate_credential, active_device_count, list_devices, revoke_device,
}
use ferngeist_acp_gateway.Pairing.Refresh.{refresh_credential}

-- One call of a public method, with the clock, the random texts and the disk that it meets.
pub data Call : Type 0 where
  starts : Disk → String → String → ℕ → Call
  approves : Disk → String → String → ℕ → ℕ → Call
  observes : Disk → ℕ → Call
  reads : Disk → String → ℕ → Call
  cancels : Disk → String → ℕ → Call
  completes : Libraries → Disk → Completion → ℕ → Call
  validates : Libraries → Disk → String → ℕ → Call
  refreshes : Libraries → Disk → String → String → ℕ → Call
  counts lists : Disk → ℕ → Call
  revokes : Disk → String → Call

unfoldable pub step : Service → Call → Service
step s (starts disk id code now) = (start_pairing disk id code now s).0
step s (approves disk id code now later) =
    (start_pairing_with_local_approval disk id code now later s).0
step s (observes disk now) = (active_challenge disk now s).0
step s (reads disk id now) = (get_challenge_status disk id now s).0
step s (cancels disk id now) = (cancel_challenge disk id now s).0
step s (completes lib disk c now) = (complete_pairing_with_proof_key lib disk c now s).0
step s (validates lib disk token now) = (validate_credential lib disk token now s).0
step s (refreshes lib disk token new_token now) =
    (refresh_credential lib disk token new_token now s).0
step s (counts disk now) = (active_device_count disk now s).0
step s (lists disk now) = (list_devices disk now s).0
step s (revokes disk id) = (revoke_device disk id s).0

-- The random source gives no empty challenge ID.
abbrev pub HasId : Call → Type 0
HasId (starts disk id code now) = id ≢ ""
HasId (approves disk id code now later) = id ≢ ""
HasId _ = Unit

abbrev pub is_approval : Call → ℕ
is_approval (approves disk id code now later) = 1
is_approval _ = 0

-- 1 for a completion that pairs a device.
abbrev pub pairs : Service → Call → ℕ
pairs s (completes lib disk c now) =
    if is_ok (complete_pairing_with_proof_key lib disk c now s).1 then 1 else 0
pairs s _ = 0

unfoldable pub run : Service → List Call → Service
run s [] = s
run s (c ∷ cs) = run (step s c) cs

unfoldable pub approvals : List Call → ℕ
approvals [] = 0
approvals (c ∷ cs) = is_approval c + approvals cs

unfoldable pub pairings : Service → List Call → ℕ
pairings s [] = 0
pairings s (c ∷ cs) = pairs s c + pairings (step s c) cs
