-- ===== src/Pairing/Types.antt =====
-- The constants, types and state of internal/pairing/service.go. A `time.Time` is in nanoseconds since
-- Go's zero time, so that 0 is the zero time; durations are in nanoseconds.
use ferngeist_acp_gateway.Prelude.{
  ℕ, ◌*◌, Option, List, [], ◌∷◌, ◌++◌, Bool, String, by_text, if◌then◌else◌,
}
use ferngeist_acp_gateway.Prelude.Int.{ℤ}
use ferngeist_acp_gateway.Map.{Map}
use ferngeist_acp_gateway.Storage.Pairings.{PairingRecord, PairingStore}

abbrev pub minute : ℕ
minute = 60 * 1_000_000_000

abbrev pub hour : ℕ
hour = 60 * minute

abbrev pub default_challenge_ttl : ℕ
default_challenge_ttl = 2 * minute

abbrev pub default_arm_ttl : ℕ
default_arm_ttl = 2 * minute

abbrev pub default_token_ttl : ℕ
default_token_ttl = 7 * 24 * hour

abbrev pub default_grace_period : ℕ
default_grace_period = 90 * 24 * hour

abbrev pub challenge_history_ttl : ℕ
challenge_history_ttl = 10 * minute

abbrev pub default_rotation_overlap : ℕ
default_rotation_overlap = 48 * hour

pub data PairingError : Type 0 where
  challenge_not_found challenge_expired challenge_ambiguous code_mismatch : PairingError
  invalid_device_name device_not_found credential_missing credential_invalid : PairingError
  credential_expired credential_grace_expired credential_scope pairing_not_armed : PairingError
  -- The store's error, passed on by `RefreshCredential`.
  persist_failed : PairingError

abbrev pub scope_read : String
scope_read = "gateway.read"

abbrev pub scope_control : String
scope_control = "gateway.control"

abbrev pub scope_diagnostics_export : String
scope_diagnostics_export = "gateway.diagnostics.export"

abbrev pub scope_runtime_restart_env : String
scope_runtime_restart_env = "gateway.runtime.restart_env"

pub data ChallengeState : Type 0 where
  active completed cancelled expired : ChallengeState

pub record Challenge : Type 0 where
  pub id : String
  pub code : String
  pub expires_at : ℕ

pub record Credential : Type 0 where
  pub device_id : String
  pub device_name : String
  pub token : String
  pub token_hash : String
  pub expires_at : ℕ
  pub scopes : List String
  pub proof_public_key : String
  pub expired_at : Option ℕ

pub record CompletedDevice : Type 0 where
  pub device_id : String
  pub device_name : String
  pub expires_at : ℕ

pub record ChallengeStatus : Type 0 where
  pub id : String
  pub code : String
  pub expires_at : ℕ
  pub state : ChallengeState
  pub completed_device : Option CompletedDevice

pub record ChallengeRecord : Type 0 where
  pub challenge : Challenge
  pub state : ChallengeState
  pub completed_device : Option CompletedDevice
  pub state_changed_at : ℕ

pub record RetiredToken : Type 0 where
  pub device_id : String
  pub until : ℕ

-- The outcome of the database's transactions during one call. A call saves at most one row and
-- deletes a row at most once, so a function of the row or the device covers every outcome.
pub record Disk : Type 0 where
  pub saves : PairingRecord → Bool
  pub deletes : String → Bool
  pub reads : Bool

-- What the service calls of Go's libraries: the text of a token's SHA-256, and `strings.TrimSpace`.
pub record Libraries : Type 0 where
  pub digest : String → String
  pub trim_space : String → String

-- "" in `active_id` stands for no challenge, 0 in `armed_until` for the zero time, `none` in `store`
-- for a nil store.
pub record Service : Type 0 where
  pub arm_ttl : ℕ
  pub token_ttl : ℕ
  pub grace_period : ℤ
  pub base_scopes : List String
  pub active_id : String
  pub armed_until : ℕ
  pub challenges : Map String ChallengeRecord
  pub credentials : Map String Credential
  pub by_token_hash : Map String String
  pub retired : Map String RetiredToken
  pub store : Option PairingStore

pub record Options : Type 0 where
  pub arm_ttl : ℤ
  pub credential_ttl : ℤ
  pub grace_period : ℤ
  pub allow_diagnostics_export : Bool
  pub allow_runtime_restart_env : Bool

unfoldable pub to_status : ChallengeRecord → ChallengeStatus
to_status r = record {
  id = r.challenge.id;
  code = r.challenge.code;
  expires_at = r.challenge.expires_at;
  state = r.state;
  completed_device = r.completed_device;
}

unfoldable pub default_credential_scopes : Bool → Bool → List String
default_credential_scopes diagnostics restart_env =
    let scopes = scope_read ∷ scope_control ∷ [] in
    let scopes' = if diagnostics then scopes ++ (scope_diagnostics_export ∷ []) else scopes in
    if restart_env then scopes' ++ (scope_runtime_restart_env ∷ []) else scopes'
