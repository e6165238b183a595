-- ===== src/Pairing/Completion.antt =====
-- internal/pairing/service.go: the exchange of a challenge's code for a device credential.
use ferngeist_acp_gateway.Prelude.{
  ℕ, ◌+◌, Option, none, some, String, by_text, Result, ok, err, ltb, ◌==◌, if◌then◌else◌,
}
use ferngeist_acp_gateway.Map
use ferngeist_acp_gateway.Storage.Pairings.{PairingRecord, PairingStore, save_pairing}
use ferngeist_acp_gateway.Pairing.Types.{
  Service, Credential, ChallengeRecord, ChallengeState, CompletedDevice, Disk, Libraries, active,
  completed, cancelled, expired, PairingError, challenge_not_found, challenge_expired,
  code_mismatch, invalid_device_name,
}
use ferngeist_acp_gateway.Pairing.Locked.{
  hash_credential_token, index_credential_locked, prune_expired_credentials_locked,
  expire_challenge_locked, is_active, active_challenge_locked,
}

-- The last test of `resolveChallengeLocked`, of an active challenge.
unfoldable pub unexpired :
    String
    → ChallengeRecord
    → ℕ
    → Service
    → Service × Result PairingError (String × ChallengeRecord)
unexpired id r now s =
    if ltb r.challenge.expires_at now
    then (expire_challenge_locked id r s, err challenge_expired)
    else (s, ok (id, r))

abbrev pub inactive_error : ChallengeState → PairingError
inactive_error expired = challenge_expired
inactive_error active = challenge_not_found
inactive_error completed = challenge_not_found
inactive_error cancelled = challenge_not_found

unfoldable pub resolve_named :
    String
    → ℕ
    → Service
    → Option ChallengeRecord
    → Service × Result PairingError (String × ChallengeRecord)
resolve_named id now s none = (s, err challenge_not_found)
resolve_named id now s (some r) =
    if is_active r.state then unexpired id r now s else (s, err (inactive_error r.state))

unfoldable pub resolve_current :
    ℕ → Service × Option ChallengeRecord → Service × Result PairingError (String × ChallengeRecord)
resolve_current now (s, none) = (s, err challenge_not_found)
resolve_current now (s, some r) = unexpired r.challenge.id r now s

unfoldable pub resolve_challenge_locked :
    String → ℕ → Service → Service × Result PairingError (String × ChallengeRecord)
resolve_challenge_locked id now s =
    if id == ""
    then resolve_current now (active_challenge_locked s)
    else resolve_named id now s (Map.lookup id s.challenges)

-- The database's error is logged only.
unfoldable pub persist : Disk → PairingRecord → Option PairingStore → Option PairingStore
persist disk row none = none
persist disk row (some rows) = some (save_pairing (disk.saves row) row rows).0

-- What `CompletePairingWithProofKey` asks for, and the two random texts that it draws.
pub record Completion : Type 0 where
  pub challenge_id : String
  pub code : String
  pub device_name : String
  pub proof_public_key : String
  pub new_device_id : String
  pub new_token : String

unfoldable pub issue : Libraries → Completion → ℕ → Service → Credential
issue lib c now s = record {
  device_id = c.new_device_id;
  device_name = c.device_name;
  token = c.new_token;
  token_hash = hash_credential_token lib c.new_token;
  expires_at = now + s.token_ttl;
  scopes = s.base_scopes;
  proof_public_key = c.proof_public_key;
  expired_at = none;
}

unfoldable pub row_of : Credential → PairingRecord
row_of c = record {
  device_id = c.device_id;
  device_name = c.device_name;
  token = c.token_hash;
  expires_at = c.expires_at;
  scopes = c.scopes;
  proof_public_key = c.proof_public_key;
  retired_token = "";
  retired_until = 0;
}

-- Everything after the code was found to be right.
unfoldable pub grant :
    Libraries → Disk → Completion → ℕ → String → ChallengeRecord → Service → Service × Credential
grant lib disk c now id r s =
    let credential = issue lib c now s in
    let indexed =
      index_credential_locked credential
        (record s { credentials = Map.insert credential.device_id credential s.credentials }) in
    let device : CompletedDevice = record {
      device_id = credential.device_id;
      device_name = credential.device_name;
      expires_at = credential.expires_at;
    } in
    let r' : ChallengeRecord = record r {
      state = completed;
      state_changed_at = now;
      completed_device = some device;
    } in
    (
      record indexed {
        store = persist disk (row_of credential) indexed.store;
        challenges = Map.insert id r' indexed.challenges;
        active_id = if indexed.active_id == id then "" else indexed.active_id;
        armed_until = 0;
      },
      credential,
    )

unfoldable pub check_code :
    Libraries
    → Disk
    → Completion
    → ℕ
    → Service × Result PairingError (String × ChallengeRecord)
    → Service × Result PairingError Credential
check_code lib disk c now (s, err e) = (s, err e)
check_code lib disk c now (s, ok (id, r)) =
    if c.code == r.challenge.code
    then (let (s', credential) = grant lib disk c now id r s in (s', ok credential))
    else (s, err code_mismatch)

unfoldable pub complete_pairing_with_proof_key :
    Libraries → Disk → Completion → ℕ → Service → Service × Result PairingError Credential
complete_pairing_with_proof_key lib disk c now s =
    if c.device_name == ""
    then (s, err invalid_device_name)
    else check_code lib disk c now
        (resolve_challenge_locked c.challenge_id now (prune_expired_credentials_locked disk now s))
