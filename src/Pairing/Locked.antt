-- ===== src/Pairing/Locked.antt =====
-- internal/pairing/service.go: the methods that run under the service's lock, called by the public ones.
use Prim.Native.String.{◌++◌ as concat}
use text.Mathlib.Text.{starts_with}
use ferngeist_acp_gateway.Prelude.{
  ℕ, ◌+◌, Bool, true, false, not, Option, none, some, List, [], ◌∷◌, String, by_text, by_number,
  ltb, leb, ◌==◌, if◌then◌else◌,
}
use ferngeist_acp_gateway.Prelude.Int.{ℤ, is_nonpos, to_ℕ}
use ferngeist_acp_gateway.Map
use ferngeist_acp_gateway.Storage.Pairings.{PairingStore, delete_pairing}
use ferngeist_acp_gateway.Pairing.Types.{
  Service, Credential, ChallengeRecord, ChallengeState, Disk, Libraries, active, completed,
  cancelled, expired, challenge_history_ttl,
}

abbrev pub credential_hash_prefix : String
credential_hash_prefix = "sha256:"

unfoldable pub hash_credential_token : Libraries → String → String
hash_credential_token lib token = concat credential_hash_prefix (lib.digest token)

unfoldable pub is_hashed_credential_token : Libraries → String → Bool
is_hashed_credential_token lib value = starts_with (lib.trim_space value) credential_hash_prefix

unfoldable pub stored_credential_hash : Libraries → String → String
stored_credential_hash lib stored =
    if is_hashed_credential_token lib stored
    then lib.trim_space stored
    else hash_credential_token lib stored

unfoldable pub index_credential_locked : Credential → Service → Service
index_credential_locked c s =
    if c.token_hash == ""
    then s
    else record s { by_token_hash = Map.insert c.token_hash c.device_id s.by_token_hash }

-- The credential's hash leaves the index if the index maps it to this device.
unfoldable pub unindex : String → Option Credential → Map.Map String String → Map.Map String String
unindex device_id none index = index
unindex device_id (some cred) index =
    if cred.token_hash == "" then index else (elim (Map.lookup cred.token_hash index) [
      | none ↦ index
      | some mapped ↦ if mapped == device_id then Map.delete cred.token_hash index else index
    ])

-- The database's error is logged only, so what is left of its answer is the new table.
unfoldable pub forget_pairing : Disk → String → Option PairingStore → Option PairingStore
forget_pairing disk device_id none = none
forget_pairing disk device_id (some rows) =
    some (delete_pairing (disk.deletes device_id) device_id rows).0

unfoldable pub delete_credential_locked : Disk → String → Service → Service
delete_credential_locked disk device_id s = record s {
  by_token_hash = unindex device_id (Map.lookup device_id s.credentials) s.by_token_hash;
  credentials = Map.delete device_id s.credentials;
  retired = Map.retain (λ hash entry. not (entry.device_id == device_id)) s.retired;
  store = forget_pairing disk device_id s.store;
}

-- `now.Sub(expires_at) > s.gracePeriod`, where the period is positive.
abbrev pub beyond_grace : ℤ → ℕ → ℕ → Bool
beyond_grace grace_period expires_at now = ltb (expires_at + to_ℕ grace_period) now

unfoldable pub should_reap_credential : Service → Credential → ℕ → Bool
should_reap_credential s credential now =
    if ltb credential.expires_at now
    then (if is_nonpos s.grace_period
        then true
        else beyond_grace s.grace_period credential.expires_at now)
    else false

unfoldable pub prune_retired_locked : ℕ → Service → Service
prune_retired_locked now s = record s {
  retired = Map.retain (λ hash entry. leb now entry.until) s.retired;
}

-- The loop over the credentials that were there when it began.
unfoldable pub reap_each : Disk → ℕ → List (String × Credential) → Service → Service
reap_each disk now [] s = s
reap_each disk now ((id, credential) ∷ rest) s =
    reap_each disk now rest
      (if should_reap_credential s credential now then delete_credential_locked disk id s else s)

unfoldable pub prune_expired_credentials_locked : Disk → ℕ → Service → Service
prune_expired_credentials_locked disk now s =
    prune_retired_locked now (reap_each disk now s.credentials.entries s)

unfoldable pub expire_challenge_locked : String → ChallengeRecord → Service → Service
expire_challenge_locked challenge_id r s = record s {
  challenges =
      Map.insert challenge_id
        (record r { state = expired; state_changed_at = r.challenge.expires_at }) s.challenges;
  active_id = if s.active_id == challenge_id then "" else s.active_id;
}

abbrev pub is_active : ChallengeState → Bool
is_active active = true
is_active completed = false
is_active cancelled = false
is_active expired = false

-- One round of the loop over the challenges.
unfoldable pub prune_challenge : ℕ → String → ChallengeRecord → Service → Service
prune_challenge now id r s =
    if is_active r.state
    then (if ltb r.challenge.expires_at now then expire_challenge_locked id r s else s)
    else (if ltb (r.state_changed_at + challenge_history_ttl) now
        then record s { challenges = Map.delete id s.challenges }
        else s)

unfoldable pub prune_each : ℕ → List (String × ChallengeRecord) → Service → Service
prune_each now [] s = s
prune_each now ((id, r) ∷ rest) s = prune_each now rest (prune_challenge now id r s)

unfoldable pub prune_expired_locked : Disk → ℕ → Service → Service
prune_expired_locked disk now s =
    prune_expired_credentials_locked disk now (prune_each now s.challenges.entries s)

-- The device that a token rotated away recently belongs to.
unfoldable pub retired_device_locked : Libraries → String → ℕ → Service → Option String
retired_device_locked lib token now s =
    elim (Map.lookup (hash_credential_token lib token) s.retired) [
      | none ↦ none
      | some entry ↦
          if ltb entry.until now then none else (elim (Map.lookup entry.device_id s.credentials) [
            | none ↦ none
            | some c ↦ some entry.device_id
          ])
    ]

abbrev pub found_active : Option ChallengeRecord → Option ChallengeRecord
found_active none = none
found_active (some r) = if is_active r.state then some r else none

-- The state too: an ID that names no active challenge is cleared.
unfoldable pub active_challenge_locked : Service → Service × Option ChallengeRecord
active_challenge_locked s =
    if s.active_id == ""
    then (s, none)
    else (elim (found_active (Map.lookup s.active_id s.challenges)) [
      | none ↦ (record s { active_id = "" }, none)
      | some r ↦ (s, some r)
    ])

unfoldable pub is_armed_locked : ℕ → Service → Service × Bool
is_armed_locked now s =
    if s.armed_until == 0
    then (s, false)
    else if ltb s.armed_until now
    then (record s { armed_until = 0 }, false)
    else (s, true)
