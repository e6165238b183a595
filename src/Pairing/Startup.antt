-- ===== src/Pairing/Startup.antt =====
-- internal/pairing/service.go: the constructor, and the reload of the persisted credentials.
use ferngeist_acp_gateway.Prelude.{
  ℕ, Bool, false, not, ◌&&◌, Option, none, some, List, [], ◌∷◌, String, by_text, by_number, ok, err,
  ltb, ◌==◌, if◌then◌else◌,
}
use ferngeist_acp_gateway.Prelude.Int.{ℤ, pos, is_nonpos, is_neg, to_ℕ}
use ferngeist_acp_gateway.Map
use ferngeist_acp_gateway.Storage.Pairings.{PairingRecord, PairingStore, list_pairings}
use ferngeist_acp_gateway.Pairing.Types.{
  Service, Credential, Disk, Libraries, Options, default_arm_ttl, default_token_ttl,
  default_grace_period, default_credential_scopes,
}
use ferngeist_acp_gateway.Pairing.Locked.{
  is_hashed_credential_token, stored_credential_hash, index_credential_locked, forget_pairing,
  beyond_grace,
}
use ferngeist_acp_gateway.Pairing.Completion.{persist}

abbrev pub fallback_scopes : List String → List String → List String
fallback_scopes [] fallback = fallback
fallback_scopes (x ∷ xs) fallback = x ∷ xs

unfoldable pub should_reap_persisted_credential : Service → PairingRecord → ℕ → Bool
should_reap_persisted_credential s row now =
    if is_nonpos s.grace_period
    then ltb row.expires_at now
    else if ltb row.expires_at now
    then beyond_grace s.grace_period row.expires_at now
    else false

unfoldable pub reloaded : Libraries → ℕ → Service → PairingRecord → Credential
reloaded lib now s row = record {
  device_id = row.device_id;
  device_name = row.device_name;
  token = "";
  token_hash = stored_credential_hash lib row.token;
  expires_at = row.expires_at;
  scopes = fallback_scopes row.scopes s.base_scopes;
  proof_public_key = row.proof_public_key;
  expired_at =
      if ltb row.expires_at now && not (is_nonpos s.grace_period)
      then some row.expires_at
      else none;
}

-- The row with its token hashed, where it was stored as it is.
unfoldable pub upgrade_row : Libraries → Disk → PairingRecord → Service → Service
upgrade_row lib disk row s = if is_hashed_credential_token lib row.token then s else record s {
  store =
      persist disk
        (record row {
          token = stored_credential_hash lib row.token;
          scopes = fallback_scopes row.scopes s.base_scopes;
        })
        s.store;
}

unfoldable pub reload_retired : ℕ → PairingRecord → Service → Service
reload_retired now row s =
    if row.retired_token == ""
    then s
    else if ltb now row.retired_until
    then record s {
      retired =
          Map.insert row.retired_token
            (record { device_id = row.device_id; until = row.retired_until }) s.retired;
    }
    else s

unfoldable pub reload_row : Libraries → Disk → ℕ → PairingRecord → Service → Service
reload_row lib disk now row s =
    if should_reap_persisted_credential s row now
    then record s { store = forget_pairing disk row.device_id s.store }
    else (let c = reloaded lib now s row in
        upgrade_row lib disk row (
          reload_retired now row (
            index_credential_locked c
              (record s { credentials = Map.insert row.device_id c s.credentials }))))

unfoldable pub reload_each : Libraries → Disk → ℕ → List PairingRecord → Service → Service
reload_each lib disk now [] s = s
reload_each lib disk now (row ∷ rows) s =
    reload_each lib disk now rows (reload_row lib disk now row s)

unfoldable pub reload_from : Libraries → Disk → ℕ → Service → Option PairingStore → Service
reload_from lib disk now s none = s
reload_from lib disk now s (some rows) = elim (list_pairings disk.reads rows) [
  | ok found ↦ reload_each lib disk now found s
  | err e ↦ s
]

unfoldable pub load_persisted_credentials : Libraries → Disk → ℕ → Service → Service
load_persisted_credentials lib disk now s = reload_from lib disk now s s.store

abbrev pub or_default : ℤ → ℕ → ℕ
or_default d default = if is_nonpos d then default else to_ℕ d

unfoldable pub blank_service : Option PairingStore → Options → Service
unfolding Map.empty
blank_service store o = record {
  arm_ttl = or_default o.arm_ttl default_arm_ttl;
  token_ttl = or_default o.credential_ttl default_token_ttl;
  grace_period = if is_neg o.grace_period then pos default_grace_period else o.grace_period;
  base_scopes = default_credential_scopes o.allow_diagnostics_export o.allow_runtime_restart_env;
  active_id = "";
  armed_until = 0;
  challenges = Map.empty;
  credentials = Map.empty;
  by_token_hash = Map.empty;
  retired = Map.empty;
  store = store;
}

unfoldable pub new_service_with_options :
    Libraries → Disk → ℕ → Option PairingStore → Options → Service
new_service_with_options lib disk now store o =
    load_persisted_credentials lib disk now (blank_service store o)
