-- ===== src/Pairing/Refresh.antt =====
-- internal/pairing/service.go: the rotation of a device's token by `RefreshCredential`.
use ferngeist_acp_gateway.Prelude.{
  ℕ, ◌+◌, not, ◌&&◌, Option, none, some, String, by_text, Result, ok, err, ltb, ◌==◌, if◌then◌else◌,
}
use ferngeist_acp_gateway.Prelude.Int.{is_nonpos}
use ferngeist_acp_gateway.Map
use ferngeist_acp_gateway.Storage.Pairings.{PairingRecord, PairingStore, save_pairing}
use ferngeist_acp_gateway.Pairing.Types.{
  Service, Credential, RetiredToken, Disk, Libraries, PairingError, credential_missing,
  credential_invalid, credential_expired, credential_grace_expired, persist_failed,
  default_rotation_overlap,
}
use ferngeist_acp_gateway.Pairing.Locked.{
  hash_credential_token, index_credential_locked, prune_expired_credentials_locked,
  prune_retired_locked, delete_credential_locked, retired_device_locked, beyond_grace,
}
use ferngeist_acp_gateway.Pairing.Credentials.{find_legacy, or_zero}

-- The row that a refresh saves: with the retired token that the caller came in on, or else the hash
-- that this refresh rotates away.
unfoldable pub refreshed_row :
    Libraries → String → String → ℕ → Service → Credential → Option RetiredToken → PairingRecord
refreshed_row lib token new_token now s c presented =
    let bare : PairingRecord = record {
      device_id = c.device_id;
      device_name = c.device_name;
      token = hash_credential_token lib new_token;
      expires_at = now + s.token_ttl;
      scopes = c.scopes;
      proof_public_key = c.proof_public_key;
      retired_token = "";
      retired_until = 0;
    } in
    elim presented [
      | some entry ↦ record bare {
        retired_token = hash_credential_token lib token;
        retired_until = entry.until;
      }
      | none ↦ if c.token_hash == "" then bare else record bare {
        retired_token = c.token_hash;
        retired_until = now + default_rotation_overlap;
      }
    ]

-- `none` where the database refused the row.
unfoldable pub persist_refresh :
    Disk → PairingRecord → Option PairingStore → Option (Option PairingStore)
persist_refresh disk row none = some none
persist_refresh disk row (some rows) =
    let (rows', result) = save_pairing (disk.saves row) row rows in
    elim result [ ok done ↦ some (some rows') | err e ↦ none ]

-- The credential after the rotation.
unfoldable pub rotated : Libraries → String → ℕ → Service → Credential → Credential
rotated lib new_token now s c = record c {
  token = new_token;
  token_hash = hash_credential_token lib new_token;
  expires_at = now + s.token_ttl;
  expired_at = none;
}

-- The old hash leaves the index for the retired ones.
unfoldable pub retire_hash : String → Credential → ℕ → Service → Service
retire_hash old_hash c now s =
    if old_hash == "" then s else if old_hash == c.token_hash then s else record s {
      by_token_hash = Map.delete old_hash s.by_token_hash;
      retired =
          Map.insert old_hash
            (record { device_id = c.device_id; until = now + default_rotation_overlap }) s.retired;
    }

-- The rotation, from the store's answer on.
unfoldable pub rotate :
    Libraries
    → String
    → ℕ
    → String
    → Credential
    → Service
    → Option (Option PairingStore)
    → Service × Result PairingError Credential
rotate lib new_token now id c s none = (s, err persist_failed)
rotate lib new_token now id c s (some store') =
    let fresh = rotated lib new_token now s c in
    let s₁ : Service = record s {
      store = store';
      credentials = Map.insert id fresh s.credentials;
    } in
    (
      index_credential_locked fresh
          (prune_retired_locked now (retire_hash c.token_hash fresh now s₁)),
      ok fresh,
    )

-- From the credential that the token names on: `presented` is the retired entry it came in on.
unfoldable pub refresh_found :
    Libraries
    → Disk
    → String
    → String
    → ℕ
    → Service
    → Option RetiredToken
    → String
    → Credential
    → Service × Result PairingError Credential
refresh_found lib disk token new_token now s presented id c =
    let turned =
      rotate lib new_token now id c s
        (persist_refresh disk (refreshed_row lib token new_token now s c presented) s.store) in
    if ltb c.expires_at now
    then (if is_nonpos s.grace_period
        then (delete_credential_locked disk id s, err credential_expired)
        else if beyond_grace s.grace_period c.expires_at now
        then (delete_credential_locked disk id s, err credential_grace_expired)
        else turned)
    else turned

-- The credential that a retired token still exchanges for, if its secret is known.
abbrev pub still_known : ℕ → Option Credential → Option Credential
still_known now none = none
still_known now (some c) = if not (c.token == "") && ltb now c.expires_at then some c else none

unfoldable pub refresh_retired :
    Libraries → Disk → String → String → ℕ → Service → Service × Result PairingError Credential
refresh_retired lib disk token new_token now s = elim (retired_device_locked lib token now s) [
  | none ↦ (prune_expired_credentials_locked disk now s, err credential_invalid)
  | some id ↦ elim (still_known now (Map.lookup id s.credentials)) [
    | some current ↦ (s, ok current)
    | none ↦
        refresh_found lib disk token new_token now s
          (Map.lookup (hash_credential_token lib token) s.retired) id
          (or_zero (Map.lookup id s.credentials))
  ]
]

-- `new_token` is the text that a rotation draws.
unfoldable pub refresh_credential :
    Libraries → Disk → String → String → ℕ → Service → Service × Result PairingError Credential
refresh_credential lib disk token new_token now s =
    if token == ""
    then (s, err credential_missing)
    else (elim (Map.lookup (hash_credential_token lib token) s.by_token_hash) [
      | some id ↦
          refresh_found lib disk token new_token now s none id
            (or_zero (Map.lookup id s.credentials))
      | none ↦ elim (find_legacy token s.credentials.entries) [
        | some (id, c) ↦ refresh_found lib disk token new_token now s none id c
        | none ↦ refresh_retired lib disk token new_token now s
      ]
    ])
