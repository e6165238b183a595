-- ===== src/Pairing/Credentials.antt =====
-- internal/pairing/service.go: the public methods about device credentials.
use Prim.Native.String.{compare as compare_text}
use ferngeist_acp_gateway.Prelude.{
  is_less, ℕ, Bool, true, false, ◌&&◌, Option, none, some, List, [], ◌∷◌, String, by_text, Result,
  ok, err, ltb, ◌==◌, if◌then◌else◌,
}
use ferngeist_acp_gateway.Prelude.Int.{is_nonpos}
use ferngeist_acp_gateway.Map
use ferngeist_acp_gateway.Pairing.Types.{
  Service, Credential, Disk, Libraries, PairingError, credential_missing, credential_invalid,
  credential_expired, credential_scope, device_not_found,
}
use ferngeist_acp_gateway.Pairing.Locked.{
  hash_credential_token, prune_expired_credentials_locked, delete_credential_locked,
  retired_device_locked,
}

-- What `ValidateCredential` does with a credential whose token matches.
unfoldable pub judge :
    Disk → String → ℕ → Service → Credential → Service × Result PairingError Credential
judge disk id now s credential =
    if ltb credential.expires_at now
    then (if is_nonpos s.grace_period
        then (delete_credential_locked disk id s, err credential_expired)
        else (
          record s {
            credentials = Map.insert id (record credential { expired_at = some now }) s.credentials;
          },
          err credential_expired,
        ))
    else (s, ok credential)

abbrev pub is_legacy : String → Credential → Bool
is_legacy token c = c.token_hash == "" && c.token == token

-- The loop over the credentials for one that was never hashed.
unfoldable pub find_legacy : String → List (String × Credential) → Option (String × Credential)
find_legacy token [] = none
find_legacy token ((id, c) ∷ rest) =
    if is_legacy token c then some (id, c) else find_legacy token rest

-- Go's `m[id]` on a missing key is the zero credential.
abbrev pub zero_credential : Credential
zero_credential = record {
  device_id = "";
  device_name = "";
  token = "";
  token_hash = "";
  expires_at = 0;
  scopes = [];
  proof_public_key = "";
  expired_at = none;
}

abbrev pub or_zero : Option Credential → Credential
or_zero none = zero_credential
or_zero (some c) = c

unfoldable pub validate_legacy :
    Disk → String → ℕ → Service → Service × Result PairingError Credential
validate_legacy disk token now s = elim (find_legacy token s.credentials.entries) [
  | some (id, c) ↦ judge disk id now s c
  | none ↦ (prune_expired_credentials_locked disk now s, err credential_invalid)
]

unfoldable pub validate_credential :
    Libraries → Disk → String → ℕ → Service → Service × Result PairingError Credential
validate_credential lib disk token now s =
    if token == ""
    then (s, err credential_missing)
    else (elim (Map.lookup (hash_credential_token lib token) s.by_token_hash) [
      | some id ↦ judge disk id now s (or_zero (Map.lookup id s.credentials))
      | none ↦ validate_legacy disk token now s
    ])

unfoldable pub lookup_retired : Libraries → String → ℕ → Service → Result PairingError Credential
lookup_retired lib token now s = elim (retired_device_locked lib token now s) [
  | none ↦ err credential_invalid
  | some id ↦ elim (Map.lookup id s.credentials) [ none ↦ err credential_invalid | some c ↦ ok c ]
]

unfoldable pub lookup_unindexed : Libraries → String → ℕ → Service → Result PairingError Credential
lookup_unindexed lib token now s = elim (find_legacy token s.credentials.entries) [
  | some (id, c) ↦ ok c
  | none ↦ lookup_retired lib token now s
]

unfoldable pub lookup_credential_by_token :
    Libraries → String → ℕ → Service → Result PairingError Credential
lookup_credential_by_token lib token now s =
    if token == ""
    then err credential_missing
    else (elim (Map.lookup (hash_credential_token lib token) s.by_token_hash) [
      | none ↦ lookup_unindexed lib token now s
      | some id ↦ elim (Map.lookup id s.credentials) [
        | some c ↦ ok c
        | none ↦ lookup_unindexed lib token now s
      ]
    ])

abbrev pub contains : List String → String → Bool
contains [] x = false
contains (y ∷ ys) x = let rest = contains ys x in if y == x then true else rest

unfoldable pub require_scope : String → Credential → Option PairingError
require_scope scope c = if contains c.scopes scope then none else some credential_scope

unfoldable pub active_device_count : Disk → ℕ → Service → Service × ℕ
active_device_count disk now s =
    let s' = prune_expired_credentials_locked disk now s in (s', Map.size s'.credentials)

-- `sort.Slice`'s test, and the sort as an insertion.
unfoldable pub is_before : Credential → Credential → Bool
is_before a b =
    if a.device_name == b.device_name
    then is_less (compare_text a.device_id b.device_id)
    else is_less (compare_text a.device_name b.device_name)

unfoldable pub insert_device : Credential → List Credential → List Credential
insert_device c [] = c ∷ []
insert_device c (d ∷ l) =
    let rest = insert_device c l in if is_before d c then d ∷ rest else c ∷ d ∷ l

unfoldable pub sort_devices : List Credential → List Credential
sort_devices [] = []
sort_devices (c ∷ l) = insert_device c (sort_devices l)

unfoldable pub list_devices : Disk → ℕ → Service → Service × List Credential
list_devices disk now s =
    let s' = prune_expired_credentials_locked disk now s in
    (s', sort_devices (Map.values s'.credentials))

unfoldable pub revoke_device : Disk → String → Service → Service × Result PairingError Credential
revoke_device disk device_id s = elim (Map.lookup device_id s.credentials) [
  | none ↦ (s, err device_not_found)
  | some credential ↦ (delete_credential_locked disk device_id s, ok credential)
]
