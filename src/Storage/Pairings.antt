-- ===== src/Storage/Pairings.antt =====
-- internal/storage/pairing.go: the rows of `paired_devices`, joined with those of its two side tables,
-- by device. A call is one transaction: `commits` says whether the database carried it out.
use ferngeist_acp_gateway.Prelude.{
  ℕ, Bool, none, some, List, String, by_text, Result, ok, err, if◌then◌else◌,
}
use ferngeist_acp_gateway.Map
use ferngeist_acp_gateway.Map.{Map}

pub record PairingRecord : Type 0 where
  pub device_id : String
  pub device_name : String
  pub token : String
  pub expires_at : ℕ
  pub scopes : List String
  pub proof_public_key : String
  pub retired_token : String  -- "" where there is none
  pub retired_until : ℕ  -- 0 for the zero time

pub data StoreError : Type 0 where
  db_failed not_found : StoreError

abbrev pub PairingStore : Type 0
PairingStore = Map String PairingRecord

-- `INSERT … ON CONFLICT(device_id) DO UPDATE` in all three tables, in one transaction.
unfoldable pub save_pairing :
    Bool → PairingRecord → PairingStore → PairingStore × Result StoreError (Unit {0})
save_pairing commits r store =
    if commits then (Map.insert r.device_id r store, ok tt) else (store, err db_failed)

-- A delete of no row rolls the transaction back.
unfoldable pub delete_pairing :
    Bool → String → PairingStore → PairingStore × Result StoreError (Unit {0})
delete_pairing commits id store =
    if commits
    then (elim (Map.lookup id store) [
      | none ↦ (store, err not_found)
      | some r ↦ (Map.delete id store, ok tt)
    ])
    else (store, err db_failed)

unfoldable pub list_pairings : Bool → PairingStore → Result StoreError (List PairingRecord)
list_pairings reads store = if reads then ok (Map.values store) else err db_failed
