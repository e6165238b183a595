-- ===== src/PairingTests.antt =====
-- Concrete runs of internal/pairing, and the theorems about it at inputs that meet their hypotheses.
use ferngeist_acp_gateway.Prelude.{
  ◌+◌, ◌*◌, ◌≤◌, ◌≡◌, refl, true, false, none, some, List, [], ◌∷◌, by_text, by_number, arith, All,
}
use ferngeist_acp_gateway.Prelude.Int.{pos}
use ferngeist_acp_gateway.Map
use ferngeist_acp_gateway.Pairing.Types.{
  Service, Disk, Libraries, Options, ChallengeRecord, active, minute,
}
use ferngeist_acp_gateway.Pairing.Locked.{
  hash_credential_token, is_hashed_credential_token, stored_credential_hash,
  index_credential_locked, unindex, forget_pairing, delete_credential_locked,
  should_reap_credential, prune_retired_locked, reap_each, prune_expired_credentials_locked,
  expire_challenge_locked, prune_challenge, prune_each, prune_expired_locked, retired_device_locked,
  active_challenge_locked, is_armed_locked,
}
use ferngeist_acp_gateway.Pairing.Challenges.{
  open_challenge, start_if_armed, start_or_return, start_pairing, arm,
  start_pairing_with_local_approval, active_challenge, get_challenge_status, cancel_record,
  cancel_challenge,
}
use ferngeist_acp_gateway.Pairing.Completion.{
  Completion, unexpired, resolve_named, resolve_current, resolve_challenge_locked, persist, issue,
  row_of, grant, check_code, complete_pairing_with_proof_key,
}
use ferngeist_acp_gateway.Pairing.Credentials.{
  judge, find_legacy, validate_legacy, validate_credential, lookup_retired, lookup_unindexed,
  lookup_credential_by_token, require_scope, active_device_count, revoke_device,
}
use ferngeist_acp_gateway.Pairing.Refresh.{
  refreshed_row, persist_refresh, rotated, retire_hash, rotate, refresh_found, refresh_retired,
  refresh_credential,
}
use ferngeist_acp_gateway.Pairing.Startup.{
  should_reap_persisted_credential, reloaded, upgrade_row, reload_retired, reload_row, reload_each,
  reload_from, load_persisted_credentials, blank_service, new_service_with_options,
}
use ferngeist_acp_gateway.Pairing.Types.{to_status, default_credential_scopes}
use ferngeist_acp_gateway.Storage.Pairings.{save_pairing, delete_pairing, list_pairings}
use ferngeist_acp_gateway.Pairing.Histories.{
  Call, approves, completes, step, HasId, run, approvals, pairings,
}
use ferngeist_acp_gateway.Pairing.LocalApproval.{IsIdle, pairings-le-approvals, run-active_id}

-- Opens every operation, for the runs below.
runs : Unit {0}
unfolding hash_credential_token is_hashed_credential_token stored_credential_hash
    index_credential_locked unindex forget_pairing delete_credential_locked should_reap_credential
    prune_retired_locked reap_each prune_expired_credentials_locked expire_challenge_locked
    prune_challenge prune_each prune_expired_locked retired_device_locked active_challenge_locked
    is_armed_locked open_challenge start_if_armed start_or_return start_pairing arm
    start_pairing_with_local_approval active_challenge get_challenge_status cancel_record
    cancel_challenge unexpired resolve_named resolve_current resolve_challenge_locked persist issue
    row_of grant check_code complete_pairing_with_proof_key judge find_legacy validate_legacy
    validate_credential lookup_retired lookup_unindexed lookup_credential_by_token require_scope
    active_device_count revoke_device refreshed_row persist_refresh rotated retire_hash rotate
    refresh_found refresh_retired refresh_credential should_reap_persisted_credential reloaded
    upgrade_row reload_retired reload_row reload_each reload_from load_persisted_credentials
    blank_service new_service_with_options to_status default_credential_scopes save_pairing
    delete_pairing list_pairings Map.empty Map.lookup Map.insert Map.delete Map.retain Map.size
    Map.values step run pairings approvals
runs = tt

-- A digest that spells the token itself, which no two tokens share.
abbrev plain : Libraries
plain = record { digest = λ t. t; trim_space = λ t. t }

abbrev sound_disk : Disk
sound_disk = record { saves = λ row. true; deletes = λ id. true; reads = true }

abbrev defaults : Options
defaults = record {
  arm_ttl = pos 0;
  credential_ttl = pos 0;
  grace_period = pos 0;
  allow_diagnostics_export = false;
  allow_runtime_restart_env = false;
}

abbrev fresh : Service
fresh = new_service_with_options plain sound_disk 1000 none defaults

abbrev phone : Completion
phone = record {
  challenge_id = "c1";
  code = "123456";
  device_name = "phone";
  proof_public_key = "";
  new_device_id = "d1";
  new_token = "t1";
}

abbrev history : List Call
history =
    completes plain sound_disk phone 1000
    ∷ approves sound_disk "c1" "123456" 2000 2001
    ∷ completes plain sound_disk phone 3000
    ∷ completes plain sound_disk phone 4000
    ∷ []

history_pairs : pairings fresh history ≡ 1
unfolding runs
history_pairs = refl

fresh-IsIdle : IsIdle fresh
unfolding runs
fresh-IsIdle = record { unarmed = refl; unnamed = refl; unasked = refl }

ids : All HasId history
ids = (tt, ((λ e. ground (arith, by_text.same_key_iff "c1" "")), (tt, (tt, tt))))

pairings-le-approvals_example : pairings fresh history ≤ approvals history
pairings-le-approvals_example = pairings-le-approvals fresh history fresh-IsIdle ids

abbrev asked : List Call
asked = approves sound_disk "c1" "123456" 2000 2001 ∷ []

abbrev opened : ChallengeRecord
opened = record {
  challenge = record { id = "c1"; code = "123456"; expires_at = 2001 + 2 * minute };
  state = active;
  completed_device = none;
  state_changed_at = 2001;
}

asked_ids : All HasId asked
asked_ids = ((λ e. ground (arith, by_text.same_key_iff "c1" "")), tt)

asked_record : Map.lookup "c1" (run fresh asked).challenges ≡ some opened
unfolding runs
asked_record = refl

run-active_id_example : "c1" ≡ (run fresh asked).active_id
run-active_id_example =
    run-active_id fresh asked "c1" opened fresh-IsIdle asked_ids asked_record refl
