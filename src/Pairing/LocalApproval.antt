-- ===== src/Pairing/LocalApproval.antt =====
-- No history of calls of internal/pairing's service pairs more devices than were approved locally.
use ferngeist_acp_gateway.Prelude.{
  ℕ, ◌≤◌, ◌≡◌, ◌≢◌, refl, true, some, List, [], ◌∷◌, String, by_text, by_number, arith, All,
}
use ferngeist_acp_gateway.Map
use ferngeist_acp_gateway.Pairing.Types.{Service, Disk, ChallengeRecord}
use ferngeist_acp_gateway.Pairing.Locked.{is_active}
use ferngeist_acp_gateway.Pairing.Challenges.{
  arm, start_pairing_with_local_approval, get_challenge_status,
}
use ferngeist_acp_gateway.Pairing.Credentials.{active_device_count, list_devices}
use ferngeist_acp_gateway.Pairing.Sides.{
  ChallengeSide, challenge_side, prune_credentials-challenge_side, validate-challenge_side,
  refresh-challenge_side, revoke-challenge_side,
}
use ferngeist_acp_gateway.Pairing.OneActive.{IsSound}
use ferngeist_acp_gateway.Pairing.Approval.{rights, prune-Kept, start_pairing-Kept}
use ferngeist_acp_gateway.Pairing.Histories.{
  Call, starts, approves, observes, reads, cancels, completes, validates, refreshes, counts, lists,
  revokes, step, HasId, is_approval, pairs, run, approvals, pairings,
}
use ferngeist_acp_gateway.Pairing.Consent.{
  Accounts, Kept-Accounts, same_side-Kept, observe-Kept, cancel-Kept, complete-Accounts,
}

rights-le-one : (v : ChallengeSide) → rights v ≤ 1
rights-le-one v = ground arith

approve-Accounts :
    (disk : Disk) (id code : String) (now later : ℕ) (s : Service)
    → IsSound (challenge_side s)
    → id ≢ ""
    → Accounts s (start_pairing_with_local_approval disk id code now later s).0 0 1
unfolding start_pairing_with_local_approval arm
approve-Accounts disk id code now later s h full =
    let k =
      start_pairing-Kept disk id code later (arm now s) (record { sole = h.sole; named = h.named })
        full in
    record {
      sound = k.sound;
      paid = omega (arith, k.fewer, rights-le-one (challenge_side (arm now s)));
    }

step-Accounts :
    (s : Service) (c : Call)
    → IsSound (challenge_side s)
    → HasId c
    → Accounts s (step s c) (pairs s c) (is_approval c)
unfolding step get_challenge_status active_device_count list_devices
step-Accounts s (starts disk id code now) h full =
    Kept-Accounts s _ (start_pairing-Kept disk id code now s h full)
step-Accounts s (approves disk id code now later) h full =
    approve-Accounts disk id code now later s h full
step-Accounts s (observes disk now) h full = Kept-Accounts s _ (observe-Kept disk now s h)
step-Accounts s (reads disk id now) h full = Kept-Accounts s _ (prune-Kept disk now s h)
step-Accounts s (cancels disk id now) h full = Kept-Accounts s _ (cancel-Kept disk id now s h)
step-Accounts s (completes lib disk c now) h full = complete-Accounts lib disk c now s h
step-Accounts s (validates lib disk token now) h full =
    Kept-Accounts s _ (same_side-Kept s _ h (validate-challenge_side lib disk token now s))
step-Accounts s (refreshes lib disk token new_token now) h full =
    Kept-Accounts s _ (same_side-Kept s _ h (refresh-challenge_side lib disk token new_token now s))
step-Accounts s (counts disk now) h full =
    Kept-Accounts s _ (same_side-Kept s _ h (prune_credentials-challenge_side disk now s))
step-Accounts s (lists disk now) h full =
    Kept-Accounts s _ (same_side-Kept s _ h (prune_credentials-challenge_side disk now s))
step-Accounts s (revokes disk id) h full =
    Kept-Accounts s _ (same_side-Kept s _ h (revoke-challenge_side disk id s))

run-Accounts :
    (s : Service) (cs : List Call)
    → IsSound (challenge_side s)
    → All HasId cs
    → Accounts s (run s cs) (pairings s cs) (approvals cs)
unfolding run pairings approvals
run-Accounts s [] h full = record { sound = h; paid = omega arith }
run-Accounts s (c ∷ cs) h full =
    let a = step-Accounts s c h full.0 in
    let b = run-Accounts (step s c) cs a.sound full.1 in
    record { sound = b.sound; paid = omega (arith, a.paid, b.paid) }

-- A service as it starts: not armed, and with no challenge. It may hold credentials.
pub record IsIdle (s : Service) : Type 0 where
  pub unarmed : s.armed_until ≡ 0
  pub unnamed : s.active_id ≡ ""
  pub unasked : s.challenges ≡ Map.empty

idle-IsSound : (s : Service) → IsIdle s → IsSound (challenge_side s)
idle-IsSound s i = record {
  sole = λ id r f on. absurd (missing id r f);
  named = λ id r f. absurd (missing id r f);
}
  where
    missing : (id : String) (r : ChallengeRecord) → Map.lookup id s.challenges ≡ some r → ⊥
    missing id r f = cc (f, i.unasked, Map.lookup-empty {V = ChallengeRecord} id)

-- From an idle service, over any history of calls in which the random source gives no empty challenge
-- ID, the completions that pair a device are at most as many as the local approvals.
pub pairings-le-approvals :
    (s : Service) (cs : List Call) → IsIdle s → All HasId cs → pairings s cs ≤ approvals cs
pairings-le-approvals s cs i full =
    let none_yet : rights (challenge_side s) ≡ 0 = rw (i.unarmed, i.unnamed) refl in
    omega (arith, none_yet, (run-Accounts s cs (idle-IsSound s i) full).paid)

-- From an idle service, after any history of calls in which the random source gives no empty challenge
-- ID, every active challenge stands under the one ID that the service names as active.
pub run-active_id :
    (s : Service) (cs : List Call) (id : String) (r : ChallengeRecord)
    → IsIdle s
    → All HasId cs
    → Map.lookup id (run s cs).challenges ≡ some r
    → is_active r.state ≡ true
    → id ≡ (run s cs).active_id
run-active_id s cs id r i full f on =
    ((run-Accounts s cs (idle-IsSound s i) full).sound.sole id r f on).0
