-- ===== src/Pairing/Consent.antt =====
-- Pairing takes a local approval: how each call of internal/pairing's service moves the right to pair.
use ferngeist_acp_gateway.Prelude.{
  ℕ, suc, ◌+◌, ◌≤◌, ◌≡◌, ◌≢◌, refl, sym, ◌∙◌, subst, true, false, some, String, by_text, by_number,
  arith, Result, inl, inr, Bool-cases, beq_of_ne, Option-cases, ◌==◌, if◌then◌else◌, is_ok,
}
use ferngeist_acp_gateway.Map
use ferngeist_acp_gateway.Pairing.Types.{
  Service, Credential, ChallengeRecord, PairingError, Disk, Libraries, completed,
}
use ferngeist_acp_gateway.Pairing.Locked.{
  prune_expired_credentials_locked, prune_expired_locked, is_active, index_credential_locked,
}
use ferngeist_acp_gateway.Pairing.Challenges.{active_challenge, cancel_record, cancel_challenge}
use ferngeist_acp_gateway.Pairing.Completion.{
  Completion, grant, issue, complete_pairing_with_proof_key,
}
use ferngeist_acp_gateway.Pairing.Sides.{
  ChallengeSide, challenge_side, prune_credentials-challenge_side,
}
use ferngeist_acp_gateway.Pairing.OneActive.{IsSound, settle, expire-IsSound, active_cases}
use ferngeist_acp_gateway.Pairing.Approval.{
  rights, rights-settle, Kept, Kept-trans, prune-Kept, clear-Kept, expire-rights,
}
use ferngeist_acp_gateway.Pairing.Completing.{complete_cases}

pub observe-Kept :
    (disk : Disk) (now : ℕ) (s : Service)
    → IsSound (challenge_side s)
    → Kept s (active_challenge disk now s).0
unfolding active_challenge
observe-Kept disk now s h =
    let t = prune_expired_locked disk now s in
    let k = prune-Kept disk now s h in
    active_cases (λ x. Kept s x.0) t k.sound (λ off. Kept-trans s t _ k (clear-Kept t k.sound off))
      (λ r f on. k)

cancel_record-Kept :
    (id : String) (now : ℕ) (s : Service)
    → IsSound (challenge_side s)
    → Kept s (cancel_record id now s (Map.lookup id s.challenges)).0
unfolding cancel_record
cancel_record-Kept id now s h = elim (Option-cases (Map.lookup id s.challenges)) [
  | inl f ↦ rw f (record { sound = h; fewer = omega arith })
  | inr (r, f) ↦ rw f (elim (Bool-cases (is_active r.state)) [
    | inr off ↦ rw off (record { sound = h; fewer = omega arith })
    | inl on ↦ rw on (record {
      sound = settle id _ (challenge_side s) h refl (h.named id r f);
      fewer = rights-settle id (challenge_side s);
    })
  ])
]

pub cancel-Kept :
    (disk : Disk) (id : String) (now : ℕ) (s : Service)
    → IsSound (challenge_side s)
    → Kept s (cancel_challenge disk id now s).0
unfolding cancel_challenge
cancel-Kept disk id now s h =
    let t = prune_expired_locked disk now s in
    let k = prune-Kept disk now s h in
    let j = if id == "" then t.active_id else id in
    elim (Bool-cases (j == "")) [
      | inl q ↦ rw q k
      | inr q ↦ rw q (Kept-trans s t _ k (cancel_record-Kept j now t k.sound))
    ]

-- The record that a success leaves of its challenge.
completed_record : Credential → ℕ → ChallengeRecord → ChallengeRecord
completed_record credential now r = record r {
  state = completed;
  state_changed_at = now;
  completed_device = some (record {
    device_id = credential.device_id;
    device_name = credential.device_name;
    expires_at = credential.expires_at;
  });
}

used_up : String → ChallengeRecord → ChallengeSide → ChallengeSide
used_up id r v = record {
  challenges = Map.insert id r v.challenges;
  active_id = if v.active_id == id then "" else v.active_id;
  armed_until = 0;
}

grant-challenge_side :
    (lib : Libraries) (disk : Disk) (c : Completion) (now : ℕ) (id : String) (r : ChallengeRecord)
    (s : Service)
    → challenge_side (grant lib disk c now id r s).0
      ≡ used_up id (completed_record (issue lib c now s) now r) (challenge_side s)
unfolding grant index_credential_locked used_up completed_record
grant-challenge_side lib disk c now id r s =
    elim (Bool-cases ((issue lib c now s).token_hash == "")) [ inl q ↦ rw q | inr q ↦ rw q ]

used_up-IsSound :
    (id : String) (r : ChallengeRecord) (v : ChallengeSide)
    → IsSound v
    → is_active r.state ≡ false
    → r.challenge.id ≡ id
    → IsSound (used_up id r v)
unfolding used_up
used_up-IsSound id r v h off name =
    let k = settle id r v h off name in record { sole = k.sole; named = k.named }

-- The right of the challenge that is used up is gone, and none is left.
used_up-rights :
    (id : String) (r : ChallengeRecord) (v : ChallengeSide)
    → id ≡ v.active_id
    → id ≢ ""
    → suc (rights (used_up id r v)) ≤ rights v
unfolding used_up
used_up-rights id r v same full =
    let self : (v.active_id == id) ≡ true = (by_text.same_key_iff v.active_id id).1 (sym same) in
    let named : (v.active_id == "") ≡ false = beq_of_ne v.active_id "" (λ e. full (same ∙ e)) in
    rw self (ground (arith, named))

-- A success uses up the right that its challenge stands for.
grant-Kept :
    (lib : Libraries) (disk : Disk) (c : Completion) (now : ℕ) (id : String) (r : ChallengeRecord)
    (s : Service)
    → IsSound (challenge_side s)
    → Map.lookup id s.challenges ≡ some r
    → is_active r.state ≡ true
    → IsSound (challenge_side (grant lib disk c now id r s).0)
      × (suc (rights (challenge_side (grant lib disk c now id r s).0)) ≤ rights (challenge_side s))
grant-Kept lib disk c now id r s h f on =
    let r' = completed_record (issue lib c now s) now r in
    let (same, full) = h.sole id r f on in
    let e = sym (grant-challenge_side lib disk c now id r s) in
    (
      subst IsSound e (
          used_up-IsSound id r' (challenge_side s) h (unfold completed_record in refl)
            (unfold completed_record in h.named id r f)),
      subst (λ v. suc (rights v) ≤ rights (challenge_side s)) e
          (used_up-rights id r' (challenge_side s) same full),
    )

pub same_side-Kept :
    (s t : Service) → IsSound (challenge_side s) → challenge_side t ≡ challenge_side s → Kept s t
same_side-Kept s t h e = record {
  sound = subst IsSound (sym e) h;
  fewer = subst (λ v. rights v ≤ rights (challenge_side s)) (sym e) (omega arith);
}

-- What a call leaves, and what it pairs, out of the rights before it.
pub record Accounts (s t : Service) (paired : ℕ) (approved : ℕ) : Type 0 where
  pub sound : IsSound (challenge_side t)
  pub paid : paired + rights (challenge_side t) ≤ approved + rights (challenge_side s)

pub Kept-Accounts : (s t : Service) → Kept s t → Accounts s t 0 0
Kept-Accounts s t k = record { sound = k.sound; paid = omega (arith, k.fewer) }

abbrev pub paired_by : {A : Type 0} → Service × Result PairingError A → ℕ
paired_by r = if is_ok r.1 then 1 else 0

pub complete-Accounts :
    (lib : Libraries) (disk : Disk) (c : Completion) (now : ℕ) (s : Service)
    → IsSound (challenge_side s)
    → Accounts s
        (complete_pairing_with_proof_key lib disk c now s).0
        (paired_by (complete_pairing_with_proof_key lib disk c now s))
        0
complete-Accounts lib disk c now s h =
    let t = prune_expired_credentials_locked disk now s in
    let side = prune_credentials-challenge_side disk now s in
    let k = same_side-Kept s t h side in
    complete_cases (λ x. Accounts s x.0 (paired_by x) 0) lib disk c now s h
      (record { sound = h; paid = omega arith }) (λ e. Kept-Accounts s t k)
      (λ off. Kept-Accounts s _ (
        Kept-trans s t _ k (
          clear-Kept t k.sound
            (λ j r f. off j r (subst (λ v. Map.lookup j v.challenges ≡ some r) side f)))))
      (λ j r name. Kept-Accounts s _ (
        Kept-trans s t _ k
          (record { sound = expire-IsSound j r t k.sound name; fewer = expire-rights j r t })))
      (λ j r o m.
        let found = subst (λ v. Map.lookup j v.challenges ≡ some r) (sym side) o.found in
        let (sound, paid) = grant-Kept lib disk c now j r t k.sound found o.on in
        record { sound = sound; paid = omega (arith, k.fewer) })
