-- ===== src/Pairing/Completing.antt =====
-- The branches of `CompletePairingWithProofKey` of internal/pairing, as rules.
use ferngeist_acp_gateway.Prelude.{
  ℕ, ◌≡◌, sym, ap, subst, true, false, some, String, by_text, by_number, Result, ok, err, inl, inr,
  Bool-cases, Option-cases, beq→eq, ltb, ◌==◌,
}
use ferngeist_acp_gateway.Map
use ferngeist_acp_gateway.Pairing.Types.{
  Service, Credential, ChallengeRecord, PairingError, Disk, Libraries, challenge_not_found,
  challenge_expired, code_mismatch, invalid_device_name,
}
use ferngeist_acp_gateway.Pairing.Locked.{
  prune_expired_credentials_locked, expire_challenge_locked, is_active,
}
use ferngeist_acp_gateway.Pairing.Completion.{
  unexpired, resolve_named, resolve_current, resolve_challenge_locked, Completion, grant,
  check_code, complete_pairing_with_proof_key,
}
use ferngeist_acp_gateway.Pairing.Sides.{challenge_side, prune_credentials-challenge_side}
use ferngeist_acp_gateway.Pairing.OneActive.{IsSound, active_cases}

-- The challenge that a completion can use: active and, by the clock, not expired.
pub record IsOpen (id : String) (r : ChallengeRecord) (now : ℕ) (s : Service) : Type 0 where
  pub found : Map.lookup id s.challenges ≡ some r
  pub on : is_active r.state ≡ true
  pub fresh : ltb r.challenge.expires_at now ≡ false

module _ {ℓ} (P : Service × Result PairingError (String × ChallengeRecord) → Type ℓ) (now : ℕ)
    (s : Service) (sound : IsSound (challenge_side s)) where
  resolve_cases :
      (id : String)
      → ((e : PairingError) → P (s, err e))
      → (((j : String) (r : ChallengeRecord)
            → Map.lookup j s.challenges ≡ some r
            → is_active r.state ≡ false)
          → P (record s { active_id = "" }, err challenge_not_found))
      → ((j : String) (r : ChallengeRecord)
          → r.challenge.id ≡ j
          → P (expire_challenge_locked j r s, err challenge_expired))
      → ((j : String) (r : ChallengeRecord) → IsOpen j r now s → P (s, ok (j, r)))
      → P (resolve_challenge_locked id now s)
  unfolding resolve_challenge_locked resolve_current resolve_named unexpired
  resolve_cases id failed idle late usable = elim (Bool-cases (id == "")) [
    | inl q ↦ rw q (
        active_cases (λ x. P (resolve_current now x)) s sound idle
          (λ r f on.
            unexpired_cases r.challenge.id r
              (subst (λ j. Map.lookup j s.challenges ≡ some r) (sym (sound.named s.active_id r f))
                f)
              on))
    | inr q ↦ rw q (elim (Option-cases (Map.lookup id s.challenges)) [
      | inl f ↦ rw f (failed challenge_not_found)
      | inr (r, f) ↦ rw f (elim (Bool-cases (is_active r.state)) [
        | inl on ↦ rw on (unexpired_cases id r f on)
        | inr off ↦ rw off (failed _)
      ])
    ])
  ]
    where
      unexpired_cases :
          (j : String) (r : ChallengeRecord)
          → Map.lookup j s.challenges ≡ some r
          → is_active r.state ≡ true
          → P (unexpired j r now s)
      unexpired_cases j r f on = elim (Bool-cases (ltb r.challenge.expires_at now)) [
        | inl l ↦ rw (l, unexpired) (late j r (sound.named j r f))
        | inr l ↦ rw (l, unexpired) (usable j r (record { found = f; on = on; fresh = l }))
      ]

module _ {ℓ} (P : Service × Result PairingError Credential → Type ℓ) (lib : Libraries) (disk : Disk)
    (c : Completion) (now : ℕ) (s : Service) (sound : IsSound (challenge_side s)) where
  abbrev swept : Service
  swept = prune_expired_credentials_locked disk now s

  -- The state that each refusal leaves, and the challenge that a success uses up.
  pub complete_cases :
      P (s, err invalid_device_name)
      → ((e : PairingError) → P (prune_expired_credentials_locked disk now s, err e))
      → (((j : String) (r : ChallengeRecord)
            → Map.lookup j s.challenges ≡ some r
            → is_active r.state ≡ false)
          → P (
            record (prune_expired_credentials_locked disk now s) { active_id = "" },
            err challenge_not_found,
          ))
      → ((j : String) (r : ChallengeRecord)
          → r.challenge.id ≡ j
          → P (
            expire_challenge_locked j r (prune_expired_credentials_locked disk now s),
            err challenge_expired,
          ))
      → ((j : String) (r : ChallengeRecord)
          → IsOpen j r now s
          → c.code ≡ r.challenge.code
          → P (
            (grant lib disk c now j r (prune_expired_credentials_locked disk now s)).0,
            ok (grant lib disk c now j r (prune_expired_credentials_locked disk now s)).1,
          ))
      → P (complete_pairing_with_proof_key lib disk c now s)
  unfolding complete_pairing_with_proof_key check_code
  complete_cases unnamed failed idle late granted = elim (Bool-cases (c.device_name == "")) [
    | inl q ↦ rw q unnamed
    | inr q ↦ rw q (
        resolve_cases (λ x. P (check_code lib disk c now x)) now swept
          (subst IsSound (sym side) sound) c.challenge_id failed
          (λ off. idle (λ j r f. off j r (rw same f))) late
          (λ j r o. elim (Bool-cases (c.code == r.challenge.code)) [
            | inl m ↦ rw m (
                granted j r (record { found = rw (← same) o.found; on = o.on; fresh = o.fresh })
                  (beq→eq _ _ m))
            | inr m ↦ rw m (failed code_mismatch)
          ]))
  ]
    where
      side : challenge_side swept ≡ challenge_side s
      side = prune_credentials-challenge_side disk now s

      same : swept.challenges ≡ s.challenges
      same = ap (λ v. v.challenges) side
