-- ===== src/Pairing/OneActive.antt =====
-- At most one challenge of internal/pairing is active, and it is the one that the service names.
use ferngeist_acp_gateway.Prelude.{
  ℕ, ◌+◌, ◌≡◌, ◌≢◌, refl, sym, ◌∙◌, subst, true, false, Option, none, some, List, [], ◌∷◌, String,
  by_text, by_number, arith, inl, inr, Bool-cases, Option-cases, All, ltb, ◌==◌, beq→eq,
  if◌then◌else◌,
}
use ferngeist_acp_gateway.Map
use ferngeist_acp_gateway.Pairing.Types.{Service, ChallengeRecord, Disk, challenge_history_ttl}
use ferngeist_acp_gateway.Pairing.Locked.{
  expire_challenge_locked, prune_challenge, prune_each, prune_expired_locked,
  active_challenge_locked, is_active,
}
use ferngeist_acp_gateway.Pairing.Sides.{
  ChallengeSide, challenge_side, prune_credentials-challenge_side,
}

pub record IsSound (v : ChallengeSide) : Type 0 where
  pub sole :
      (id : String) (r : ChallengeRecord)
      → Map.lookup id v.challenges ≡ some r
      → is_active r.state ≡ true
      → (id ≡ v.active_id) × (id ≢ "")
  pub named :
      (id : String) (r : ChallengeRecord)
      → Map.lookup id v.challenges ≡ some r
      → r.challenge.id ≡ id

-- A challenge that is written back, no longer active, leaves the current one if it was that.
pub settle :
    (id : String) (r : ChallengeRecord) (v : ChallengeSide)
    → IsSound v
    → is_active r.state ≡ false
    → r.challenge.id ≡ id
    → IsSound (record v {
      challenges = Map.insert id r v.challenges;
      active_id = if v.active_id == id then "" else v.active_id;
    })
settle id r v h off name = record {
  sole = λ j q f on. elim (Map.lookup-insert-some j id r v.challenges f) [
    | inl (_, e) ↦ absurd (ground arith)
    | inr (ne, g) ↦
        let (same, full) = h.sole j q g on in
        (ground (arith, by_text.same_key_iff v.active_id id), full)
  ];
  named = λ j q f. elim (Map.lookup-insert-some j id r v.challenges f) [
    | inl (same, e) ↦ ground arith
    | inr (ne, g) ↦ h.named j q g
  ];
}

pub drop_challenge :
    (id : String) (v : ChallengeSide)
    → IsSound v
    → IsSound (record v { challenges = Map.delete id v.challenges })
drop_challenge id v h = record {
  sole = λ j q f. h.sole j q (Map.lookup-delete-some j id v.challenges f).0;
  named = λ j q f. h.named j q (Map.lookup-delete-some j id v.challenges f).0;
}

pub expire-IsSound :
    (id : String) (r : ChallengeRecord) (s : Service)
    → IsSound (challenge_side s)
    → r.challenge.id ≡ id
    → IsSound (challenge_side (expire_challenge_locked id r s))
unfolding expire_challenge_locked
expire-IsSound id r s h name = settle id _ (challenge_side s) h refl name

prune_challenge-IsSound :
    (now : ℕ) (id : String) (r : ChallengeRecord) (s : Service)
    → IsSound (challenge_side s)
    → r.challenge.id ≡ id
    → IsSound (challenge_side (prune_challenge now id r s))
unfolding prune_challenge
prune_challenge-IsSound now id r s h name = elim (Bool-cases (is_active r.state)) [
  | inl q ↦ rw q (elim (Bool-cases (ltb r.challenge.expires_at now)) [
    | inl l ↦ rw l (expire-IsSound id r s h name)
    | inr l ↦ rw l h
  ])
  | inr q ↦ rw q (elim (Bool-cases (ltb (r.state_changed_at + challenge_history_ttl) now)) [
    | inl l ↦ rw l (drop_challenge id (challenge_side s) h)
    | inr l ↦ rw l h
  ])
]

prune_each-IsSound :
    (now : ℕ) (l : List (String × ChallengeRecord)) (s : Service)
    → IsSound (challenge_side s)
    → All (λ e. e.1.challenge.id ≡ e.0) l
    → IsSound (challenge_side (prune_each now l s))
unfolding prune_each
prune_each-IsSound now [] s h all = h
prune_each-IsSound now ((id, r) ∷ l) s h all =
    prune_each-IsSound now l (prune_challenge now id r s)
      (prune_challenge-IsSound now id r s h all.0) all.1

pub prune-IsSound :
    (disk : Disk) (now : ℕ) (s : Service)
    → IsSound (challenge_side s)
    → IsSound (challenge_side (prune_expired_locked disk now s))
unfolding prune_expired_locked
prune-IsSound disk now s h =
    subst IsSound
      (sym (prune_credentials-challenge_side disk now (prune_each now s.challenges.entries s)))
      (prune_each-IsSound now s.challenges.entries s h
        (Map.All-of_lookup (λ e. e.1.challenge.id ≡ e.0) s.challenges h.named))

-- Where the current challenge is not active, none is.
none_active_of :
    (v : ChallengeSide)
    → IsSound v
    → ((r : ChallengeRecord)
        → Map.lookup v.active_id v.challenges ≡ some r
        → is_active r.state ≡ false)
    → (id : String) (r : ChallengeRecord) → Map.lookup id v.challenges ≡ some r
    → is_active r.state ≡ false
none_active_of v h current id r f = elim (Bool-cases (is_active r.state)) [
  | inr off ↦ off
  | inl on ↦ current r (subst (λ j. Map.lookup j v.challenges ≡ some r) (h.sole id r f on).0 f)
]

none_active_of_empty :
    (v : ChallengeSide)
    → IsSound v
    → v.active_id ≡ ""
    → (id : String) (r : ChallengeRecord) → Map.lookup id v.challenges ≡ some r
    → is_active r.state ≡ false
none_active_of_empty v h e id r f = elim (Bool-cases (is_active r.state)) [
  | inr off ↦ off
  | inl on ↦ let (same, full) = h.sole id r f on in absurd (full (same ∙ e))
]

-- The three ways in which `activeChallengeLocked` answers.
pub active_cases {ℓ} :
    (P : Service × Option ChallengeRecord → Type ℓ) (s : Service)
    → IsSound (challenge_side s)
    → (((id : String) (r : ChallengeRecord)
          → Map.lookup id s.challenges ≡ some r
          → is_active r.state ≡ false)
        → P (record s { active_id = "" }, none))
    → ((r : ChallengeRecord)
        → Map.lookup s.active_id s.challenges ≡ some r
        → is_active r.state ≡ true
        → P (s, some r))
    → P (active_challenge_locked s)
unfolding active_challenge_locked
active_cases P s h none_active found = elim (Bool-cases (s.active_id == "")) [
  | inl q ↦ rw q (
      let e : "" ≡ s.active_id = sym (beq→eq s.active_id "" q) in
      subst (λ x. P (x, none)) (λ i. record s { active_id = e i })
        (none_active (none_active_of_empty (challenge_side s) h (sym e))))
  | inr q ↦ rw q (elim (Option-cases (Map.lookup s.active_id s.challenges)) [
    | inl f ↦ rw f (none_active (none_active_of (challenge_side s) h (λ r g. ground arith)))
    | inr (r, f) ↦ rw f (elim (Bool-cases (is_active r.state)) [
      | inl on ↦ rw on (found r f on)
      | inr off ↦ rw off (none_active (none_active_of (challenge_side s) h (λ r' g. ground arith)))
    ])
  ])
]
