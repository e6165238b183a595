-- ===== src/Pairing/Approval.antt =====
-- The right to pair of internal/pairing: a pairing window that a local approval opened, or the
-- challenge that was started in it. How each method about challenges moves it.
use ferngeist_acp_gateway.Prelude.{
  ℕ, ◌≤◌, ◌≡◌, ◌≢◌, sym, ◌∙◌, subst, false, some, List, [], ◌∷◌, String, by_text, by_number, arith,
  inl, inr, Bool-cases, ltb, ◌==◌, if◌then◌else◌, ◌&&◌,
}
use ferngeist_acp_gateway.Map
use ferngeist_acp_gateway.Pairing.Types.{Service, ChallengeRecord, Disk}
use ferngeist_acp_gateway.Pairing.Locked.{
  expire_challenge_locked, prune_challenge, prune_each, prune_expired_locked, is_active,
  is_armed_locked,
}
use ferngeist_acp_gateway.Pairing.Challenges.{
  open_challenge, start_if_armed, start_or_return, start_pairing,
}
use ferngeist_acp_gateway.Pairing.Sides.{
  ChallengeSide, challenge_side, prune_credentials-challenge_side,
}
use ferngeist_acp_gateway.Pairing.OneActive.{IsSound, prune-IsSound, active_cases}

-- 1 while the service is armed or names an active challenge.
abbrev pub rights : ChallengeSide → ℕ
rights v = if v.armed_until == 0 && v.active_id == "" then 0 else 1

pub rights-clear : (v : ChallengeSide) → rights (record v { active_id = "" }) ≤ rights v
rights-clear v = ground arith

pub rights-disarm : (v : ChallengeSide) → rights (record v { armed_until = 0 }) ≤ rights v
rights-disarm v = ground arith

-- Giving up one challenge, by its ID.
pub rights-settle :
    (id : String) (v : ChallengeSide)
    → rights (record v { active_id = if v.active_id == id then "" else v.active_id }) ≤ rights v
rights-settle id v = elim (Bool-cases (v.active_id == id)) [
  | inl q ↦ rw q (rights-clear v)
  | inr q ↦ rw q (omega arith)
]

pub expire-rights :
    (id : String) (r : ChallengeRecord) (s : Service)
    → rights (challenge_side (expire_challenge_locked id r s)) ≤ rights (challenge_side s)
unfolding expire_challenge_locked
expire-rights id r s = rights-settle id (challenge_side s)

prune_challenge-rights :
    (now : ℕ) (id : String) (r : ChallengeRecord) (s : Service)
    → rights (challenge_side (prune_challenge now id r s)) ≤ rights (challenge_side s)
unfolding prune_challenge
prune_challenge-rights now id r s = ground (arith, expire-rights id r s)

prune_each-rights :
    (now : ℕ) (l : List (String × ChallengeRecord)) (s : Service)
    → rights (challenge_side (prune_each now l s)) ≤ rights (challenge_side s)
unfolding prune_each
prune_each-rights now [] s = omega arith
prune_each-rights now ((id, r) ∷ l) s =
    omega (
      arith,
      prune_challenge-rights now id r s,
      prune_each-rights now l (prune_challenge now id r s),
    )

prune-rights :
    (disk : Disk) (now : ℕ) (s : Service)
    → rights (challenge_side (prune_expired_locked disk now s)) ≤ rights (challenge_side s)
unfolding prune_expired_locked
prune-rights disk now s =
    subst (λ v. rights v ≤ rights (challenge_side s))
      (sym (prune_credentials-challenge_side disk now (prune_each now s.challenges.entries s)))
      (prune_each-rights now s.challenges.entries s)

-- What a method that gives no new right leaves.
pub record Kept (before after : Service) : Type 0 where
  pub sound : IsSound (challenge_side after)
  pub fewer : rights (challenge_side after) ≤ rights (challenge_side before)

pub prune-Kept :
    (disk : Disk) (now : ℕ) (s : Service)
    → IsSound (challenge_side s)
    → Kept s (prune_expired_locked disk now s)
prune-Kept disk now s h = record {
  sound = prune-IsSound disk now s h;
  fewer = prune-rights disk now s;
}

pub Kept-trans : (s t u : Service) → Kept s t → Kept t u → Kept s u
Kept-trans s t u h k = record { sound = k.sound; fewer = omega arith }

-- A challenge that is opened where none is active.
open-IsSound :
    (id code : String) (now : ℕ) (s : Service)
    → IsSound (challenge_side s)
    → ((j : String) (r : ChallengeRecord)
        → Map.lookup j s.challenges ≡ some r
        → is_active r.state ≡ false)
    → id ≢ ""
    → IsSound (challenge_side (open_challenge id code now s).0)
unfolding open_challenge
open-IsSound id code now s h off full = record {
  sole = λ j q f on. elim (Map.lookup-insert-some j id _ s.challenges f) [
    | inl (same, e) ↦ (sym same, λ z. full (same ∙ z))
    | inr (ne, g) ↦ absurd (ground (arith, off j q g))
  ];
  named = λ j q f. elim (Map.lookup-insert-some j id _ s.challenges f) [
    | inl (same, e) ↦ ground arith
    | inr (ne, g) ↦ h.named j q g
  ];
}

armed-Kept :
    (id code : String) (now : ℕ) (s : Service)
    → IsSound (challenge_side s)
    → ((j : String) (r : ChallengeRecord)
        → Map.lookup j s.challenges ≡ some r
        → is_active r.state ≡ false)
    → id ≢ ""
    → Kept s (start_if_armed id code now (is_armed_locked now s)).0
unfolding start_if_armed is_armed_locked
armed-Kept id code now s h off full = elim (Bool-cases (s.armed_until == 0)) [
  | inl q ↦ rw q (record { sound = h; fewer = ground arith })
  | inr q ↦ rw q (elim (Bool-cases (ltb s.armed_until now)) [
    | inl l ↦
        rw l (record { sound = record { sole = h.sole; named = h.named }; fewer = ground arith })
    | inr l ↦ rw l (record {
      sound = open-IsSound id code now s h off full;
      fewer = unfold open_challenge in ground arith;
    })
  ])
]

pub clear-Kept :
    (s : Service)
    → IsSound (challenge_side s)
    → ((j : String) (r : ChallengeRecord)
        → Map.lookup j s.challenges ≡ some r
        → is_active r.state ≡ false)
    → Kept s (record s { active_id = "" })
clear-Kept s h off = record {
  sound = record { sole = λ j r f on. absurd (ground (arith, off j r f)); named = h.named };
  fewer = rights-clear (challenge_side s);
}

clear_armed-Kept :
    (id code : String) (now : ℕ) (s : Service)
    → IsSound (challenge_side s)
    → ((j : String) (r : ChallengeRecord)
        → Map.lookup j s.challenges ≡ some r
        → is_active r.state ≡ false)
    → id ≢ ""
    → Kept s (start_if_armed id code now (is_armed_locked now (record s { active_id = "" }))).0
clear_armed-Kept id code now s h off full =
    let u : Service = record s { active_id = "" } in
    let k = clear-Kept s h off in Kept-trans s u _ k (armed-Kept id code now u k.sound off full)

pub start_pairing-Kept :
    (disk : Disk) (id code : String) (now : ℕ) (s : Service)
    → IsSound (challenge_side s)
    → id ≢ ""
    → Kept s (start_pairing disk id code now s).0
unfolding start_pairing start_or_return
start_pairing-Kept disk id code now s h full =
    let t = prune_expired_locked disk now s in
    let k = prune-Kept disk now s h in
    active_cases (λ x. Kept s (start_or_return id code now x).0) t k.sound
      (λ off. Kept-trans s t _ k (clear_armed-Kept id code now t k.sound off full)) (λ r f on. k)
