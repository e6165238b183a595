-- ===== src/Session/Token/Eviction.antt =====
-- What the sweep and the eviction of token.go do to the claims.
use ferngeist_acp_gateway.Prelude.{
  ℕ, ◌≤◌, ◌<◌, ◌≡◌, refl, inl, inr, none, some, List, [], ◌∷◌, String, by_text, arith, All, ltb,
  Option-cases, Bool-cases, ltb→lt, ltb→le, length,
}
use ferngeist_acp_gateway.Map
use ferngeist_acp_gateway.Map.{Map}
use ferngeist_acp_gateway.Session.Token.{
  AttachClaim, TokenService, max_attach_tokens, is_live, sweep_locked, maybe_sweep_locked, soonest,
  evict_oldest_locked, make_room,
}

-- The loop's answer expires no later than the best so far and every entry, and has each property
-- that these share.
pub soonest-some :
    (P : String → ℕ → Type 0) (token : String) (exp : ℕ) (l : List (String × AttachClaim))
    → P token exp
    → All (λ e. P e.0 e.1.expires_at) l
    → (t : String) × (x : ℕ) × (soonest (some (token, exp)) l ≡ some (t, x))
      × P t x
      × (x ≤ exp)
      × All (λ e. x ≤ e.1.expires_at) l
unfolding soonest
soonest-some P token exp [] p all = (token, exp, refl, p, omega arith, tt)
soonest-some P token exp ((j, c) ∷ l) p all = elim (Bool-cases (ltb c.expires_at exp)) [
  | inl q ↦
      let (t, x, e, pt, le, least) = soonest-some P j c.expires_at l all.0 all.1 in
      (t, x, rw q e, pt, omega (arith, ltb→lt c.expires_at exp q), (le, least))
  | inr q ↦
      let (t, x, e, pt, le, least) = soonest-some P token exp l p all.1 in
      (t, x, rw q e, pt, le, (omega (arith, ltb→le c.expires_at exp q), least))
]

soonest-none :
    (P : String → ℕ → Type 0) (l : List (String × AttachClaim))
    → 0 < length l
    → All (λ e. P e.0 e.1.expires_at) l
    → (t : String) × (x : ℕ) × (soonest none l ≡ some (t, x))
      × P t x
      × All (λ e. x ≤ e.1.expires_at) l
unfolding soonest
soonest-none P [] h all = absurd (omega arith)
soonest-none P ((j, c) ∷ l) h all =
    let (t, x, e, pt, le, least) = soonest-some P j c.expires_at l all.0 all.1 in
    (t, x, e, pt, (le, least))

abbrev Claimed : TokenService → String → ℕ → Type 0
Claimed s t x = (c : AttachClaim) × (Map.lookup t s.attach_tokens ≡ some c) × (c.expires_at ≡ x)

-- Where there is a claim, the eviction takes exactly one, one that expires no later than any other.
pub evict_oldest_locked_lem :
    (s : TokenService)
    → 0 < Map.size s.attach_tokens
    → (oldest : String) × (claim : AttachClaim) × (Map.lookup oldest s.attach_tokens ≡ some claim)
      × (evict_oldest_locked s ≡ record s { attach_tokens = Map.delete oldest s.attach_tokens })
      × ((token : String) (other : AttachClaim)
          → Map.lookup token s.attach_tokens ≡ some other
          → claim.expires_at ≤ other.expires_at)
unfolding evict_oldest_locked Map.size
evict_oldest_locked_lem s h =
    let (t, x, e, (c, found, same), least) = soonest-none (Claimed s) s.attach_tokens.entries h (
      Map.All-of_lookup (λ e. Claimed s e.0 e.1.expires_at) s.attach_tokens
        (λ k v q. (v, q, refl))) in
    (
      t,
      c,
      found,
      rw (e, evict_oldest_locked) refl,
      λ token other q.
          rw same (Map.lookup_of_All (λ e. x ≤ e.1.expires_at) s.attach_tokens token other least q),
    )

evict-size :
    (s : TokenService)
    → 0 < Map.size s.attach_tokens
    → Map.size (evict_oldest_locked s).attach_tokens < Map.size s.attach_tokens
evict-size s h =
    let (oldest, claim, found, e, least) = evict_oldest_locked_lem s h in
    rw e (Map.size-delete-some oldest claim s.attach_tokens found)

sweep-size :
    (now : ℕ) (s : TokenService)
    → Map.size (sweep_locked now s).attach_tokens ≤ Map.size s.attach_tokens
unfolding sweep_locked
sweep-size now s = Map.size-retain-le (is_live now) s.attach_tokens

pub maybe_sweep-size :
    (now : ℕ) (s : TokenService)
    → Map.size (maybe_sweep_locked now s).attach_tokens ≤ Map.size s.attach_tokens
unfolding maybe_sweep_locked
maybe_sweep-size now s = ground (arith, sweep-size now (record s { last_sweep = now }))

-- After the cap's tests there is room for one more claim.
pub make_room-size :
    (now : ℕ) (s : TokenService)
    → Map.size s.attach_tokens ≤ max_attach_tokens
    → Map.size (make_room now s).attach_tokens < max_attach_tokens
unfolding make_room
make_room-size now s h = ground (arith, sweep-size now s, evict-size (sweep_locked now s))

-- A sweep keeps a claim that has not expired, and drops no other fact about the map.
pub sweep-keeps :
    (token : String) (c : AttachClaim) (now : ℕ) (s : TokenService)
    → Map.lookup token s.attach_tokens ≡ some c
    → now ≤ c.expires_at
    → Map.lookup token (maybe_sweep_locked now s).attach_tokens ≡ some c
unfolding maybe_sweep_locked sweep_locked
sweep-keeps token c now s h live =
    ground (arith, Map.lookup-retain (is_live now) token s.attach_tokens)

-- Sweeping and evicting only forget.
pub sweep-some :
    (token : String) (c : AttachClaim) (now : ℕ) (s : TokenService)
    → Map.lookup token (maybe_sweep_locked now s).attach_tokens ≡ some c
    → Map.lookup token s.attach_tokens ≡ some c
unfolding maybe_sweep_locked sweep_locked
sweep-some token c now s h = ground (arith, Map.lookup-retain (is_live now) token s.attach_tokens)

evict-some :
    (token : String) (c : AttachClaim) (s : TokenService)
    → Map.lookup token (evict_oldest_locked s).attach_tokens ≡ some c
    → Map.lookup token s.attach_tokens ≡ some c
unfolding evict_oldest_locked
evict-some token c s h = elim (Option-cases (soonest none s.attach_tokens.entries)) [
  | inl q ↦ rw (q, evict_oldest_locked) at h
  | inr ((oldest, x), q) ↦
      (Map.lookup-delete-some token oldest s.attach_tokens (rw (q, evict_oldest_locked) at h)).0
]

pub make_room-some :
    (token : String) (c : AttachClaim) (now : ℕ) (s : TokenService)
    → Map.lookup token (make_room now s).attach_tokens ≡ some c
    → Map.lookup token s.attach_tokens ≡ some c
unfolding make_room sweep_locked
make_room-some token c now s h = ground (
  arith,
  Map.lookup-retain (is_live now) token s.attach_tokens,
  evict-some token c (sweep_locked now s),
)
