-- ===== src/Session/Token/SingleUse.antt =====
-- What an attach token is good for.
use ferngeist_acp_gateway.Prelude.{
  ℕ, ◌+◌, ◌≤◌, ◌<◌, ◌≡◌, ◌⊎◌, none, some, String, by_text, arith, ok, err, Option-cases, inl, inr,
}
use ferngeist_acp_gateway.Map
use ferngeist_acp_gateway.Map.{Map}
use ferngeist_acp_gateway.Session.Token.{
  AttachClaim, TokenService, attach_token_invalid, attach_token_expired, maybe_sweep_locked,
  make_room, mint, validate,
}
use ferngeist_acp_gateway.Session.Token.Eviction.{sweep-keeps, sweep-some}

module _ (token : String) (now later : ℕ) (s : TokenService) where
  -- What `validate` does to the claims, whatever it answers.
  pub validate-lookup : Map.lookup token (validate token now later s).0.attach_tokens ≡ none
  unfolding validate
  validate-lookup =
      let swept = maybe_sweep_locked now s in
      ground (arith, Map.lookup-delete_self token swept.attach_tokens)

  -- A success has a claim that was there and has not expired.
  pub validate-ok :
      (session_id device_id : String)
      → (validate token now later s).1 ≡ ok (session_id, device_id)
      → (claim : AttachClaim) × (Map.lookup token s.attach_tokens ≡ some claim)
        × (claim.session_id ≡ session_id)
        × (claim.device_id ≡ device_id)
        × (later ≤ claim.expires_at)
  unfolding validate
  validate-ok session_id device_id h =
      let swept = maybe_sweep_locked now s in
      elim (Option-cases (Map.lookup token swept.attach_tokens)) [
        | inl q ↦ absurd (ground arith)
        | inr (c, q) ↦ (c, sweep-some token c now s q, ground arith, ground arith, ground arith)
      ]

  -- A claim that both readings of the clock find alive is answered.
  pub validate_live :
      (claim : AttachClaim)
      → Map.lookup token s.attach_tokens ≡ some claim
      → now ≤ claim.expires_at
      → later ≤ claim.expires_at
      → (validate token now later s).1 ≡ ok (claim.session_id, claim.device_id)
  unfolding validate
  validate_live claim h l₁ l₂ = ground (arith, sweep-keeps token claim now s h l₁)

  pub validate_absent :
      Map.lookup token s.attach_tokens ≡ none
      → (validate token now later s).1 ≡ err attach_token_invalid
  unfolding validate
  validate_absent h =
      elim (Option-cases (Map.lookup token (maybe_sweep_locked now s).attach_tokens)) [
        | inl q ↦ ground arith
        | inr (c, q) ↦ absurd (ground (arith, sweep-some token c now s q))
      ]

-- A minted token answers with the session and the device that it was minted for, at any reading of
-- the clock up to its expiry, and is unknown from then on.
pub mint-validate :
    (token session_id device_id : String) (ttl minted now later : ℕ) (s : TokenService)
    → now ≤ minted + ttl
    → later ≤ minted + ttl
    → let held = (mint (some token) session_id device_id ttl minted s).0 in
      let used = (validate token now later held).0 in
      ((validate token now later held).1 ≡ ok (session_id, device_id))
      × ((now' later' : ℕ) → (validate token now' later' used).1 ≡ err attach_token_invalid)
unfolding mint
mint-validate token session_id device_id ttl minted now later s h₁ h₂ =
    let claim : AttachClaim = record {
      session_id = session_id;
      device_id = device_id;
      expires_at = minted + ttl;
    } in
    let room = make_room minted (maybe_sweep_locked minted s) in
    let held : TokenService = record room {
      attach_tokens = Map.insert token claim room.attach_tokens;
    } in
    (
      validate_live token now later held claim
          (Map.lookup-insert_self token claim room.attach_tokens) h₁ h₂,
      λ now' later'.
          validate_absent token now' later' (validate token now later held).0
            (validate-lookup token now later held),
    )

-- A token is refused at and after its expiry has passed: the second reading of the clock decides.
pub validate_expired :
    (token : String) (now later : ℕ) (s : TokenService) (claim : AttachClaim)
    → Map.lookup token s.attach_tokens ≡ some claim
    → claim.expires_at < later
    → ((validate token now later s).1 ≡ err attach_token_expired)
      ⊎ ((validate token now later s).1 ≡ err attach_token_invalid)
unfolding validate
validate_expired token now later s claim h l =
    elim (Option-cases (Map.lookup token (maybe_sweep_locked now s).attach_tokens)) [
      | inl q ↦ inr (ground arith)
      | inr (c, q) ↦ inl (ground (arith, sweep-some token c now s q))
    ]
