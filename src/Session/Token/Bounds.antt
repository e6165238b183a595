-- ===== src/Session/Token/Bounds.antt =====
-- The cap of token.go on the claims that are kept.
use ferngeist_acp_gateway.Prelude.{ℕ, ◌+◌, ◌≤◌, Option, none, some, String, by_text, arith}
use ferngeist_acp_gateway.Map
use ferngeist_acp_gateway.Map.{Map}
use ferngeist_acp_gateway.Session.Token.{
  AttachClaim, TokenService, max_attach_tokens, maybe_sweep_locked, make_room, mint, validate,
}
use ferngeist_acp_gateway.Session.Token.Eviction.{maybe_sweep-size, make_room-size}

abbrev pub IsBounded : TokenService → Type 0
IsBounded s = Map.size s.attach_tokens ≤ max_attach_tokens

pub mint-IsBounded :
    (random : Option String) (session_id device_id : String) (ttl now : ℕ) (s : TokenService)
    → IsBounded s
    → IsBounded (mint random session_id device_id ttl now s).0
unfolding mint
mint-IsBounded none session_id device_id ttl now s h = h
mint-IsBounded (some token) session_id device_id ttl now s h =
    let swept = maybe_sweep_locked now s in
    let room = make_room now swept in
    let claim : AttachClaim = record {
      session_id = session_id;
      device_id = device_id;
      expires_at = now + ttl;
    } in
    omega (
      arith,
      maybe_sweep-size now s,
      make_room-size now swept,
      Map.size-insert-le token claim room.attach_tokens,
    )

pub validate-IsBounded :
    (token : String) (now later : ℕ) (s : TokenService)
    → IsBounded s
    → IsBounded (validate token now later s).0
unfolding validate
validate-IsBounded token now later s h =
    let swept = maybe_sweep_locked now s in
    ground (arith, maybe_sweep-size now s, Map.size-delete-le token swept.attach_tokens)
