-- ===== src/Session/Token/Histories.antt =====
-- Histories of calls of one token service.
use ferngeist_acp_gateway.Prelude.{
  ℕ, false, ◌+◌, Bool-cases, beq→eq, ◌≤◌, ◌≡◌, refl, Option, none, some, String, by_text, arith,
  Result, ok, err, if◌then◌else◌, ◌==◌, List, [], ◌∷◌, Option-cases, inl, inr,
}
use ferngeist_acp_gateway.Map
use ferngeist_acp_gateway.Session.Token.{
  AttachClaim, TokenService, TokenError, maybe_sweep_locked, make_room, mint, validate, clear_all,
  new_token_service,
}
use ferngeist_acp_gateway.Session.Token.Eviction.{sweep-some, make_room-some}
use ferngeist_acp_gateway.Session.Token.Bounds.{IsBounded, mint-IsBounded, validate-IsBounded}
use ferngeist_acp_gateway.Session.Token.SingleUse.{validate-lookup}

-- One call, with the clock and the random text that it meets.
pub data Call : Type 0 where
  mints : Option String → String → String → ℕ → ℕ → Call
  validates : String → ℕ → ℕ → Call
  clears : Call

unfoldable pub step : TokenService → Call → TokenService
step s (mints random session_id device_id ttl now) = (mint random session_id device_id ttl now s).0
step s (validates token now later) = (validate token now later s).0
step s clears = clear_all s

unfoldable pub run : TokenService → List Call → TokenService
run s [] = s
run s (c ∷ cs) = run (step s c) cs

abbrev pub one_if_ok {ℓ} : {A : Type ℓ} → Result TokenError A → ℕ
one_if_ok (ok a) = 1
one_if_ok (err e) = 0

-- How often the token was minted, and how often it was accepted.
abbrev pub mints_of : String → Call → ℕ
mints_of token (mints (some t) session_id device_id ttl now) = if t == token then 1 else 0
mints_of token _ = 0

abbrev pub accepts_of : String → TokenService → Call → ℕ
accepts_of token s (validates t now later) =
    if t == token then one_if_ok (validate t now later s).1 else 0
accepts_of token s _ = 0

unfoldable pub minted : String → List Call → ℕ
minted token [] = 0
minted token (c ∷ cs) = mints_of token c + minted token cs

unfoldable pub accepted : String → TokenService → List Call → ℕ
accepted token s [] = 0
accepted token s (c ∷ cs) = accepts_of token s c + accepted token (step s c) cs

abbrev held : Option AttachClaim → ℕ
held none = 0
held (some c) = 1

held_mono :
    (a b : Option AttachClaim) → ((c : AttachClaim) → a ≡ some c → b ≡ some c) → held a ≤ held b
held_mono none b h = omega arith
held_mono (some c) b h = ground (arith, h c refl)

-- A call only adds a claim by minting it.
mint-some :
    (token random session_id device_id : String) (ttl now : ℕ) (s : TokenService) (c : AttachClaim)
    → (random == token) ≡ false
    → Map.lookup token (mint (some random) session_id device_id ttl now s).0.attach_tokens ≡ some c
    → Map.lookup token s.attach_tokens ≡ some c
unfolding mint
mint-some token random session_id device_id ttl now s c ne h =
    let swept = maybe_sweep_locked now s in
    let room = make_room now swept in
    let claim : AttachClaim = record {
      session_id = session_id;
      device_id = device_id;
      expires_at = now + ttl;
    } in
    ground (
      arith,
      Map.lookup-insert token random claim room.attach_tokens,
      make_room-some token c now swept,
      sweep-some token c now s,
    )

validate-some :
    (token other : String) (now later : ℕ) (s : TokenService) (c : AttachClaim)
    → Map.lookup token (validate other now later s).0.attach_tokens ≡ some c
    → Map.lookup token s.attach_tokens ≡ some c
unfolding validate
validate-some token other now later s c h =
    let swept = maybe_sweep_locked now s in
    ground (arith, Map.lookup-delete token other swept.attach_tokens, sweep-some token c now s)

clear_all-absent :
    (token : String) (s : TokenService) → Map.lookup token (clear_all s).attach_tokens ≡ none
unfolding clear_all
clear_all-absent token s = Map.lookup-empty token

abbrev has : String → TokenService → ℕ
has token s = held (Map.lookup token s.attach_tokens)

has_mono :
    (token : String) (s s' : TokenService)
    → ((c : AttachClaim)
        → Map.lookup token s'.attach_tokens ≡ some c
        → Map.lookup token s.attach_tokens ≡ some c)
    → has token s' ≤ has token s
has_mono token s s' h =
    held_mono (Map.lookup token s'.attach_tokens) (Map.lookup token s.attach_tokens) h

new-has : (token : String) → has token new_token_service ≡ 0
unfolding new_token_service
new-has token = rw (Map.lookup-empty {V = AttachClaim} token)

validate-has :
    (token : String) (now later : ℕ) (s : TokenService)
    → one_if_ok (validate token now later s).1 ≤ has token s
unfolding validate
validate-has token now later s =
    elim (Option-cases (Map.lookup token (maybe_sweep_locked now s).attach_tokens)) [
      | inl q ↦ ground arith
      | inr (c, q) ↦ ground (arith, sweep-some token c now s q)
    ]

-- What a call accepts, and what it leaves to be accepted, was minted by it or there before.
step-account :
    (token : String) (s : TokenService) (c : Call)
    → accepts_of token s c + has token (step s c) ≤ mints_of token c + has token s
unfolding step
step-account token s (mints none session_id device_id ttl now) = unfold mint in omega arith
step-account token s (mints (some t) session_id device_id ttl now) =
    elim (Bool-cases (t == token)) [
      | inl q ↦ rw q (ground arith)
      | inr q ↦ rw q (
          omega (
            arith,
            has_mono token s (mint (some t) session_id device_id ttl now s).0
                (λ c. mint-some token t session_id device_id ttl now s c q),
          ))
    ]
step-account token s (validates t now later) = elim (Bool-cases (t == token)) [
  | inl q ↦
      rw (q, beq→eq t token q)
        (ground (arith, validate-lookup token now later s, validate-has token now later s))
  | inr q ↦ rw q (
      omega (
        arith,
        has_mono token s (validate t now later s).0 (λ c. validate-some token t now later s c),
      ))
]
step-account token s clears = rw (clear_all-absent token s) (omega arith)

run-account :
    (token : String) (s : TokenService) (cs : List Call)
    → accepted token s cs + has token (run s cs) ≤ minted token cs + has token s
unfolding accepted minted run
run-account token s [] = omega arith
run-account token s (c ∷ cs) =
    omega (arith, step-account token s c, run-account token (step s c) cs)

-- From a new service, over any history of mints, validations and clears at any readings of the
-- clock, a token is accepted at most as often as it was minted.
pub accepted-le-minted :
    (token : String) (cs : List Call) → accepted token new_token_service cs ≤ minted token cs
accepted-le-minted token cs = omega (arith, run-account token new_token_service cs, new-has token)

step-IsBounded : (s : TokenService) (c : Call) → IsBounded s → IsBounded (step s c)
unfolding step
step-IsBounded s (mints random session_id device_id ttl now) h =
    mint-IsBounded random session_id device_id ttl now s h
step-IsBounded s (validates token now later) h = validate-IsBounded token now later s h
step-IsBounded s clears h = unfold clear_all Map.empty Map.size in omega arith

run_from-IsBounded : (s : TokenService) (cs : List Call) → IsBounded s → IsBounded (run s cs)
unfolding run
run_from-IsBounded s [] h = h
run_from-IsBounded s (c ∷ cs) h = run_from-IsBounded (step s c) cs (step-IsBounded s c h)

-- From a new service, no history of calls makes it hold more than 4096 claims.
pub run-IsBounded : (cs : List Call) → IsBounded (run new_token_service cs)
unfolding new_token_service Map.empty Map.size
run-IsBounded cs = run_from-IsBounded new_token_service cs (omega arith)
