-- ===== src/Session/Token.antt =====
-- internal/session/token.go: single-use attach tokens. A method takes the readings of the clock that
-- it makes, in nanoseconds since Go's zero time, so that 0 is the zero `time.Time`; the text that
-- `hex.EncodeToString` makes of the random bytes is an argument too, `none` where `rand.Read` fails.
pub mod Eviction
pub mod Bounds
pub mod SingleUse
pub mod Histories
use ferngeist_acp_gateway.Prelude.{
  ℕ, ◌+◌, ◌*◌, Bool, not, Option, none, some, List, [], ◌∷◌, String, by_text, Result, ok, err, ltb,
  leb, if◌then◌else◌,
}
use ferngeist_acp_gateway.Map
use ferngeist_acp_gateway.Map.{Map}

pub record AttachClaim : Type 0 where
  pub session_id : String
  pub device_id : String
  pub expires_at : ℕ

pub data TokenError : Type 0 where
  rand_failed attach_token_invalid attach_token_expired : TokenError

-- time.Minute, in nanoseconds
abbrev pub attach_token_sweep_every : ℕ
attach_token_sweep_every = 60 * 1_000_000_000

abbrev pub max_attach_tokens : ℕ
max_attach_tokens = 4096

pub record TokenService : Type 0 where
  pub attach_tokens : Map String AttachClaim
  pub last_sweep : ℕ

unfoldable pub new_token_service : TokenService
unfolding Map.empty
new_token_service = record { attach_tokens = Map.empty; last_sweep = 0 }

-- `!now.After(claim.ExpiresAt)`
abbrev pub is_live : ℕ → String → AttachClaim → Bool
is_live now token claim = leb now claim.expires_at

unfoldable pub sweep_locked : ℕ → TokenService → TokenService
sweep_locked now s = record s { attach_tokens = Map.retain (is_live now) s.attach_tokens }

-- `now.Sub(s.lastSweep) < attachTokenSweepEvery`, also where the clock went back
unfoldable pub maybe_sweep_locked : ℕ → TokenService → TokenService
maybe_sweep_locked now s =
    if ltb now (s.last_sweep + attach_token_sweep_every)
    then s
    else sweep_locked now (record s { last_sweep = now })

-- The loop's `oldest` and `oldestExp`, `none` while `first` is set.
unfoldable pub soonest : Option (String × ℕ) → List (String × AttachClaim) → Option (String × ℕ)
soonest best [] = best
soonest none ((token, claim) ∷ rest) = soonest (some (token, claim.expires_at)) rest
soonest (some (oldest, oldest_exp)) ((token, claim) ∷ rest) =
    soonest
      (if ltb claim.expires_at oldest_exp
        then some (token, claim.expires_at)
        else some (oldest, oldest_exp))
      rest

unfoldable pub evict_oldest_locked : TokenService → TokenService
evict_oldest_locked s = elim (soonest none s.attach_tokens.entries) [
  | none ↦ s
  | some (oldest, exp) ↦ record s { attach_tokens = Map.delete oldest s.attach_tokens }
]

-- The two tests of the cap: sweep, then evict if that made no room.
unfoldable pub make_room : ℕ → TokenService → TokenService
make_room now s =
    if leb max_attach_tokens (Map.size s.attach_tokens)
    then (let swept = sweep_locked now s in
        if leb max_attach_tokens (Map.size swept.attach_tokens)
        then evict_oldest_locked swept
        else swept)
    else s

unfoldable pub mint :
    Option String → String → String → ℕ → ℕ → TokenService → TokenService × Result TokenError String
mint none session_id device_id ttl now s = (s, err rand_failed)
mint (some token) session_id device_id ttl now s =
    let room = make_room now (maybe_sweep_locked now s) in
    let claim : AttachClaim = record {
      session_id = session_id;
      device_id = device_id;
      expires_at = now + ttl;
    } in
    (record room { attach_tokens = Map.insert token claim room.attach_tokens }, ok token)

-- `claimed` is the map's answer for the token.
unfoldable pub redeem :
    String
    → ℕ
    → TokenService
    → Option AttachClaim
    → TokenService × Result TokenError (String × String)
redeem token now s none = (s, err attach_token_invalid)
redeem token now s (some claim) =
    let rest : TokenService = record s { attach_tokens = Map.delete token s.attach_tokens } in
    if leb now claim.expires_at
    then (rest, ok (claim.session_id, claim.device_id))
    else (rest, err attach_token_expired)

-- The clock is read for the sweep, and again for the test of the expiry.
unfoldable pub validate :
    String → ℕ → ℕ → TokenService → TokenService × Result TokenError (String × String)
unfolding redeem
validate token now later s =
    let swept = maybe_sweep_locked now s in
    redeem token later swept (Map.lookup token swept.attach_tokens)

unfoldable pub clear_all : TokenService → TokenService
unfolding Map.empty
clear_all s = record s { attach_tokens = Map.empty }
