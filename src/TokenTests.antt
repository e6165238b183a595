-- ===== src/TokenTests.antt =====
-- Concrete runs of the attach tokens, and the theorems about them at inputs that meet their
-- hypotheses.
use ferngeist_acp_gateway.Prelude.{
  ℕ, ◌≤◌, ◌≡◌, refl, some, List, [], ◌∷◌, String, by_text, arith, ok, err,
}
use ferngeist_acp_gateway.Map
use ferngeist_acp_gateway.Session.Token.{
  AttachClaim, TokenService, new_token_service, sweep_locked, maybe_sweep_locked, soonest,
  evict_oldest_locked, make_room, mint, redeem, validate, clear_all, attach_token_invalid,
}
use ferngeist_acp_gateway.Session.Token.SingleUse.{mint-validate}
use ferngeist_acp_gateway.Session.Token.Bounds.{IsBounded}
use ferngeist_acp_gateway.Session.Token.Histories.{
  Call, mints, validates, step, run, minted, accepted, accepted-le-minted, run-IsBounded,
}
use ferngeist_acp_gateway.Session.Token.Eviction.{evict_oldest_locked_lem}

-- Opens every operation, for the runs below.
token_runs : Unit {0}
unfolding sweep_locked maybe_sweep_locked soonest evict_oldest_locked make_room mint redeem validate
    clear_all new_token_service Map.empty Map.lookup Map.insert Map.delete Map.retain Map.size step
    run minted accepted
token_runs = tt

abbrev tokens_used : List Call
tokens_used =
    mints (some "a") "s1" "d1" 100 1000
    ∷ validates "a" 1050 1051
    ∷ validates "a" 1052 1053
    ∷ mints (some "b") "s1" "d1" 100 1100
    ∷ validates "b" 1300 1301
    ∷ []

a_accepted_once : accepted "a" new_token_service tokens_used ≡ 1
unfolding token_runs
a_accepted_once = refl

b_expired : accepted "b" new_token_service tokens_used ≡ 0
unfolding token_runs
b_expired = refl

accepted-le-minted_example : accepted "a" new_token_service tokens_used ≤ minted "a" tokens_used
accepted-le-minted_example = accepted-le-minted "a" tokens_used

run-IsBounded_example : IsBounded (run new_token_service tokens_used)
run-IsBounded_example = run-IsBounded tokens_used

abbrev held_service : TokenService
held_service = (mint (some "a") "s1" "d1" 100 1000 new_token_service).0

mint-validate_example :
    ((validate "a" 1050 1051 held_service).1 ≡ ok ("s1", "d1"))
    × ((now later : ℕ)
        → (validate "a" now later (validate "a" 1050 1051 held_service).0).1
          ≡ err attach_token_invalid)
mint-validate_example =
    mint-validate "a" "s1" "d1" 100 1000 1050 1051 new_token_service (omega arith) (omega arith)

held_b : TokenService
unfolding token_runs
held_b = (mint (some "b") "s1" "d1" 500 1001 held_service).0

-- The eviction at a service that holds two claims.
evict_oldest_locked_lem_example :
    (oldest : String) × (claim : AttachClaim) × (Map.lookup oldest held_b.attach_tokens
      ≡ some claim)
    × (evict_oldest_locked held_b
        ≡ record held_b { attach_tokens = Map.delete oldest held_b.attach_tokens })
    × ((token : String) (other : AttachClaim)
        → Map.lookup token held_b.attach_tokens ≡ some other
        → claim.expires_at ≤ other.expires_at)
unfolding token_runs held_b
evict_oldest_locked_lem_example = evict_oldest_locked_lem held_b (omega arith)
