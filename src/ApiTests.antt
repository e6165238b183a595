-- ===== src/ApiTests.antt =====
-- Concrete runs of the guards of internal/api, and the theorems about them at inputs that meet their
-- hypotheses.
use ferngeist_acp_gateway.Prelude.{
  ℕ, ◌+◌, ◌-◌, ◌*◌, ◌≤◌, ◌≡◌, ◌≢◌, ◌==◌, String, length, some, none, refl, List, [], ◌∷◌, arith,
  by_text,
}
use ferngeist_acp_gateway.Prelude.Int.{pos}
use ferngeist_acp_gateway.Map
use ferngeist_acp_gateway.Api.Attempts.{
  new_pairing_attempt_tracker, next_attempt_state, record_failure, locked_state, attempt_locked,
  is_locked, reset, pairing_attempt_key, code_mismatch, Request, Handlers, arrive, request_at,
  without_at, finish_found, finish,
}
use ferngeist_acp_gateway.Api.Proof.{
  second, new_proof_nonce_tracker, evict, sweep, use_nonce, seen, ProofLibraries, ProofRequest,
  is_skewed, build_proof_message, is_signed, verify_at, verify_credential_proof,
}
use ferngeist_acp_gateway.Api.Proof.Replay.{
  Call, step as step_proof, run as run_proofs, step-run-step,
}
use ferngeist_acp_gateway.Api.Attempts.Lockout.{guesses-le}
use ferngeist_acp_gateway.Api.Attempts.Requests.{
  Event, arrives, answers, Within, AllWithin, step, run, guesses, count_waiting, peak,
}

-- Opens every operation, for the runs below.
attempt_runs : Unit {0}
unfolding new_pairing_attempt_tracker next_attempt_state record_failure locked_state attempt_locked
    is_locked reset pairing_attempt_key arrive request_at without_at finish_found finish step run
    guesses count_waiting peak Within AllWithin Map.empty Map.lookup Map.insert Map.delete
attempt_runs = tt

abbrev from_phone : Request
from_phone = record { ip = "10.0.0.7"; challenge_id = "" }

-- Wrong codes, two at a time, and one more request, which is locked out.
abbrev wrong_codes : List Event
wrong_codes =
    arrives from_phone 10
    ∷ arrives from_phone 11
    ∷ answers 0 12 code_mismatch
    ∷ answers 0 13 code_mismatch
    ∷ arrives from_phone 14
    ∷ arrives from_phone 15
    ∷ answers 0 16 code_mismatch
    ∷ answers 0 17 code_mismatch
    ∷ arrives from_phone 18
    ∷ answers 0 19 code_mismatch
    ∷ []

three_allowed : Handlers
unfolding attempt_runs
three_allowed = record { tracker = new_pairing_attempt_tracker (pos 3) (pos 100); waiting = [] }

-- The fourth came past the lock beside the third.
fourth_beside : guesses "10.0.0.7" three_allowed wrong_codes ≡ 4
unfolding attempt_runs three_allowed
fourth_beside = refl

two_at_once : peak "10.0.0.7" three_allowed wrong_codes ≡ 2
unfolding attempt_runs three_allowed
two_at_once = refl

guesses-le_example : guesses "10.0.0.7" three_allowed wrong_codes ≤ 3 + (2 - 1)
unfolding attempt_runs three_allowed
guesses-le_example =
    guesses-le 10 100 "10.0.0.7" three_allowed wrong_codes
      (
        omega arith,
        (
          omega arith,
          (
            (omega arith, λ q f e z. ground arith),
            (
              (omega arith, λ q f e z. ground arith),
              (
                omega arith,
                (
                  omega arith,
                  (
                    (omega arith, λ q f e z. ground arith),
                    (
                      (omega arith, λ q f e z. ground arith),
                      (omega arith, ((omega arith, λ q f e z. ground arith), tt)),
                    ),
                  ),
                ),
              ),
            ),
          ),
        ),
      )
      (omega arith) (omega arith) refl

-- A library in which a key signs with itself.
abbrev simple : ProofLibraries String String ℕ
simple = record {
  parse_int = λ text. some (pos 1000);
  to_upper = λ text. text;
  parse_key = λ key. some key;
  decode = λ text. some text;
  digest = λ lines. length lines;
  verify_asn1 = λ key digest signature. key == signature;
}

abbrev get_agents : ProofRequest
get_agents = record {
  method = "GET";
  path = "/v1/agents";
  timestamp = "1000";
  nonce = "n1";
  signature = "key";
  body_hash = some "";
}

abbrev call_at : ProofRequest → ℕ → Call
call_at r now = record {
  request = some r;
  token = "token";
  device_id = "device";
  proof_public_key = "key";
  now = now;
}

abbrev second_nonce : ProofRequest
second_nonce = record get_agents { nonce = "n2" }

-- Opens every operation on proofs, for the runs below.
proof_runs : Unit {0}
unfolding new_proof_nonce_tracker evict sweep use_nonce seen is_skewed build_proof_message is_signed
    verify_at verify_credential_proof step_proof run_proofs Map.empty Map.lookup Map.insert
    Map.delete Map.retain Map.size
proof_runs = tt

key_full : ◌≢◌ {A = String} "key" ""
key_full e = ground (arith, by_text.same_key_iff "key" "")

step-run-step_example :
    (step_proof simple
      (run_proofs simple
        (step_proof simple new_proof_nonce_tracker (call_at get_agents (1000 * second))).0
        (call_at second_nonce (1010 * second) ∷ []))
      (call_at get_agents (1030 * second))).1
    ≢ none
unfolding proof_runs
step-run-step_example =
    step-run-step simple new_proof_nonce_tracker (call_at get_agents (1000 * second))
      (call_at get_agents (1030 * second)) (call_at second_nonce (1010 * second) ∷ []) get_agents
      get_agents refl refl key_full key_full refl refl refl refl (omega arith, tt) (omega arith)
      (λ e. omega (arith, e))

-- Exactly the replay window later the nonce is free again, and a timestamp that was as far ahead of
-- the clock as it may be is still accepted.
abbrev ahead : ProofLibraries String String ℕ
ahead = record simple { parse_int = λ text. some (pos 1300) }

repeated_at_the_edge :
    (step_proof ahead
      (step_proof ahead new_proof_nonce_tracker (call_at get_agents (1000 * second))).0
      (call_at get_agents (1600 * second))).1
    ≡ none
unfolding proof_runs
repeated_at_the_edge = refl
