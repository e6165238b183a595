-- ===== src/Api/Proof/Nonces.antt =====
-- What the tracker of nonces of internal/api/proof.go remembers.
use ferngeist_acp_gateway.Prelude.{
  ℕ, suc, ◌+◌, ◌≤◌, ◌<◌, ◌≡◌, ap, ◌∙◌, true, some, String, by_text, arith, ◌==◌, Bool-cases, inl,
  inr, beq→eq,
}
use ferngeist_acp_gateway.Map
use ferngeist_acp_gateway.Map.{Map}
use ferngeist_acp_gateway.Api.Proof.{
  ProofNonceTracker, max_proof_nonces, proof_replay_window, is_held, sweep, use_nonce,
}

-- The tracker holds a nonce until an instant.
abbrev pub Holds : String → ℕ → ProofNonceTracker → Type 0
Holds key expires_at t = Map.lookup key t.nonces ≡ some expires_at

sweep-Holds :
    (key : String) (expires_at now : ℕ) (t : ProofNonceTracker)
    → Holds key expires_at t
    → now < expires_at
    → Map.size t.nonces ≤ max_proof_nonces
    → Holds key expires_at (sweep now t) × (Map.size (sweep now t).nonces ≤ Map.size t.nonces)
unfolding sweep
sweep-Holds key expires_at now t h live small =
    let kept = Map.lookup-retain_kept (is_held now) key t.nonces h (ground arith) in
    let fewer = Map.size-retain-le (is_held now) t.nonces in ground (arith, kept, fewer)

sweep-size :
    (now : ℕ) (t : ProofNonceTracker)
    → Map.size t.nonces ≤ max_proof_nonces
    → Map.size (sweep now t).nonces ≤ Map.size t.nonces
unfolding sweep
sweep-size now t small = ground (arith, Map.size-retain-le (is_held now) t.nonces)

-- A use adds at most one nonce, while there is room.
pub use_nonce-size :
    (key : String) (now : ℕ) (t : ProofNonceTracker)
    → Map.size t.nonces ≤ max_proof_nonces
    → Map.size (use_nonce key now t).0.nonces ≤ suc (Map.size t.nonces)
unfolding use_nonce
use_nonce-size key now t small =
    let swept = sweep now t in
    ground (
      arith,
      sweep-size now t small,
      Map.size-insert-le key (now + proof_replay_window) swept.nonces,
    )

-- A use of any nonce leaves a nonce that is held, while there is room.
pub use_nonce-Holds :
    (key other : String) (expires_at now : ℕ) (t : ProofNonceTracker)
    → Holds key expires_at t
    → now < expires_at
    → Map.size t.nonces ≤ max_proof_nonces
    → Holds key expires_at (use_nonce other now t).0
unfolding use_nonce
use_nonce-Holds key other expires_at now t h live small =
    let swept = sweep now t in
    let kept = (sweep-Holds key expires_at now t h live small).0 in
    elim (Bool-cases (other == key)) [
      | inl e ↦
          let found : Map.lookup other swept.nonces ≡ some expires_at =
            ap (λ k. Map.lookup k swept.nonces) (beq→eq other key e) ∙ kept in
          ground (arith, kept)
      | inr e ↦
          ground (arith, kept, Map.lookup-insert key other (now + proof_replay_window) swept.nonces)
    ]

-- An accepted use holds the nonce for the replay window.
pub use_nonce-new :
    (key : String) (now : ℕ) (t : ProofNonceTracker)
    → (use_nonce key now t).1 ≡ true
    → Holds key (now + proof_replay_window) (use_nonce key now t).0
unfolding use_nonce
use_nonce-new key now t h =
    ground (arith, Map.lookup-insert_self key (now + proof_replay_window) (sweep now t).nonces)
