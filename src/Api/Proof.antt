-- ===== src/Api/Proof.antt =====
-- internal/api/proof.go: the proof of possession that a request carries. Times are nanoseconds since
-- the Unix epoch. A request's texts are those left after `strings.TrimSpace`, and the hash of its
-- body is `none` where reading it fails. The standard library's parsing, hashing and ECDSA are
-- parameters, as is the cache of parsed keys, which answers as the parser does; the overflow of
-- `time.Unix` is not modelled. The tracker of nonces is always there, as the server makes it.
pub mod Nonces
pub mod Replay
use Prim.Native.String.{◌++◌}
use ferngeist_acp_gateway.Prelude.{
  ℕ, suc, ◌+◌, ◌*◌, Bool, true, false, not, ◌&&◌, ◌||◌, Option, none, some, List, [], ◌∷◌, String,
  by_text, ltb, leb, length, ◌==◌, if◌then◌else◌,
}
use ferngeist_acp_gateway.Prelude.Int.{ℤ, pos, negsuc}
use ferngeist_acp_gateway.Map
use ferngeist_acp_gateway.Map.{Map}

abbrev pub second : ℕ
second = 1_000_000_000

-- 5 * time.Minute
abbrev pub proof_skew_window : ℕ
proof_skew_window = 300 * second

-- 10 * time.Minute
abbrev pub proof_replay_window : ℕ
proof_replay_window = 600 * second

abbrev pub proof_domain : String
proof_domain = "FERNGEIST-HTTP-PROOF-V1"

abbrev pub max_proof_nonces : ℕ
max_proof_nonces = 16384

pub data ProofError : Type 0 where
  proof_required proof_invalid proof_expired proof_replayed : ProofError

pub record ProofNonceTracker : Type 0 where
  pub nonces : Map String ℕ
  pub last_sweep : ℕ

unfoldable pub new_proof_nonce_tracker : ProofNonceTracker
unfolding Map.empty
new_proof_nonce_tracker = record { nonces = Map.empty; last_sweep = 0 }

-- `expiresAt.After(now)`
abbrev pub is_held : ℕ → String → ℕ → Bool
is_held now key expires_at = ltb now expires_at

-- The loop that deletes until the cap holds, over the keys that its range meets.
unfoldable pub evict : List String → Map String ℕ → Map String ℕ
evict [] m = m
evict (key ∷ keys) m =
    let left = Map.delete key m in
    let rest = evict keys left in if leb (Map.size left) max_proof_nonces then left else rest

abbrev pub keys_of : List (String × ℕ) → List String
keys_of [] = []
keys_of ((k, v) ∷ l) = k ∷ keys_of l

unfoldable pub sweep : ℕ → ProofNonceTracker → ProofNonceTracker
sweep now t =
    let kept = Map.retain (is_held now) t.nonces in
    if leb (t.last_sweep + 60 * second) now
    then (record {
      nonces =
          if ltb max_proof_nonces (Map.size kept) then evict (keys_of kept.entries) kept else kept;
      last_sweep = now;
    })
    else t

abbrev pub is_used : ℕ → Option ℕ → Bool
is_used now none = false
is_used now (some expires_at) = ltb now expires_at

-- `use`
unfoldable pub use_nonce : String → ℕ → ProofNonceTracker → ProofNonceTracker × Bool
use_nonce key now t =
    let swept = sweep now t in
    if key == ""
    then (t, false)
    else (if is_used now (Map.lookup key swept.nonces) then (swept, false) else (
      record swept { nonces = Map.insert key (now + proof_replay_window) swept.nonces },
      true,
    ))

unfoldable pub seen : String → ℕ → ProofNonceTracker → Bool
seen key now t = is_used now (Map.lookup key t.nonces)

pub record ProofLibraries (K S D : Type 0) : Type 0 where
  pub parse_int : String → Option ℤ
  pub to_upper : String → String
  pub parse_key : String → Option K
  pub decode : String → Option S
  pub digest : List String → D
  pub verify_asn1 : K → D → S → Bool

pub record ProofRequest : Type 0 where
  pub method : String
  pub path : String
  pub timestamp : String
  pub nonce : String
  pub signature : String
  pub body_hash : Option String

-- `timestamp.Before(now.Add(-proofSkewWindow)) || timestamp.After(now.Add(proofSkewWindow))`
unfoldable pub is_skewed : ℕ → ℤ → Bool
is_skewed now (pos s) =
    ltb (s * second + proof_skew_window) now || ltb (now + proof_skew_window) (s * second)
is_skewed now (negsuc n) = ltb proof_skew_window (now + suc n * second)

-- `credential.DeviceID + ":" + nonce`
abbrev pub nonce_key : String → String → String
nonce_key device_id nonce = device_id ++ (":" ++ nonce)

module _ {K S D : Type 0} (lib : ProofLibraries K S D) where
  -- The lines that `strings.Join` puts together.
  unfoldable pub build_proof_message :
      String → String → String → String → String → String → List String
  build_proof_message method path token timestamp nonce body_hash =
      proof_domain ∷ lib.to_upper method ∷ path ∷ token ∷ timestamp ∷ nonce ∷ body_hash ∷ []

  -- What the signature, the key and the hash of the body come to, `none` where one of them fails.
  unfoldable pub is_signed : ProofRequest → String → String → Bool
  is_signed r token proof_public_key = elim r.body_hash [
    | none ↦ false
    | some body_hash ↦ elim (lib.parse_key proof_public_key) [
      | none ↦ false
      | some key ↦ elim (lib.decode r.signature) [
        | none ↦ false
        | some signature ↦
            lib.verify_asn1 key
              (lib.digest (build_proof_message r.method r.path token r.timestamp r.nonce body_hash))
              signature
      ]
    ]
  ]

  -- The parts after the timestamp was read.
  unfoldable pub verify_at :
      ProofRequest
      → String
      → String
      → String
      → ℕ
      → ℤ
      → ProofNonceTracker
      → ProofNonceTracker × Option ProofError
  verify_at r token device_id proof_public_key now timestamp t =
      let key = nonce_key device_id r.nonce in
      let used = use_nonce key now t in
      if is_skewed now timestamp
      then (t, some proof_expired)
      else (if seen key now t
          then (t, some proof_replayed)
          else (if is_signed r token proof_public_key
              then (if used.1 then (used.0, none) else (used.0, some proof_replayed))
              else (t, some proof_invalid)))

  -- `verifyCredentialProof`; the request is `none` where Go's is nil, and the error is `none` where
  -- it returns nil.
  unfoldable pub verify_credential_proof :
      Option ProofRequest
      → String
      → String
      → String
      → ℕ
      → ProofNonceTracker
      → ProofNonceTracker × Option ProofError
  verify_credential_proof request token device_id proof_public_key now t =
      if proof_public_key == "" then (t, none) else (elim request [
        | none ↦ (t, some proof_required)
        | some r ↦
            if (r.timestamp == "") || ((r.nonce == "") || (r.signature == ""))
            then (t, some proof_required)
            else (elim (lib.parse_int r.timestamp) [
              | none ↦ (t, some proof_invalid)
              | some timestamp ↦ verify_at r token device_id proof_public_key now timestamp t
            ])
      ])
