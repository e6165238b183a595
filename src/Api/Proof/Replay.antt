-- ===== src/Api/Proof/Replay.antt =====
-- A request whose proof was accepted is not accepted again.
use ferngeist_acp_gateway.Prelude.{
  ℕ, suc, ◌+◌, ◌≤◌, ◌<◌, ◌≡◌, ◌≢◌, refl, sym, ap, subst, ◌∙◌, true, false, ◌||◌, Option, none, some,
  List, [], ◌∷◌, String, by_text, arith, All, ltb, length, ◌==◌, if-cases, Bool-cases, Option-cases,
  inl, inr, beq→eq,
}
use ferngeist_acp_gateway.Prelude.Int.{ℤ, pos, negsuc}
use ferngeist_acp_gateway.Map
use ferngeist_acp_gateway.Api.Proof.{
  ProofNonceTracker, ProofError, ProofLibraries, ProofRequest, nonce_key, max_proof_nonces,
  proof_replay_window, use_nonce, seen, is_skewed, is_signed, verify_at, verify_credential_proof,
}
use ferngeist_acp_gateway.Api.Proof.Nonces.{Holds, use_nonce-size, use_nonce-Holds, use_nonce-new}

-- One call of the verification.
pub record Call : Type 0 where
  pub request : Option ProofRequest
  pub token : String
  pub device_id : String
  pub proof_public_key : String
  pub now : ℕ

-- A timestamp that was in the window is out of it once the replay window is over.
is_skewed_later :
    (first later : ℕ) (timestamp : ℤ)
    → is_skewed first timestamp ≡ false
    → first + proof_replay_window < later
    → is_skewed later timestamp ≡ true
unfolding is_skewed
is_skewed_later first later (pos s) h lt = ground arith
is_skewed_later first later (negsuc n) h lt = ground arith

All-weaken : (P Q : Call → Type 0) (l : List Call) → ((x : Call) → P x → Q x) → All P l → All Q l
All-weaken P Q [] h a = tt
All-weaken P Q (x ∷ l) h a = (h x a.0, All-weaken P Q l h a.1)

module _ {K S D : Type 0} (lib : ProofLibraries K S D) where
  unfoldable pub step : ProofNonceTracker → Call → ProofNonceTracker × Option ProofError
  step t c = verify_credential_proof lib c.request c.token c.device_id c.proof_public_key c.now t

  unfoldable pub run : ProofNonceTracker → List Call → ProofNonceTracker
  run t [] = t
  run t (c ∷ cs) = run (step t c).0 cs

  -- A call uses one nonce or leaves the tracker.
  step-cases {μ} :
      (P : ProofNonceTracker → Type μ) (t : ProofNonceTracker) (c : Call)
      → P t
      → ((key : String) → P (use_nonce key c.now t).0)
      → P (step t c).0
  unfolding step verify_credential_proof verify_at
  step-cases P t c stays uses =
      let Q = λ (r : ProofNonceTracker × Option ProofError). P r.0 in
      if-cases Q (c.proof_public_key == "") (λ q. stays)
        (λ q. elim (Option-cases c.request) [
          | inl e ↦ rw e stays
          | inr (r, e) ↦ rw e (
              if-cases Q ((r.timestamp == "") || ((r.nonce == "") || (r.signature == "")))
                (λ x. stays)
                (λ x. elim (Option-cases (lib.parse_int r.timestamp)) [
                  | inl p ↦ rw p stays
                  | inr (ts, p) ↦
                      let key = nonce_key c.device_id r.nonce in
                      rw p (
                        if-cases Q (is_skewed c.now ts) (λ y. stays)
                          (λ y.
                            if-cases Q (seen key c.now t) (λ z. stays)
                              (λ z.
                                if-cases Q (is_signed lib r c.token c.proof_public_key)
                                  (λ w.
                                    if-cases Q (use_nonce key c.now t).1 (λ v. uses key)
                                      (λ v. uses key))
                                  (λ w. stays))))
                ]))
        ])

  run-Holds :
      (key : String) (expires_at : ℕ) (t : ProofNonceTracker) (cs : List Call)
      → Holds key expires_at t
      → All (λ c. c.now < expires_at) cs
      → length cs + Map.size t.nonces ≤ max_proof_nonces
      → Holds key expires_at (run t cs)
  unfolding run
  run-Holds key expires_at t [] h early room = h
  run-Holds key expires_at t (c ∷ cs) h early room =
      let (held, size) =
        step-cases (λ s. Holds key expires_at s × (Map.size s.nonces ≤ suc (Map.size t.nonces))) t c
          (h, omega arith)
          (λ k. (
            use_nonce-Holds key k expires_at c.now t h early.0 (omega (arith, room)),
            use_nonce-size k c.now t (omega (arith, room)),
          )) in
      run-Holds key expires_at (step t c).0 cs held early.1 (omega (arith, room, size))

  -- What an accepted proof went through.
  abbrev Went : ProofNonceTracker → Call → ProofRequest → ProofNonceTracker → Type 0
  Went t c r after =
      (ts : ℤ) × (lib.parse_int r.timestamp ≡ some ts)
      × (is_skewed c.now ts ≡ false)
      × (seen (nonce_key c.device_id r.nonce) c.now t ≡ false)
      × ((use_nonce (nonce_key c.device_id r.nonce) c.now t).1 ≡ true)
      × (after ≡ (use_nonce (nonce_key c.device_id r.nonce) c.now t).0)

  verify_at-accepted :
      (t : ProofNonceTracker) (c : Call) (r : ProofRequest) (ts : ℤ)
      → (verify_at lib r c.token c.device_id c.proof_public_key c.now ts t).1 ≡ none
      → (is_skewed c.now ts ≡ false)
        × (seen (nonce_key c.device_id r.nonce) c.now t ≡ false)
        × ((use_nonce (nonce_key c.device_id r.nonce) c.now t).1 ≡ true)
        × ((verify_at lib r c.token c.device_id c.proof_public_key c.now ts t).0
            ≡ (use_nonce (nonce_key c.device_id r.nonce) c.now t).0)
  unfolding verify_at
  verify_at-accepted t c r ts =
      let key = nonce_key c.device_id r.nonce in
      let Q = λ (x : ProofNonceTracker × Option ProofError).
        x.1 ≡ none
        → (is_skewed c.now ts ≡ false)
          × (seen key c.now t ≡ false)
          × ((use_nonce key c.now t).1 ≡ true)
          × (x.0 ≡ (use_nonce key c.now t).0) in
      if-cases Q (is_skewed c.now ts) (λ y h. absurd (ground arith))
        (λ y.
          if-cases Q (seen key c.now t) (λ z h. absurd (ground arith))
            (λ z.
              if-cases Q (is_signed lib r c.token c.proof_public_key)
                (λ w.
                  if-cases Q (use_nonce key c.now t).1 (λ v h. (y, z, v, refl))
                    (λ v h. absurd (ground arith)))
                (λ w h. absurd (ground arith))))

  step-accepted :
      (t : ProofNonceTracker) (c : Call) (r : ProofRequest)
      → c.request ≡ some r
      → c.proof_public_key ≢ ""
      → (step t c).1 ≡ none
      → Went t c r (step t c).0
  unfolding step verify_credential_proof
  step-accepted t c r e full =
      let Q = λ (x : ProofNonceTracker × Option ProofError). x.1 ≡ none → Went t c r x.0 in
      if-cases Q (c.proof_public_key == "") (λ q h. absurd (full (beq→eq c.proof_public_key "" q)))
        (λ q. rw e (
          if-cases Q ((r.timestamp == "") || ((r.nonce == "") || (r.signature == "")))
            (λ x h. absurd (ground arith))
            (λ x. elim (Option-cases (lib.parse_int r.timestamp)) [
              | inl p ↦ rw p (λ h. absurd (ground arith))
              | inr (ts, p) ↦
                  rw p (λ h.
                    let (y, z, v, w) = verify_at-accepted t c r ts h in (ts, refl, y, z, v, w))
            ])))

  Holds-seen :
      (key : String) (expires_at now : ℕ) (t : ProofNonceTracker)
      → Holds key expires_at t
      → now < expires_at
      → seen key now t ≡ true
  unfolding seen
  Holds-seen key expires_at now t h lt = ground (arith, h)

  -- Where a request of a device with a key was accepted, a request with the same device, nonce and
  -- timestamp is refused afterwards, whatever was verified between, at times up to then, while the
  -- tracker has room for a nonce of each call, and unless exactly the replay window has passed.
  pub step-run-step :
      (t : ProofNonceTracker) (c d : Call) (cs : List Call) (r q : ProofRequest)
      → c.request ≡ some r
      → d.request ≡ some q
      → c.proof_public_key ≢ ""
      → d.proof_public_key ≢ ""
      → d.device_id ≡ c.device_id
      → q.nonce ≡ r.nonce
      → q.timestamp ≡ r.timestamp
      → (step t c).1 ≡ none
      → All (λ x. x.now ≤ d.now) cs
      → suc (length cs + Map.size t.nonces) ≤ max_proof_nonces
      → d.now ≢ c.now + proof_replay_window
      → (step (run (step t c).0 cs) d).1 ≢ none
  step-run-step t c d cs r q e f full full' device nonce timestamp accepted early room apart again =
      let key = nonce_key c.device_id r.nonce in
      let end = c.now + proof_replay_window in
      let (ts, parsed, fresh, unseen, used, after) = step-accepted t c r e full accepted in
      let (ts', parsed', fresh', unseen', used', after') =
        step-accepted (run (step t c).0 cs) d q f full' again in
      let same_key : nonce_key d.device_id q.nonce ≡ key = rw (device, nonce) refl in
      let same_ts : ts' ≡ ts = some_inj (sym parsed' ∙ (ap lib.parse_int timestamp ∙ parsed)) in
      elim (Bool-cases (ltb d.now end)) [
        | inl y ↦
            let held =
              run-Holds key end (step t c).0 cs
                (subst (Holds key end) (sym after) (use_nonce-new key c.now t used))
                (All-weaken (λ x. x.now ≤ d.now) (λ x. x.now < end) cs (λ x le. ground arith) early)
                (subst (λ x. length cs + Map.size x.nonces ≤ max_proof_nonces) (sym after)
                  (omega (arith, use_nonce-size key c.now t (omega (arith, room)), room))) in
            let known = Holds-seen key end d.now (run (step t c).0 cs) held (ground arith) in
            let unknown =
              subst (λ k. seen k d.now (run (step t c).0 cs) ≡ false) same_key unseen' in
            ground (arith, known, unknown)
        | inr y ↦
            let old = is_skewed_later c.now d.now ts fresh (ground arith) in
            let new = subst (λ x. is_skewed d.now x ≡ false) same_ts fresh' in
            ground (arith, old, new)
      ]
    where
      some_inj : {a b : ℤ} → some a ≡ some b → a ≡ b
      some_inj h = ground arith
