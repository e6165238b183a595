-- ===== src/Pairing/Cases.antt =====
-- The branches of internal/pairing's methods about credentials, as rules: a property of the result
-- follows from the property of each branch, with what the branch knows.
use ferngeist_acp_gateway.Prelude.{
  ℕ, ◌≡◌, refl, true, false, Option, none, some, String, by_text, Result, ok, err, inl, inr,
  Bool-cases, Option-cases, ltb, ◌==◌,
}
use ferngeist_acp_gateway.Prelude.Int.{is_nonpos}
use ferngeist_acp_gateway.Map
use ferngeist_acp_gateway.Storage.Pairings.{PairingStore}
use ferngeist_acp_gateway.Pairing.Types.{
  Service, Credential, RetiredToken, Disk, Libraries, PairingError, credential_missing,
  credential_invalid, credential_expired, credential_grace_expired,
}
use ferngeist_acp_gateway.Pairing.Locked.{
  hash_credential_token, delete_credential_locked, prune_expired_credentials_locked,
  retired_device_locked, beyond_grace,
}
use ferngeist_acp_gateway.Pairing.Credentials.{
  judge, validate_legacy, validate_credential, find_legacy, or_zero,
}
use ferngeist_acp_gateway.Pairing.Refresh.{
  refreshed_row, persist_refresh, rotate, refresh_found, refresh_retired, refresh_credential,
  still_known,
}

abbrev pub Answer : Type 0
Answer = Service × Result PairingError Credential

module _ {ℓ} (P : Answer → Type ℓ) (lib : Libraries) (disk : Disk) (token : String) (now : ℕ)
    (s : Service) where
  pub validate_cases :
      P (s, err credential_missing)
      → ((id : String)
          → Map.lookup (hash_credential_token lib token) s.by_token_hash ≡ some id
          → P (judge disk id now s (or_zero (Map.lookup id s.credentials))))
      → ((id : String) (c : Credential)
          → find_legacy token s.credentials.entries ≡ some (id, c)
          → P (judge disk id now s c))
      → P (prune_expired_credentials_locked disk now s, err credential_invalid)
      → P (validate_credential lib disk token now s)
  unfolding validate_credential validate_legacy
  validate_cases missing indexed legacy unknown = elim (Bool-cases (token == "")) [
    | inl q ↦ rw q missing
    | inr q ↦
        rw q (elim (Option-cases (Map.lookup (hash_credential_token lib token) s.by_token_hash)) [
          | inr (id, f) ↦ rw f (indexed id f)
          | inl f ↦ rw f (elim (Option-cases (find_legacy token s.credentials.entries)) [
            | inr ((id, c), g) ↦ rw (g, validate_legacy) (legacy id c g)
            | inl g ↦ rw (g, validate_legacy) unknown
          ])
        ])
  ]

module _ {ℓ} (P : Answer → Type ℓ) (lib : Libraries) (disk : Disk) (token new_token : String)
    (now : ℕ) (s : Service) where
  -- A credential past its expiry and its grace is deleted; the others are rotated.
  pub refresh_found_cases :
      (presented : Option RetiredToken) (id : String) (c : Credential)
      → (ltb c.expires_at now ≡ true
          → is_nonpos s.grace_period ≡ true
          → P (delete_credential_locked disk id s, err credential_expired))
      → (ltb c.expires_at now ≡ true
          → is_nonpos s.grace_period ≡ false
          → beyond_grace s.grace_period c.expires_at now ≡ true
          → P (delete_credential_locked disk id s, err credential_grace_expired))
      → ((answer : Option (Option PairingStore))
          → answer
            ≡ persist_refresh disk (refreshed_row lib token new_token now s c presented) s.store
          → P (rotate lib new_token now id c s answer))
      → P (refresh_found lib disk token new_token now s presented id c)
  unfolding refresh_found
  refresh_found_cases presented id c strict late turned = elim (Bool-cases (ltb c.expires_at now)) [
    | inr q ↦ rw q (turned _ refl)
    | inl q ↦ rw q (elim (Bool-cases (is_nonpos s.grace_period)) [
      | inl z ↦ rw z (strict q z)
      | inr z ↦ rw z (elim (Bool-cases (beyond_grace s.grace_period c.expires_at now)) [
        | inl b ↦ rw b (late q z b)
        | inr b ↦ rw b (turned _ refl)
      ])
    ])
  ]

  pub refresh_cases :
      P (s, err credential_missing)
      → P (prune_expired_credentials_locked disk now s, err credential_invalid)
      → ((id : String) (c : Credential)
          → retired_device_locked lib token now s ≡ some id
          → still_known now (Map.lookup id s.credentials) ≡ some c
          → P (s, ok c))
      → ((presented : Option RetiredToken) (id : String) (c : Credential)
          → P (refresh_found lib disk token new_token now s presented id c))
      → P (refresh_credential lib disk token new_token now s)
  unfolding refresh_credential refresh_retired
  refresh_cases missing unknown again found = elim (Bool-cases (token == "")) [
    | inl q ↦ rw q missing
    | inr q ↦
        rw q (elim (Option-cases (Map.lookup (hash_credential_token lib token) s.by_token_hash)) [
          | inr (id, f) ↦ rw f (found none id _)
          | inl f ↦ rw f (elim (Option-cases (find_legacy token s.credentials.entries)) [
            | inr ((id, c), g) ↦ rw g (found none id c)
            | inl g ↦ rw g (elim (Option-cases (retired_device_locked lib token now s)) [
              | inl r ↦ rw (r, refresh_retired) unknown
              | inr (id, r) ↦
                  rw (r, refresh_retired)
                    (elim (Option-cases (still_known now (Map.lookup id s.credentials))) [
                      | inr (c, k) ↦ rw k (again id c r k)
                      | inl k ↦ rw k (found _ id _)
                    ])
            ])
          ])
        ])
  ]
