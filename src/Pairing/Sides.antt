-- ===== src/Pairing/Sides.antt =====
-- The state of internal/pairing seen as two sides, the challenges and the credentials: which of the
-- locked methods leave which side alone.
use ferngeist_acp_gateway.Prelude.{
  ℕ, ◌≡◌, refl, ◌∙◌, Option, none, some, List, [], ◌∷◌, String, by_text, arith,
}
use ferngeist_acp_gateway.Prelude.Int.{ℤ}
use ferngeist_acp_gateway.Map.{Map}
use ferngeist_acp_gateway.Storage.Pairings.{PairingStore}
use ferngeist_acp_gateway.Pairing.Types.{
  Service, Credential, ChallengeRecord, RetiredToken, Disk, Libraries,
}
use ferngeist_acp_gateway.Pairing.Locked.{
  index_credential_locked, delete_credential_locked, reap_each, prune_retired_locked,
  prune_expired_credentials_locked, expire_challenge_locked, prune_challenge, prune_each,
}
use ferngeist_acp_gateway.Pairing.Credentials.{judge, validate_credential, revoke_device}
use ferngeist_acp_gateway.Pairing.Refresh.{retire_hash, rotate, refresh_credential}
use ferngeist_acp_gateway.Pairing.Cases.{Answer, validate_cases, refresh_found_cases, refresh_cases}

pub record ChallengeSide : Type 0 where
  pub challenges : Map String ChallengeRecord
  pub active_id : String
  pub armed_until : ℕ

abbrev pub challenge_side : Service → ChallengeSide
challenge_side s = record {
  challenges = s.challenges;
  active_id = s.active_id;
  armed_until = s.armed_until;
}

pub record CredentialSide : Type 0 where
  pub token_ttl : ℕ
  pub grace_period : ℤ
  pub base_scopes : List String
  pub credentials : Map String Credential
  pub by_token_hash : Map String String
  pub retired : Map String RetiredToken
  pub store : Option PairingStore

abbrev pub credential_side : Service → CredentialSide
credential_side s = record {
  token_ttl = s.token_ttl;
  grace_period = s.grace_period;
  base_scopes = s.base_scopes;
  credentials = s.credentials;
  by_token_hash = s.by_token_hash;
  retired = s.retired;
  store = s.store;
}

module _ (disk : Disk) (now : ℕ) where
  pub reap_each-challenge_side :
      (l : List (String × Credential)) (s : Service)
      → challenge_side (reap_each disk now l s) ≡ challenge_side s
  unfolding reap_each delete_credential_locked
  reap_each-challenge_side [] s = refl
  reap_each-challenge_side ((id, c) ∷ l) s = reap_each-challenge_side l _ ∙ ground arith

  pub prune_credentials-challenge_side :
      (s : Service)
      → challenge_side (prune_expired_credentials_locked disk now s) ≡ challenge_side s
  unfolding prune_expired_credentials_locked prune_retired_locked
  prune_credentials-challenge_side s = reap_each-challenge_side s.credentials.entries s

pub prune_each-credential_side :
    (now : ℕ) (l : List (String × ChallengeRecord)) (s : Service)
    → credential_side (prune_each now l s) ≡ credential_side s
unfolding prune_each prune_challenge expire_challenge_locked
prune_each-credential_side now [] s = refl
prune_each-credential_side now ((id, r) ∷ l) s = prune_each-credential_side now l _ ∙ ground arith

pub judge-challenge_side :
    (disk : Disk) (id : String) (now : ℕ) (s : Service) (c : Credential)
    → challenge_side (judge disk id now s c).0 ≡ challenge_side s
unfolding judge delete_credential_locked
judge-challenge_side disk id now s c = ground arith

pub validate-challenge_side :
    (lib : Libraries) (disk : Disk) (token : String) (now : ℕ) (s : Service)
    → challenge_side (validate_credential lib disk token now s).0 ≡ challenge_side s
validate-challenge_side lib disk token now s =
    validate_cases (λ r. challenge_side r.0 ≡ challenge_side s) lib disk token now s refl
      (λ id _. judge-challenge_side disk id now s _)
      (λ id c _. judge-challenge_side disk id now s c) (prune_credentials-challenge_side disk now s)

pub rotate-challenge_side :
    (lib : Libraries) (new_token : String) (now : ℕ) (id : String) (c : Credential) (s : Service)
    (answer : Option (Option PairingStore))
    → challenge_side (rotate lib new_token now id c s answer).0 ≡ challenge_side s
unfolding rotate index_credential_locked prune_retired_locked retire_hash
rotate-challenge_side lib new_token now id c s none = refl
rotate-challenge_side lib new_token now id c s (some x) = ground arith

pub refresh-challenge_side :
    (lib : Libraries) (disk : Disk) (token new_token : String) (now : ℕ) (s : Service)
    → challenge_side (refresh_credential lib disk token new_token now s).0 ≡ challenge_side s
unfolding delete_credential_locked
refresh-challenge_side lib disk token new_token now s =
    refresh_cases P lib disk token new_token now s refl
      (prune_credentials-challenge_side disk now s) (λ id c _ _. refl)
      (λ presented id c.
        refresh_found_cases P lib disk token new_token now s presented id c (λ _ _. refl)
          (λ _ _ _. refl) (λ answer _. rotate-challenge_side lib new_token now id c s answer))
  where
    P : Answer → Type 0
    P r = challenge_side r.0 ≡ challenge_side s

pub revoke-challenge_side :
    (disk : Disk) (id : String) (s : Service)
    → challenge_side (revoke_device disk id s).0 ≡ challenge_side s
unfolding revoke_device delete_credential_locked
revoke-challenge_side disk id s = ground arith
