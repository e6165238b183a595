-- ===== src/Pairing/Index.antt =====
-- The index of token hashes of internal/pairing agrees with the credentials, and a hash that a refresh
-- rotated away is not in it.
use ferngeist_acp_gateway.Prelude.{
  ◌≡◌, ◌≢◌, refl, sym, ◌∙◌, Bool, true, not, Option, none, some, String, by_text, arith, inl, inr,
  Bool-cases, Option-cases, ◌==◌, beq→eq,
}
use ferngeist_acp_gateway.Map
use ferngeist_acp_gateway.Map.{Map}
use ferngeist_acp_gateway.Storage.Pairings.{PairingStore}
use ferngeist_acp_gateway.Pairing.Types.{Credential, RetiredToken}
use ferngeist_acp_gateway.Pairing.Locked.{unindex}
use ferngeist_acp_gateway.Pairing.Sides.{CredentialSide}

pub record IsIndexed (v : CredentialSide) : Type 0 where
  pub device :
      (id : String) (c : Credential) → Map.lookup id v.credentials ≡ some c → c.device_id ≡ id
  pub indexed :
      (id : String) (c : Credential)
      → Map.lookup id v.credentials ≡ some c
      → c.token_hash ≢ ""
      → Map.lookup c.token_hash v.by_token_hash ≡ some id
  pub backed :
      (h id : String)
      → Map.lookup h v.by_token_hash ≡ some id
      → (c : Credential) × (Map.lookup id v.credentials ≡ some c) × (c.token_hash ≡ h) × (h ≢ "")
  pub spent :
      (h : String) (e : RetiredToken)
      → Map.lookup h v.retired ≡ some e
      → Map.lookup h v.by_token_hash ≡ none

-- Fewer retired hashes, and any other store, keep the index right.
pub retain_retired :
    (p : String → RetiredToken → Bool) (v : CredentialSide)
    → IsIndexed v
    → IsIndexed (record v { retired = Map.retain p v.retired })
retain_retired p v h = record {
  device = h.device;
  indexed = h.indexed;
  backed = h.backed;
  spent = λ k e f. h.spent k e (Map.lookup-retain-some p k v.retired f).0;
}

pub other_store :
    (store : Option PairingStore) (v : CredentialSide)
    → IsIndexed v
    → IsIndexed (record v { store = store })
other_store store v h = record {
  device = h.device;
  indexed = h.indexed;
  backed = h.backed;
  spent = h.spent;
}

-- What is left in the index was there, and is not the hash of the device that leaves it.
unindex-some :
    (v : CredentialSide) (id h j : String) (c : Credential)
    → IsIndexed v
    → Map.lookup id v.credentials ≡ some c
    → Map.lookup h (unindex id (some c) v.by_token_hash) ≡ some j
    → (Map.lookup h v.by_token_hash ≡ some j) × (j ≢ id)
unfolding unindex
unindex-some v id h j c ix f g = elim (Bool-cases (c.token_hash == "")) [
  | inl q ↦
      let g' = rw q at g in
      (
        g',
        λ e.
            let (c', f', same, full) = ix.backed h j g' in
            full (ground (arith, beq→eq c.token_hash "" q)),
      )
  | inr q ↦
      let own : Map.lookup c.token_hash v.by_token_hash ≡ some id =
        ix.indexed id c f (λ e. ground (arith, by_text.same_key_iff c.token_hash "")) in
      let self : (id == id) ≡ true = (by_text.same_key_iff id id).1 refl in
      let g' : Map.lookup h (Map.delete c.token_hash v.by_token_hash) ≡ some j =
        rw (q, own, self) at g in
      let (g'', ne) = Map.lookup-delete-some h c.token_hash v.by_token_hash g' in
      (g'', λ e. let (c', f', same, full) = ix.backed h j g'' in ne (ground arith))
]

-- A hash that is not the leaving device's stays in the index.
unindex-kept :
    (v : CredentialSide) (id h j : String) (c : Credential)
    → Map.lookup h v.by_token_hash ≡ some j
    → c.token_hash ≢ h
    → Map.lookup h (unindex id (some c) v.by_token_hash) ≡ some j
unfolding unindex
unindex-kept v id h j c g ne =
    ground (arith, Map.lookup-delete_ne h c.token_hash v.by_token_hash ne)

unindex-none :
    (v : CredentialSide) (id h : String) (o : Option Credential)
    → Map.lookup h v.by_token_hash ≡ none
    → Map.lookup h (unindex id o v.by_token_hash) ≡ none
unfolding unindex
unindex-none v id h none g = g
unindex-none v id h (some c) g = ground (arith, Map.lookup-delete h c.token_hash v.by_token_hash)

not_retired_to : String → String → RetiredToken → Bool
not_retired_to id h e = not (e.device_id == id)

delete_side : String → CredentialSide → CredentialSide
unfolding not_retired_to
delete_side id v = record v {
  by_token_hash = unindex id (Map.lookup id v.credentials) v.by_token_hash;
  credentials = Map.delete id v.credentials;
  retired = Map.retain (not_retired_to id) v.retired;
}

delete_side-IsIndexed :
    (id : String) (v : CredentialSide) → IsIndexed v → IsIndexed (delete_side id v)
unfolding delete_side unindex
delete_side-IsIndexed id v ix = elim (Option-cases (Map.lookup id v.credentials)) [
  | inl f ↦ rw f (record {
    device = λ j c g. ix.device j c (Map.lookup-delete-some j id v.credentials g).0;
    indexed = λ j c g full. ix.indexed j c (Map.lookup-delete-some j id v.credentials g).0 full;
    backed = λ h j g.
        let (c, f', same, full) = ix.backed h j g in
        (c, Map.lookup-delete_ne j id v.credentials (λ e. absurd (ground arith)) ∙ f', same, full);
    spent = λ h e g. ix.spent h e (Map.lookup-retain-some (not_retired_to id) h v.retired g).0;
  })
  | inr (d, f) ↦ rw f (record {
    device = λ j c g. ix.device j c (Map.lookup-delete-some j id v.credentials g).0;
    indexed = λ j c g full.
        let (g', ne) = Map.lookup-delete-some j id v.credentials g in
        let own = ix.indexed j c g' full in
        unindex-kept v id c.token_hash j d own
          (λ e. ne (ground (arith, ix.indexed id d f (λ z. full (sym e ∙ z)))));
    backed = λ h j g.
        let (g', ne) = unindex-some v id h j d ix f g in
        let (c, f', same, full) = ix.backed h j g' in
        (c, Map.lookup-delete_ne j id v.credentials (λ e. ne (sym e)) ∙ f', same, full);
    spent = λ h e g.
        unindex-none v id h (some d)
          (ix.spent h e (Map.lookup-retain-some (not_retired_to id) h v.retired g).0);
  })
]
