-- ===== src/Pairing/Rotating.antt =====
-- A rotation of internal/pairing keeps the index of token hashes right.
use ferngeist_acp_gateway.Prelude.{
  ◌≡◌, ◌≢◌, sym, ◌∙◌, ap, subst, none, some, String, by_text, arith, inl, inr,
}
use ferngeist_acp_gateway.Map
use ferngeist_acp_gateway.Map.{Map}
use ferngeist_acp_gateway.Pairing.Types.{Credential, RetiredToken}
use ferngeist_acp_gateway.Pairing.Sides.{CredentialSide}
use ferngeist_acp_gateway.Pairing.Index.{IsIndexed}
use ferngeist_acp_gateway.Pairing.Indexing.{IsNew}

module _ (id : String) (c c' : Credential) (v : CredentialSide) (ix : IsIndexed v)
    (f : Map.lookup id v.credentials ≡ some c) (d : c'.device_id ≡ id)
    (new : IsNew c'.token_hash v) where
  -- The other devices' entries are neither the new hash nor, if there is one, the old.
  other_hash :
      (j : String) (x : Credential)
      → id ≢ j
      → Map.lookup j v.credentials ≡ some x
      → x.token_hash ≢ ""
      → (Map.lookup x.token_hash v.by_token_hash ≡ some j)
        × (c'.token_hash ≢ x.token_hash)
        × (c.token_hash ≢ x.token_hash)
  other_hash j x ne g full =
      let own = ix.indexed j x g full in
      (
        own,
        (λ e. absurd (ground (arith, new.unlisted))),
        (λ e. ne (ground (arith, ix.indexed id c f (λ z. full (sym e ∙ z))))),
      )

  -- The hash of a device that had none joins the index.
  pub rotate_unhashed :
      c.token_hash ≡ ""
      → IsIndexed (record v {
        credentials = Map.insert id c' v.credentials;
        by_token_hash = Map.insert c'.token_hash id v.by_token_hash;
      })
  rotate_unhashed old = record {
    device = λ j x g. elim (Map.lookup-insert-some j id c' v.credentials g) [
      | inl (same, e) ↦ ground arith
      | inr (ne, g') ↦ ix.device j x g'
    ];
    indexed = λ j x g full. elim (Map.lookup-insert-some j id c' v.credentials g) [
      | inl (same, e) ↦
          subst (λ t. Map.lookup t (Map.insert c'.token_hash id v.by_token_hash) ≡ some j)
            (ap (λ y. y.token_hash) e)
            (Map.lookup-insert_self c'.token_hash id v.by_token_hash ∙ ap some same)
      | inr (ne, g') ↦
          let (own, n, o) = other_hash j x ne g' full in
          Map.lookup-insert_ne x.token_hash c'.token_hash id v.by_token_hash n ∙ own
    ];
    backed = λ h j g. elim (Map.lookup-insert-some h c'.token_hash id v.by_token_hash g) [
      | inl (same, e) ↦ (
        c',
        subst (λ k. Map.lookup k (Map.insert id c' v.credentials) ≡ some c') e
            (Map.lookup-insert_self id c' v.credentials),
        same,
        subst (λ k. k ≢ "") same new.full,
      )
      | inr (ne, g') ↦
          let (x, f', same, full) = ix.backed h j g' in
          (
            x,
            Map.lookup-insert_ne j id c' v.credentials (λ e. full (ground arith)) ∙ f',
            same,
            full,
          )
    ];
    spent = λ h e r.
        Map.lookup-insert_ne h c'.token_hash id v.by_token_hash
          (λ q. absurd (ground (arith, new.unretired)))
        ∙ ix.spent h e r;
  }

  -- The old hash leaves the index for the retired ones.
  pub rotate_hashed :
      (e : RetiredToken)
      → c.token_hash ≢ ""
      → IsIndexed (record v {
        credentials = Map.insert id c' v.credentials;
        by_token_hash = Map.insert c'.token_hash id (Map.delete c.token_hash v.by_token_hash);
        retired = Map.insert c.token_hash e v.retired;
      })
  rotate_hashed e old = record {
    device = λ j x g. elim (Map.lookup-insert-some j id c' v.credentials g) [
      | inl (same, q) ↦ ground arith
      | inr (ne, g') ↦ ix.device j x g'
    ];
    indexed = λ j x g full. elim (Map.lookup-insert-some j id c' v.credentials g) [
      | inl (same, q) ↦
          subst (λ t. Map.lookup t (Map.insert c'.token_hash id rest) ≡ some j)
            (ap (λ y. y.token_hash) q) (Map.lookup-insert_self c'.token_hash id rest ∙ ap some same)
      | inr (ne, g') ↦
          let (own, n, o) = other_hash j x ne g' full in
          Map.lookup-insert_ne x.token_hash c'.token_hash id rest n
          ∙ Map.lookup-delete_ne x.token_hash c.token_hash v.by_token_hash o
          ∙ own
    ];
    backed = λ h j g. elim (Map.lookup-insert-some h c'.token_hash id rest g) [
      | inl (same, q) ↦ (
        c',
        subst (λ k. Map.lookup k (Map.insert id c' v.credentials) ≡ some c') q
            (Map.lookup-insert_self id c' v.credentials),
        same,
        subst (λ k. k ≢ "") same new.full,
      )
      | inr (ne, g') ↦
          let (g'', o) = Map.lookup-delete-some h c.token_hash v.by_token_hash g' in
          let (x, f', same, full) = ix.backed h j g'' in
          (x, Map.lookup-insert_ne j id c' v.credentials (λ q. o (ground arith)) ∙ f', same, full)
    ];
    spent = λ h r g. elim (Map.lookup-insert-some h c.token_hash e v.retired g) [
      | inl (same, q) ↦
          Map.lookup-insert_ne h c'.token_hash id rest
            (λ z. absurd (ground (arith, new.unlisted, ix.indexed id c f old)))
          ∙ subst (λ k. Map.lookup k rest ≡ none) same
              (Map.lookup-delete_self c.token_hash v.by_token_hash)
      | inr (ne, g') ↦
          Map.lookup-insert_ne h c'.token_hash id rest (λ z. absurd (ground (arith, new.unretired)))
          ∙ Map.lookup-delete_ne h c.token_hash v.by_token_hash ne
          ∙ ix.spent h r g'
    ];
  }
    where
      rest : Map String String
      rest = Map.delete c.token_hash v.by_token_hash
