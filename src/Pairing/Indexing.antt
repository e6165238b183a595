-- ===== src/Pairing/Indexing.antt =====
-- The steps of internal/pairing that add or change a credential keep the index of token hashes right.
use ferngeist_acp_gateway.Prelude.{
  ◌≡◌, ◌≢◌, ◌∙◌, ap, subst, none, some, String, by_text, arith, inl, inr, Bool-cases, ◌==◌, beq→eq,
}
use ferngeist_acp_gateway.Map
use ferngeist_acp_gateway.Map.{Map}
use ferngeist_acp_gateway.Pairing.Types.{Credential}
use ferngeist_acp_gateway.Pairing.Sides.{CredentialSide}
use ferngeist_acp_gateway.Pairing.Index.{IsIndexed}

-- A credential that changes in other fields than its device and hash.
pub remark :
    (id : String) (c c' : Credential) (v : CredentialSide)
    → IsIndexed v
    → Map.lookup id v.credentials ≡ some c
    → c'.device_id ≡ c.device_id
    → c'.token_hash ≡ c.token_hash
    → IsIndexed (record v { credentials = Map.insert id c' v.credentials })
remark id c c' v ix f d t = record {
  device = λ j x g. elim (Map.lookup-insert-some j id c' v.credentials g) [
    | inl (same, e) ↦ ground (arith, ix.device id c f)
    | inr (ne, g') ↦ ix.device j x g'
  ];
  indexed = λ j x g full. elim (Map.lookup-insert-some j id c' v.credentials g) [
    | inl (same, e) ↦ ground (arith, ix.indexed id c f)
    | inr (ne, g') ↦ ix.indexed j x g' full
  ];
  backed = λ h j g.
      let (x, f', same, full) = ix.backed h j g in
      elim (Bool-cases (id == j)) [
        | inl q ↦ (
          c',
          ground (arith, Map.lookup-insert j id c' v.credentials),
          ground (arith, beq→eq id j q),
          full,
        )
        | inr q ↦ (x, ground (arith, Map.lookup-insert j id c' v.credentials), same, full)
      ];
  spent = ix.spent;
}

-- A hash that neither the index nor the retired hashes hold.
pub record IsNew (h : String) (v : CredentialSide) : Type 0 where
  pub full : h ≢ ""
  pub unlisted : Map.lookup h v.by_token_hash ≡ none
  pub unretired : Map.lookup h v.retired ≡ none

pub enroll :
    (c : Credential) (v : CredentialSide)
    → IsIndexed v
    → Map.lookup c.device_id v.credentials ≡ none
    → IsNew c.token_hash v
    → IsIndexed (record v {
      credentials = Map.insert c.device_id c v.credentials;
      by_token_hash = Map.insert c.token_hash c.device_id v.by_token_hash;
    })
enroll c v ix absent new = record {
  device = λ j x g. elim (Map.lookup-insert-some j c.device_id c v.credentials g) [
    | inl (same, e) ↦ ground arith
    | inr (ne, g') ↦ ix.device j x g'
  ];
  indexed = λ j x g full. elim (Map.lookup-insert-some j c.device_id c v.credentials g) [
    | inl (same, e) ↦
        subst (λ t. Map.lookup t (Map.insert c.token_hash c.device_id v.by_token_hash) ≡ some j)
          (ap (λ y. y.token_hash) e)
          (Map.lookup-insert_self c.token_hash c.device_id v.by_token_hash ∙ ap some same)
    | inr (ne, g') ↦
        let own = ix.indexed j x g' full in
        Map.lookup-insert_ne x.token_hash c.token_hash c.device_id v.by_token_hash
          (λ e. absurd (ground (arith, new.unlisted)))
        ∙ own
  ];
  backed = λ h j g. elim (Map.lookup-insert-some h c.token_hash c.device_id v.by_token_hash g) [
    | inl (same, e) ↦ (
      c,
      subst (λ k. Map.lookup k (Map.insert c.device_id c v.credentials) ≡ some c) e
          (Map.lookup-insert_self c.device_id c v.credentials),
      same,
      subst (λ k. k ≢ "") same new.full,
    )
    | inr (ne, g') ↦
        let (x, f', same, full) = ix.backed h j g' in
        (
          x,
          Map.lookup-insert_ne j c.device_id c v.credentials (λ e. absurd (ground arith)) ∙ f',
          same,
          full,
        )
  ];
  spent = λ h e f.
      Map.lookup-insert_ne h c.token_hash c.device_id v.by_token_hash
        (λ q. absurd (ground (arith, new.unretired)))
      ∙ ix.spent h e f;
}
