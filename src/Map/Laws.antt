-- ===== src/Map/Laws.antt =====
-- The laws by which the clients reason about maps.
use ferngeist_acp_gateway.Prelude.{
  suc, ◌≤◌, ◌≡◌, ◌≢◌, refl, Bool, none, some, arith, Comparable, ◌==◌, beq_refl, beq_of_ne, All,
  if◌then◌else◌, Option-cases, inl, inr, ◌⊎◌, true,
}
use ferngeist_acp_gateway.Map.Entries.{
  keep, find-put, find-remove, find-sieve, length-sieve, length-put-none, length-put-some,
  length-remove-le, length-remove-some, All-of_find, find_of_All, find-length_zero,
}
use ferngeist_acp_gateway.Map.Defs.{Map, empty, lookup, insert, delete, retain, size}

module _ {ℓ κ} {K : Type ℓ} {V : Type κ} ⦃e : Comparable K⦄ where
  pub lookup-empty : (k : K) → lookup k (empty {V = V}) ≡ none
  unfolding lookup empty
  lookup-empty k = refl

  pub lookup-insert :
      (j k : K) (v : V) (m : Map K V)
      → lookup j (insert k v m) ≡ (if k == j then some v else lookup j m)
  unfolding lookup insert
  lookup-insert j k v m = find-put j k v m.entries

  pub lookup-insert_self : (k : K) (v : V) (m : Map K V) → lookup k (insert k v m) ≡ some v
  lookup-insert_self k v m = rw (lookup-insert k k v m, beq_refl k)

  pub lookup-insert_ne :
      (j k : K) (v : V) (m : Map K V) → k ≢ j → lookup j (insert k v m) ≡ lookup j m
  lookup-insert_ne j k v m h = rw (lookup-insert j k v m, beq_of_ne k j h)

  pub lookup-delete :
      (j k : K) (m : Map K V) → lookup j (delete k m) ≡ (if k == j then none else lookup j m)
  unfolding lookup delete
  lookup-delete j k m = find-remove j k m.entries

  pub lookup-delete_self : (k : K) (m : Map K V) → lookup k (delete k m) ≡ none
  lookup-delete_self k m = rw (lookup-delete k k m, beq_refl k)

  pub lookup-delete_ne : (j k : K) (m : Map K V) → k ≢ j → lookup j (delete k m) ≡ lookup j m
  lookup-delete_ne j k m h = rw (lookup-delete j k m, beq_of_ne k j h)

  pub lookup-retain :
      (p : K → V → Bool) (k : K) (m : Map K V) → lookup k (retain p m) ≡ keep p k (lookup k m)
  unfolding lookup retain
  lookup-retain p k m = find-sieve p k m.entries m.distinct

  pub size-insert-none :
      (k : K) (v : V) (m : Map K V) → lookup k m ≡ none → size (insert k v m) ≡ suc (size m)
  unfolding lookup insert size
  size-insert-none k v m h = length-put-none k v m.entries h

  pub size-insert-some :
      (k : K) (v w : V) (m : Map K V) → lookup k m ≡ some w → size (insert k v m) ≡ size m
  unfolding lookup insert size
  size-insert-some k v w m h = length-put-some k v w m.entries h

  pub size-insert-le : (k : K) (v : V) (m : Map K V) → size (insert k v m) ≤ suc (size m)
  size-insert-le k v m = elim (Option-cases (lookup k m)) [
    | inl q ↦ omega (arith, size-insert-none k v m q)
    | inr (w, q) ↦ omega (arith, size-insert-some k v w m q)
  ]

  pub size-delete-le : (k : K) (m : Map K V) → size (delete k m) ≤ size m
  unfolding delete size
  size-delete-le k m = length-remove-le k m.entries

  pub size-delete-some :
      (k : K) (v : V) (m : Map K V) → lookup k m ≡ some v → suc (size (delete k m)) ≤ size m
  unfolding lookup delete size
  size-delete-some k v m h = length-remove-some k v m.entries h

  pub size-retain-le : (p : K → V → Bool) (m : Map K V) → size (retain p m) ≤ size m
  unfolding retain size
  size-retain-le p m = length-sieve p m.entries

  -- What holds of every entry, in the order of an iteration, is what holds of every lookup.
  pub All-of_lookup {μ} :
      (P : K × V → Type μ) (m : Map K V)
      → ((k : K) (v : V) → lookup k m ≡ some v → P (k, v))
      → All P m.entries
  unfolding lookup
  All-of_lookup P m h = All-of_find P m.entries m.distinct h

  pub lookup_of_All {μ} :
      (P : K × V → Type μ) (m : Map K V) (k : K) (v : V)
      → All P m.entries
      → lookup k m ≡ some v
      → P (k, v)
  unfolding lookup
  lookup_of_All P m k v a h = find_of_All P m.entries k v a h

  -- The two operations that forget entries answer nothing that was not there.
  pub lookup-retain-some :
      (p : K → V → Bool) (k : K) (m : Map K V) {v : V}
      → lookup k (retain p m) ≡ some v
      → (lookup k m ≡ some v) × (p k v ≡ true)
  lookup-retain-some p k m h = ground (arith, lookup-retain p k m)

  pub lookup-retain_kept :
      (p : K → V → Bool) (k : K) (m : Map K V) {v : V}
      → lookup k m ≡ some v
      → p k v ≡ true
      → lookup k (retain p m) ≡ some v
  lookup-retain_kept p k m h q = ground (arith, lookup-retain p k m)

  pub lookup-delete-some :
      (j k : K) (m : Map K V) {v : V}
      → lookup j (delete k m) ≡ some v
      → (lookup j m ≡ some v) × (k ≢ j)
  lookup-delete-some j k m h = ground (arith, lookup-delete j k m, e.same_key_iff k j)

  pub lookup-insert-some :
      (j k : K) (v : V) (m : Map K V) {w : V}
      → lookup j (insert k v m) ≡ some w
      → ((k ≡ j) × (v ≡ w)) ⊎ ((k ≢ j) × (lookup j m ≡ some w))
  lookup-insert-some j k v m h = ground (arith, lookup-insert j k v m, e.same_key_iff k j)

  -- A map of no size answers nothing.
  pub lookup-size_zero : (k : K) (m : Map K V) → size m ≡ 0 → lookup k m ≡ none
  unfolding lookup size
  lookup-size_zero k m h = find-length_zero k m.entries h
