-- ===== src/Map/Defs.antt =====
-- The type of maps and its operations: Go's `make(map[K]V)`, `m[k]`, `m[k] = v`, `delete(m, k)`,
-- `len(m)`, and a `range` loop that deletes. A map carries the proof that no key stands twice, so
-- the laws have no side condition.
use ferngeist_acp_gateway.Prelude.{ℕ, Bool, Option, List, [], Comparable, length, map}
use ferngeist_acp_gateway.Map.Entries.{
  find, put, remove, sieve, Distinct, put-Distinct, remove-Distinct, sieve-Distinct,
}

pub record Map {ℓ κ} (K : Type ℓ) (V : Type κ) ⦃e : Comparable K⦄ : Type (ℓ ⊔ κ) where
  pub entries : List (K × V)
  pub distinct : Distinct entries

module _ {ℓ κ} {K : Type ℓ} {V : Type κ} ⦃e : Comparable K⦄ where
  unfoldable pub empty : Map K V
  empty = record { entries = []; distinct = tt }

  unfoldable pub lookup : K → Map K V → Option V
  unfolding find
  lookup k m = find k m.entries

  unfoldable pub insert : K → V → Map K V → Map K V
  unfolding put
  insert k v m = record {
    entries = put k v m.entries;
    distinct = put-Distinct k v m.entries m.distinct;
  }

  unfoldable pub delete : K → Map K V → Map K V
  unfolding remove
  delete k m = record {
    entries = remove k m.entries;
    distinct = remove-Distinct k m.entries m.distinct;
  }

  -- Deletes the entries that the test does not keep.
  unfoldable pub retain : (K → V → Bool) → Map K V → Map K V
  unfolding sieve
  retain p m = record {
    entries = sieve p m.entries;
    distinct = sieve-Distinct p m.entries m.distinct;
  }

  unfoldable pub size : Map K V → ℕ
  size m = length m.entries

  unfoldable pub values : Map K V → List V
  values m = map (λ e. e.1) m.entries
