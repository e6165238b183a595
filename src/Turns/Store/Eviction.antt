-- ===== src/Turns/Store/Eviction.antt =====
-- Which outcome leaves a full store of turns/store.go.
use Prim.Native.Nat.{Ordering, compare}
use ferngeist_acp_gateway.Prelude.{
  is_less, ℕ, ◌≤◌, ◌<◌, ◌≡◌, refl, ap, ◌∙◌, true, false, none, some, List, [], ◌∷◌, arith, All,
  Bool-cases, inl, inr, length,
}
use ferngeist_acp_gateway.Map
use ferngeist_acp_gateway.Map.{Map}
use ferngeist_acp_gateway.Turns.Types.{Status, Key, key_of, by_key}
use ferngeist_acp_gateway.Turns.Store.{Store, or_else, compare_age, oldest_of, oldest_locked}

-- Every outcome stands under its own key.
abbrev pub IsKeyed : Store → Type 0
IsKeyed s = (k : Key) (st : Status) → Map.lookup k s.outcomes ≡ some st → key_of st ≡ k

less_first : (a b : ℕ) (o : Ordering) → is_less (or_else (compare a b) o) ≡ true → a ≤ b
less_first a b o h = ground arith

not_less_first : (a b : ℕ) (o : Ordering) → is_less (or_else (compare a b) o) ≡ false → b ≤ a
not_less_first a b o h = ground arith

older : (a b : Status) → is_less (compare_age a b) ≡ true → a.changed_at ≤ b.changed_at
unfolding compare_age
older a b h = less_first a.changed_at b.changed_at _ h

not_older : (a b : Status) → is_less (compare_age a b) ≡ false → b.changed_at ≤ a.changed_at
unfolding compare_age
not_older a b h = not_less_first a.changed_at b.changed_at _ h

oldest_of-some :
    (P : Status → Type 0) (best : Status) (l : List (Key × Status))
    → P best
    → All (λ e. P e.1) l
    → (st : Status) × (oldest_of (some best) l ≡ some st)
      × P st
      × (st.changed_at ≤ best.changed_at)
      × All (λ e. st.changed_at ≤ e.1.changed_at) l
unfolding oldest_of
oldest_of-some P best [] p all = (best, refl, p, omega arith, tt)
oldest_of-some P best ((k, x) ∷ l) p all = elim (Bool-cases (is_less (compare_age x best))) [
  | inl q ↦
      let (st, e, ps, le, least) = oldest_of-some P x l all.0 all.1 in
      (st, rw q e, ps, omega (arith, le, older x best q), (le, least))
  | inr q ↦
      let (st, e, ps, le, least) = oldest_of-some P best l p all.1 in
      (st, rw q e, ps, le, (omega (arith, le, not_older x best q), least))
]

oldest_of-none :
    (P : Status → Type 0) (l : List (Key × Status))
    → 0 < length l
    → All (λ e. P e.1) l
    → (st : Status) × (oldest_of none l ≡ some st)
      × P st
      × All (λ e. st.changed_at ≤ e.1.changed_at) l
unfolding oldest_of
oldest_of-none P [] h all = absurd (omega arith)
oldest_of-none P ((k, x) ∷ l) h all =
    let (st, e, ps, le, least) = oldest_of-some P x l all.0 all.1 in (st, e, ps, (le, least))

-- A store that is not empty has its oldest outcome under the key that the eviction deletes, and no
-- other changed before it.
pub oldest_locked_lem :
    (s : Store)
    → IsKeyed s
    → 0 < Map.size s.outcomes
    → (oldest : Status) × (oldest_locked s ≡ key_of oldest)
      × (Map.lookup (key_of oldest) s.outcomes ≡ some oldest)
      × ((k : Key) (other : Status)
          → Map.lookup k s.outcomes ≡ some other
          → oldest.changed_at ≤ other.changed_at)
unfolding oldest_locked Map.size
oldest_locked_lem s keyed h =
    let (st, e, found, least) =
      oldest_of-none (λ x. Map.lookup (key_of x) s.outcomes ≡ some x) s.outcomes.entries h
        (Map.All-of_lookup (λ x. Map.lookup (key_of x.1) s.outcomes ≡ some x.1) s.outcomes
          (λ k v q. ap (λ j. Map.lookup j s.outcomes) (keyed k v q) ∙ q)) in
    (
      st,
      rw (e, oldest_locked) refl,
      found,
      λ k other q.
          Map.lookup_of_All (λ x. st.changed_at ≤ x.1.changed_at) s.outcomes k other least q,
    )
