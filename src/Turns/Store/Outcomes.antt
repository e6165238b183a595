-- ===== src/Turns/Store/Outcomes.antt =====
-- What a recorded outcome does to the store of turns/store.go.
use ferngeist_acp_gateway.Prelude.{
  suc, ◌≤◌, ◌<◌, ◌≡◌, ◌≢◌, refl, sym, ap, subst, ◌∙◌, true, false, none, some, List, [], ◌∷◌, arith,
  Bool-cases, Option-cases, inl, inr, ◌⊎◌, if◌then◌else◌, ltb, leb, ◌==◌, beq→eq,
}
use ferngeist_acp_gateway.Map
use ferngeist_acp_gateway.Map.{Map}
use ferngeist_acp_gateway.Turns.Types.{Status, Key, key_of, by_key}
use ferngeist_acp_gateway.Turns.Store.{
  Store, max_outcomes, new_store, oldest_locked, finished, keep_latest, record_outcome,
}
use ferngeist_acp_gateway.Turns.Store.Eviction.{IsKeyed, oldest_locked_lem}

abbrev roomy : Store → Map Key Status
roomy s =
    if leb max_outcomes (Map.size s.outcomes)
    then Map.delete (oldest_locked s) s.outcomes
    else s.outcomes

-- The three cases of a recorded outcome: new chat, late reply, newer reply.
record_new :
    (st : Status) (s : Store)
    → Map.lookup (key_of st) s.outcomes ≡ none
    → (record_outcome st s).outcomes ≡ Map.insert (key_of st) (finished st) (roomy s)
unfolding record_outcome keep_latest
record_new st s q = rw (q, record_outcome) refl

record_late :
    (st old : Status) (s : Store)
    → Map.lookup (key_of st) s.outcomes ≡ some old
    → ltb st.started_at old.started_at ≡ true
    → record_outcome st s ≡ s
unfolding record_outcome keep_latest
record_late st old s q y = rw (q, record_outcome) (rw y refl)

record_newer :
    (st old : Status) (s : Store)
    → Map.lookup (key_of st) s.outcomes ≡ some old
    → ltb st.started_at old.started_at ≡ false
    → (record_outcome st s).outcomes ≡ Map.insert (key_of st) (finished st) s.outcomes
unfolding record_outcome keep_latest
record_newer st old s q y = rw (q, record_outcome) (rw y refl)

record_cases {μ} :
    (P : Map Key Status → Type μ) (st : Status) (s : Store)
    → (Map.lookup (key_of st) s.outcomes ≡ none
        → P (Map.insert (key_of st) (finished st) (roomy s)))
    → ((old : Status)
        → Map.lookup (key_of st) s.outcomes ≡ some old
        → st.started_at < old.started_at
        → P s.outcomes)
    → ((old : Status)
        → Map.lookup (key_of st) s.outcomes ≡ some old
        → old.started_at ≤ st.started_at
        → P (Map.insert (key_of st) (finished st) s.outcomes))
    → P (record_outcome st s).outcomes
record_cases P st s new late newer = elim (Option-cases (Map.lookup (key_of st) s.outcomes)) [
  | inl q ↦ subst P (sym (record_new st s q)) (new q)
  | inr (old, q) ↦ elim (Bool-cases (ltb st.started_at old.started_at)) [
    | inl y ↦ subst (λ x. P x.outcomes) (sym (record_late st old s q y)) (late old q (ground arith))
    | inr y ↦ subst P (sym (record_newer st old s q y)) (newer old q (ground arith))
  ]
]

roomy-some :
    (s : Store) (k : Key) (x : Status)
    → Map.lookup k (roomy s) ≡ some x
    → Map.lookup k s.outcomes ≡ some x
roomy-some s k x h = elim (Bool-cases (leb max_outcomes (Map.size s.outcomes))) [
  | inl q ↦ (Map.lookup-delete-some k (oldest_locked s) s.outcomes (rw q at h)).0
  | inr q ↦ rw q at h
]

insert-keyed :
    (st : Status) (m : Map Key Status) (k : Key) (x : Status)
    → ((j : Key) (y : Status) → Map.lookup j m ≡ some y → key_of y ≡ j)
    → Map.lookup k (Map.insert (key_of st) (finished st) m) ≡ some x
    → key_of x ≡ k
insert-keyed st m k x keyed h = elim (Map.lookup-insert-some k (key_of st) (finished st) m h) [
  | inl (e, f) ↦ ap key_of (sym f) ∙ e
  | inr (ne, f) ↦ keyed k x f
]

-- A recorded outcome stands under its key too.
pub record_outcome-IsKeyed : (st : Status) (s : Store) → IsKeyed s → IsKeyed (record_outcome st s)
record_outcome-IsKeyed st s keyed =
    record_cases (λ m. (k : Key) (x : Status) → Map.lookup k m ≡ some x → key_of x ≡ k) st s
      (λ q k x. insert-keyed st (roomy s) k x (λ j y h. keyed j y (roomy-some s j y h)))
      (λ old q lt. keyed) (λ old q le k x. insert-keyed st s.outcomes k x keyed)

-- The chat has an outcome afterwards that started no earlier than the one recorded and the chat's
-- outcome so far, and it is one of the two.
pub record_outcome-lookup :
    (st : Status) (s : Store)
    → (kept : Status) × (Map.lookup (key_of st) (record_outcome st s).outcomes ≡ some kept)
      × (st.started_at ≤ kept.started_at)
      × ((kept ≡ finished st) ⊎ (Map.lookup (key_of st) s.outcomes ≡ some kept))
      × ((old : Status)
          → Map.lookup (key_of st) s.outcomes ≡ some old
          → old.started_at ≤ kept.started_at)
record_outcome-lookup st s =
    record_cases
      (λ m.
        (kept : Status) × (Map.lookup (key_of st) m ≡ some kept)
        × (st.started_at ≤ kept.started_at)
        × ((kept ≡ finished st) ⊎ (Map.lookup (key_of st) s.outcomes ≡ some kept))
        × ((old : Status)
            → Map.lookup (key_of st) s.outcomes ≡ some old
            → old.started_at ≤ kept.started_at))
      st s
      (λ q. (
        finished st,
        Map.lookup-insert_self (key_of st) (finished st) (roomy s),
        omega arith,
        inl refl,
        λ old f. absurd (ground arith),
      ))
      (λ old q lt. (old, q, omega arith, inr q, λ o f. ground arith))
      (λ old q le. (
        finished st,
        Map.lookup-insert_self (key_of st) (finished st) s.outcomes,
        omega arith,
        inl refl,
        λ o f. ground arith,
      ))

-- Where each outcome stands under its chat's key: a recorded outcome takes another chat's from the
-- store only where the store was full and the chat new to it, and then one that no other outcome
-- is older than.
pub record_outcome-others :
    (st : Status) (s : Store) (k : Key) (other : Status)
    → IsKeyed s
    → k ≢ key_of st
    → Map.lookup k s.outcomes ≡ some other
    → (Map.lookup k (record_outcome st s).outcomes ≡ some other)
      ⊎ ((max_outcomes ≤ Map.size s.outcomes)
          × (Map.lookup (key_of st) s.outcomes ≡ none)
          × ((j : Key) (x : Status)
              → Map.lookup j s.outcomes ≡ some x
              → other.changed_at ≤ x.changed_at))
record_outcome-others st s k other keyed ne f =
    record_cases
      (λ m.
        (Map.lookup k m ≡ some other)
        ⊎ ((max_outcomes ≤ Map.size s.outcomes)
            × (Map.lookup (key_of st) s.outcomes ≡ none)
            × ((j : Key) (x : Status)
                → Map.lookup j s.outcomes ≡ some x
                → other.changed_at ≤ x.changed_at)))
      st s
      (λ q. elim (Bool-cases (leb max_outcomes (Map.size s.outcomes))) [
        | inr y ↦ rw y (inl (skip s.outcomes ∙ f))
        | inl y ↦
            let (oldest, e, found, least) = oldest_locked_lem s keyed (ground arith) in
            elim (Bool-cases (key_of oldest == k)) [
              | inl z ↦
                  let same = ap (λ j. Map.lookup j s.outcomes) (sym (beq→eq (key_of oldest) k z)) in
                  inr (
                    ground arith,
                    q,
                    λ j x h.
                        subst (λ o. o.changed_at ≤ x.changed_at)
                          (some_inj (sym found ∙ (sym same ∙ f))) (least j x h),
                  )
              | inr z ↦ rw y (
                  inl (
                    skip (Map.delete (oldest_locked s) s.outcomes)
                    ∙ (Map.lookup-delete_ne k (oldest_locked s) s.outcomes
                          (λ w. ground (arith, by_key.same_key_iff (key_of oldest) k, sym e ∙ w))
                        ∙ f)))
            ]
      ])
      (λ old q lt. inl f) (λ old q le. inl (skip s.outcomes ∙ f))
  where
    skip :
        (m : Map Key Status)
        → Map.lookup k (Map.insert (key_of st) (finished st) m) ≡ Map.lookup k m
    skip m = Map.lookup-insert_ne k (key_of st) (finished st) m (λ w. ne (sym w))

    some_inj : {a b : Status} → some a ≡ some b → a ≡ b
    some_inj h = ground arith

roomy-size :
    (s : Store)
    → IsKeyed s
    → Map.size s.outcomes ≤ max_outcomes
    → suc (Map.size (roomy s)) ≤ max_outcomes
roomy-size s keyed h = elim (Bool-cases (leb max_outcomes (Map.size s.outcomes))) [
  | inr q ↦ rw q (ground arith)
  | inl q ↦
      let (oldest, e, found, least) = oldest_locked_lem s keyed (ground arith) in
      rw (q, e) (omega (arith, Map.size-delete-some (key_of oldest) oldest s.outcomes found))
]

abbrev pub IsSound : Store → Type 0
IsSound s = IsKeyed s × (Map.size s.outcomes ≤ max_outcomes)

record_outcome-IsSound : (st : Status) (s : Store) → IsSound s → IsSound (record_outcome st s)
record_outcome-IsSound st s (keyed, small) = (
  record_outcome-IsKeyed st s keyed,
  record_cases (λ m. Map.size m ≤ max_outcomes) st s
      (λ q.
        omega
          (arith, roomy-size s keyed small, Map.size-insert-le (key_of st) (finished st) (roomy s)))
      (λ old q lt. small)
      (λ old q le. omega (arith, Map.size-insert-some (key_of st) (finished st) old s.outcomes q)),
)

unfoldable pub record_all : Store → List Status → Store
record_all s [] = s
record_all s (st ∷ l) = record_all (record_outcome st s) l

record_all_from-IsSound : (s : Store) (l : List Status) → IsSound s → IsSound (record_all s l)
unfolding record_all
record_all_from-IsSound s [] h = h
record_all_from-IsSound s (st ∷ l) h =
    record_all_from-IsSound (record_outcome st s) l (record_outcome-IsSound st s h)

new_store-IsSound : IsSound new_store
unfolding new_store
new_store-IsSound = (
  λ k st h. ground (arith, Map.lookup-empty {V = Status} k),
  unfold Map.empty Map.size in omega arith,
)

-- After any outcomes that were recorded, each stands under the key of its chat, and there are at
-- most 4096.
pub record_all-IsSound : (l : List Status) → IsSound (record_all new_store l)
record_all-IsSound l = record_all_from-IsSound new_store l new_store-IsSound
