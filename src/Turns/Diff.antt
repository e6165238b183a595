-- ===== src/Turns/Diff.antt =====
-- The difference of two snapshots in internal/turns/feed.go, and that a client who applies it holds
-- the newer one.
use ferngeist_acp_gateway.Prelude.{
  ℕ, ◌≡◌, refl, sym, ap, subst, ◌∙◌, Bool, true, false, not, ◌||◌, Option, none, some, List, [],
  ◌∷◌, ◌==◌, arith, if◌then◌else◌, beq→eq, beq_of_ne, Bool-cases, inl, inr, ◌⊎◌,
}
use ferngeist_acp_gateway.Map
use ferngeist_acp_gateway.Map.{Map}
use ferngeist_acp_gateway.Turns.Types.{Status, Key, key_of, by_key, same_status, same_status→eq}
use ferngeist_acp_gateway.Turns.Keys.{
  present, OneEach, last_of, last_of-absent, last_of-hit, last_of-miss, last_of-present,
}

pub record Snapshot : Type 0 where
  pub observed_at : ℕ
  pub turns : List Status

pub record Change : Type 0 where
  pub observed_at : ℕ
  pub upserts : List Status
  pub removed : List Key

-- `previous[keyOf(st)] = st` for every status in order.
unfoldable pub index_turns : List Status → Map Key Status → Map Key Status
index_turns [] m = m
index_turns (st ∷ l) m = index_turns l (Map.insert (key_of st) st m)

-- `!ok || !sameStatus(old, st)`
abbrev pub is_changed : Option Status → Status → Bool
is_changed none st = true
is_changed (some old) st = not (same_status old st)

unfoldable pub upserts_of : Map Key Status → List Status → List Status
upserts_of previous [] = []
upserts_of previous (st ∷ l) =
    let rest = upserts_of previous l in
    if is_changed (Map.lookup (key_of st) previous) st then st ∷ rest else rest

unfoldable pub removed_of : List Status → List Status → List Key
removed_of next [] = []
removed_of next (st ∷ l) =
    let rest = removed_of next l in if present (key_of st) next then rest else key_of st ∷ rest

unfoldable pub diff_turns : List Status → Snapshot → Change
unfolding Map.empty
diff_turns last next = record {
  observed_at = next.observed_at;
  upserts = upserts_of (index_turns last Map.empty) next.turns;
  removed = removed_of next.turns last;
}

-- The client's side of the contract, in docs/api.md: what it holds by key, and a change applied to it,
-- the removed keys first.
unfoldable pub drop_keys : List Key → Map Key Status → Map Key Status
drop_keys [] m = m
drop_keys (k ∷ l) m = drop_keys l (Map.delete k m)

unfoldable pub apply : Change → Map Key Status → Map Key Status
apply c m = index_turns c.upserts (drop_keys c.removed m)

pub index_turns-lookup :
    (k : Key) (l : List Status) (m : Map Key Status)
    → Map.lookup k (index_turns l m) ≡ last_of k l (Map.lookup k m)
unfolding index_turns last_of
index_turns-lookup k [] m = refl
index_turns-lookup k (st ∷ l) m =
    index_turns-lookup k l (Map.insert (key_of st) st m)
    ∙ ap (last_of k l) (Map.lookup-insert k (key_of st) st m)

upserts_of-absent :
    (k : Key) (previous : Map Key Status) (l : List Status)
    → present k l ≡ false
    → present k (upserts_of previous l) ≡ false
unfolding present upserts_of
upserts_of-absent k previous [] h = refl
upserts_of-absent k previous (st ∷ l) h = ground (arith, upserts_of-absent k previous l)

unchanged : (o : Option Status) (st : Status) → is_changed o st ≡ false → o ≡ some st
unchanged none st h = ground arith
unchanged (some old) st h = ap some (same_status→eq old st (ground arith))

-- After the upserts a key of the next list has the next list's status.
upserts-last :
    (k : Key) (previous : Map Key Status) (l : List Status)
    → OneEach l
    → last_of k (upserts_of previous l) (Map.lookup k previous)
      ≡ last_of k l (Map.lookup k previous)
unfolding OneEach last_of upserts_of
upserts-last k previous [] h = refl
upserts-last k previous (st ∷ l) (alone, h) = elim (Bool-cases (key_of st == k)) [
  | inr q ↦ rw q (elim (Bool-cases (is_changed (Map.lookup (key_of st) previous) st)) [
    | inl c ↦ rw c (
        last_of-miss k st (upserts_of previous l) (Map.lookup k previous) q
        ∙ upserts-last k previous l h)
    | inr c ↦ rw c (upserts-last k previous l h)
  ])
  | inl q ↦
      let e = beq→eq (key_of st) k q in
      let alone' : present k l ≡ false = subst (λ j. present j l ≡ false) e alone in
      rw q (elim (Bool-cases (is_changed (Map.lookup (key_of st) previous) st)) [
        | inl c ↦ rw c (
            last_of-hit k st (upserts_of previous l) (Map.lookup k previous) q
            ∙ (last_of-absent k (upserts_of previous l) (some st)
                  (upserts_of-absent k previous l alone')
                ∙ sym (last_of-absent k l (some st) alone')))
        | inr c ↦ rw c (
            last_of-absent k (upserts_of previous l) (Map.lookup k previous)
              (upserts_of-absent k previous l alone')
            ∙ (ap (λ j. Map.lookup j previous) (sym e)
                ∙ unchanged (Map.lookup (key_of st) previous) st c)
            ∙ sym (last_of-absent k l (some st) alone'))
      ])
]

drop_keys-lookup :
    (k : Key) (ks : List Key) (m : Map Key Status)
    → Map.lookup k m ≡ none
    → Map.lookup k (drop_keys ks m) ≡ none
unfolding drop_keys
drop_keys-lookup k [] m h = h
drop_keys-lookup k (j ∷ ks) m h =
    drop_keys-lookup k ks (Map.delete j m) (ground (arith, Map.lookup-delete k j m))

-- A removed key is gone, and any other is untouched.
drop_keys-removed :
    (k : Key) (next last : List Status) (m : Map Key Status)
    → present k last ≡ true
    → present k next ≡ false
    → Map.lookup k (drop_keys (removed_of next last) m) ≡ none
unfolding present removed_of drop_keys
drop_keys-removed k next [] m h f = ground arith
drop_keys-removed k next (st ∷ l) m h f = elim (Bool-cases (key_of st == k)) [
  | inl q ↦
      let e = beq→eq (key_of st) k q in
      let f' : present (key_of st) next ≡ false = subst (λ j. present j next ≡ false) (sym e) f in
      rw f' (
        drop_keys-lookup k (removed_of next l) (Map.delete (key_of st) m)
          (subst (λ j. Map.lookup k (Map.delete j m) ≡ none) (sym e) (Map.lookup-delete_self k m)))
  | inr q ↦ elim (Bool-cases (present (key_of st) next)) [
    | inl p ↦ rw p (drop_keys-removed k next l m (ground arith) f)
    | inr p ↦ rw p (drop_keys-removed k next l (Map.delete (key_of st) m) (ground arith) f)
  ]
]

skips :
    (j k : Key) (next l : List Status)
    → present j next ≡ false
    → (present k next ≡ true) ⊎ (((j == k) || present k l) ≡ false)
    → (j == k) ≡ false
skips j k next l p (inr h) = ground arith
skips j k next l p (inl h) =
    beq_of_ne j k (λ e. ground (arith, sym (ap (λ x. present x next) e) ∙ p))

drop_keys-kept :
    (k : Key) (next last : List Status) (m : Map Key Status)
    → (present k next ≡ true) ⊎ (present k last ≡ false)
    → Map.lookup k (drop_keys (removed_of next last) m) ≡ Map.lookup k m
unfolding present removed_of drop_keys
drop_keys-kept k next [] m h = refl
drop_keys-kept k next (st ∷ l) m h = elim (Bool-cases (present (key_of st) next)) [
  | inl p ↦ rw p (drop_keys-kept k next l m (ground arith))
  | inr p ↦
      let ne : (key_of st == k) ≡ false = skips (key_of st) k next l p h in
      rw p (
        drop_keys-kept k next l (Map.delete (key_of st) m) (ground arith)
        ∙ (Map.lookup-delete k (key_of st) m ∙ rw ne refl))
]

index_turns-empty :
    (k : Key) (l : List Status) → Map.lookup k (index_turns l Map.empty) ≡ last_of k l none
index_turns-empty k l =
    index_turns-lookup k l Map.empty ∙ ap (last_of k l) (Map.lookup-empty {V = Status} k)

-- What a client holds that applies the difference to the last snapshot is the next snapshot, at
-- every key, where the next snapshot has no key twice.
pub diff_turns-apply :
    (last : List Status) (next : Snapshot) (k : Key)
    → OneEach next.turns
    → Map.lookup k (apply (diff_turns last next) (index_turns last Map.empty))
      ≡ Map.lookup k (index_turns next.turns Map.empty)
unfolding apply diff_turns
diff_turns-apply last next k one =
    let held = index_turns last (Map.empty {V = Status}) in
    let ups = upserts_of held next.turns in
    let kept = drop_keys (removed_of next.turns last) held in
    let wanted = sym (index_turns-empty k next.turns) in
    index_turns-lookup k ups kept ∙ elim (Bool-cases (present k next.turns)) [
      | inl p ↦
          ap (last_of k ups) (drop_keys-kept k next.turns last held (inl p))
          ∙ (upserts-last k held next.turns one
              ∙ (last_of-present k next.turns (Map.lookup k held) none p ∙ wanted))
      | inr p ↦
          last_of-absent k ups (Map.lookup k kept) (upserts_of-absent k held next.turns p)
          ∙ elim (Bool-cases (present k last)) [
            | inl r ↦
                drop_keys-removed k next.turns last held r p
                ∙ (sym (last_of-absent k next.turns none p) ∙ wanted)
            | inr r ↦
                drop_keys-kept k next.turns last held (inr r)
                ∙ (index_turns-empty k last
                    ∙ (last_of-absent k last none r
                        ∙ (sym (last_of-absent k next.turns none p) ∙ wanted)))
          ]
    ]
