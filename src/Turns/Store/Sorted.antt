-- ===== src/Turns/Store/Sorted.antt =====
-- What the snapshot of turns/store.go holds of each chat.
use ferngeist_acp_gateway.Prelude.{
  is_less, ◌≡◌, refl, sym, ap, ◌∙◌, Bool, true, false, ◌||◌, Option, none, some, List, [], ◌∷◌,
  ◌++◌, arith, All, Bool-cases, inl, inr, if◌then◌else◌, ◌==◌, beq→eq, beq_of_ne,
}
use ferngeist_acp_gateway.Map
use ferngeist_acp_gateway.Map.{Map}
use ferngeist_acp_gateway.Map.Entries.{find, Distinct}
use ferngeist_acp_gateway.Turns.Types.{Status, Key, key_of, by_key}
use ferngeist_acp_gateway.Turns.Keys.{
  present, OneEach, last_of, last_of-absent, last_of-hit, last_of-miss,
}
use ferngeist_acp_gateway.Turns.Store.{
  Store, compare_keys, insert_sorted, sort_turns, resting, snapshot,
}
use ferngeist_acp_gateway.Turns.Store.Eviction.{IsKeyed}

present-insert_sorted :
    (k : Key) (st : Status) (l : List Status)
    → present k (insert_sorted st l) ≡ ((key_of st == k) || present k l)
unfolding present insert_sorted
present-insert_sorted k st [] = refl
present-insert_sorted k st (x ∷ l) = ground (arith, present-insert_sorted k st l)

insert_sorted-OneEach :
    (st : Status) (l : List Status)
    → present (key_of st) l ≡ false
    → OneEach l
    → OneEach (insert_sorted st l)
unfolding present insert_sorted OneEach
insert_sorted-OneEach st [] h one = (refl, tt)
insert_sorted-OneEach st (x ∷ l) h one = elim (Bool-cases (is_less (compare_keys x st))) [
  | inl q ↦ rw q (
    ground (
      arith,
      present-insert_sorted (key_of x) st l,
      by_key.same_key_iff (key_of st) (key_of x),
      by_key.same_key_iff (key_of x) (key_of st),
    ),
    insert_sorted-OneEach st l (ground arith) one.1,
  )
  | inr q ↦ rw q (h, one)
]

-- Two different keys in either order.
swap :
    (k : Key) (st x : Status) (found : Option Status)
    → (key_of x == key_of st) ≡ false
    → (if key_of st == k then some st else (if key_of x == k then some x else found))
      ≡ (if key_of x == k then some x else (if key_of st == k then some st else found))
swap k st x found h = ground (
  arith,
  by_key.same_key_iff (key_of st) k,
  by_key.same_key_iff (key_of x) k,
  by_key.same_key_iff (key_of x) (key_of st),
)

last_of-insert_sorted :
    (k : Key) (st : Status) (l : List Status) (found : Option Status)
    → present (key_of st) l ≡ false
    → last_of k (insert_sorted st l) found ≡ last_of k l (if key_of st == k then some st else found)
unfolding present insert_sorted last_of
last_of-insert_sorted k st [] found h = refl
last_of-insert_sorted k st (x ∷ l) found h = elim (Bool-cases (is_less (compare_keys x st))) [
  | inr q ↦ rw q refl
  | inl q ↦ rw q (
      last_of-insert_sorted k st l (if key_of x == k then some x else found) (ground arith)
      ∙ ap (last_of k l) (swap k st x found (ground arith)))
]

present-sort_turns : (k : Key) (l : List Status) → present k (sort_turns l) ≡ present k l
unfolding present sort_turns
present-sort_turns k [] = refl
present-sort_turns k (st ∷ l) =
    present-insert_sorted k st (sort_turns l)
    ∙ ap (λ b. (key_of st == k) || b) (present-sort_turns k l)

sort_turns-OneEach : (l : List Status) → OneEach l → OneEach (sort_turns l)
unfolding OneEach sort_turns
sort_turns-OneEach [] one = tt
sort_turns-OneEach (st ∷ l) one =
    insert_sorted-OneEach st (sort_turns l) (present-sort_turns (key_of st) l ∙ one.0)
      (sort_turns-OneEach l one.1)

last_of-sort_turns :
    (k : Key) (l : List Status) (found : Option Status)
    → OneEach l
    → last_of k (sort_turns l) found ≡ last_of k l found
unfolding OneEach sort_turns last_of
last_of-sort_turns k [] found one = refl
last_of-sort_turns k (st ∷ l) found one =
    last_of-insert_sorted k st (sort_turns l) found (present-sort_turns (key_of st) l ∙ one.0)
    ∙ last_of-sort_turns k l _ one.1

present-append : (k : Key) (a b : List Status) → present k (a ++ b) ≡ (present k a || present k b)
unfolding present
present-append k [] b = refl
present-append k (x ∷ a) b = ground (arith, present-append k a b)

append-OneEach :
    (a b : List Status)
    → OneEach a
    → OneEach b
    → ((k : Key) → present k a ≡ true → present k b ≡ false)
    → OneEach (a ++ b)
unfolding OneEach present
append-OneEach [] b ha hb apart = hb
append-OneEach (x ∷ a) b ha hb apart = (
  ground (
    arith,
    present-append (key_of x) a b,
    apart (key_of x),
    by_key.same_key_iff (key_of x) (key_of x),
  ),
  append-OneEach a b ha.1 hb (λ k h. apart k (ground arith)),
)

last_of-append :
    (k : Key) (a b : List Status) (found : Option Status)
    → last_of k (a ++ b) found ≡ last_of k b (last_of k a found)
unfolding last_of
last_of-append k [] b found = refl
last_of-append k (x ∷ a) b found = last_of-append k a b _

abbrev Keyed : List (Key × Status) → Type 0
Keyed l = All (λ e. key_of e.1 ≡ e.0) l

both_false : {a b : Bool} → a ≡ false → b ≡ false → (a || b) ≡ false
both_false h g = ground arith

resting-running :
    (k : Key) (live : List Status) (l : List (Key × Status))
    → Keyed l
    → present k live ≡ true
    → present k (resting live l) ≡ false
unfolding resting present
resting-running k live [] keyed h = refl
resting-running k live ((j, st) ∷ l) keyed h = elim (Bool-cases (present j live)) [
  | inl q ↦ rw q (resting-running k live l keyed.1 h)
  | inr q ↦
      let ne : (key_of st == k) ≡ false =
        beq_of_ne (key_of st) k
          (λ e. ground (arith, q, ap (λ x. present x live) (sym keyed.0 ∙ e))) in
      let rest = resting-running k live l keyed.1 h in rw q (both_false ne rest)
]

resting-find :
    (k : Key) (live : List Status) (l : List (Key × Status))
    → Keyed l
    → find k l ≡ none
    → present k (resting live l) ≡ false
unfolding resting present find
resting-find k live [] keyed h = refl
resting-find k live ((j, st) ∷ l) keyed h = elim (Bool-cases (j == k)) [
  | inl q ↦ absurd (ground arith)
  | inr q ↦
      let rest = resting-find k live l keyed.1 (ground arith) in
      elim (Bool-cases (present j live)) [
        | inl r ↦ rw r rest
        | inr r ↦ rw r (both_false (ap (λ x. x == k) keyed.0 ∙ q) rest)
      ]
]

resting-OneEach :
    (live : List Status) (l : List (Key × Status)) → Keyed l → Distinct l → OneEach (resting live l)
unfolding resting OneEach
resting-OneEach live [] keyed d = tt
resting-OneEach live ((j, st) ∷ l) keyed d = elim (Bool-cases (present j live)) [
  | inl q ↦ rw q (resting-OneEach live l keyed.1 d.1)
  | inr q ↦ rw q (
    ap (λ x. present x (resting live l)) keyed.0 ∙ resting-find j live l keyed.1 d.0,
    resting-OneEach live l keyed.1 d.1,
  )
]

last_of-resting :
    (k : Key) (live : List Status) (l : List (Key × Status))
    → Keyed l
    → Distinct l
    → present k live ≡ false
    → last_of k (resting live l) none ≡ find k l
unfolding resting last_of find
last_of-resting k live [] keyed d h = refl
last_of-resting k live ((j, st) ∷ l) keyed d h = elim (Bool-cases (j == k)) [
  | inl q ↦
      let e = beq→eq j k q in
      let none_left : find k l ≡ none = ap (λ x. find x l) (sym e) ∙ d.0 in
      rw (ap (λ x. present x live) e ∙ h, q)
        (last_of-hit k st (resting live l) none (ap (λ x. x == k) keyed.0 ∙ q)
          ∙ last_of-absent k (resting live l) (some st) (resting-find k live l keyed.1 none_left))
  | inr q ↦ rw q (elim (Bool-cases (present j live)) [
    | inl r ↦ rw r (last_of-resting k live l keyed.1 d.1 h)
    | inr r ↦ rw r (
        last_of-miss k st (resting live l) none (ap (λ x. x == k) keyed.0 ∙ q)
        ∙ last_of-resting k live l keyed.1 d.1 h)
  ])
]

Keyed-entries : (s : Store) → IsKeyed s → Keyed s.outcomes.entries
Keyed-entries s keyed = Map.All-of_lookup (λ e. key_of e.1 ≡ e.0) s.outcomes keyed

parts-OneEach :
    (live : List Status) (s : Store)
    → OneEach live
    → IsKeyed s
    → OneEach (live ++ resting live s.outcomes.entries)
parts-OneEach live s one keyed =
    append-OneEach live (resting live s.outcomes.entries) one
      (resting-OneEach live s.outcomes.entries (Keyed-entries s keyed) s.outcomes.distinct)
      (λ k h. resting-running k live s.outcomes.entries (Keyed-entries s keyed) h)

-- A snapshot of running turns of different chats has no chat twice, where each stored outcome stands
-- under its chat's key.
pub snapshot-OneEach :
    (live : List Status) (s : Store) → OneEach live → IsKeyed s → OneEach (snapshot live s)
unfolding snapshot
snapshot-OneEach live s one keyed =
    sort_turns-OneEach (live ++ resting live s.outcomes.entries) (parts-OneEach live s one keyed)

-- The snapshot reports a chat's running turn where it has one, and else the chat's stored outcome,
-- if any, where the running turns are of different chats and each stored outcome stands under its
-- chat's key.
pub snapshot_lem :
    (live : List Status) (s : Store) (k : Key)
    → OneEach live
    → IsKeyed s
    → last_of k (snapshot live s) none
      ≡ (if present k live then last_of k live none else Map.lookup k s.outcomes)
unfolding snapshot Map.lookup
snapshot_lem live s k one keyed =
    let rest = resting live s.outcomes.entries in
    let parts =
      last_of-sort_turns k (live ++ rest) none (parts-OneEach live s one keyed)
      ∙ last_of-append k live rest none in
    elim (Bool-cases (present k live)) [
      | inl q ↦ rw q (
          parts
          ∙ last_of-absent k rest (last_of k live none)
              (resting-running k live s.outcomes.entries (Keyed-entries s keyed) q))
      | inr q ↦ rw q (
          parts
          ∙ (ap (last_of k rest) (last_of-absent k live none q)
              ∙ last_of-resting k live s.outcomes.entries (Keyed-entries s keyed)
                  s.outcomes.distinct q))
    ]
