-- ===== src/Turns/Feed/Clients.antt =====
-- What the readers of the feed of turns/feed.go hold: the snapshot that each was handed, with the
-- changes applied that it took from its channel.
use ferngeist_acp_gateway.Prelude.{
  ℕ, ◌≡◌, refl, sym, ap, ◌∙◌, true, Option, none, some, List, [], ◌∷◌, ◌++◌, by_number, arith, ◌==◌,
  if◌then◌else◌, Result, ok, err,
}
use ferngeist_acp_gateway.Map
use ferngeist_acp_gateway.Map.{Map}
use ferngeist_acp_gateway.Turns.Types.{Status, Key, by_key}
use ferngeist_acp_gateway.Turns.Keys.{OneEach, last_of}
use ferngeist_acp_gateway.Turns.Diff.{
  Snapshot, Change, diff_turns, index_turns, index_turns-lookup, drop_keys, apply, diff_turns-apply,
}
use ferngeist_acp_gateway.Turns.Feed.{FeedError, is_void}

-- Two maps that answer alike.
abbrev pub Same : Map Key Status → Map Key Status → Type 0
Same m n = (k : Key) → Map.lookup k m ≡ Map.lookup k n

abbrev pub held_by : List Status → Map Key Status
held_by turns = index_turns turns Map.empty

unfoldable pub apply_all : List Change → Map Key Status → Map Key Status
apply_all [] m = m
apply_all (c ∷ cs) m = apply_all cs (apply c m)

drop_keys-Same :
    (ks : List Key) (m n : Map Key Status) → Same m n → Same (drop_keys ks m) (drop_keys ks n)
unfolding drop_keys
drop_keys-Same [] m n h = h
drop_keys-Same (j ∷ ks) m n h = drop_keys-Same ks (Map.delete j m) (Map.delete j n) (λ k.
    Map.lookup-delete k j m
    ∙ (ap (λ o. if j == k then none else o) (h k) ∙ sym (Map.lookup-delete k j n)))

pub apply-Same : (c : Change) (m n : Map Key Status) → Same m n → Same (apply c m) (apply c n)
unfolding apply
apply-Same c m n h k =
    index_turns-lookup k c.upserts (drop_keys c.removed m)
    ∙ (ap (last_of k c.upserts) (drop_keys-Same c.removed m n h k)
        ∙ sym (index_turns-lookup k c.upserts (drop_keys c.removed n)))

pub apply_all-append :
    (cs : List Change) (c : Change) (m : Map Key Status)
    → apply_all (cs ++ c ∷ []) m ≡ apply c (apply_all cs m)
unfolding apply_all
apply_all-append [] c m = refl
apply_all-append (d ∷ cs) c m = apply_all-append cs c (apply d m)

-- Who holds the older turns holds the newer ones after the difference.
pub apply-diff :
    (last : List Status) (next : Snapshot) (m : Map Key Status)
    → OneEach next.turns
    → Same m (held_by last)
    → Same (apply (diff_turns last next) m) (held_by next.turns)
apply-diff last next m one h k =
    apply-Same (diff_turns last next) m (held_by last) h k ∙ diff_turns-apply last next k one

apply_void : (c : Change) (m : Map Key Status) → is_void c ≡ true → apply c m ≡ m
unfolding apply index_turns drop_keys
apply_void c m h = void c.upserts c.removed h
  where
    void :
        (us : List Status) (ks : List Key)
        → is_void (record { observed_at = 0; upserts = us; removed = ks }) ≡ true
        → index_turns us (drop_keys ks m) ≡ m
    void [] [] h = refl
    void [] (k ∷ ks) h = ground arith
    void (u ∷ us) ks h = ground arith

-- An empty difference is no difference.
pub void-Same :
    (last : List Status) (next : Snapshot) (m : Map Key Status)
    → OneEach next.turns
    → is_void (diff_turns last next) ≡ true
    → Same m (held_by last)
    → Same m (held_by next.turns)
void-Same last next m one v h k =
    ap (λ x. Map.lookup k x) (sym (apply_void (diff_turns last next) m v))
    ∙ apply-diff last next m one h k

-- The clients by the numbers of their subscriptions.
abbrev pub Clients : Type 0
Clients = ℕ → Map Key Status

abbrev pub hand : ℕ → Map Key Status → Clients → Clients
hand id m held x = if id == x then m else held x

-- A client starts with the snapshot that `Subscribe` returns, and applies the changes that it takes.
abbrev pub hand_snapshot : Result FeedError (Snapshot × ℕ) → Clients → Clients
hand_snapshot (ok (snap, id)) held = hand id (held_by snap.turns) held
hand_snapshot (err e) held = held

abbrev pub hand_change : ℕ → Option Change → Clients → Clients
hand_change id none held = held
hand_change id (some c) held = hand id (apply c (held id)) held
