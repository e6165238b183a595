-- ===== src/Turns/Store.antt =====
-- internal/turns/store.go: the latest finished outcome of each chat, and the snapshot that lists
-- them with the running turns. `slices.SortFunc` is a stable insertion sort: Go does not say how it
-- orders statuses that compare as equal.
pub mod Eviction
pub mod Outcomes
pub mod Sorted
use Prim.Native.Nat.{Ordering, compare}
use Prim.Native.String.{compare as compare_text}
use ferngeist_acp_gateway.Prelude.{
  is_less, ℕ, Bool, true, false, Option, none, some, List, [], ◌∷◌, ◌++◌, ltb, leb, if◌then◌else◌,
}
use ferngeist_acp_gateway.Map
use ferngeist_acp_gateway.Map.{Map}
use ferngeist_acp_gateway.Turns.Types.{Status, Key, key_of, by_key}
use ferngeist_acp_gateway.Turns.Keys.{present}

abbrev pub max_outcomes : ℕ
max_outcomes = 4096

pub record Store : Type 0 where
  pub outcomes : Map Key Status

unfoldable pub new_store : Store
unfolding Map.empty
new_store = record { outcomes = Map.empty }

-- `cmp.Or`
abbrev pub or_else : Ordering → Ordering → Ordering
or_else Ordering.lt next = Ordering.lt
or_else Ordering.eq next = next
or_else Ordering.gt next = Ordering.gt

unfoldable pub compare_age : Status → Status → Ordering
compare_age a b = or_else (compare a.changed_at b.changed_at) (
    or_else (compare_text a.agent_id b.agent_id) (
      or_else (compare_text a.session_id b.session_id)
        (compare_text a.gateway_session_id b.gateway_session_id)))

-- The loop's `oldest`, `none` while `first` is set.
unfoldable pub oldest_of : Option Status → List (Key × Status) → Option Status
oldest_of best [] = best
oldest_of none ((k, st) ∷ rest) = oldest_of (some st) rest
oldest_of (some oldest) ((k, st) ∷ rest) =
    oldest_of (if is_less (compare_age st oldest) then some st else some oldest) rest

-- The key of the zero status where there is no outcome.
unfoldable pub oldest_locked : Store → Key
oldest_locked s = elim (oldest_of none s.outcomes.entries) [
  | none ↦ record { agent_id = ""; gateway_session_id = ""; session_id = "" }
  | some oldest ↦ key_of oldest
]

abbrev pub finished : Status → Status
finished st = record st { attention = [] }

-- The chat's outcome so far is an argument.
unfoldable pub keep_latest : Status → Option Status → Store → Store
keep_latest st (some old) s =
    if ltb st.started_at old.started_at
    then s
    else record { outcomes = Map.insert (key_of st) st s.outcomes }
keep_latest st none s =
    let room =
      if leb max_outcomes (Map.size s.outcomes)
      then Map.delete (oldest_locked s) s.outcomes
      else s.outcomes in
    record { outcomes = Map.insert (key_of st) st room }

-- `Store.Record`
unfoldable pub record_outcome : Status → Store → Store
unfolding keep_latest
record_outcome st s = keep_latest (finished st) (Map.lookup (key_of st) s.outcomes) s

unfoldable pub compare_keys : Status → Status → Ordering
compare_keys a b = or_else (compare_text a.agent_id b.agent_id) (
    or_else (compare_text a.session_id b.session_id)
      (compare_text a.gateway_session_id b.gateway_session_id))

unfoldable pub insert_sorted : Status → List Status → List Status
insert_sorted st [] = st ∷ []
insert_sorted st (x ∷ l) =
    let rest = insert_sorted st l in if is_less (compare_keys x st) then x ∷ rest else st ∷ x ∷ l

unfoldable pub sort_turns : List Status → List Status
sort_turns [] = []
sort_turns (st ∷ l) = insert_sorted st (sort_turns l)

-- The outcomes of the chats that do not run.
unfoldable pub resting : List Status → List (Key × Status) → List Status
resting live [] = []
resting live ((k, st) ∷ l) = let rest = resting live l in if present k live then rest else st ∷ rest

unfoldable pub snapshot : List Status → Store → List Status
unfolding sort_turns resting
snapshot live s = sort_turns (live ++ resting live s.outcomes.entries)
