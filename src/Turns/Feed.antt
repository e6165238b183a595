-- ===== src/Turns/Feed.antt =====
-- internal/turns/feed.go: the feed that publishes differences of snapshots to its subscribers. What
-- the goroutine `Run` does is one step for each case of its `select`; the snapshot that `f.snapshot`
-- returns is an argument. A subscription's pointer is a number, given out in order: `subs` holds the
-- subscriptions that are in Go's set, `ended` those that left it, which a reader may still hold. A
-- channel of changes is its queue, and the caller's contexts and acknowledgements are not modelled
-- but for the test of `r.ctx.Err()`.
pub mod Ending
pub mod Sampling
pub mod Streams
pub mod Bounds
pub mod Clients
pub mod Publishing
pub mod Current
pub mod Readers
use ferngeist_acp_gateway.Prelude.{
  is_empty, ℕ, suc, ◌+◌, ◌-◌, Bool, true, false, not, ◌&&◌, Option, none, some, List, [], ◌∷◌, ◌++◌,
  map, String, by_text, by_number, length, leb, ltb, ◌==◌, if◌then◌else◌, Result, ok, err,
}
use ferngeist_acp_gateway.Map
use ferngeist_acp_gateway.Map.{Map}
use ferngeist_acp_gateway.Turns.Types.{Status, Key}
use ferngeist_acp_gateway.Turns.Diff.{Snapshot, Change, diff_turns}

abbrev pub max_subscriptions : ℕ
max_subscriptions = 256

abbrev pub max_streams_per_device : ℕ
max_streams_per_device = 4

abbrev pub max_queued_changes : ℕ
max_queued_changes = 16

-- `cancelled` is the error of the caller's context.
pub data FeedError : Type 0 where
  busy slow_consumer superseded stopped cancelled : FeedError

pub record Subscription : Type 0 where
  pub device_id : String
  pub changes : List Change
  pub pending : Bool
  pub active : Bool
  pub base : List Status
  pub err : Option FeedError

pub record FeedStats : Type 0 where
  pub subscribers : ℕ
  pub samples : ℕ
  pub pokes : ℕ
  pub last_sample_at : ℕ

-- `window` tells whether a sample is scheduled.
pub record Feed : Type 0 where
  pub last : List Status
  pub last_observed_at : ℕ
  pub subs : Map ℕ Subscription
  pub ended : Map ℕ Subscription
  pub next_sub : ℕ
  pub by_device : Map String (List ℕ)
  pub stats : FeedStats
  pub window : Bool

unfoldable pub new_feed : Feed
unfolding Map.empty
new_feed = record {
  last = [];
  last_observed_at = 0;
  subs = Map.empty;
  ended = Map.empty;
  next_sub = 0;
  by_device = Map.empty;
  stats = record { subscribers = 0; samples = 0; pokes = 0; last_sample_at = 0 };
  window = false;
}

-- `f.byDevice[deviceID]`, with Go's zero value where there is none.
abbrev pub streams_of : Option (List ℕ) → List ℕ
streams_of none = []
streams_of (some l) = l

unfoldable pub without : ℕ → List ℕ → List ℕ
without id [] = []
without id (x ∷ l) = let rest = without id l in if x == id then rest else x ∷ rest

-- The device's streams without one of them.
unfoldable pub leave_device : ℕ → String → Map String (List ℕ) → Map String (List ℕ)
leave_device id device_id by_device =
    let left = without id (streams_of (Map.lookup device_id by_device)) in
    if is_empty left then Map.delete device_id by_device else Map.insert device_id left by_device

-- `if len(f.subs) == 0 { f.last, f.lastObservedAt = nil, time.Time{} }`
unfoldable pub forget_last : Feed → Feed
forget_last f = if Map.size f.subs == 0 then (record f { last = []; last_observed_at = 0 }) else f

-- `f.end`, for the subscription that the set has.
unfoldable pub end_found : ℕ → Option FeedError → Option Subscription → Feed → Feed
end_found id e none f = f
end_found id e (some sub) f = forget_last (record f {
  subs = Map.delete id f.subs;
  stats = record f.stats { subscribers = f.stats.subscribers - 1 };
  by_device = if sub.active then leave_device id sub.device_id f.by_device else f.by_device;
  ended =
      Map.insert id
        (record sub { pending = false; active = false; base = []; err = e; changes = [] }) f.ended;
})

unfoldable pub end_sub : ℕ → Option FeedError → Feed → Feed
unfolding end_found
end_sub id e f = end_found id e (Map.lookup id f.subs) f

abbrev pub is_void : Change → Bool
is_void c = is_empty c.upserts && is_empty c.removed

-- `sub.changes <- change`
unfoldable pub enqueue : Change → Subscription → Subscription
enqueue c sub = record sub { changes = sub.changes ++ c ∷ [] }

-- One turn of the loop of `sample` over the subscriptions.
unfoldable pub publish : Change → ℕ → Option Subscription → Feed → Feed
publish c id none f = f
publish c id (some sub) f =
    if sub.active
    then (if ltb (length sub.changes) max_queued_changes
        then (record f { subs = Map.insert id (enqueue c sub) f.subs })
        else end_sub id (some slow_consumer) f)
    else f

unfoldable pub publish_each : Change → List ℕ → Feed → Feed
unfolding publish
publish_each c [] f = f
publish_each c (id ∷ ids) f = publish_each c ids (publish c id (Map.lookup id f.subs) f)

unfoldable pub sample : Snapshot → Feed → Feed
sample snap f =
    let change = diff_turns f.last snap in
    let seen : Feed = record f {
      last = snap.turns;
      last_observed_at = snap.observed_at;
      stats = record f.stats { samples = suc f.stats.samples; last_sample_at = snap.observed_at };
    } in
    if is_void change then seen else publish_each change (map (λ e. e.0) seen.subs.entries) seen

-- The subscription that `subscribeRequest.serve` makes.
abbrev pub new_subscription : String → List Status → Subscription
new_subscription device_id base = record {
  device_id = device_id;
  changes = [];
  pending = true;
  active = false;
  base = base;
  err = none;
}

-- `subscribeRequest.serve`; the flag is `r.ctx.Err() != nil`.
unfoldable pub serve_subscribe :
    Bool → String → Snapshot → Feed → Feed × Result FeedError (Snapshot × ℕ)
serve_subscribe is_cancelled device_id snap f =
    if is_cancelled
    then (f, err cancelled)
    else (if leb max_subscriptions (Map.size f.subs)
        then (f, err busy)
        else (let seen = sample snap f in
            (
              record seen {
                subs = Map.insert seen.next_sub (new_subscription device_id snap.turns) seen.subs;
                next_sub = suc seen.next_sub;
                stats = record seen.stats { subscribers = suc seen.stats.subscribers };
              },
              ok (snap, seen.next_sub),
            )))

-- The device's oldest stream goes where there are more than the limit.
unfoldable pub limit_streams : List ℕ → Feed → Feed
limit_streams [] f = f
limit_streams (oldest ∷ rest) f =
    if ltb max_streams_per_device (suc (length rest)) then end_sub oldest (some superseded) f else f

unfoldable pub activate : ℕ → Subscription → Feed → Feed
activate id sub f =
    let change =
      diff_turns sub.base (record { observed_at = f.last_observed_at; turns = f.last }) in
    let streams = streams_of (Map.lookup sub.device_id f.by_device) ++ id ∷ [] in
    limit_streams streams (record f {
      subs =
          Map.insert id
            (record sub {
              base = [];
              pending = false;
              active = true;
              changes = if is_void change then sub.changes else sub.changes ++ change ∷ [];
            })
            f.subs;
      by_device = Map.insert sub.device_id streams f.by_device;
    })

unfoldable pub ready_found : ℕ → Option Subscription → Feed → Feed
unfolding activate
ready_found id none f = f
ready_found id (some sub) f = if sub.pending then activate id sub f else f

-- `readyRequest.serve` and `closeRequest.serve`
unfoldable pub serve_ready : ℕ → Feed → Feed
unfolding ready_found
serve_ready id f = ready_found id (Map.lookup id f.subs) f

unfoldable pub serve_close : ℕ → Feed → Feed
serve_close id f = end_sub id none f

-- The other cases of `Run`: a poke, the window, the backstop's tick, and the end.
unfoldable pub poke : Feed → Feed
poke f =
    let counted : Feed = record f { stats = record f.stats { pokes = suc f.stats.pokes } } in
    if Map.size f.subs == 0
    then (record counted { last = []; last_observed_at = 0 })
    else record counted { window = true }

unfoldable pub window_elapsed : Snapshot → Feed → Feed
window_elapsed snap f = if f.window then sample snap (record f { window = false }) else f

unfoldable pub backstop : Snapshot → Feed → Feed
backstop snap f = if ltb 0 (Map.size f.subs) then sample snap f else f

unfoldable pub end_each : List ℕ → Feed → Feed
end_each [] f = f
end_each (id ∷ ids) f = end_each ids (end_sub id (some stopped) f)

unfoldable pub stop : Feed → Feed
stop f = end_each (map (λ e. e.0) f.subs.entries) f

abbrev pub rest_changes : List Change → List Change
rest_changes [] = []
rest_changes (c ∷ l) = l

abbrev pub first_of : List Change → Option Change
first_of [] = none
first_of (c ∷ l) = some c

-- A reader takes the first change of its channel.
unfoldable pub take_from : ℕ → Option Subscription → Feed → Feed × Option Change
take_from id none f = (f, none)
take_from id (some sub) f = (
  record f { subs = Map.insert id (record sub { changes = rest_changes sub.changes }) f.subs },
  first_of sub.changes,
)

unfoldable pub receive : ℕ → Feed → Feed × Option Change
unfolding take_from
receive id f = take_from id (Map.lookup id f.subs) f
