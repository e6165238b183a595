-- ===== src/Turns/Feed/Bounds.antt =====
-- The caps of turns/feed.go: the subscriptions of the daemon, the streams of a device, and the
-- changes that a queue holds.
use ferngeist_acp_gateway.Prelude.{
  ℕ, suc, ◌≤◌, ◌≡◌, refl, ap, subst, ◌∙◌, Bool, true, false, none, some, List, [], ◌∷◌, map, String,
  by_text, by_number, arith, length, Option-cases, inl, inr, ◌==◌, if-cases, ltb, leb, Result,
}
use ferngeist_acp_gateway.Map
use ferngeist_acp_gateway.Map.{Map}
use ferngeist_acp_gateway.Turns.Types.{Status}
use ferngeist_acp_gateway.Turns.Diff.{Snapshot, Change}
use ferngeist_acp_gateway.Turns.Feed.{
  Feed, new_feed, Subscription, FeedError, stopped, max_queued_changes, max_subscriptions, end_sub,
  sample, new_subscription, serve_subscribe, ready_found, serve_ready, serve_close, poke,
  window_elapsed, backstop, end_each, stop, rest_changes, take_from, receive,
}
use ferngeist_acp_gateway.Turns.Feed.Ending.{
  IsStream, IsListed, IsSound, All-map, insert-IsCounted, end_sub-IsSound,
}
use ferngeist_acp_gateway.Turns.Feed.Sampling.{sample-IsSound, sample-size, insert-IsListed}
use ferngeist_acp_gateway.Turns.Feed.Streams.{activate-IsSound}

-- A new subscription takes a number that none has.
subscribed :
    (subs : Map ℕ Subscription) (by_device : Map String (List ℕ)) (next : ℕ) (device_id : String)
    (base : List Status)
    → IsListed subs by_device next
    → IsListed (Map.insert next (new_subscription device_id base) subs) by_device (suc next)
subscribed subs by_device next device_id base c =
    let sub = new_subscription device_id base in
    record {
      queued = λ j s g. elim (Map.lookup-insert-some j next sub subs g) [
        | inl (e, same) ↦ subst (λ x. length x.changes ≤ max_queued_changes) same (omega arith)
        | inr (ne, h) ↦ c.queued j s h
      ];
      waiting = λ j s g. elim (Map.lookup-insert-some j next sub subs g) [
        | inl (e, same) ↦
            subst (λ x. x.pending ≡ true → (x.active ≡ false) × (x.changes ≡ [])) same
              (λ p. (refl, refl))
        | inr (ne, h) ↦ c.waiting j s h
      ];
      known = λ j s g. elim (Map.lookup-insert-some j next sub subs g) [
        | inl (e, same) ↦ omega (arith, e)
        | inr (ne, h) ↦ omega (arith, c.known j s h)
      ];
      listed = λ d l g.
          All-map (IsStream subs d) (IsStream (Map.insert next sub subs) d) l
            (λ x (s, h, a, e). (
              s,
              Map.lookup-insert_ne x next sub subs (λ z. omega (arith, z, c.known x s h)) ∙ h,
              a,
              e,
            ))
            (c.listed d l g);
    }

serve_subscribe-IsSound :
    (is_cancelled : Bool) (device_id : String) (snap : Snapshot) (f : Feed)
    → IsSound f
    → IsSound (serve_subscribe is_cancelled device_id snap f).0
unfolding serve_subscribe
serve_subscribe-IsSound is_cancelled device_id snap f h =
    let seen = sample-IsSound snap f h in
    if-cases (λ (r : Feed × Result FeedError (Snapshot × ℕ)). IsSound r.0) is_cancelled (λ q. h)
      (λ q.
        if-cases (λ (r : Feed × Result FeedError (Snapshot × ℕ)). IsSound r.0)
          (leb max_subscriptions (Map.size f.subs)) (λ y. h)
          (λ y. record {
            few = ground (
              arith,
              sample-size snap f,
              Map.size-insert-le (sample snap f).next_sub (new_subscription device_id snap.turns)
                  (sample snap f).subs,
            );
            consistent =
                subscribed (sample snap f).subs (sample snap f).by_device (sample snap f).next_sub
                  device_id snap.turns seen.consistent;
            counted =
                insert-IsCounted (sample snap f).subs (sample snap f).by_device
                  (sample snap f).by_device (sample snap f).next_sub
                  (new_subscription device_id snap.turns) seen.counted (λ j d z. z)
                  (λ z. absurd (ground arith));
            capped = seen.capped;
          }))

receive-IsSound : (id : ℕ) (f : Feed) → IsSound f → IsSound (receive id f).0
unfolding receive take_from
receive-IsSound id f h = elim (Option-cases (Map.lookup id f.subs)) [
  | inl q ↦ rw q h
  | inr (sub, q) ↦
      let left : Subscription = record sub { changes = rest_changes sub.changes } in
      let small = h.consistent.queued id sub q in
      rw q (record {
        few = omega (arith, Map.size-insert-some id left sub f.subs q, h.few);
        consistent =
            insert-IsListed f.subs f.by_device f.next_sub id sub left h.consistent q refl (λ e. e)
              (omega (arith, length-rest_of sub.changes))
              (λ p.
                let (quiet, none_yet) = h.consistent.waiting id sub q p in
                (quiet, ap rest_changes none_yet));
        counted =
            insert-IsCounted f.subs f.by_device f.by_device id left h.counted (λ j d z. z)
              (h.counted id sub q);
        capped = h.capped;
      })
]
  where
    length-rest_of : (l : List Change) → length (rest_changes l) ≤ length l
    length-rest_of [] = omega arith
    length-rest_of (c ∷ l) = omega arith

end_each-IsSound : (ids : List ℕ) (f : Feed) → IsSound f → IsSound (end_each ids f)
unfolding end_each
end_each-IsSound [] f h = h
end_each-IsSound (id ∷ ids) f h =
    end_each-IsSound ids (end_sub id (some stopped) f) (end_sub-IsSound id (some stopped) f h)

-- What the goroutine of a feed meets, and a reader that takes a change.
pub data Event : Type 0 where
  subscribes : Bool → String → Snapshot → Event
  readies closes receives : ℕ → Event
  pokes stops : Event
  elapses ticks : Snapshot → Event

unfoldable pub step : Feed → Event → Feed
step f (subscribes is_cancelled device_id snap) = (serve_subscribe is_cancelled device_id snap f).0
step f (readies id) = serve_ready id f
step f (closes id) = serve_close id f
step f (receives id) = (receive id f).0
step f pokes = poke f
step f stops = stop f
step f (elapses snap) = window_elapsed snap f
step f (ticks snap) = backstop snap f

unfoldable pub run : Feed → List Event → Feed
run f [] = f
run f (e ∷ es) = run (step f e) es

step-IsSound : (f : Feed) (e : Event) → IsSound f → IsSound (step f e)
unfolding step serve_ready ready_found serve_close poke stop window_elapsed backstop
step-IsSound f (subscribes is_cancelled device_id snap) h =
    serve_subscribe-IsSound is_cancelled device_id snap f h
step-IsSound f (readies id) h = elim (Option-cases (Map.lookup id f.subs)) [
  | inl q ↦ rw (q, serve_ready) h
  | inr (sub, q) ↦
      rw (q, serve_ready)
        (if-cases IsSound sub.pending (λ p. activate-IsSound id sub f h q p) (λ p. h))
]
step-IsSound f (closes id) h = end_sub-IsSound id none f h
step-IsSound f (receives id) h = receive-IsSound id f h
step-IsSound f pokes h =
    if-cases IsSound (Map.size f.subs == 0)
      (λ q. record {
        few = h.few;
        consistent = h.consistent;
        counted = h.counted;
        capped = h.capped;
      })
      (λ q. record {
        few = h.few;
        consistent = h.consistent;
        counted = h.counted;
        capped = h.capped;
      })
step-IsSound f stops h = end_each-IsSound (map (λ e. e.0) f.subs.entries) f h
step-IsSound f (elapses snap) h =
    if-cases IsSound f.window
      (λ q.
        sample-IsSound snap _ (record {
          few = h.few;
          consistent = h.consistent;
          counted = h.counted;
          capped = h.capped;
        }))
      (λ q. h)
step-IsSound f (ticks snap) h =
    if-cases IsSound (ltb 0 (Map.size f.subs)) (λ q. sample-IsSound snap f h) (λ q. h)

run_from-IsSound : (f : Feed) (es : List Event) → IsSound f → IsSound (run f es)
unfolding run
run_from-IsSound f [] h = h
run_from-IsSound f (e ∷ es) h = run_from-IsSound (step f e) es (step-IsSound f e h)

new_feed-IsSound : IsSound new_feed
unfolding new_feed
new_feed-IsSound = record {
  few = unfold Map.empty Map.size in omega arith;
  consistent = record {
    queued = λ id sub g. ground (arith, Map.lookup-empty {V = Subscription} id);
    waiting = λ id sub g. ground (arith, Map.lookup-empty {V = Subscription} id);
    known = λ id sub g. ground (arith, Map.lookup-empty {V = Subscription} id);
    listed = λ d l g. absurd (ground (arith, Map.lookup-empty {V = List ℕ} d));
  };
  counted = λ id sub g. absurd (ground (arith, Map.lookup-empty {V = Subscription} id));
  capped = λ d l g. ground (arith, Map.lookup-empty {V = List ℕ} d);
}

-- After any history of events a feed has at most 256 subscriptions, a device's list at most four streams,
-- each of them an active subscription of the device, every active subscription is in the list of its device,
-- and a queue has at most 16 changes.
pub run-IsSound : (es : List Event) → IsSound (run new_feed es)
run-IsSound es = run_from-IsSound new_feed es new_feed-IsSound
