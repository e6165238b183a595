-- ===== src/Turns/Feed/Readers.antt =====
-- A reader of turns/feed.go that has taken every change of its channel holds the last sample: the
-- steps of the feed beside what its clients hold.
use ferngeist_acp_gateway.Prelude.{
  ℕ, suc, All, ◌≡◌, ◌≢◌, refl, sym, ap, subst, ◌∙◌, Bool, true, false, none, some, List, [], ◌∷◌,
  ◌++◌, map, String, by_number, arith, length, Option-cases, inl, inr, ◌==◌, beq→eq, beq_of_ne,
  if-cases, if◌then◌else◌, ltb, leb, Result,
}
use ferngeist_acp_gateway.Map
use ferngeist_acp_gateway.Map.{Map}
use ferngeist_acp_gateway.Turns.Types.{Status, Key, by_key}
use ferngeist_acp_gateway.Turns.Keys.{OneEach}
use ferngeist_acp_gateway.Turns.Diff.{Snapshot, Change, diff_turns}
use ferngeist_acp_gateway.Turns.Feed.{
  Feed, new_feed, Subscription, FeedError, superseded, stopped, max_subscriptions,
  max_streams_per_device, end_sub, is_void, sample, new_subscription, serve_subscribe,
  limit_streams, activate, ready_found, serve_ready, serve_close, poke, window_elapsed, backstop,
  end_each, stop, rest_changes, first_of, take_from, receive,
}
use ferngeist_acp_gateway.Turns.Feed.Bounds.{
  Event, subscribes, readies, closes, receives, pokes, stops, elapses, ticks, step,
}
use ferngeist_acp_gateway.Turns.Feed.Clients.{
  Same, held_by, apply_all, apply-diff, void-Same, Clients, hand, hand_snapshot, hand_change,
}
use ferngeist_acp_gateway.Turns.Feed.Publishing.{Follows, Waits}
use ferngeist_acp_gateway.Turns.Feed.Current.{IsCurrent, end_sub-IsCurrent, sample-IsCurrent}

-- The feed after an event, and what its clients hold then.
unfoldable pub observe : Feed → Event → Clients → Clients
observe f (subscribes is_cancelled device_id snap) held =
    hand_snapshot (serve_subscribe is_cancelled device_id snap f).1 held
observe f (receives id) held = hand_change id (receive id f).1 held
observe f (readies id) held = held
observe f (closes id) held = held
observe f pokes held = held
observe f stops held = held
observe f (elapses snap) held = held
observe f (ticks snap) held = held

abbrev pub Watched : Type 0
Watched = Feed × Clients

unfoldable pub watch : Watched → List Event → Watched
watch w [] = w
watch w (e ∷ es) = watch (step w.0 e, observe w.0 e w.1) es

-- The snapshots of a history have each turn once.
abbrev pub IsProper : Event → Type 0
IsProper (subscribes is_cancelled device_id snap) = OneEach snap.turns
IsProper (elapses snap) = OneEach snap.turns
IsProper (ticks snap) = OneEach snap.turns
IsProper (readies id) = Unit {0}
IsProper (closes id) = Unit {0}
IsProper (receives id) = Unit {0}
IsProper pokes = Unit {0}
IsProper stops = Unit {0}

hand_self : (id : ℕ) (m : Map Key Status) (held : Clients) → hand id m held id ≡ m
hand_self id m held = ground (arith, by_number.same_key_iff id id)

hand_ne : (id x : ℕ) (m : Map Key Status) (held : Clients) → id ≢ x → hand id m held x ≡ held x
hand_ne id x m held ne = rw (beq_of_ne id x ne) refl

-- What a subscription that waits to be readied owes to what its client holds.
abbrev IsHanded : Map Key Status → Subscription → Type 0
IsHanded m sub = (sub.active ≡ false) × (sub.changes ≡ []) × Same m (held_by sub.base)

-- One subscription is set, and one client may be handed something.
set-IsCurrent :
    (held held' : Clients) (id : ℕ) (sub : Subscription) (f g : Feed)
    → IsCurrent held f
    → g.subs ≡ Map.insert id sub f.subs
    → g.last ≡ f.last
    → ((x : ℕ) → id ≢ x → held' x ≡ held x)
    → (sub.active ≡ true → Same (apply_all sub.changes (held' id)) (held_by f.last))
    → (sub.pending ≡ true → IsHanded (held' id) sub)
    → IsCurrent held' g
set-IsCurrent held held' id sub f g h same_subs same_last others follows waits = record {
  unique = subst OneEach (sym same_last) h.unique;
  waits = subst (Waits held') (sym same_subs) (λ x b q p.
      elim (Map.lookup-insert-some x id sub f.subs q) [
        | inl (e, same) ↦
            subst (λ y. IsHanded (held' y) b) e
              (subst (λ c. c.pending ≡ true → IsHanded (held' id) c) same waits p)
        | inr (ne, q') ↦ subst (λ n. IsHanded n b) (sym (others x ne)) (h.waits x b q' p)
      ]);
  follows = subst (Follows held' (λ x. g.last)) (sym same_subs) (λ x b q a.
      subst (λ t. Same (apply_all b.changes (held' x)) (held_by t)) (sym same_last)
        (elim (Map.lookup-insert-some x id sub f.subs q) [
          | inl (e, same) ↦
              subst (λ y. Same (apply_all b.changes (held' y)) (held_by f.last)) e
                (subst
                  (λ c. c.active ≡ true → Same (apply_all c.changes (held' id)) (held_by f.last))
                  same follows a)
          | inr (ne, q') ↦
              subst (λ n. Same (apply_all b.changes n) (held_by f.last)) (sym (others x ne))
                (h.follows x b q' a)
        ]));
}

subscribe-IsCurrent :
    (is_cancelled : Bool) (device_id : String) (snap : Snapshot) (f : Feed) (held : Clients)
    → OneEach snap.turns
    → IsCurrent held f
    → IsCurrent
        (hand_snapshot (serve_subscribe is_cancelled device_id snap f).1 held)
        (serve_subscribe is_cancelled device_id snap f).0
unfolding serve_subscribe
subscribe-IsCurrent is_cancelled device_id snap f held one h =
    let current = sample-IsCurrent held snap f one h in
    if-cases
      (λ (r : Feed × Result FeedError (Snapshot × ℕ)). IsCurrent (hand_snapshot r.1 held) r.0)
      is_cancelled (λ q. h)
      (λ q.
        if-cases
          (λ (r : Feed × Result FeedError (Snapshot × ℕ)). IsCurrent (hand_snapshot r.1 held) r.0)
          (leb max_subscriptions (Map.size f.subs)) (λ y. h)
          (λ y.
            set-IsCurrent held _ (sample snap f).next_sub (new_subscription device_id snap.turns)
              (sample snap f) _ current refl refl
              (λ x. hand_ne (sample snap f).next_sub x (held_by snap.turns) held)
              (λ a. ground arith)
              (λ p. (
                refl,
                refl,
                λ k.
                    ap (λ m. Map.lookup k m)
                      (hand_self (sample snap f).next_sub (held_by snap.turns) held),
              ))))

limit_streams-IsCurrent :
    (streams : List ℕ) (held : Clients) (f : Feed)
    → IsCurrent held f
    → IsCurrent held (limit_streams streams f)
unfolding limit_streams
limit_streams-IsCurrent [] held f h = h
limit_streams-IsCurrent (oldest ∷ rest) held f h =
    if-cases (IsCurrent held) (ltb max_streams_per_device (suc (length rest)))
      (λ q. end_sub-IsCurrent held oldest (some superseded) f h) (λ q. h)

-- The catch-up brings the base that a client was handed up to the last sample.
catch_up :
    (held : Map Key Status) (sub : Subscription) (f : Feed)
    → OneEach f.last
    → sub.changes ≡ []
    → Same held (held_by sub.base)
    → let change =
        diff_turns sub.base (record { observed_at = f.last_observed_at; turns = f.last }) in
      Same
        (apply_all (if is_void change then sub.changes else sub.changes ++ change ∷ []) held)
        (held_by f.last)
unfolding apply_all
catch_up held sub f one none_yet h =
    let snap : Snapshot = record { observed_at = f.last_observed_at; turns = f.last } in
    rw none_yet (
      if-cases (λ cs. Same (apply_all cs held) (held_by f.last))
        (is_void (diff_turns sub.base snap)) (λ q. void-Same sub.base snap held one q h)
        (λ q. apply-diff sub.base snap held one h))

activate-IsCurrent :
    (id : ℕ) (sub : Subscription) (held : Clients) (f : Feed)
    → IsCurrent held f
    → Map.lookup id f.subs ≡ some sub
    → sub.pending ≡ true
    → IsCurrent held (activate id sub f)
unfolding activate
activate-IsCurrent id sub held f h q p =
    let (quiet, none_yet, same) = h.waits id sub q p in
    limit_streams-IsCurrent _ held _ (
      set-IsCurrent held held id _ f _ h refl refl (λ x ne. refl)
        (λ a. catch_up (held id) sub f h.unique none_yet same) (λ w. ground arith))

receive-IsCurrent :
    (id : ℕ) (held : Clients) (f : Feed)
    → IsCurrent held f
    → IsCurrent (hand_change id (receive id f).1 held) (receive id f).0
unfolding receive take_from apply_all
receive-IsCurrent id held f h = elim (Option-cases (Map.lookup id f.subs)) [
  | inl q ↦ rw q h
  | inr (sub, q) ↦ rw q (taken sub.changes sub q refl)
]
  where
    taken :
        (cs : List Change) (sub : Subscription)
        → Map.lookup id f.subs ≡ some sub
        → sub.changes ≡ cs
        → IsCurrent
            (hand_change id (first_of cs) held)
            (record f { subs = Map.insert id (record sub { changes = rest_changes cs }) f.subs })
    taken [] sub q e =
        set-IsCurrent held held id _ f _ h refl refl (λ x ne. refl)
          (λ a k. ap (λ cs. Map.lookup k (apply_all cs (held id))) (sym e) ∙ h.follows id sub q a k)
          (λ p. let (off, empty, same) = h.waits id sub q p in (off, refl, same))
    taken (c ∷ cs) sub q e =
        set-IsCurrent held _ id _ f _ h refl refl (λ x ne. hand_ne id x _ held ne)
          (λ a k.
            ap (λ m. Map.lookup k (apply_all cs m)) (hand_self id _ held)
            ∙ (ap (λ l. Map.lookup k (apply_all l (held id))) (sym e) ∙ h.follows id sub q a k))
          (λ p. absurd (let (off, empty, same) = h.waits id sub q p in ground arith))

poke-IsCurrent : (held : Clients) (f : Feed) → IsCurrent held f → IsCurrent held (poke f)
unfolding poke OneEach
poke-IsCurrent held f h =
    if-cases (IsCurrent held) (Map.size f.subs == 0)
      (λ q. record {
        unique = tt;
        waits = h.waits;
        follows = λ id sub g a.
            absurd (ground (arith, Map.lookup-size_zero id f.subs (beq→eq (Map.size f.subs) 0 q)));
      })
      (λ q. record { unique = h.unique; waits = h.waits; follows = h.follows })

end_each-IsCurrent :
    (ids : List ℕ) (held : Clients) (f : Feed) → IsCurrent held f → IsCurrent held (end_each ids f)
unfolding end_each
end_each-IsCurrent [] held f h = h
end_each-IsCurrent (id ∷ ids) held f h =
    end_each-IsCurrent ids held (end_sub id (some stopped) f)
      (end_sub-IsCurrent held id (some stopped) f h)

step-IsCurrent :
    (e : Event) (held : Clients) (f : Feed)
    → IsProper e
    → IsCurrent held f
    → IsCurrent (observe f e held) (step f e)
unfolding step observe serve_ready ready_found serve_close stop window_elapsed backstop
step-IsCurrent (subscribes is_cancelled device_id snap) held f one h =
    subscribe-IsCurrent is_cancelled device_id snap f held one h
step-IsCurrent (readies id) held f one h = elim (Option-cases (Map.lookup id f.subs)) [
  | inl q ↦ rw (q, serve_ready) h
  | inr (sub, q) ↦
      rw (q, serve_ready)
        (if-cases (IsCurrent held) sub.pending (λ p. activate-IsCurrent id sub held f h q p)
          (λ p. h))
]
step-IsCurrent (closes id) held f one h = end_sub-IsCurrent held id none f h
step-IsCurrent (receives id) held f one h = receive-IsCurrent id held f h
step-IsCurrent pokes held f one h = poke-IsCurrent held f h
step-IsCurrent stops held f one h = end_each-IsCurrent (map (λ e. e.0) f.subs.entries) held f h
step-IsCurrent (elapses snap) held f one h =
    if-cases (IsCurrent held) f.window
      (λ q.
        sample-IsCurrent held snap _ one
          (record { unique = h.unique; waits = h.waits; follows = h.follows }))
      (λ q. h)
step-IsCurrent (ticks snap) held f one h =
    if-cases (IsCurrent held) (ltb 0 (Map.size f.subs)) (λ q. sample-IsCurrent held snap f one h)
      (λ q. h)

watch_from-IsCurrent :
    (es : List Event) (w : Watched)
    → All IsProper es
    → IsCurrent w.1 w.0
    → IsCurrent (watch w es).1 (watch w es).0
unfolding watch
watch_from-IsCurrent [] w one h = h
watch_from-IsCurrent (e ∷ es) w one h =
    watch_from-IsCurrent es _ one.1 (step-IsCurrent e w.1 w.0 one.0 h)

new_feed-IsCurrent : (held : Clients) → IsCurrent held new_feed
unfolding new_feed OneEach
new_feed-IsCurrent held = record {
  unique = tt;
  waits = λ id sub g. ground (arith, Map.lookup-empty {V = Subscription} id);
  follows = λ id sub g. ground (arith, Map.lookup-empty {V = Subscription} id);
}

-- After any history of events, whose snapshots have each turn once, a client of an active
-- subscription that applies the changes in its channel to what it holds has exactly the turns of
-- `f.last`, against which the next sample is compared.
pub watch-IsCurrent :
    (es : List Event) (held : Clients) (id : ℕ) (sub : Subscription)
    → All IsProper es
    → let w = watch (new_feed, held) es in
      Map.lookup id w.0.subs ≡ some sub
      → sub.active ≡ true
      → Same (apply_all sub.changes (w.1 id)) (held_by w.0.last)
watch-IsCurrent es held id sub one =
    (watch_from-IsCurrent es (new_feed, held) one (new_feed-IsCurrent held)).follows id sub
