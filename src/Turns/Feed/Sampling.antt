-- ===== src/Turns/Feed/Sampling.antt =====
-- A sample of turns/feed.go keeps the sets of its feed consistent and within their caps.
use ferngeist_acp_gateway.Prelude.{
  ℕ, ◌≤◌, ◌<◌, ◌≡◌, refl, sym, ap, subst, ◌∙◌, true, false, some, List, [], ◌∷◌, map, String,
  by_text, by_number, arith, length, length-append, Bool-cases, Option-cases, inl, inr, ◌==◌,
  beq→eq, if-cases, ltb,
}
use ferngeist_acp_gateway.Map
use ferngeist_acp_gateway.Map.{Map}
use ferngeist_acp_gateway.Turns.Diff.{Snapshot, Change, diff_turns}
use ferngeist_acp_gateway.Turns.Feed.{
  Feed, Subscription, slow_consumer, max_queued_changes, end_sub, is_void, publish, enqueue,
  publish_each, sample, end_found, forget_last,
}
use ferngeist_acp_gateway.Turns.Feed.Ending.{
  IsStream, IsListed, insert-IsCounted, IsSound, All-map, end_sub-IsSound,
}

replaced :
    (subs : Map ℕ Subscription) (d : String) (id x : ℕ) (sub sub' : Subscription)
    → Map.lookup id subs ≡ some sub
    → sub'.device_id ≡ sub.device_id
    → (sub.active ≡ true → sub'.active ≡ true)
    → IsStream subs d x
    → IsStream (Map.insert id sub' subs) d x
replaced subs d id x sub sub' f dev act (s, g, a, e) = elim (Bool-cases (id == x)) [
  | inr q ↦ (s, rw (Map.lookup-insert x id sub' subs, q) g, a, e)
  | inl q ↦
      let same : some sub ≡ some s = sym f ∙ (ap (λ j. Map.lookup j subs) (beq→eq id x q) ∙ g) in
      (sub', rw (Map.lookup-insert x id sub' subs, q) refl, act (ground arith), ground arith)
]

-- A subscription of the set may change its queue and become active.
pub insert-IsListed :
    (subs : Map ℕ Subscription) (by_device : Map String (List ℕ)) (next id : ℕ)
    (sub sub' : Subscription)
    → IsListed subs by_device next
    → Map.lookup id subs ≡ some sub
    → sub'.device_id ≡ sub.device_id
    → (sub.active ≡ true → sub'.active ≡ true)
    → length sub'.changes ≤ max_queued_changes
    → (sub'.pending ≡ true → (sub'.active ≡ false) × (sub'.changes ≡ []))
    → IsListed (Map.insert id sub' subs) by_device next
insert-IsListed subs by_device next id sub sub' c f dev act small wait = record {
  queued = λ j s g. elim (Map.lookup-insert-some j id sub' subs g) [
    | inl (e, same) ↦ subst (λ x. length x.changes ≤ max_queued_changes) same small
    | inr (ne, h) ↦ c.queued j s h
  ];
  waiting = λ j s g. elim (Map.lookup-insert-some j id sub' subs g) [
    | inl (e, same) ↦
        subst (λ x. x.pending ≡ true → (x.active ≡ false) × (x.changes ≡ [])) same wait
    | inr (ne, h) ↦ c.waiting j s h
  ];
  known = λ j s g. elim (Map.lookup-insert-some j id sub' subs g) [
    | inl (e, same) ↦ subst (λ x. x < next) e (c.known id sub f)
    | inr (ne, h) ↦ c.known j s h
  ];
  listed = λ d l g.
      All-map (IsStream subs d) (IsStream (Map.insert id sub' subs) d) l
        (λ x t. replaced subs d id x sub sub' f dev act t) (c.listed d l g);
}

enqueue-IsSound :
    (c : Change) (id : ℕ) (sub : Subscription) (f : Feed)
    → IsSound f
    → Map.lookup id f.subs ≡ some sub
    → sub.active ≡ true
    → length sub.changes < max_queued_changes
    → IsSound (record f { subs = Map.insert id (enqueue c sub) f.subs })
unfolding enqueue
enqueue-IsSound c id sub f h q a small = record {
  few = omega (arith, Map.size-insert-some id (enqueue c sub) sub f.subs q, h.few);
  consistent =
      insert-IsListed f.subs f.by_device f.next_sub id sub (enqueue c sub) h.consistent q refl
        (λ e. e) (omega (arith, length-append sub.changes (c ∷ [])))
        (λ p. absurd (ground (arith, h.consistent.waiting id sub q p)));
  counted =
      insert-IsCounted f.subs f.by_device f.by_device id (enqueue c sub) h.counted (λ j d z. z)
        (h.counted id sub q);
  capped = h.capped;
}

publish-IsSound :
    (c : Change) (id : ℕ) (f : Feed) → IsSound f → IsSound (publish c id (Map.lookup id f.subs) f)
unfolding publish
publish-IsSound c id f h = elim (Option-cases (Map.lookup id f.subs)) [
  | inl q ↦ rw q h
  | inr (sub, q) ↦ rw q (
      if-cases IsSound sub.active
        (λ a.
          if-cases IsSound (ltb (length sub.changes) max_queued_changes)
            (λ y. enqueue-IsSound c id sub f h q a (ground arith))
            (λ y. end_sub-IsSound id (some slow_consumer) f h))
        (λ a. h))
]

pub publish_each-IsSound :
    (c : Change) (ids : List ℕ) (f : Feed) → IsSound f → IsSound (publish_each c ids f)
unfolding publish_each
publish_each-IsSound c [] f h = h
publish_each-IsSound c (id ∷ ids) f h =
    publish_each-IsSound c ids (publish c id (Map.lookup id f.subs) f) (publish-IsSound c id f h)

pub sample-IsSound : (snap : Snapshot) (f : Feed) → IsSound f → IsSound (sample snap f)
unfolding sample
sample-IsSound snap f h = elim (Bool-cases (is_void (diff_turns f.last snap))) [
  | inl q ↦
      rw q
        (record { few = h.few; consistent = h.consistent; counted = h.counted; capped = h.capped })
  | inr q ↦ rw q (
      publish_each-IsSound (diff_turns f.last snap) (map (λ e. e.0) f.subs.entries) _
        (record { few = h.few; consistent = h.consistent; counted = h.counted; capped = h.capped }))
]

-- A sample adds no subscription.
publish-size :
    (c : Change) (id : ℕ) (f : Feed)
    → Map.size (publish c id (Map.lookup id f.subs) f).subs ≤ Map.size f.subs
unfolding publish end_sub end_found forget_last
publish-size c id f = elim (Option-cases (Map.lookup id f.subs)) [
  | inl q ↦ rw q (omega arith)
  | inr (sub, q) ↦ rw q (
      ground
        (arith, Map.size-insert-some id (enqueue c sub) sub f.subs q, Map.size-delete-le id f.subs))
]

publish-known :
    (c : Change) (id : ℕ) (f : Feed) → (publish c id (Map.lookup id f.subs) f).next_sub ≡ f.next_sub
unfolding publish end_sub end_found forget_last
publish-known c id f = elim (Option-cases (Map.lookup id f.subs)) [
  | inl q ↦ rw q refl
  | inr (sub, q) ↦ rw q (ground arith)
]

publish_each-size :
    (c : Change) (ids : List ℕ) (f : Feed) → Map.size (publish_each c ids f).subs ≤ Map.size f.subs
unfolding publish_each
publish_each-size c [] f = omega arith
publish_each-size c (id ∷ ids) f =
    omega
      (arith, publish-size c id f, publish_each-size c ids (publish c id (Map.lookup id f.subs) f))

pub sample-size : (snap : Snapshot) (f : Feed) → Map.size (sample snap f).subs ≤ Map.size f.subs
unfolding sample
sample-size snap f = elim (Bool-cases (is_void (diff_turns f.last snap))) [
  | inl q ↦ rw q (omega arith)
  | inr q ↦ rw q (publish_each-size (diff_turns f.last snap) (map (λ e. e.0) f.subs.entries) _)
]
