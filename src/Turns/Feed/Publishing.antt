-- ===== src/Turns/Feed/Publishing.antt =====
-- The loop of `sample` of turns/feed.go brings every active subscription up to the sample.
use ferngeist_acp_gateway.Prelude.{
  ℕ, ◌≡◌, refl, sym, ap, subst, ◌∙◌, true, false, Option, none, some, List, [], ◌∷◌, ◌++◌, map,
  by_number, arith, length, Bool-cases, Option-cases, inl, inr, ◌⊎◌, ◌==◌, beq→eq, beq_of_ne,
  if-cases, ltb,
}
use ferngeist_acp_gateway.Map
use ferngeist_acp_gateway.Map.{Map}
use ferngeist_acp_gateway.Map.Entries.{find, Distinct}
use ferngeist_acp_gateway.Turns.Types.{Status, Key, by_key}
use ferngeist_acp_gateway.Turns.Diff.{Change, apply}
use ferngeist_acp_gateway.Turns.Feed.{
  Feed, Subscription, FeedError, slow_consumer, max_queued_changes, end_sub, end_found, forget_last,
  publish, enqueue, publish_each,
}
use ferngeist_acp_gateway.Turns.Feed.Clients.{Same, held_by, apply_all, apply_all-append, Clients}

-- Every active subscription has queued what its client lacks of the turns that it is to hold.
abbrev pub Follows : Clients → (ℕ → List Status) → Map ℕ Subscription → Type 0
Follows held target subs =
    (id : ℕ) (sub : Subscription)
    → Map.lookup id subs ≡ some sub
    → sub.active ≡ true
    → Same (apply_all sub.changes (held id)) (held_by (target id))

-- A subscription that waits to be readied was handed its base.
abbrev pub Waits : Clients → Map ℕ Subscription → Type 0
Waits held subs =
    (id : ℕ) (sub : Subscription)
    → Map.lookup id subs ≡ some sub
    → sub.pending ≡ true
    → (sub.active ≡ false) × (sub.changes ≡ []) × Same (held id) (held_by sub.base)

pub Follows-delete :
    (held : Clients) (target : ℕ → List Status) (id : ℕ) (subs : Map ℕ Subscription)
    → Follows held target subs
    → Follows held target (Map.delete id subs)
Follows-delete held target id subs h x sub f = h x sub (Map.lookup-delete-some x id subs f).0

pub Waits-delete :
    (held : Clients) (id : ℕ) (subs : Map ℕ Subscription)
    → Waits held subs
    → Waits held (Map.delete id subs)
Waits-delete held id subs h x sub f = h x sub (Map.lookup-delete-some x id subs f).0

-- The last sample is kept, or there is nobody to read it.
abbrev pub IsLast : List Status → Feed → Type 0
IsLast turns f = (f.last ≡ turns) ⊎ ((f.last ≡ []) × ((id : ℕ) → Map.lookup id f.subs ≡ none))

pub forget_last-IsLast :
    (turns : List Status) (f : Feed) → IsLast turns f → IsLast turns (forget_last f)
unfolding forget_last
forget_last-IsLast turns f h = elim (Bool-cases (Map.size f.subs == 0)) [
  | inl q ↦ rw q (inr (refl, λ id. Map.lookup-size_zero id f.subs (beq→eq (Map.size f.subs) 0 q)))
  | inr q ↦ rw q h
]

pub forget_last-subs : (f : Feed) → (forget_last f).subs ≡ f.subs
unfolding forget_last
forget_last-subs f = ground arith

-- The end of a subscription takes it from the set.
pub end_sub_cases {μ} :
    (P : Map ℕ Subscription → Type μ) (id : ℕ) (e : Option FeedError) (f : Feed)
    → P f.subs
    → P (Map.delete id f.subs)
    → P (end_sub id e f).subs
unfolding end_sub end_found
end_sub_cases P id e f stays goes = elim (Option-cases (Map.lookup id f.subs)) [
  | inl q ↦ rw (q, end_sub) stays
  | inr (sub, q) ↦ rw (q, end_sub) (subst P (sym (forget_last-subs _)) goes)
]

pub end_sub-subs :
    (id : ℕ) (e : Option FeedError) (f : Feed) (sub : Subscription)
    → Map.lookup id f.subs ≡ some sub
    → (end_sub id e f).subs ≡ Map.delete id f.subs
unfolding end_sub end_found
end_sub-subs id e f sub q = rw (q, end_sub) (forget_last-subs _)

pub end_sub-IsLast :
    (turns : List Status) (id : ℕ) (e : Option FeedError) (f : Feed)
    → IsLast turns f
    → IsLast turns (end_sub id e f)
unfolding end_sub end_found
end_sub-IsLast turns id e f h = elim (Option-cases (Map.lookup id f.subs)) [
  | inl q ↦ rw (q, end_sub) h
  | inr (sub, q) ↦
      rw (q, end_sub)
        (forget_last-IsLast turns _ (elim h [
          | inl same ↦ inl same
          | inr (empty, gone) ↦
              inr (empty, λ x. ground (arith, Map.lookup-delete x id f.subs, gone x))
        ]))
]

-- What the loop aims at while some subscriptions are left to it.
abbrev pub aim : List Status → List Status → List (ℕ × Subscription) → ℕ → List Status
aim old new l x = elim (find x l) [ none ↦ new | some sub ↦ old ]

module _ (old new : List Status) (l : List (ℕ × Subscription)) (id : ℕ) (s : Subscription) where
  aim-miss : (x : ℕ) → (id == x) ≡ false → aim old new ((id, s) ∷ l) x ≡ aim old new l x
  unfolding find
  aim-miss x q = ground arith

  aim-hit : aim old new ((id, s) ∷ l) id ≡ old
  unfolding find
  aim-hit = ground (arith, by_number.same_key_iff id id)

  aim-none : (x : ℕ) → find x l ≡ none → aim old new l x ≡ new
  aim-none x q = ground arith

  -- Where the subscription is not active, or not there, its turn changes nothing.
  narrow :
      (held : Clients) (subs : Map ℕ Subscription)
      → Follows held (aim old new ((id, s) ∷ l)) subs
      → ((sub : Subscription) → Map.lookup id subs ≡ some sub → sub.active ≡ false)
      → Follows held (aim old new l) subs
  narrow held subs h quiet x sub f a = elim (Bool-cases (id == x)) [
    | inl q ↦ let off = quiet sub (ap (λ j. Map.lookup j subs) (beq→eq id x q) ∙ f) in ground arith
    | inr q ↦
        subst (λ t. Same (apply_all sub.changes (held x)) (held_by t)) (aim-miss x q) (h x sub f a)
  ]

  enqueue-Follows :
      (held : Clients) (c : Change) (subs : Map ℕ Subscription) (sub : Subscription)
      → ((m : Map Key Status) → Same m (held_by old) → Same (apply c m) (held_by new))
      → find id l ≡ none
      → Follows held (aim old new ((id, s) ∷ l)) subs
      → Map.lookup id subs ≡ some sub
      → sub.active ≡ true
      → Follows held (aim old new l) (Map.insert id (enqueue c sub) subs)
  unfolding enqueue
  enqueue-Follows held c subs sub brings once h g act x sub' f a =
      elim (Map.lookup-insert-some x id (enqueue c sub) subs f) [
        | inl (e, same) ↦
            let was : Same (apply_all sub.changes (held id)) (held_by old) =
              subst (λ t. Same (apply_all sub.changes (held id)) (held_by t)) aim-hit
                (h id sub g act) in
            let is : Same (apply_all (sub.changes ++ c ∷ []) (held id)) (held_by new) =
              subst (λ m. Same m (held_by new)) (sym (apply_all-append sub.changes c (held id)))
                (brings (apply_all sub.changes (held id)) was) in
            let there : Same (apply_all (sub.changes ++ c ∷ []) (held id))
                (held_by (aim old new l id)) =
              subst (λ t. Same (apply_all (sub.changes ++ c ∷ []) (held id)) (held_by t))
                (sym (aim-none id once)) is in
            subst (λ j. Same (apply_all sub'.changes (held j)) (held_by (aim old new l j))) e
              (subst (λ b. Same (apply_all b.changes (held id)) (held_by (aim old new l id))) same
                there)
        | inr (ne, g') ↦
            subst (λ t. Same (apply_all sub'.changes (held x)) (held_by t))
              (aim-miss x (beq_of_ne id x ne)) (h x sub' g' a)
      ]

enqueue-Waits :
    (held : Clients) (c : Change) (id : ℕ) (sub : Subscription) (subs : Map ℕ Subscription)
    → Waits held subs
    → Map.lookup id subs ≡ some sub
    → sub.active ≡ true
    → Waits held (Map.insert id (enqueue c sub) subs)
unfolding enqueue
enqueue-Waits held c id sub subs w g act x sub' f p =
    elim (Map.lookup-insert-some x id (enqueue c sub) subs f) [
      | inl (e, same) ↦
          let off = (w id sub g (ap (λ b. b.pending) same ∙ p)).0 in absurd (ground arith)
      | inr (ne, g') ↦ w x sub' g' p
    ]

pub aim_old :
    (old new : List Status) (subs : Map ℕ Subscription) (id : ℕ) (sub : Subscription)
    → Map.lookup id subs ≡ some sub
    → aim old new subs.entries id ≡ old
unfolding Map.lookup
aim_old old new subs id sub g = ground arith

pub record Loop (held : Clients) (old new : List Status) (l : List (ℕ × Subscription)) (f : Feed)
    : Type 0 where
  pub follows : Follows held (aim old new l) f.subs
  pub waits : Waits held f.subs
  pub last : IsLast new f

publish-Loop :
    (held : Clients) (old new : List Status) (l : List (ℕ × Subscription)) (id : ℕ)
    (s : Subscription) (c : Change) (f : Feed)
    → ((m : Map Key Status) → Same m (held_by old) → Same (apply c m) (held_by new))
    → find id l ≡ none
    → Loop held old new ((id, s) ∷ l) f
    → Loop held old new l (publish c id (Map.lookup id f.subs) f)
unfolding publish
publish-Loop held old new l id s c f brings once h = elim (Option-cases (Map.lookup id f.subs)) [
  | inl q ↦ rw q (record {
    follows = narrow old new l id s held f.subs h.follows (λ sub g. ground arith);
    waits = h.waits;
    last = h.last;
  })
  | inr (sub, q) ↦ rw q (
      if-cases (Loop held old new l) sub.active
        (λ act.
          if-cases (Loop held old new l) (ltb (length sub.changes) max_queued_changes)
            (λ y. record {
              follows =
                  enqueue-Follows old new l id s held c f.subs sub brings once h.follows q act;
              waits = enqueue-Waits held c id sub f.subs h.waits q act;
              last = elim h.last [
                | inl e ↦ inl e
                | inr (empty, gone) ↦ absurd (ground (arith, gone id))
              ];
            })
            (λ y. ended sub q))
        (λ off. record {
          follows = narrow old new l id s held f.subs h.follows (λ b g. ground arith);
          waits = h.waits;
          last = h.last;
        }))
]
  where
    ended :
        (sub : Subscription)
        → Map.lookup id f.subs ≡ some sub
        → Loop held old new l (end_sub id (some slow_consumer) f)
    ended sub q = record {
      follows =
          subst (Follows held (aim old new l)) (sym (end_sub-subs id (some slow_consumer) f sub q))
            (narrow old new l id s held (Map.delete id f.subs)
              (Follows-delete held (aim old new ((id, s) ∷ l)) id f.subs h.follows)
              (λ b g. ground (arith, Map.lookup-delete_self id f.subs)));
      waits =
          end_sub_cases (Waits held) id (some slow_consumer) f h.waits
            (Waits-delete held id f.subs h.waits);
      last = end_sub-IsLast new id (some slow_consumer) f h.last;
    }

pub publish_each-Loop :
    (held : Clients) (old new : List Status) (c : Change) (l : List (ℕ × Subscription)) (f : Feed)
    → ((m : Map Key Status) → Same m (held_by old) → Same (apply c m) (held_by new))
    → Distinct l
    → Loop held old new l f
    → Loop held old new [] (publish_each c (map (λ e. e.0) l) f)
unfolding publish_each
publish_each-Loop held old new c [] f brings d h = h
publish_each-Loop held old new c ((id, s) ∷ l) f brings d h =
    publish_each-Loop held old new c l (publish c id (Map.lookup id f.subs) f) brings d.1
      (publish-Loop held old new l id s c f brings d.0 h)
