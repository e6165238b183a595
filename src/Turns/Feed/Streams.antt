-- ===== src/Turns/Feed/Streams.antt =====
-- A subscription of turns/feed.go that readies joins its device's streams, and the oldest leaves.
use ferngeist_acp_gateway.Prelude.{
  ℕ, suc, ◌≤◌, ◌≡◌, refl, sym, ap, subst, ◌∙◌, true, false, some, List, [], ◌∷◌, ◌++◌, String,
  by_text, by_number, arith, All, All-append, length, length-append, Option-cases, Bool-cases,
  beq→eq, ◌==◌, inl, inr, ◌⊎◌, if◌then◌else◌, if-cases, ltb,
}
use ferngeist_acp_gateway.Map
use ferngeist_acp_gateway.Map.{Map}
use ferngeist_acp_gateway.Turns.Diff.{Change, diff_turns}
use ferngeist_acp_gateway.Turns.Feed.{
  Feed, Subscription, max_queued_changes, max_subscriptions, max_streams_per_device, streams_of,
  without, end_sub, is_void, limit_streams, activate, end_found, leave_device,
}
use ferngeist_acp_gateway.Turns.Feed.Ending.{
  IsStream, IsListed, is_among, IsCounted, delete-IsCounted, insert-IsCounted, IsCapped, IsSound,
  All-streams, length-without, leave_device-some, delete-IsListed, forget_last-IsSound,
}
use ferngeist_acp_gateway.Turns.Feed.Sampling.{insert-IsListed}

-- All lists but one are within the cap.
abbrev IsCappedBut : String → List ℕ → Map String (List ℕ) → Type 0
IsCappedBut device_id streams by_device =
    (d : String) (l : List ℕ)
    → Map.lookup d by_device ≡ some l
    → (length l ≤ max_streams_per_device) ⊎ ((d ≡ device_id) × (l ≡ streams))

without_first : (id : ℕ) (l : List ℕ) → length (without id (id ∷ l)) ≤ length l
unfolding without
without_first id l = ground (arith, by_number.same_key_iff id id, length-without id l)

superseded-IsCapped :
    (device_id : String) (oldest : ℕ) (rest : List ℕ) (by_device : Map String (List ℕ))
    → IsCappedBut device_id (oldest ∷ rest) by_device
    → Map.lookup device_id by_device ≡ some (oldest ∷ rest)
    → length rest ≤ max_streams_per_device
    → IsCapped max_streams_per_device (leave_device oldest device_id by_device)
superseded-IsCapped device_id oldest rest by_device but own short d l g =
    elim (leave_device-some oldest device_id d by_device l g) [
      | inl (e, same) ↦
          let found : Map.lookup d by_device ≡ some (oldest ∷ rest) =
            ap (λ x. Map.lookup x by_device) (sym e) ∙ own in
          let same' : l ≡ without oldest (oldest ∷ rest) =
            same ∙ ap (λ o. without oldest (streams_of o)) found in
          let less : length l ≤ length rest =
            subst (λ x. length x ≤ length rest) (sym same') (without_first oldest rest) in
          omega (arith, less)
      | inr (ne, h) ↦ elim (but d l h) [ inl le ↦ le | inr (e, same) ↦ absurd (ne (sym e)) ]
    ]

limit_streams-IsSound :
    (device_id : String) (streams : List ℕ) (f : Feed)
    → Map.size f.subs ≤ max_subscriptions
    → IsListed f.subs f.by_device f.next_sub
    → IsCounted f.subs f.by_device
    → IsCappedBut device_id streams f.by_device
    → Map.lookup device_id f.by_device ≡ some streams
    → length streams ≤ suc max_streams_per_device
    → IsSound (limit_streams streams f)
unfolding limit_streams end_sub end_found
limit_streams-IsSound device_id [] f few c all but own short = record {
  few = few;
  consistent = c;
  counted = all;
  capped = λ d l g. elim (but d l g) [
    | inl le ↦ le
    | inr (e, same) ↦ subst (λ x. length x ≤ max_streams_per_device) (sym same) (omega arith)
  ];
}
limit_streams-IsSound device_id (oldest ∷ rest) f few c all but own short =
    if-cases IsSound (ltb max_streams_per_device (suc (length rest)))
      (λ q.
        let (sub, g, a, e) = (c.listed device_id (oldest ∷ rest) own).0 in
        rw (g, end_sub)
          (forget_last-IsSound _ (record {
            few = omega (arith, Map.size-delete-le oldest f.subs);
            consistent = delete-IsListed f.subs f.by_device f.next_sub oldest sub c g;
            counted = delete-IsCounted f.subs f.by_device oldest sub all;
            capped =
                subst
                  (λ b.
                    IsCapped max_streams_per_device
                      (if b then leave_device oldest sub.device_id f.by_device else f.by_device))
                  (sym a)
                  (subst (λ d. IsCapped max_streams_per_device (leave_device oldest d f.by_device))
                    (sym e)
                    (superseded-IsCapped device_id oldest rest f.by_device but own (omega arith)));
          })))
      (λ q. record {
        few = few;
        consistent = c;
        counted = all;
        capped = λ d l g. elim (but d l g) [
          | inl le ↦ le
          | inr (e, same) ↦ subst (λ x. length x ≤ max_streams_per_device) (sym same) (ground arith)
        ];
      })

abbrev pub catch_up : Subscription → Feed → Change
catch_up sub f = diff_turns sub.base (record { observed_at = f.last_observed_at; turns = f.last })

activated_queue :
    (sub : Subscription) (c : Change)
    → sub.changes ≡ []
    → length (if is_void c then sub.changes else sub.changes ++ c ∷ []) ≤ max_queued_changes
activated_queue sub c e =
    if-cases (λ l. length l ≤ max_queued_changes) (is_void c)
      (λ q. subst (λ l. length l ≤ max_queued_changes) (sym e) (omega arith))
      (λ q. subst (λ l. length (l ++ c ∷ []) ≤ max_queued_changes) (sym e) (omega arith))

is_among-append :
    (x : ℕ) (l rest : List ℕ)
    → is_among x (l ++ rest) ≡ (if is_among x l then true else is_among x rest)
unfolding is_among
is_among-append x [] rest = refl
is_among-append x (y ∷ l) rest = ground (arith, is_among-append x l rest)

joined-is_among :
    (device_id : String) (by_device : Map String (List ℕ)) (id j : ℕ) (d : String)
    → (is_among j (streams_of (Map.lookup d by_device)) ≡ true) ⊎ ((j ≡ id) × (d ≡ device_id))
    → let old = streams_of (Map.lookup device_id by_device) in
      is_among j (streams_of (Map.lookup d (Map.insert device_id (old ++ id ∷ []) by_device)))
      ≡ true
unfolding is_among
joined-is_among device_id by_device id j d h =
    let old = streams_of (Map.lookup device_id by_device) in
    elim (Bool-cases (device_id == d)) [
      | inr q ↦ elim h [
        | inl a ↦ rw (Map.lookup-insert d device_id (old ++ id ∷ []) by_device, q) a
        | inr (e, z) ↦ absurd (ground (arith, by_text.same_key_iff device_id d))
      ]
      | inl q ↦
          let here : is_among j (old ++ id ∷ []) ≡ true = elim h [
            | inl a ↦
                let own : is_among j old ≡ true =
                  ap (λ k. is_among j (streams_of (Map.lookup k by_device))) (beq→eq device_id d q)
                  ∙ a in
                ground (arith, is_among-append j old (id ∷ []))
            | inr (e, z) ↦
                ground (arith, is_among-append j old (id ∷ []), by_number.same_key_iff id j)
          ] in
          rw (Map.lookup-insert d device_id (old ++ id ∷ []) by_device, q) here
    ]

-- The list that a subscription joins holds streams of its device.
joined-IsListed :
    (subs : Map ℕ Subscription) (by_device : Map String (List ℕ)) (next id : ℕ) (sub : Subscription)
    → IsListed subs by_device next
    → Map.lookup id subs ≡ some sub
    → sub.active ≡ true
    → IsListed subs
        (Map.insert sub.device_id
          (streams_of (Map.lookup sub.device_id by_device) ++ id ∷ [])
          by_device)
        next
joined-IsListed subs by_device next id sub c f a =
    let old = streams_of (Map.lookup sub.device_id by_device) in
    record {
      queued = c.queued;
      waiting = c.waiting;
      known = c.known;
      listed = λ d l g. elim (Map.lookup-insert-some d sub.device_id (old ++ id ∷ []) by_device g) [
        | inl (e, same) ↦
            subst (λ x. All (IsStream subs x) l) e
              (subst (All (IsStream subs sub.device_id)) same (
                All-append (IsStream subs sub.device_id) old (id ∷ [])
                  (All-streams (IsStream subs sub.device_id) (Map.lookup sub.device_id by_device)
                    (c.listed sub.device_id))
                  ((sub, f, a, refl), tt)))
        | inr (ne, h) ↦ c.listed d l h
      ];
    }

length-streams :
    (cap : ℕ) (d : String) (by_device : Map String (List ℕ))
    → IsCapped cap by_device
    → length (streams_of (Map.lookup d by_device)) ≤ cap
length-streams cap d by_device h = elim (Option-cases (Map.lookup d by_device)) [
  | inl q ↦ rw q (omega arith)
  | inr (l, q) ↦ rw q (h d l q)
]

pub activate-IsSound :
    (id : ℕ) (sub : Subscription) (f : Feed)
    → IsSound f
    → Map.lookup id f.subs ≡ some sub
    → sub.pending ≡ true
    → IsSound (activate id sub f)
unfolding activate
activate-IsSound id sub f h g p =
    let change = catch_up sub f in
    let old = streams_of (Map.lookup sub.device_id f.by_device) in
    let waits = h.consistent.waiting id sub g p in
    let ready : Subscription = record sub {
      base = [];
      pending = false;
      active = true;
      changes = if is_void change then sub.changes else sub.changes ++ change ∷ [];
    } in
    let subs = Map.insert id ready f.subs in
    limit_streams-IsSound sub.device_id (old ++ id ∷ []) _
      (omega (arith, Map.size-insert-some id ready sub f.subs g, h.few))
      (joined-IsListed subs f.by_device f.next_sub id ready
        (insert-IsListed f.subs f.by_device f.next_sub id sub ready h.consistent g refl (λ a. refl)
          (activated_queue sub change waits.1) (λ z. absurd (ground arith)))
        (Map.lookup-insert_self id ready f.subs) refl)
      (insert-IsCounted f.subs f.by_device _ id ready h.counted
        (λ j d z. joined-is_among sub.device_id f.by_device id j d (inl z))
        (λ z. joined-is_among sub.device_id f.by_device id id sub.device_id (inr (refl, refl))))
      (λ d l k. elim (Map.lookup-insert-some d sub.device_id (old ++ id ∷ []) f.by_device k) [
        | inl (e, same) ↦ inr (sym e, sym same)
        | inr (ne, z) ↦ inl (h.capped d l z)
      ])
      (Map.lookup-insert_self sub.device_id (old ++ id ∷ []) f.by_device)
      (omega (
        arith,
        length-append old (id ∷ []),
        length-streams max_streams_per_device sub.device_id f.by_device h.capped,
      ))
