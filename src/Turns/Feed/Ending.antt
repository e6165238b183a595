-- ===== src/Turns/Feed/Ending.antt =====
-- The end of a subscription of turns/feed.go, and the sets it leaves consistent.
use ferngeist_acp_gateway.Prelude.{
  is_empty, ℕ, ◌≤◌, ◌<◌, ◌≡◌, ◌≢◌, refl, sym, ap, subst, ◌∙◌, true, false, Option, none, some, List,
  [], ◌∷◌, String, by_text, by_number, arith, All, length, Bool-cases, Option-cases, inl, inr, ◌⊎◌,
  ◌==◌, if◌then◌else◌, Bool, beq→eq, if-cases,
}
use ferngeist_acp_gateway.Map
use ferngeist_acp_gateway.Map.{Map}
use ferngeist_acp_gateway.Turns.Feed.{
  Feed, Subscription, FeedError, max_queued_changes, max_subscriptions, max_streams_per_device,
  streams_of, without, leave_device, forget_last, end_found, end_sub,
}

-- A stream of a device's list is an active subscription of the device.
abbrev pub IsStream : Map ℕ Subscription → String → ℕ → Type 0
IsStream subs device_id id =
    (sub : Subscription) × (Map.lookup id subs ≡ some sub)
    × (sub.active ≡ true)
    × (sub.device_id ≡ device_id)

unfoldable pub is_among : ℕ → List ℕ → Bool
is_among id [] = false
is_among id (x ∷ l) = let rest = is_among id l in if x == id then true else rest

pub record IsListed (subs : Map ℕ Subscription) (by_device : Map String (List ℕ)) (next_sub : ℕ)
    : Type 0 where
  pub queued :
      (id : ℕ) (sub : Subscription)
      → Map.lookup id subs ≡ some sub
      → length sub.changes ≤ max_queued_changes
  pub waiting :
      (id : ℕ) (sub : Subscription)
      → Map.lookup id subs ≡ some sub
      → sub.pending ≡ true
      → (sub.active ≡ false) × (sub.changes ≡ [])
  pub known : (id : ℕ) (sub : Subscription) → Map.lookup id subs ≡ some sub → id < next_sub
  pub listed :
      (device_id : String) (l : List ℕ)
      → Map.lookup device_id by_device ≡ some l
      → All (IsStream subs device_id) l

-- An active subscription is one of its device's streams.
abbrev pub IsCounted : Map ℕ Subscription → Map String (List ℕ) → Type 0
IsCounted subs by_device =
    (id : ℕ) (sub : Subscription)
    → Map.lookup id subs ≡ some sub
    → sub.active ≡ true
    → is_among id (streams_of (Map.lookup sub.device_id by_device)) ≡ true

abbrev pub IsCapped : ℕ → Map String (List ℕ) → Type 0
IsCapped cap by_device =
    (device_id : String) (l : List ℕ) → Map.lookup device_id by_device ≡ some l → length l ≤ cap

pub record IsSound (f : Feed) : Type 0 where
  pub few : Map.size f.subs ≤ max_subscriptions
  pub consistent : IsListed f.subs f.by_device f.next_sub
  pub counted : IsCounted f.subs f.by_device
  pub capped : IsCapped max_streams_per_device f.by_device

pub All-without :
    (P Q : ℕ → Type 0) (id : ℕ) (l : List ℕ)
    → ((x : ℕ) → id ≢ x → P x → Q x)
    → All P l
    → All Q (without id l)
unfolding without
All-without P Q id [] h a = tt
All-without P Q id (x ∷ l) h a = elim (Bool-cases (x == id)) [
  | inl q ↦ rw q (All-without P Q id l h a.1)
  | inr q ↦ rw q (h x (λ e. ground arith) a.0, All-without P Q id l h a.1)
]

pub All-map : (P Q : ℕ → Type 0) (l : List ℕ) → ((x : ℕ) → P x → Q x) → All P l → All Q l
All-map P Q [] h a = tt
All-map P Q (x ∷ l) h a = (h x a.0, All-map P Q l h a.1)

pub length-without : (id : ℕ) (l : List ℕ) → length (without id l) ≤ length l
unfolding without
length-without id [] = omega arith
length-without id (x ∷ l) = ground (arith, length-without id l)

-- A device's streams without one of them.
pub leave_device-some :
    (id : ℕ) (device_id d : String) (by_device : Map String (List ℕ)) (l : List ℕ)
    → Map.lookup d (leave_device id device_id by_device) ≡ some l
    → ((device_id ≡ d) × (l ≡ without id (streams_of (Map.lookup d by_device))))
      ⊎ ((device_id ≢ d) × (Map.lookup d by_device ≡ some l))
unfolding leave_device
leave_device-some id device_id d by_device l h =
    let left = without id (streams_of (Map.lookup device_id by_device)) in
    elim (Bool-cases (is_empty left)) [
      | inl q ↦
          let (g, ne) = Map.lookup-delete-some d device_id by_device (rw q at h) in inr (ne, g)
      | inr q ↦ elim (Map.lookup-insert-some d device_id left by_device (rw q at h)) [
        | inl (e, g) ↦ inl (e, sym g ∙ ap (λ x. without id (streams_of (Map.lookup x by_device))) e)
        | inr (ne, g) ↦ inr (ne, g)
      ]
    ]

pub All-streams :
    (P : ℕ → Type 0) (o : Option (List ℕ))
    → ((l : List ℕ) → o ≡ some l → All P l)
    → All P (streams_of o)
All-streams P none h = tt
All-streams P (some l) h = h l refl

-- A stream that is another subscription is one still.
pub stays :
    (subs : Map ℕ Subscription) (d : String) (id x : ℕ)
    → id ≢ x
    → IsStream subs d x
    → IsStream (Map.delete id subs) d x
stays subs d id x ne (sub, f, a, e) = (sub, Map.lookup-delete_ne x id subs ne ∙ f, a, e)

apart :
    (subs : Map ℕ Subscription) (d : String) (id x : ℕ) (sub : Subscription)
    → Map.lookup id subs ≡ some sub
    → IsStream subs d x
    → (sub.active ≡ false) ⊎ (sub.device_id ≢ d)
    → id ≢ x
apart subs d id x sub f (s, g, a, dev) h e =
    let same : some sub ≡ some s = sym f ∙ (ap (λ j. Map.lookup j subs) e ∙ g) in
    elim h [ inl q ↦ ground arith | inr ne ↦ ne (ground arith) ]

is_among-without : (id x : ℕ) (l : List ℕ) → id ≢ x → is_among x (without id l) ≡ is_among x l
unfolding without is_among
is_among-without id x [] ne = refl
is_among-without id x (y ∷ l) ne = ground (
  arith,
  is_among-without id x l ne,
  by_number.same_key_iff y id,
  by_number.same_key_iff y x,
  by_number.same_key_iff id x,
)

is_among-some : (x : ℕ) (l : List ℕ) → is_among x l ≡ true → is_empty l ≡ false
unfolding is_among
is_among-some x [] h = absurd (ground arith)
is_among-some x (y ∷ l) h = refl

leave_device-is_among :
    (id x : ℕ) (device_id d : String) (by_device : Map String (List ℕ))
    → id ≢ x
    → is_among x (streams_of (Map.lookup d by_device)) ≡ true
    → is_among x (streams_of (Map.lookup d (leave_device id device_id by_device))) ≡ true
unfolding leave_device
leave_device-is_among id x device_id d by_device ne a =
    let old = streams_of (Map.lookup device_id by_device) in
    let left = without id old in
    elim (Bool-cases (device_id == d)) [
      | inl q ↦
          let own : is_among x old ≡ true =
            ap (λ k. is_among x (streams_of (Map.lookup k by_device))) (beq→eq device_id d q) ∙ a in
          let among : is_among x left ≡ true = is_among-without id x old ne ∙ own in
          rw (is_among-some x left among, Map.lookup-insert d device_id left by_device, q) among
      | inr q ↦
          if-cases (λ m. is_among x (streams_of (Map.lookup d m)) ≡ true) (is_empty left)
            (λ e. rw (Map.lookup-delete d device_id by_device, q) a)
            (λ e. rw (Map.lookup-insert d device_id left by_device, q) a)
    ]

abbrev pub left_devices : ℕ → Subscription → Map String (List ℕ) → Map String (List ℕ)
left_devices id sub by_device =
    if sub.active then leave_device id sub.device_id by_device else by_device

-- Where a subscription leaves, the rest is consistent.
pub delete-IsListed :
    (subs : Map ℕ Subscription) (by_device : Map String (List ℕ)) (next id : ℕ) (sub : Subscription)
    → IsListed subs by_device next
    → Map.lookup id subs ≡ some sub
    → IsListed (Map.delete id subs) (left_devices id sub by_device) next
delete-IsListed subs by_device next id sub c f = record {
  queued = λ j s g. c.queued j s (Map.lookup-delete-some j id subs g).0;
  waiting = λ j s g. c.waiting j s (Map.lookup-delete-some j id subs g).0;
  known = λ j s g. c.known j s (Map.lookup-delete-some j id subs g).0;
  listed = λ d l g. elim (Bool-cases sub.active) [
    | inr q ↦
        All-map (IsStream subs d) (IsStream (Map.delete id subs) d) l
          (λ x t. stays subs d id x (apart subs d id x sub f t (inl q)) t)
          (c.listed d l (rw q at g))
    | inl q ↦ elim (leave_device-some id sub.device_id d by_device l (rw q at g)) [
      | inl (e, same) ↦ subst (All (IsStream (Map.delete id subs) d)) (sym same) (
          All-without (IsStream subs d) (IsStream (Map.delete id subs) d) id _
            (λ x ne t. stays subs d id x ne t)
            (All-streams (IsStream subs d) (Map.lookup d by_device) (c.listed d)))
      | inr (ne, h) ↦
          All-map (IsStream subs d) (IsStream (Map.delete id subs) d) l
            (λ x t. stays subs d id x (apart subs d id x sub f t (inr ne)) t) (c.listed d l h)
    ]
  ];
}

pub delete-IsCounted :
    (subs : Map ℕ Subscription) (by_device : Map String (List ℕ)) (id : ℕ) (sub : Subscription)
    → IsCounted subs by_device
    → IsCounted (Map.delete id subs) (left_devices id sub by_device)
delete-IsCounted subs by_device id sub c j s g a =
    let (h, ne) = Map.lookup-delete-some j id subs g in
    elim (Bool-cases sub.active) [
      | inr q ↦ rw q (c j s h a)
      | inl q ↦ rw q (leave_device-is_among id j sub.device_id s.device_id by_device ne (c j s h a))
    ]

-- A subscription that is written is counted, and no stream leaves.
pub insert-IsCounted :
    (subs : Map ℕ Subscription) (by_device by_device' : Map String (List ℕ)) (id : ℕ)
    (sub : Subscription)
    → IsCounted subs by_device
    → ((j : ℕ) (d : String)
        → is_among j (streams_of (Map.lookup d by_device)) ≡ true
        → is_among j (streams_of (Map.lookup d by_device')) ≡ true)
    → (sub.active ≡ true → is_among id (streams_of (Map.lookup sub.device_id by_device')) ≡ true)
    → IsCounted (Map.insert id sub subs) by_device'
insert-IsCounted subs by_device by_device' id sub c kept own j s g a =
    elim (Map.lookup-insert-some j id sub subs g) [
      | inr (ne, h) ↦ kept j s.device_id (c j s h a)
      | inl (e, same) ↦
          subst (λ x. is_among x (streams_of (Map.lookup s.device_id by_device')) ≡ true) e
            (subst
              (λ x.
                x.active ≡ true
                → is_among id (streams_of (Map.lookup x.device_id by_device')) ≡ true)
              same own a)
    ]

-- The lists of the other devices do not grow, and the device's own does not either.
pub left_devices-IsCapped :
    (cap id : ℕ) (sub : Subscription) (by_device : Map String (List ℕ))
    → IsCapped cap by_device
    → IsCapped cap (left_devices id sub by_device)
left_devices-IsCapped cap id sub by_device h d l g = elim (Bool-cases sub.active) [
  | inr q ↦ h d l (rw q at g)
  | inl q ↦ elim (leave_device-some id sub.device_id d by_device l (rw q at g)) [
    | inr (ne, f) ↦ h d l f
    | inl (e, same) ↦ elim (Option-cases (Map.lookup d by_device)) [
      | inl f ↦ let same' : l ≡ without id [] = rw f at same in shorter id [] l same' (omega arith)
      | inr (old, f) ↦
          let same' : l ≡ without id old = rw f at same in shorter id old l same' (h d old f)
    ]
  ]
]
  where
    shorter : (id : ℕ) (old l : List ℕ) → l ≡ without id old → length old ≤ cap → length l ≤ cap
    shorter id old l e h =
        let less : length l ≤ length old =
          subst (λ x. length x ≤ length old) (sym e) (length-without id old) in
        omega (arith, less)

pub forget_last-IsSound : (f : Feed) → IsSound f → IsSound (forget_last f)
unfolding forget_last
forget_last-IsSound f h = elim (Bool-cases (Map.size f.subs == 0)) [
  | inl q ↦
      rw q
        (record { few = h.few; consistent = h.consistent; counted = h.counted; capped = h.capped })
  | inr q ↦ rw q h
]

pub end_sub-IsSound :
    (id : ℕ) (e : Option FeedError) (f : Feed) → IsSound f → IsSound (end_sub id e f)
unfolding end_sub end_found
end_sub-IsSound id e f h = elim (Option-cases (Map.lookup id f.subs)) [
  | inl q ↦ rw (q, end_sub) h
  | inr (sub, q) ↦
      rw (q, end_sub)
        (forget_last-IsSound _ (record {
          few = omega (arith, Map.size-delete-le id f.subs, h.few);
          consistent = delete-IsListed f.subs f.by_device f.next_sub id sub h.consistent q;
          counted = delete-IsCounted f.subs f.by_device id sub h.counted;
          capped = left_devices-IsCapped max_streams_per_device id sub f.by_device h.capped;
        }))
]
