-- ===== src/Quota/Cache/Polling.antt =====
-- How often internal/quota/cache.go collects, and what it serves, over any refreshes.
use native.Mathlib.Nat.{mul-suc}
use ferngeist_acp_gateway.Prelude.{
  ℕ, ◌+◌, ◌*◌, ◌≤◌, ◌≡◌, refl, true, false, Bool-cases, Option, none, some, String, List, [], ◌∷◌,
  arith, ltb, ltb→le, length, if◌then◌else◌, is_some, inl, inr, ◌∙◌, ap,
}
use ferngeist_acp_gateway.Quota.Cache.{
  Cache, Collected, GetResult, serves, returns, waits, is_fresh, get, keep, refresh,
}

-- A refresh: when it starts, when its collection would end, and with what.
pub record Call : Type 0 where
  pub start : ℕ
  pub done : ℕ
  pub result : Collected

unfoldable pub IsTimed : List Call → Type 0
IsTimed [] = Unit {0}
IsTimed (call ∷ calls) = (call.start ≤ call.done) × IsTimed calls

unfoldable pub run : ℕ → List Call → Cache → Cache
unfolding refresh
run max_age [] c = c
run max_age (call ∷ calls) c =
    run max_age calls (refresh max_age call.start call.done call.result c).0

-- The results of the collections that ran.
unfoldable pub collections : ℕ → List Call → Cache → List Collected
unfolding refresh
collections max_age [] c = []
collections max_age (call ∷ calls) c =
    let rest = collections max_age calls (refresh max_age call.start call.done call.result c).0 in
    if is_fresh max_age call.start c then rest else call.result ∷ rest

-- The last snapshot of a collection without an error, and the first argument where there was none.
unfoldable pub last_good : Option String → List Collected → Option String
last_good text [] = text
last_good text (result ∷ results) =
    last_good (if is_some result.failure then text else result.snapshot) results

-- What an answer has for the client.
abbrev pub served : GetResult → Option String
served (serves text refreshes) = some text
served (returns failure) = none
served waits = none

refresh-fresh :
    (max_age : ℕ) (call : Call) (c : Cache)
    → is_fresh max_age call.start c ≡ true
    → (refresh max_age call.start call.done call.result c).0 ≡ c
unfolding refresh
refresh-fresh max_age call c h = rw h refl

refresh-stale :
    (max_age : ℕ) (call : Call) (c : Cache)
    → is_fresh max_age call.start c ≡ false
    → (refresh max_age call.start call.done call.result c).0 ≡ keep call.done call.result c
unfolding refresh
refresh-stale max_age call c h = rw h refl

-- A first refresh that finds the cache fresh, and one that collects.
fresh_first :
    (max_age : ℕ) (call : Call) (calls : List Call) (c : Cache)
    → is_fresh max_age call.start c ≡ true
    → (run max_age (call ∷ calls) c ≡ run max_age calls c)
      × (collections max_age (call ∷ calls) c ≡ collections max_age calls c)
unfolding run collections
fresh_first max_age call calls c h =
    let e = refresh-fresh max_age call c h in (ap (run max_age calls) e, rw h refl)

stale_first :
    (max_age : ℕ) (call : Call) (calls : List Call) (c : Cache)
    → is_fresh max_age call.start c ≡ false
    → let kept = keep call.done call.result c in
      (run max_age (call ∷ calls) c ≡ run max_age calls kept)
      × (collections max_age (call ∷ calls) c ≡ call.result ∷ collections max_age calls kept)
unfolding run collections
stale_first max_age call calls c h =
    let e = refresh-stale max_age call c h in (ap (run max_age calls) e, rw h refl)

served-get : (max_age now : ℕ) (c : Cache) → served (get max_age now c) ≡ c.snapshot
unfolding get
served-get max_age now c = ground arith

-- Over any refreshes whose collections do not end before they start, the clock advances by maxAge for each
-- collection: it runs at most once in that time, whether it fails or not.
pub run-collections :
    (max_age : ℕ) (calls : List Call) (c : Cache)
    → IsTimed calls
    → c.at + max_age * length (collections max_age calls c) ≤ (run max_age calls c).at
unfolding run collections keep IsTimed
run-collections max_age [] c timed = omega arith
run-collections max_age (call ∷ calls) c timed = elim (Bool-cases (is_fresh max_age call.start c)) [
  | inl h ↦
      let first = fresh_first max_age call calls c h in
      rw (first.0, first.1) (run-collections max_age calls c timed.1)
  | inr h ↦
      let first = stale_first max_age call calls c h in
      let kept = keep call.done call.result c in
      rw (first.0, first.1)
        (omega (
          arith,
          timed.0,
          ltb→le call.start (c.at + max_age) h,
          run-collections max_age calls kept timed.1,
          mul-suc max_age (length (collections max_age calls kept)),
        ))
]

pub run-last_good :
    (max_age : ℕ) (calls : List Call) (c : Cache)
    → (run max_age calls c).snapshot ≡ last_good c.snapshot (collections max_age calls c)
unfolding run collections keep last_good
run-last_good max_age [] c = refl
run-last_good max_age (call ∷ calls) c = elim (Bool-cases (is_fresh max_age call.start c)) [
  | inl h ↦
      let first = fresh_first max_age call calls c h in
      rw (first.0, first.1) (run-last_good max_age calls c)
  | inr h ↦
      let first = stale_first max_age call calls c h in
      rw (first.0, first.1) (run-last_good max_age calls (keep call.done call.result c))
]

-- Over any refreshes, a client that asks is served the snapshot of the last collection that gave no error,
-- and the one that the cache had where there was none: a collection that fails leaves what is served.
pub get-run :
    (max_age now : ℕ) (calls : List Call) (c : Cache)
    → served (get max_age now (run max_age calls c))
      ≡ last_good c.snapshot (collections max_age calls c)
unfolding get
get-run max_age now calls c =
    served-get max_age now (run max_age calls c) ∙ run-last_good max_age calls c

-- The error of the last collection, nil where it gave none.
unfoldable pub last_failure : Option String → List Collected → Option String
last_failure failure [] = failure
last_failure failure (result ∷ results) = last_failure result.failure results

pub run-last_failure :
    (max_age : ℕ) (calls : List Call) (c : Cache)
    → (run max_age calls c).failure ≡ last_failure c.failure (collections max_age calls c)
unfolding run collections keep last_failure
run-last_failure max_age [] c = refl
run-last_failure max_age (call ∷ calls) c = elim (Bool-cases (is_fresh max_age call.start c)) [
  | inl h ↦
      let first = fresh_first max_age call calls c h in
      rw (first.0, first.1) (run-last_failure max_age calls c)
  | inr h ↦
      let first = stale_first max_age call calls c h in
      rw (first.0, first.1) (run-last_failure max_age calls (keep call.done call.result c))
]

-- When the last of the collections that ran ended, and the first argument where none ran.
unfoldable pub last_done : ℕ → ℕ → List Call → Cache → ℕ
unfolding refresh
last_done max_age at [] c = at
last_done max_age at (call ∷ calls) c =
    let next = (refresh max_age call.start call.done call.result c).0 in
    last_done max_age (if is_fresh max_age call.start c then at else call.done) calls next

refresh-at :
    (max_age : ℕ) (call : Call) (c : Cache)
    → (refresh max_age call.start call.done call.result c).0.at
      ≡ (if is_fresh max_age call.start c then c.at else call.done)
unfolding refresh keep
refresh-at max_age call c = ground arith

run-last_done :
    (max_age : ℕ) (calls : List Call) (c : Cache)
    → (run max_age calls c).at ≡ last_done max_age c.at calls c
unfolding run last_done
run-last_done max_age [] c = refl
run-last_done max_age (call ∷ calls) c =
    let next = (refresh max_age call.start call.done call.result c).0 in
    run-last_done max_age calls next
    ∙ ap (λ t. last_done max_age t calls next) (refresh-at max_age call c)

-- Where the last collection without an error gave no snapshot, or there was none and the cache had no
-- snapshot, Get returns the error of the last collection until maxAge has passed since its end, and waits for
-- a new one from then on.
pub get-run_failed :
    (max_age now : ℕ) (calls : List Call) (c : Cache)
    → last_good c.snapshot (collections max_age calls c) ≡ none
    → get max_age now (run max_age calls c) ≡ (
        if ltb now (last_done max_age c.at calls c + max_age)
        then returns (last_failure c.failure (collections max_age calls c))
        else waits)
unfolding get
get-run_failed max_age now calls c failed =
    rw
      (
        run-last_good max_age calls c ∙ failed,
        run-last_failure max_age calls c,
        run-last_done max_age calls c,
      )
      refl
