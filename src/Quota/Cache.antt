-- ===== src/Quota/Cache.antt =====
-- internal/quota/cache.go: Cache. What `collect` returns is an argument of a refresh, and so are the
-- readings of the clock around it. Get's channel from singleflight, which is not modelled, runs one refresh
-- at a time: a refresh is a step.
pub mod Polling
use ferngeist_acp_gateway.Prelude.{
  ℕ, ◌+◌, Bool, true, false, not, Option, none, some, String, ltb, if◌then◌else◌, is_some,
}

-- `snapshot` is the source's `data`, and the zero time is 0.
pub record Cache : Type 0 where
  pub snapshot : Option String
  pub at : ℕ
  pub failure : Option String

-- What `collect` and `refresh` return: a snapshot, which is nil where there is none, and an error.
pub record Collected : Type 0 where
  pub snapshot : Option String
  pub failure : Option String

-- Without `collect` and maxAge, which are arguments of the methods.
abbrev pub new_cache : Cache
new_cache = record { snapshot = none; at = 0; failure = none }

-- `time.Since(c.at) < c.maxAge`, where times may lie ahead of the clock
abbrev pub is_fresh : ℕ → ℕ → Cache → Bool
is_fresh max_age now c = ltb now (c.at + max_age)

-- `refreshes` says whether a refresh is started in the background; one that is waited for is `waits`.
pub data GetResult : Type 0 where
  serves : String → (refreshes : Bool) → GetResult
  returns : Option String → GetResult
  waits : GetResult

unfoldable pub get : ℕ → ℕ → Cache → GetResult
get max_age now c = elim c.snapshot [
  | some text ↦ serves text (not (is_fresh max_age now c))
  | none ↦ if is_fresh max_age now c then returns c.failure else waits
]

-- What Get returns once it has waited: for the refresh, or till its context ended with the error.
unfoldable pub after_wait : Option Collected → String → Collected
after_wait none cause = record { snapshot = none; failure = some cause }
after_wait (some result) cause =
    if is_some result.failure then record result { snapshot = none } else result

-- `c.at, c.err = time.Now(), err`, and the data where there is no error
unfoldable pub keep : ℕ → Collected → Cache → Cache
keep done result c = record {
  snapshot = if is_some result.failure then c.snapshot else result.snapshot;
  at = done;
  failure = result.failure;
}

unfoldable pub refresh : ℕ → ℕ → ℕ → Collected → Cache → Cache × Collected
unfolding keep
refresh max_age start done result c =
    if is_fresh max_age start c
    then (c, record { snapshot = c.snapshot; failure = c.failure })
    else (keep done result c, result)
