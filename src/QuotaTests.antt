-- ===== src/QuotaTests.antt =====
-- Concrete runs of internal/quota/cache.go, and the theorems about them there.
use ferngeist_acp_gateway.Prelude.{
  ◌+◌, ◌*◌, ◌≤◌, ◌≡◌, refl, false, none, some, List, [], ◌∷◌, length, arith,
}
use ferngeist_acp_gateway.Quota.Cache.{
  Collected, new_cache, get, keep, refresh, after_wait, serves, returns, waits,
}
use ferngeist_acp_gateway.Quota.Cache.Polling.{
  Call, IsTimed, run, collections, last_good, served, run-collections, get-run, last_failure,
  last_done, get-run_failed,
}

-- Opens every operation, for the runs below.
quota_runs : Unit {0}
unfolding get keep refresh after_wait IsTimed run collections last_good last_failure last_done
quota_runs = tt

-- The first collection succeeds, the second refresh comes too early, and the last collection fails.
abbrev polls : List Call
polls =
    record { start = 100; done = 101; result = record { snapshot = some "a"; failure = none } }
    ∷ record { start = 120; done = 121; result = record { snapshot = some "b"; failure = none } }
    ∷ record { start = 170; done = 175; result = record { snapshot = none; failure = some "down" } }
    ∷ []

collected_twice : length (collections 60 polls new_cache) ≡ 2
unfolding quota_runs
collected_twice = refl

keeps_on_failure : get 60 180 (run 60 polls new_cache) ≡ serves "a" false
unfolding quota_runs
keeps_on_failure = refl

-- Without a snapshot the failure is returned until maxAge has passed.
abbrev down : Collected
down = record { snapshot = none; failure = some "down" }

fails_fresh : get 60 180 (refresh 60 170 175 down new_cache).0 ≡ returns (some "down")
unfolding quota_runs
fails_fresh = refl

fails_stale : get 60 235 (refresh 60 170 175 down new_cache).0 ≡ waits
unfolding quota_runs
fails_stale = refl

run-collections_example :
    0 + 60 * length (collections 60 polls new_cache) ≤ (run 60 polls new_cache).at
unfolding IsTimed
run-collections_example =
    run-collections 60 polls new_cache (omega arith, (omega arith, (omega arith, tt)))

get-run_example :
    served (get 60 400 (run 60 polls new_cache)) ≡ last_good none (collections 60 polls new_cache)
get-run_example = get-run 60 400 polls new_cache

get-run_failed_example :
    get 60 180 (run 60 (record { start = 170; done = 175; result = down } ∷ []) new_cache)
    ≡ returns (some "down")
unfolding quota_runs
get-run_failed_example =
    get-run_failed 60 180 (record { start = 170; done = 175; result = down } ∷ []) new_cache refl
