-- ===== src/Api/Attempts/Requests.antt =====
-- Requests to complete a pairing that internal/api/pairing_handlers.go serves at once, as a history of the
-- sections that lock the tracker.
use ferngeist_acp_gateway.Prelude.{
  ℕ, zero, suc, ◌+◌, ltb, Option, ◌≤◌, ◌≡◌, ◌≢◌, none, some, String, by_text, arith, List, [], ◌∷◌,
  ◌==◌, if◌then◌else◌,
}
use ferngeist_acp_gateway.Api.Attempts.{
  source_key, Answer, paired, code_mismatch, other, Request, Handlers, arrive, request_at,
  without_at, finish,
}

-- What happens to the requests, in the order of the tracker's lock sections.
pub data Event : Type 0 where
  arrives : Request → ℕ → Event
  answers : ℕ → ℕ → Answer → Event

unfoldable pub step : Handlers → Event → Handlers
step h (arrives q now) = arrive q now h
step h (answers n later answer) = finish n later answer h

unfoldable pub run : Handlers → List Event → Handlers
run h [] = h
run h (e ∷ es) = run (step h e) es

-- Whether the request comes from the address.
abbrev pub of_source : String → Request → ℕ
of_source source q = if source_key q.ip == source then 1 else 0

-- The requests of the address that wait for their answer.
unfoldable pub count_waiting : String → List Request → ℕ
count_waiting source [] = 0
count_waiting source (q ∷ l) = of_source source q + count_waiting source l

abbrev pub mismatches : Answer → ℕ
mismatches code_mismatch = 1
mismatches paired = 0
mismatches other = 0

abbrev pub guessed : String → Option Request → Answer → ℕ
guessed source none answer = 0
guessed source (some q) answer = if source_key q.ip == source then mismatches answer else 0

-- How many wrong codes from one address the service was asked about.
unfoldable pub guesses : String → Handlers → List Event → ℕ
unfolding request_at
guesses source h [] = 0
guesses source h (arrives q now ∷ es) = guesses source (step h (arrives q now)) es
guesses source h (answers n later answer ∷ es) =
    guessed source (request_at n h.waiting) answer
    + guesses source (step h (answers n later answer)) es

abbrev pub larger : ℕ → ℕ → ℕ
larger a b = if ltb a b then b else a

-- The most requests of the address that wait at once.
unfoldable pub peak : String → Handlers → List Event → ℕ
peak source h [] = count_waiting source h.waiting
peak source h (e ∷ es) = larger (count_waiting source h.waiting) (peak source (step h e) es)

-- The event is in the window, and does not pair a device from the address.
unfoldable pub Within : ℕ → ℕ → String → Handlers → Event → Type 0
Within start until source h (arrives q now) = now ≤ until
Within start until source h (answers n later answer) =
    (start ≤ later)
    × ((q : Request) → request_at n h.waiting ≡ some q → source_key q.ip ≡ source → answer ≢ paired)

unfoldable pub AllWithin : ℕ → ℕ → String → Handlers → List Event → Type 0
AllWithin start until source h [] = Unit {0}
AllWithin start until source h (e ∷ es) =
    Within start until source h e × AllWithin start until source (step h e) es

pub count-at :
    (source : String) (n : ℕ) (l : List Request) (q : Request)
    → request_at n l ≡ some q
    → count_waiting source l ≡ of_source source q + count_waiting source (without_at n l)
unfolding request_at without_at count_waiting
count-at source n [] q h = absurd (ground arith)
count-at source zero (x ∷ l) q h = ground arith
count-at source (suc n) (x ∷ l) q h = omega (arith, count-at source n l q h)
