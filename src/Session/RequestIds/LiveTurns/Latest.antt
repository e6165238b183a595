-- ===== src/Session/RequestIds/LiveTurns/Latest.antt =====
-- The start that `promptStartedAt` of internal/session/request_ids.go gives is the latest of the chat's
-- prompts that await their reply.
use ferngeist_acp_gateway.Prelude.{
  ℕ, ◌≤◌, ◌≡◌, ◌≢◌, refl, Option, none, some, List, [], ◌∷◌, String, by_text, arith, All,
  Bool-cases, inl, inr, ◌⊎◌, ◌==◌, beq→eq, ltb,
}
use ferngeist_acp_gateway.Map
use ferngeist_acp_gateway.Map.{Map}
use ferngeist_acp_gateway.Session.RequestIds.{PendingRequest, RequestIds}
use ferngeist_acp_gateway.Session.RequestIds.LiveTurns.{
  start_of, max_time, latest_start, prompt_started_at,
}

-- A prompt of the chat that started then is pending.
abbrev pub IsPending : Map String PendingRequest → String → ℕ → Type 0
IsPending m s t =
    (id : String) × (req : PendingRequest) × (Map.lookup id m ≡ some req)
    × (req.prompt_session ≡ s)
    × (req.started_at ≡ t)

-- No prompt of the chat is pending; or one that started then, and none that started later.
unfoldable pub IsLatest : Map String PendingRequest → String → Option ℕ → Type 0
IsLatest m s none =
    (id : String) (req : PendingRequest) → Map.lookup id m ≡ some req → req.prompt_session ≢ s
IsLatest m s (some t) =
    IsPending m s t
    × ((id : String) (req : PendingRequest)
        → Map.lookup id m ≡ some req
        → req.prompt_session ≡ s
        → req.started_at ≤ t)

-- The same of some entries, after those that `best` is of.
abbrev IsBest :
    Map String PendingRequest
    → String
    → List (String × PendingRequest)
    → Option ℕ
    → Option ℕ
    → Type 0
IsBest m s l best none = (best ≡ none) × All (λ e. e.1.prompt_session ≢ s) l
IsBest m s l best (some t) =
    (start_of best ≤ t)
    × All (λ e. e.1.prompt_session ≡ s → e.1.started_at ≤ t) l
    × ((best ≡ some t) ⊎ IsPending m s t)

other_first :
    (m : Map String PendingRequest) (s id : String) (req : PendingRequest)
    (l : List (String × PendingRequest)) (best o : Option ℕ)
    → req.prompt_session ≢ s
    → IsBest m s l best o
    → IsBest m s ((id, req) ∷ l) best o
other_first m s id req l best none ne (e, all) = (e, (ne, all))
other_first m s id req l best (some t) ne (le, all, from) = (le, ((λ e. absurd (ne e)), all), from)

max_of :
    (best : Option ℕ) (at t : ℕ)
    → some (max_time (start_of best) at) ≡ some t
    → (best ≡ some t) ⊎ (at ≡ t)
max_of none at t e = inr (ground arith)
max_of (some b) at t e = elim (Bool-cases (ltb b at)) [
  | inl q ↦ inr (ground arith)
  | inr q ↦ inl (ground arith)
]

own_first :
    (m : Map String PendingRequest) (s id : String) (req : PendingRequest)
    (l : List (String × PendingRequest)) (best o : Option ℕ)
    → req.prompt_session ≡ s
    → Map.lookup id m ≡ some req
    → IsBest m s l (some (max_time (start_of best) req.started_at)) o
    → IsBest m s ((id, req) ∷ l) best o
own_first m s id req l best none own f (e, all) = absurd (ground arith)
own_first m s id req l best (some t) own f (le, all, from) = (
  ground arith,
  ((λ e. ground arith), all),
  elim from [
    | inr p ↦ inr p
    | inl e ↦ elim (max_of best req.started_at t e) [
      | inl same ↦ inl same
      | inr at ↦ inr (id, req, f, own, at)
    ]
  ],
)

latest_start-IsBest :
    (m : Map String PendingRequest) (s : String) (l : List (String × PendingRequest))
    (best : Option ℕ)
    → All (λ e. Map.lookup e.0 m ≡ some e.1) l
    → IsBest m s l best (latest_start s l best)
unfolding latest_start
latest_start-IsBest m s [] none a = (refl, tt)
latest_start-IsBest m s [] (some t) a = (omega arith, tt, inl refl)
latest_start-IsBest m s ((id, req) ∷ l) best a = elim (Bool-cases (req.prompt_session == s)) [
  | inl q ↦
      rw (q, latest_start)
        (own_first m s id req l best _ (beq→eq req.prompt_session s q) a.0
          (latest_start-IsBest m s l _ a.1))
  | inr q ↦
      rw (q, latest_start)
        (other_first m s id req l best _
          (λ e. ground (arith, by_text.same_key_iff req.prompt_session s))
          (latest_start-IsBest m s l best a.1))
]

IsLatest-of :
    (m : Map String PendingRequest) (s : String) (o : Option ℕ)
    → IsBest m s m.entries none o
    → IsLatest m s o
unfolding IsLatest
IsLatest-of m s none (e, all) =
    λ id req f. Map.lookup_of_All (λ e. e.1.prompt_session ≢ s) m id req all f
IsLatest-of m s (some t) (le, all, from) = (
  elim from [ inl e ↦ absurd (ground arith) | inr p ↦ p ],
  λ id req f. Map.lookup_of_All (λ e. e.1.prompt_session ≡ s → e.1.started_at ≤ t) m id req all f,
)

pub prompt_started_at-IsLatest :
    (s : String) (r : RequestIds) → IsLatest r.pending s (prompt_started_at s r)
unfolding prompt_started_at
prompt_started_at-IsLatest s r =
    let m = r.pending in
    IsLatest-of m s (latest_start s m.entries none) (
      latest_start-IsBest m s m.entries none
        (Map.All-of_lookup (λ e. Map.lookup e.0 m ≡ some e.1) m (λ k v f. f)))
