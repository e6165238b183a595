-- ===== src/Session/RequestIds/Teardown.antt =====
-- `takePrompts` of internal/session/request_ids.go parts the pending requests: it returns the prompts,
-- each once, and leaves the rest.
use ferngeist_acp_gateway.Prelude.{
  is_empty, ℕ, ◌≡◌, refl, sym, ap, ◌∙◌, Bool, true, not, none, some, List, [], ◌∷◌, map, String,
  by_text, arith, All, Bool-cases, inl, inr, ◌==◌, if-cases,
}
use ferngeist_acp_gateway.Map
use ferngeist_acp_gateway.Map.{Map, keep}
use ferngeist_acp_gateway.Map.Entries.{find, sieve, Distinct}
use ferngeist_acp_gateway.Session.RequestIds.{
  RequestIds, PendingRequest, forget_request, take_each, take_prompts,
}
use ferngeist_acp_gateway.Session.RequestIds.LiveTurns.{
  Gathered, gather, attend_each, in_order, live_turns,
}

abbrev pub is_other : String → PendingRequest → Bool
is_other key origin = origin.prompt_session == ""

-- The loop deletes the prompts of its list.
take_each-pending :
    (key : String) (l : List (String × PendingRequest)) (r : RequestIds)
    → Distinct l
    → Map.lookup key (take_each l r).0.pending
      ≡ elim (keep (λ k p. not (is_other k p)) key (find key l)) [
        | none ↦ Map.lookup key r.pending
        | some origin ↦ none
      ]
unfolding take_each forget_request find
take_each-pending key [] r d = refl
take_each-pending key ((id, req) ∷ l) r d = elim (Bool-cases (req.prompt_session == "")) [
  | inl q ↦
      rw (q, take_each)
        (ground (arith, q, d.0, by_text.same_key_iff id key, take_each-pending key l r d.1))
  | inr q ↦
      rw (q, take_each)
        (ground (
          arith,
          q,
          d.0,
          by_text.same_key_iff id key,
          Map.lookup-delete key id r.pending,
          take_each-pending key l (forget_request id req r) d.1,
        ))
]

take_each-taken :
    (l : List (String × PendingRequest)) (r : RequestIds)
    → (take_each l r).1 ≡ map (λ e. e.1) (sieve (λ k p. not (is_other k p)) l)
unfolding take_each sieve
take_each-taken [] r = refl
take_each-taken ((id, req) ∷ l) r = elim (Bool-cases (req.prompt_session == "")) [
  | inl q ↦ rw (q, take_each, sieve) (take_each-taken l r)
  | inr q ↦
      rw (q, take_each, sieve) (ap (λ t. req ∷ t) (take_each-taken l (forget_request id req r)))
]

take_prompts_cases {μ} :
    (P : RequestIds × List PendingRequest → Type μ) (r : RequestIds)
    → P (take_each r.pending.entries r)
    → ((pokes : ℕ)
        → P (
          record (take_each r.pending.entries r).0 { pokes = pokes },
          (take_each r.pending.entries r).1,
        ))
    → P (take_prompts r)
unfolding take_prompts
take_prompts_cases P r same told =
    if-cases P (is_empty (take_each r.pending.entries r).1) (λ q. same) (λ q. told _)

gather_others :
    (l : List (String × PendingRequest)) (g : Gathered)
    → All (λ e. is_other e.0 e.1 ≡ true) l
    → gather l g ≡ g
unfolding gather
gather_others [] g a = refl
gather_others ((id, req) ∷ l) g a = rw (a.0, gather) (gather_others l g a.1)

-- The prompts that a teardown returns are those that were pending; what stays pending is the rest; and
-- no turn is live then.
pub take_prompts_lem :
    (r : RequestIds)
    → ((take_prompts r).1 ≡ Map.values (Map.retain (λ k p. not (is_other k p)) r.pending))
      × ((key : String)
          → Map.lookup key (take_prompts r).0.pending
            ≡ Map.lookup key (Map.retain is_other r.pending))
      × (live_turns (take_prompts r).0 ≡ [])
take_prompts_lem r = (taken, left, idle)
  where
    taken : (take_prompts r).1 ≡ Map.values (Map.retain (λ k p. not (is_other k p)) r.pending)
    taken =
        unfold Map.values Map.retain in
        take_prompts_cases
          (λ x. x.1 ≡ map (λ e. e.1) (sieve (λ k p. not (is_other k p)) r.pending.entries)) r
          (take_each-taken r.pending.entries r) (λ n. take_each-taken r.pending.entries r)

    left_each :
        (key : String)
        → Map.lookup key (take_each r.pending.entries r).0.pending
          ≡ Map.lookup key (Map.retain is_other r.pending)
    left_each key =
        unfold Map.lookup in
        ground (
          arith,
          take_each-pending key r.pending.entries r r.pending.distinct,
          Map.lookup-retain is_other key r.pending,
        )

    left :
        (key : String)
        → Map.lookup key (take_prompts r).0.pending ≡ Map.lookup key (Map.retain is_other r.pending)
    left key =
        take_prompts_cases
          (λ x. Map.lookup key x.0.pending ≡ Map.lookup key (Map.retain is_other r.pending)) r
          (left_each key) (λ n. left_each key)

    others : All (λ e. is_other e.0 e.1 ≡ true) (take_prompts r).0.pending.entries
    others =
        Map.All-of_lookup (λ e. is_other e.0 e.1 ≡ true) (take_prompts r).0.pending
          (λ k p f. (Map.lookup-retain-some is_other k r.pending (sym (left k) ∙ f)).1)

    idle : live_turns (take_prompts r).0 ≡ []
    idle =
        unfold live_turns in_order in
        ap (λ g. in_order g.order (attend_each (take_prompts r).0.agent_reqs g.by_session))
          (gather_others (take_prompts r).0.pending.entries
            (record { by_session = Map.empty; order = [] }) others)
