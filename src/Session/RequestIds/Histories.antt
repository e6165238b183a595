-- ===== src/Session/RequestIds/Histories.antt =====
-- The calls of internal/session/request_ids.go in any order keep its maps sound.
use ferngeist_acp_gateway.Prelude.{
  is_empty, ℕ, suc, ◌≡◌, refl, ap, ◌∙◌, not, ◌||◌, some, List, [], ◌∷◌, String, by_text, by_number,
  arith, length-append, Bool-cases, Option-cases, inl, inr, ◌==◌, beq→eq, if-cases,
}
use ferngeist_acp_gateway.Map
use ferngeist_acp_gateway.Map.{Map}
use ferngeist_acp_gateway.Map.Entries.{find, Distinct}
use ferngeist_acp_gateway.Session.Frames.{Codec, ClientFrame, FrameProbe, response_id_key}
use ferngeist_acp_gateway.Session.RequestIds.{
  RequestIds, PendingRequest, drop_agent_request, new_agent_request, forget_request, within_cap,
  outbound, set_attention, track_agent_request, discard, redeliver, take_each, take_prompts,
}
use ferngeist_acp_gateway.Session.RequestIds.Replies.{settle, reply_to, reply}
use ferngeist_acp_gateway.Session.RequestIds.Sound.{
  IsConsistent, forget_request-IsConsistent, length-drop_agent_request,
  length-drop_session_agent_requests, length-within_cap, length-redeliver_each,
  agent_reqs-IsConsistent,
}

module _ (codec : Codec) where
  pub track_agent_request-IsConsistent :
      (probe : FrameProbe) (line : String) (gen : ℕ) (r : RequestIds)
      → IsConsistent codec r
      → IsConsistent codec (track_agent_request codec probe line gen r)
  unfolding track_agent_request
  track_agent_request-IsConsistent probe line gen r h = elim (Option-cases probe.id) [
    | inl q ↦ rw q h
    | inr (id, q) ↦
        let req = set_attention codec probe (new_agent_request codec probe id line gen) r in
        let others = (drop_agent_request req.key r.agent_reqs).0 in
        let room =
          length-within_cap others
            (omega (arith, length-drop_agent_request req.key r.agent_reqs, h.few)) in
        rw q (
          if-cases (IsConsistent codec) (probe.method == "") (λ e. h)
            (λ e.
              agent_reqs-IsConsistent codec r _ refl refl refl
                (omega (arith, length-append (within_cap others) (req ∷ []), room)) h))
  ]

  pub discard-IsConsistent :
      (id : String) (r : RequestIds)
      → IsConsistent codec r
      → IsConsistent codec (discard codec id r)
  unfolding discard
  discard-IsConsistent id r h =
      let key = response_id_key codec id in
      elim (Option-cases (Map.lookup key r.pending)) [
        | inl q ↦ rw (q, discard) h
        | inr (origin, q) ↦
            let done = forget_request-IsConsistent codec key origin r q h in
            rw (q, discard) (record { issued = done.issued; owned = done.owned; few = done.few })
      ]

  settle-IsConsistent :
      (key : String) (origin : PendingRequest) (r : RequestIds)
      → Map.lookup key r.pending ≡ some origin
      → IsConsistent codec r
      → IsConsistent codec (settle key origin r)
  unfolding settle forget_request
  settle-IsConsistent key origin r q h =
      let done = forget_request-IsConsistent codec key origin r q h in
      if-cases (λ x. IsConsistent codec (record x { pokes = suc x.pokes }))
        (origin.prompt_session == "")
        (λ e. record { issued = done.issued; owned = done.owned; few = done.few })
        (λ e. record {
          issued = done.issued;
          owned = done.owned;
          few =
              omega (
                arith,
                length-drop_session_agent_requests origin.prompt_session r.agent_reqs,
                h.few,
              );
        })

  pub reply-IsConsistent :
      (gen now : ℕ) (probe : FrameProbe) (frames : List String) (r : RequestIds)
      → IsConsistent codec r
      → IsConsistent codec (reply codec gen now probe frames r).0
  unfolding reply reply_to
  reply-IsConsistent gen now probe frames r h = elim (Option-cases probe.id) [
    | inl q ↦ rw q h
    | inr (id, q) ↦ rw q (
        if-cases (λ (x : RequestIds × List String). IsConsistent codec x.0)
          (not (probe.method == "") || is_empty frames) (λ e. h)
          (λ e. elim (Option-cases (Map.lookup (response_id_key codec id) r.pending)) [
            | inl g ↦ rw (g, reply_to) h
            | inr (origin, g) ↦
                rw (g, reply_to) (settle-IsConsistent (response_id_key codec id) origin r g h)
          ]))
  ]

  pub redeliver-IsConsistent :
      (gen : ℕ) (session_id : String) (frames : List String) (r : RequestIds)
      → IsConsistent codec r
      → IsConsistent codec (redeliver gen session_id frames r).0
  unfolding redeliver
  redeliver-IsConsistent gen session_id frames r h =
      agent_reqs-IsConsistent codec r _ refl refl refl
        (omega (arith, length-redeliver_each gen session_id r.agent_reqs, h.few)) h

  -- The entries that the loop has still to meet are pending as they were.
  abbrev Remain : List (String × PendingRequest) → RequestIds → Type 0
  Remain l r =
      (key : String) (origin : PendingRequest)
      → find key l ≡ some origin
      → Map.lookup key r.pending ≡ some origin

  take_each-IsConsistent :
      (l : List (String × PendingRequest)) (r : RequestIds)
      → Distinct l
      → Remain l r
      → IsConsistent codec r
      → IsConsistent codec (take_each l r).0
  unfolding take_each find forget_request
  take_each-IsConsistent [] r d left h = h
  take_each-IsConsistent ((id, req) ∷ l) r d left h =
      if-cases (λ (x : RequestIds × List PendingRequest). IsConsistent codec x.0)
        (req.prompt_session == "")
        (λ e.
          take_each-IsConsistent l r d.1
            (λ k p g. left k p (ground (arith, by_text.same_key_iff id k, d.0))) h)
        (λ e.
          take_each-IsConsistent l (forget_request id req r) d.1
            (λ k p g. elim (Bool-cases (id == k)) [
              | inl same ↦
                  let twice : find id l ≡ some p = ap (λ x. find x l) (beq→eq id k same) ∙ g in
                  ground arith
              | inr other ↦
                  ground (arith, Map.lookup-delete k id r.pending, left k p (ground arith))
            ])
            (forget_request-IsConsistent codec id req r
              (left id req (ground (arith, by_text.same_key_iff id id))) h))

  pub take_prompts-IsConsistent :
      (r : RequestIds) → IsConsistent codec r → IsConsistent codec (take_prompts r).0
  unfolding take_prompts Map.lookup
  take_prompts-IsConsistent r h =
      let done = take_each-IsConsistent r.pending.entries r r.pending.distinct (λ k p g. g) h in
      if-cases (λ (x : RequestIds × List PendingRequest). IsConsistent codec x.0)
        (is_empty (take_each r.pending.entries r).1) (λ e. done)
        (λ e. record { issued = done.issued; owned = done.owned; few = done.few })

-- A frame of a client, a reply, a request of the agent, a request that did not reach it, the end of
-- the process, and a chat that was loaded.
pub data Event : Type 0 where
  sends : ℕ → ℕ → ClientFrame → Event
  replies : ℕ → ℕ → FrameProbe → List String → Event
  asks : FrameProbe → String → ℕ → Event
  fails : String → Event
  tears_down : Event
  loads_session : ℕ → String → Event

unfoldable pub step : Codec → RequestIds → Event → RequestIds
step codec r (sends gen now f) = (outbound codec gen now f r).0
step codec r (replies gen now probe frames) = (reply codec gen now probe frames r).0
step codec r (asks probe line gen) = track_agent_request codec probe line gen r
step codec r (fails agent_id) = discard codec agent_id r
step codec r tears_down = (take_prompts r).0
step codec r (loads_session gen session_id) = (redeliver gen session_id [] r).0

unfoldable pub run : Codec → RequestIds → List Event → RequestIds
run codec r [] = r
run codec r (e ∷ es) = run codec (step codec r e) es
