-- ===== src/Session/RequestIds/Redelivery.antt =====
-- `redeliver` of internal/session/request_ids.go: a connection is sent an unanswered request of the
-- agent once.
use ferngeist_acp_gateway.Prelude.{
  is_empty, ℕ, ◌≡◌, ◌≢◌, refl, sym, ap, ◌∙◌, Bool, not, ◌&&◌, ◌||◌, List, [], ◌∷◌, ◌++◌, String,
  by_text, by_number, arith, All, All-append, Option-cases, inl, inr, ◌⊎◌, ◌==◌, if-cases,
}
use ferngeist_acp_gateway.Map
use ferngeist_acp_gateway.Session.Frames.{Codec, ClientFrame, FrameProbe, response_id_key}
use ferngeist_acp_gateway.Session.RequestIds.{
  RequestIds, PendingRequest, AgentRequest, drop_agent_request, new_agent_request,
  drop_session_agent_requests, forget_request, within_cap, rest_requests, register,
  answer_agent_request, outbound_fields, outbound, set_attention, track_agent_request, discard,
  redeliver_each, redeliver, take_each, take_prompts,
}
use ferngeist_acp_gateway.Session.RequestIds.Replies.{settle, reply_to, reply}
use ferngeist_acp_gateway.Session.RequestIds.Histories.{
  Event, sends, replies, asks, fails, tears_down, loads_session, step, run,
}

-- What holds of every request of the agent.
module _ (P : AgentRequest → Type 0) where
  drop_agent_request-All :
      (key : String) (reqs : List AgentRequest) → All P reqs → All P (drop_agent_request key reqs).0
  unfolding drop_agent_request
  drop_agent_request-All key [] a = tt
  drop_agent_request-All key (req ∷ reqs) a =
      if-cases (λ (x : List AgentRequest × Bool). All P x.0) (req.key == key) (λ q. a.1)
        (λ q. (a.0, drop_agent_request-All key reqs a.1))

  drop_session-All :
      (session_id : String) (reqs : List AgentRequest)
      → All P reqs
      → All P (drop_session_agent_requests session_id reqs)
  unfolding drop_session_agent_requests
  drop_session-All session_id [] a = tt
  drop_session-All session_id (req ∷ reqs) a =
      if-cases (All P)
        (not (req.session_id == session_id) && not (req.attention_session == session_id))
        (λ q. (a.0, drop_session-All session_id reqs a.1))
        (λ q. drop_session-All session_id reqs a.1)

  rest_requests-All : (reqs : List AgentRequest) → All P reqs → All P (rest_requests reqs)
  rest_requests-All [] a = tt
  rest_requests-All (req ∷ reqs) a = a.1

  redeliver_each-All :
      (gen : ℕ) (session_id : String) (reqs : List AgentRequest)
      → ((req : AgentRequest)
          → req.session_id ≡ session_id
          → P req
          → P (record req { delivered_gen = gen }))
      → All P reqs
      → All P (redeliver_each gen session_id reqs).0
  unfolding redeliver_each
  redeliver_each-All gen session_id [] keeps a = tt
  redeliver_each-All gen session_id (req ∷ reqs) keeps a =
      if-cases (λ (x : List AgentRequest × List String). All P x.0)
        ((req.session_id == session_id) && not (req.delivered_gen == gen))
        (λ q. (
          keeps req (ground (arith, by_text.same_key_iff req.session_id session_id)) a.0,
          redeliver_each-All gen session_id reqs keeps a.1,
        ))
        (λ q. (a.0, redeliver_each-All gen session_id reqs keeps a.1))

  take_each-All :
      (l : List (String × PendingRequest)) (r : RequestIds)
      → All P r.agent_reqs
      → All P (take_each l r).0.agent_reqs
  unfolding take_each forget_request
  take_each-All [] r a = a
  take_each-All ((id, req) ∷ l) r a =
      if-cases (λ (x : RequestIds × List PendingRequest). All P x.0.agent_reqs)
        (req.prompt_session == "") (λ q. take_each-All l r a)
        (λ q. take_each-All l (forget_request id req r) a)

-- The connection was sent the request, if it is of the chat.
abbrev pub IsSent : ℕ → String → AgentRequest → Type 0
IsSent gen session_id req = req.session_id ≡ session_id → req.delivered_gen ≡ gen

redeliver_each-IsSent :
    (gen : ℕ) (session_id : String) (reqs : List AgentRequest)
    → All (IsSent gen session_id) (redeliver_each gen session_id reqs).0
unfolding redeliver_each
redeliver_each-IsSent gen session_id [] = tt
redeliver_each-IsSent gen session_id (req ∷ reqs) =
    if-cases (λ (x : List AgentRequest × List String). All (IsSent gen session_id) x.0)
      ((req.session_id == session_id) && not (req.delivered_gen == gen))
      (λ q. (λ e. refl, redeliver_each-IsSent gen session_id reqs))
      (λ q. (
        λ e. ground (arith, by_text.same_key_iff req.session_id session_id),
        redeliver_each-IsSent gen session_id reqs,
      ))

redeliver_each-nothing :
    (gen : ℕ) (session_id : String) (reqs : List AgentRequest)
    → All (IsSent gen session_id) reqs
    → (redeliver_each gen session_id reqs).1 ≡ []
unfolding redeliver_each
redeliver_each-nothing gen session_id [] a = refl
redeliver_each-nothing gen session_id (req ∷ reqs) a = ground (
  arith,
  by_text.same_key_iff req.session_id session_id,
  redeliver_each-nothing gen session_id reqs a.1,
)

-- A request that comes is of another chat, or the connection is sent it at once; and the chat is not
-- restored to another connection.
abbrev pub IsAttached : Codec → ℕ → String → Event → Type 0
IsAttached codec gen session_id (asks probe line delivered_gen) =
    ((id : String) → (new_agent_request codec probe id line delivered_gen).session_id ≢ session_id)
    ⊎ (delivered_gen ≡ gen)
IsAttached codec gen session_id (loads_session other loaded) = (loaded ≢ session_id) ⊎ (other ≡ gen)
IsAttached codec gen session_id (sends g now f) = Unit {0}
IsAttached codec gen session_id (replies g now probe frames) = Unit {0}
IsAttached codec gen session_id (fails id) = Unit {0}
IsAttached codec gen session_id tears_down = Unit {0}

set_attention-delivery :
    (codec : Codec) (probe : FrameProbe) (req : AgentRequest) (r : RequestIds)
    → ((set_attention codec probe req r).session_id ≡ req.session_id)
      × ((set_attention codec probe req r).delivered_gen ≡ req.delivered_gen)
unfolding set_attention
set_attention-delivery codec probe req r = ground arith

step-IsSent :
    (codec : Codec) (gen : ℕ) (session_id : String) (e : Event) (r : RequestIds)
    → IsAttached codec gen session_id e
    → All (IsSent gen session_id) r.agent_reqs
    → All (IsSent gen session_id) (step codec r e).agent_reqs
unfolding step outbound outbound_fields register answer_agent_request reply reply_to settle
    forget_request track_agent_request discard take_prompts redeliver
step-IsSent codec gen s (sends g now f) r at a = elim (Option-cases f.fields) [
  | inl q ↦ rw q a
  | inr (fields, q) ↦ elim (Option-cases f.id) [
    | inl i ↦ rw (q, i) (if-cases Kept (f.method == "") (λ e. a) (λ e. a))
    | inr (id, i) ↦
        rw (q, i)
          (if-cases Kept (f.method == "")
            (λ e.
              if-cases (λ (x : RequestIds). All (IsSent gen s) x.agent_reqs)
                (drop_agent_request (response_id_key codec id) r.agent_reqs).1
                (λ t.
                  drop_agent_request-All (IsSent gen s) (response_id_key codec id) r.agent_reqs a)
                (λ t. a))
            (λ e. a))
  ]
]
  where
    Kept : RequestIds × ClientFrame → Type 0
    Kept x = All (IsSent gen s) x.0.agent_reqs
step-IsSent codec gen s (replies g now probe frames) r at a = elim (Option-cases probe.id) [
  | inl q ↦ rw q a
  | inr (id, q) ↦ rw q (
      if-cases Kept (not (probe.method == "") || is_empty frames) (λ e. a)
        (λ e. elim (Option-cases (Map.lookup (response_id_key codec id) r.pending)) [
          | inl p ↦ rw (p, reply_to) a
          | inr (origin, p) ↦
              rw (p, reply_to)
                (if-cases (λ (x : RequestIds). All (IsSent gen s) x.agent_reqs)
                  (origin.prompt_session == "") (λ t. a)
                  (λ t. drop_session-All (IsSent gen s) origin.prompt_session r.agent_reqs a))
        ]))
]
  where
    Kept : RequestIds × List String → Type 0
    Kept x = All (IsSent gen s) x.0.agent_reqs
step-IsSent codec gen s (asks probe line g) r at a = elim (Option-cases probe.id) [
  | inl q ↦ rw q a
  | inr (id, q) ↦
      let req = set_attention codec probe (new_agent_request codec probe id line g) r in
      let (same, sent) =
        set_attention-delivery codec probe (new_agent_request codec probe id line g) r in
      let others = drop_agent_request-All (IsSent gen s) req.key r.agent_reqs a in
      let room : All (IsSent gen s) (within_cap (drop_agent_request req.key r.agent_reqs).0) =
        if-cases (All (IsSent gen s)) _
          (λ t. rest_requests-All (IsSent gen s) (drop_agent_request req.key r.agent_reqs).0 others)
          (λ t. others) in
      rw q (
        if-cases (λ (x : RequestIds). All (IsSent gen s) x.agent_reqs) (probe.method == "") (λ e. a)
          (λ e. All-append (IsSent gen s) _ (req ∷ []) room (
            λ mine. elim at [
              | inl other ↦ absurd (other id (sym same ∙ mine))
              | inr now ↦ sent ∙ now
            ],
            tt,
          )))
]
step-IsSent codec gen s (fails id) r at a =
    elim (Option-cases (Map.lookup (response_id_key codec id) r.pending)) [
      | inl q ↦ rw (q, discard) a
      | inr (origin, q) ↦ rw (q, discard) a
    ]
step-IsSent codec gen s tears_down r at a =
    let kept = take_each-All (IsSent gen s) r.pending.entries r a in
    if-cases (λ (x : RequestIds × List PendingRequest). All (IsSent gen s) x.0.agent_reqs)
      (is_empty (take_each r.pending.entries r).1) (λ q. kept) (λ q. kept)
step-IsSent codec gen s (loads_session other loaded) r at a =
    redeliver_each-All (IsSent gen s) other loaded r.agent_reqs
      (λ req is_loaded sent mine. elim at [
        | inl apart ↦ absurd (apart (sym is_loaded ∙ mine))
        | inr same ↦ same
      ])
      a

run-IsSent :
    (codec : Codec) (gen : ℕ) (session_id : String) (es : List Event) (r : RequestIds)
    → All (IsAttached codec gen session_id) es
    → All (IsSent gen session_id) r.agent_reqs
    → All (IsSent gen session_id) (run codec r es).agent_reqs
unfolding run
run-IsSent codec gen s [] r at a = a
run-IsSent codec gen s (e ∷ es) r at a =
    run-IsSent codec gen s es (step codec r e) at.1 (step-IsSent codec gen s e r at.0 a)

-- Once a connection was sent the agent's unanswered requests of a chat, a later restore of the chat on
-- it sends none, over any history in which the chat is restored to no other connection and each
-- request that comes for it is sent to the connection at once.
pub redeliver-run-redeliver :
    (codec : Codec) (gen : ℕ) (session_id : String) (frames frames' : List String) (es : List Event)
    (r : RequestIds)
    → All (IsAttached codec gen session_id) es
    → (redeliver gen session_id frames' (run codec (redeliver gen session_id frames r).0 es)).1
      ≡ frames'
unfolding redeliver
redeliver-run-redeliver codec gen s frames frames' es r at =
    let sent =
      run-IsSent codec gen s es (redeliver gen s frames r).0 at
        (redeliver_each-IsSent gen s r.agent_reqs) in
    ap (λ l. frames' ++ l) (redeliver_each-nothing gen s _ sent) ∙ append_nil frames'
  where
    append_nil : (l : List String) → (l ++ []) ≡ l
    append_nil [] = refl
    append_nil (x ∷ l) = ap (λ t. x ∷ t) (append_nil l)
