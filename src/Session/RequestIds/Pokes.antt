-- ===== src/Session/RequestIds/Pokes.antt =====
-- The feed is told of every change to the live turns of internal/session/request_ids.go, and none is
-- live once the prompts were taken.
use ferngeist_acp_gateway.Prelude.{
  is_empty, ℕ, ◌<◌, ◌≡◌, refl, ap, true, not, ◌&&◌, List, [], ◌∷◌, String, by_text, by_number,
  arith, Bool-cases, inl, inr, ◌⊎◌, ◌==◌, if-cases,
}
use ferngeist_acp_gateway.Map.{Map}
use ferngeist_acp_gateway.Session.Frames.{Codec, ClientFrame, FrameProbe}
use ferngeist_acp_gateway.Session.RequestIds.{
  RequestIds, PendingRequest, AgentRequest, forget_request, register, answer_agent_request,
  outbound_fields, outbound, track_agent_request, discard, redeliver_each, redeliver, take_each,
  take_prompts,
}
use ferngeist_acp_gateway.Session.RequestIds.Replies.{settle, reply_to, reply}
use ferngeist_acp_gateway.Session.RequestIds.LiveTurns.{LiveTurn, attend_each, in_order, live_turns}
use ferngeist_acp_gateway.Session.RequestIds.Histories.{
  Event, sends, replies, asks, fails, tears_down, loads_session, step,
}

-- The marks of a restore are not read by the live turns.
redeliver_each-attention :
    (gen : ℕ) (session_id : String) (reqs : List AgentRequest) (m : Map String LiveTurn)
    → attend_each (redeliver_each gen session_id reqs).0 m ≡ attend_each reqs m
unfolding redeliver_each attend_each
redeliver_each-attention gen session_id [] m = refl
redeliver_each-attention gen session_id (req ∷ reqs) m =
    if-cases
      (λ (x : List AgentRequest × List String). attend_each x.0 m ≡ attend_each (req ∷ reqs) m)
      ((req.session_id == session_id) && not (req.delivered_gen == gen))
      (λ q. redeliver_each-attention gen session_id reqs _)
      (λ q. redeliver_each-attention gen session_id reqs _)

redeliver-live_turns :
    (gen : ℕ) (session_id : String) (r : RequestIds)
    → live_turns (redeliver gen session_id [] r).0 ≡ live_turns r
unfolding redeliver live_turns
redeliver-live_turns gen session_id r =
    ap (in_order _) (redeliver_each-attention gen session_id r.agent_reqs _)

-- Where the loop takes nothing, it changes nothing.
take_each-nothing :
    (l : List (String × PendingRequest)) (r : RequestIds)
    → is_empty (take_each l r).1 ≡ true
    → (take_each l r).0 ≡ r
unfolding take_each
take_each-nothing [] r h = refl
take_each-nothing ((id, req) ∷ l) r h = elim (Bool-cases (req.prompt_session == "")) [
  | inl q ↦ rw (q, take_each) (take_each-nothing l r (rw (q, take_each) at h))
  | inr q ↦ absurd (ground arith)
]

take_each-pokes :
    (l : List (String × PendingRequest)) (r : RequestIds) → (take_each l r).0.pokes ≡ r.pokes
unfolding take_each forget_request
take_each-pokes [] r = refl
take_each-pokes ((id, req) ∷ l) r =
    ground (arith, take_each-pokes l r, take_each-pokes l (forget_request id req r))

-- Nothing changed, or the feed was told.
abbrev IsTold : RequestIds → RequestIds → Type 0
IsTold r r' = (r' ≡ r) ⊎ (r.pokes < r'.pokes)

told-live_turns :
    (r r' : RequestIds) → IsTold r r' → (live_turns r' ≡ live_turns r) ⊎ (r.pokes < r'.pokes)
told-live_turns r r' (inl e) = inl (ap live_turns e)
told-live_turns r r' (inr lt) = inr lt

outbound-IsTold :
    (codec : Codec) (gen now : ℕ) (f : ClientFrame) (r : RequestIds)
    → IsTold r (outbound codec gen now f r).0
unfolding outbound outbound_fields register answer_agent_request
outbound-IsTold codec gen now f r = ground arith

reply-IsTold :
    (codec : Codec) (gen now : ℕ) (probe : FrameProbe) (frames : List String) (r : RequestIds)
    → IsTold r (reply codec gen now probe frames r).0
unfolding reply reply_to settle forget_request
reply-IsTold codec gen now probe frames r = ground arith

track-IsTold :
    (codec : Codec) (probe : FrameProbe) (line : String) (gen : ℕ) (r : RequestIds)
    → IsTold r (track_agent_request codec probe line gen r)
unfolding track_agent_request
track-IsTold codec probe line gen r = ground arith

discard-IsTold : (codec : Codec) (id : String) (r : RequestIds) → IsTold r (discard codec id r)
unfolding discard forget_request
discard-IsTold codec id r = ground arith

take_prompts-IsTold : (r : RequestIds) → IsTold r (take_prompts r).0
unfolding take_prompts
take_prompts-IsTold r =
    if-cases (λ (x : RequestIds × List PendingRequest). IsTold r x.0)
      (is_empty (take_each r.pending.entries r).1)
      (λ q. inl (take_each-nothing r.pending.entries r q))
      (λ q. inr (omega (arith, take_each-pokes r.pending.entries r)))

-- Every call leaves the live turns as they were, or tells the feed.
pub step-pokes :
    (codec : Codec) (e : Event) (r : RequestIds)
    → (live_turns (step codec r e) ≡ live_turns r) ⊎ (r.pokes < (step codec r e).pokes)
unfolding step
step-pokes codec (sends gen now f) r = told-live_turns r _ (outbound-IsTold codec gen now f r)
step-pokes codec (replies gen now probe frames) r =
    told-live_turns r _ (reply-IsTold codec gen now probe frames r)
step-pokes codec (asks probe line gen) r = told-live_turns r _ (track-IsTold codec probe line gen r)
step-pokes codec (fails id) r = told-live_turns r _ (discard-IsTold codec id r)
step-pokes codec tears_down r = told-live_turns r _ (take_prompts-IsTold r)
step-pokes codec (loads_session gen session_id) r = inl (redeliver-live_turns gen session_id r)
