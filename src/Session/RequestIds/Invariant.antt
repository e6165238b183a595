-- ===== src/Session/RequestIds/Invariant.antt =====
-- After any history of calls of internal/session/request_ids.go its maps are sound.
use ferngeist_acp_gateway.Prelude.{
  suc, ◌+◌, ◌^◌, ◌≤◌, ◌<◌, ◌≡◌, refl, List, [], ◌∷◌, String, by_text, arith, length,
}
use ferngeist_acp_gateway.Map
use ferngeist_acp_gateway.Map.{Map}
use ferngeist_acp_gateway.Session.Frames.{Codec}
use ferngeist_acp_gateway.Session.RequestIds.{
  RequestIds, new_request_ids, PendingRequest, forget_request, register, answer_agent_request,
  outbound_fields, outbound, track_agent_request, discard, redeliver, take_each, take_prompts,
}
use ferngeist_acp_gateway.Session.RequestIds.Replies.{settle, reply_to, reply}
use ferngeist_acp_gateway.Session.RequestIds.Sound.{
  IsInjective, IsConsistent, outbound-IsConsistent,
}
use ferngeist_acp_gateway.Session.RequestIds.Histories.{
  track_agent_request-IsConsistent, discard-IsConsistent, reply-IsConsistent,
  redeliver-IsConsistent, take_prompts-IsConsistent, Event, sends, replies, asks, fails, tears_down,
  loads_session, step, run,
}

take_each-next :
    (l : List (String × PendingRequest)) (r : RequestIds) → (take_each l r).0.next ≡ r.next
unfolding take_each forget_request
take_each-next [] r = refl
take_each-next ((id, req) ∷ l) r =
    ground (arith, take_each-next l r, take_each-next l (forget_request id req r))

-- A call gives out one ID at most.
pub step-next :
    (codec : Codec) (e : Event) (r : RequestIds)
    → suc r.next < 2 ^ 64
    → (step codec r e).next ≤ suc r.next
unfolding step outbound outbound_fields register answer_agent_request reply reply_to settle
    forget_request track_agent_request discard take_prompts redeliver
step-next codec (sends gen now f) r room = ground arith
step-next codec (replies gen now probe frames) r room = ground arith
step-next codec (asks probe line gen) r room = ground arith
step-next codec (fails agent_id) r room = ground arith
step-next codec tears_down r room = ground (arith, take_each-next r.pending.entries r)
step-next codec (loads_session gen session_id) r room = omega arith

pub step-IsConsistent :
    (codec : Codec) (e : Event) (r : RequestIds)
    → IsInjective codec
    → suc r.next < 2 ^ 64
    → IsConsistent codec r
    → IsConsistent codec (step codec r e)
unfolding step
step-IsConsistent codec (sends gen now f) r inj room h =
    outbound-IsConsistent codec gen now f r inj room h
step-IsConsistent codec (replies gen now probe frames) r inj room h =
    reply-IsConsistent codec gen now probe frames r h
step-IsConsistent codec (asks probe line gen) r inj room h =
    track_agent_request-IsConsistent codec probe line gen r h
step-IsConsistent codec (fails agent_id) r inj room h = discard-IsConsistent codec agent_id r h
step-IsConsistent codec tears_down r inj room h = take_prompts-IsConsistent codec r h
step-IsConsistent codec (loads_session gen session_id) r inj room h =
    redeliver-IsConsistent codec gen session_id [] r h

pub run_from-IsConsistent :
    (codec : Codec) (es : List Event) (r : RequestIds)
    → IsInjective codec
    → r.next + length es < 2 ^ 64
    → IsConsistent codec r
    → IsConsistent codec (run codec r es) × ((run codec r es).next ≤ r.next + length es)
unfolding run
run_from-IsConsistent codec [] r inj room h = (h, omega arith)
run_from-IsConsistent codec (e ∷ es) r inj room h =
    let small : suc r.next < 2 ^ 64 = omega (arith, room) in
    let one = step-next codec e r small in
    let (sound, le) =
      run_from-IsConsistent codec es (step codec r e) inj (omega (arith, one, room))
        (step-IsConsistent codec e r inj small h) in
    (sound, omega (arith, one, le))

pub new_request_ids-IsConsistent : (codec : Codec) → IsConsistent codec new_request_ids
unfolding new_request_ids
new_request_ids-IsConsistent codec = record {
  issued = λ k p g. absurd (ground (arith, Map.lookup-empty {V = PendingRequest} k));
  owned = λ o k g. absurd (ground (arith, Map.lookup-empty {V = String} o));
  few = omega arith;
}

-- After any history of fewer than 2^64 calls, every pending ID is one that was given out, an owner's
-- cancel is pointed at a request in flight that is the owner's, and at most 64 of the agent's requests
-- are remembered, where the texts of different integers differ.
pub run-IsConsistent :
    (codec : Codec) (es : List Event)
    → IsInjective codec
    → length es < 2 ^ 64
    → IsConsistent codec (run codec new_request_ids es)
unfolding new_request_ids
run-IsConsistent codec es inj room =
    (run_from-IsConsistent codec es new_request_ids inj (omega (arith, room))
      (new_request_ids-IsConsistent codec)).0
