-- ===== src/Session/Pipeline.antt =====
-- The last stage of internal/session/pipeline.go and the way in: `forward` and `prepareOutbound` over the
-- request IDs, the buffered updates, the kept results of turns, the state of the conversation and the
-- client's queue. The text of a turn's result is a parameter; `usage` is the frame's.
pub mod Histories
pub mod Kept
pub mod Missed
use ferngeist_acp_gateway.Prelude.{
  ℕ, ◌-◌, ◌/◌, Bool, true, false, not, ◌&&◌, ◌||◌, Option, none, some, List, [], ◌∷◌, ◌++◌, String,
  by_number, by_text, ◌==◌, if◌then◌else◌, is_empty, is_some,
}
use ferngeist_acp_gateway.Prelude.Int.{pos}
use ferngeist_acp_gateway.Map
use ferngeist_acp_gateway.Session.Frames.{
  Codec, ClientFrame, ClientParams, FrameProbe, ProbeResult, Usage,
}
use ferngeist_acp_gateway.Session.RequestIds.{
  PendingRequest, RequestIds, loads, outbound, redeliver, track_agent_request,
}
use ferngeist_acp_gateway.Session.RequestIds.Replies.{reply, scope_elicitation}
use ferngeist_acp_gateway.Session.TurnResults.{
  TurnResult, TurnResults, store_turn_result, take_turn_result, clear_turn_result,
}
use ferngeist_acp_gateway.Session.AcpState.{AcpState, observe_inbound}
use ferngeist_acp_gateway.Session.LoadRecovery.Recovery.{
  Texts, LoadRecovery, record_line, on_outbound,
}
use ferngeist_acp_gateway.Session.Pump.{Pump, queue_bound}

-- `StdioPump`, as far as these stages read it.
pub record Conversation : Type 0 where
  pub pump : Pump
  pub request_ids : RequestIds
  pub acp : AcpState
  pub recovery : LoadRecovery
  pub results : TurnResults Usage

-- The parts of `frame` that the last stage reads. The request that it answers is `none` where it is no
-- reply.
pub record Frame : Type 0 where
  pub line : String
  pub probe : FrameProbe
  pub is_ok : Bool
  pub origin : Option PendingRequest
  pub out : List String
  pub resumed : Bool

-- `p.client != nil && p.writerQ != nil`
abbrev pub is_bound : Pump → Bool
is_bound p = is_some p.client && is_some p.writer_q

-- The frames with one before the last of `out`, which the others follow.
unfoldable pub before_last : String → List String → List String → List String
before_last frame [] rest = rest
before_last frame (x ∷ []) rest = frame ∷ x ∷ rest
before_last frame (x ∷ y ∷ l) rest = x ∷ before_last frame (y ∷ l) rest

-- The result of a prompt of the current connection, whose reply nobody reads.
unfoldable pub missed_result :
    ℕ → FrameProbe → Option PendingRequest → Pump → Option (String × TurnResult Usage)
missed_result now probe none p = none
missed_result now probe (some origin) p = elim probe.result [
  | none ↦ none
  | some result ↦
      if not (is_bound p) && ((origin.method == "session/prompt") && (origin.gen == p.conn_gen))
      then some (
        origin.prompt_session,
        record {
          stop_reason = result.stop_reason;
          usage = result.usage;
          duration_ms = pos ((now - origin.started_at) / 1_000_000);
        },
      )
      else none
]

unfoldable pub keep_missed :
    Option (String × TurnResult Usage) → TurnResults Usage → TurnResults Usage
unfolding store_turn_result
keep_missed none results = results
keep_missed (some (session_id, res)) results = store_turn_result session_id res results

-- The session that the reply restores to the connection that asked.
unfoldable pub restored_session : Frame → Pump → Option String
restored_session f p = elim f.origin [
  | none ↦ none
  | some origin ↦
      if loads origin.method
        && ((origin.gen == p.conn_gen)
            && (is_bound p && (f.resumed || not (is_some f.probe.error))))
      then some origin.load_session
      else none
]

module _ (result_frame : String → TurnResult Usage → String) where
  -- The kept result of the session is an argument.
  unfoldable pub with_result :
      String → List String → List String → Option (TurnResult Usage) → List String
  unfolding before_last
  with_result session_id out requests none = out ++ requests
  with_result session_id out requests (some res) =
      before_last (result_frame session_id res) out requests

  unfoldable pub restore_locked : String → List String → Conversation → Conversation × List String
  unfolding with_result redeliver take_turn_result
  restore_locked session_id out c =
      let sent = redeliver c.pump.conn_gen session_id [] c.request_ids in
      let taken = take_turn_result session_id c.results in
      let redelivered : Conversation = record c { request_ids = sent.0 } in
      if is_empty out
      then (redelivered, sent.1)
      else (record redelivered { results = taken.0 }, with_result session_id out sent.1 taken.1)

  unfoldable pub restore_replied :
      Option String → List String → Conversation → Conversation × List String
  unfolding restore_locked
  restore_replied none out c = (c, out)
  restore_replied (some session_id) out c = restore_locked session_id out c

  module _ (codec : Codec) (texts : Texts) where
    -- What `record` and `reply` leave of the frame to send.
    unfoldable pub replied : ℕ → Frame → Conversation → RequestIds × List String
    unfolding record_line reply
    replied now f c =
        let recorded = record_line codec texts f.line f.probe f.is_ok c.recovery in
        let out = if recorded.1 == f.line then f.out else recorded.1 ∷ [] in
        reply codec c.pump.conn_gen now f.probe out c.request_ids

    -- The frames to send, before they are queued.
    unfoldable pub route : ℕ → Frame → Conversation → Conversation × List String
    unfolding record_line replied restored_session restore_replied missed_result keep_missed
    route now f c =
        let sent = replied now f c in
        restore_replied (restored_session f c.pump) sent.1 (record c {
          recovery = (record_line codec texts f.line f.probe f.is_ok c.recovery).0;
          request_ids = sent.0;
          results = keep_missed (missed_result now f.probe f.origin c.pump) c.results;
        })

    -- The line that `record` leaves.
    abbrev pub recorded_line : Frame → Conversation → String
    recorded_line f c = (record_line codec texts f.line f.probe f.is_ok c.recovery).1

    unfoldable pub forward : ℕ → Frame → Conversation → Conversation
    unfolding route track_agent_request scope_elicitation queue_bound
    forward now f c =
        let routed = route now f c in
        let delivered_gen = if is_bound c.pump then c.pump.conn_gen else 0 in
        let tracked =
          track_agent_request codec f.probe (recorded_line f c) delivered_gen
            routed.0.request_ids in
        let scoped = scope_elicitation codec c.pump.conn_gen f.probe routed.1 tracked in
        record routed.0 {
          request_ids = tracked;
          pump = if is_bound c.pump then queue_bound scoped c.pump else c.pump;
        }

    -- `prepareOutbound`; the prompt's blocks are an argument, and the frame's `raw` is what it returns.
    unfoldable pub prepare_outbound :
        ℕ → ℕ → ClientFrame → List String → Conversation → Conversation × ClientFrame
    unfolding outbound observe_inbound clear_turn_result on_outbound
    prepare_outbound gen now f blocks c =
        let sent = outbound codec gen now f c.request_ids in
        let g = sent.1 in
        (
          record c {
            request_ids = sent.0;
            acp = observe_inbound g c.acp;
            results =
                if g.method == "session/prompt"
                then clear_turn_result g.params.session_id c.results
                else c.results;
            recovery = on_outbound codec texts g blocks c.recovery;
          },
          g,
        )
