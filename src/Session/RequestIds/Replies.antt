-- ===== src/Session/RequestIds/Replies.antt =====
-- `scopeElicitation` and `reply` of internal/session/request_ids.go: what the client reads of the
-- agent's frames. A chain of steps that may fail is in `Option`.
use ferngeist_acp_gateway.Prelude.{
  is_empty, ℕ, ◌-◌, ◌/◌, not, ◌||◌, Option, none, some, List, [], ◌∷◌, String, by_text, by_number,
  ◌==◌, if◌then◌else◌, ◌>>=◌,
}
use ferngeist_acp_gateway.Map
use ferngeist_acp_gateway.Map.{Map}
use ferngeist_acp_gateway.Session.Frames.{
  Codec, Decoded, malformed, null, object, FrameProbe, response_id_key, marshal_or, or_text,
  rewrite_response_id,
}
use ferngeist_acp_gateway.Session.RequestIds.{
  PendingRequest, RequestIds, turn_ended_method, elicitation_method, changed, forget_request,
  drop_session_agent_requests,
}

-- The last frame is replaced; a list without one stays.
unfoldable pub set_last : (String → String) → List String → List String
set_last f [] = []
set_last f (x ∷ []) = f x ∷ []
set_last f (x ∷ y ∷ l) = x ∷ set_last f (y ∷ l)

-- The members that a decoded text has; `null` has none, and an error gives no answer.
abbrev pub members_of : Decoded → Option (Map String String)
unfolding Map.empty
members_of malformed = none
members_of null = some Map.empty
members_of (object m) = some m

-- The members of an object only.
abbrev pub object_of : Decoded → Option (Map String String)
object_of malformed = none
object_of null = none
object_of (object m) = some m

-- The request leaves with its reply, and a prompt with the requests that its turn raised.
unfoldable pub settle : String → PendingRequest → RequestIds → RequestIds
settle agent_id origin r =
    let settled = forget_request agent_id origin r in
    changed (
      if origin.prompt_session == "" then settled else record settled {
        agent_reqs = drop_session_agent_requests origin.prompt_session r.agent_reqs;
      })

module _ (codec : Codec) where
  -- The `_meta` of a result.
  unfoldable pub meta_of : Option String → Option (Map String String)
  unfolding Map.empty
  meta_of none = some Map.empty
  meta_of (some raw) = members_of (codec.unmarshal raw)

  -- The prompt's result with its duration, which is in nanoseconds; `none` where the frame passes
  -- unchanged. What Go does with a `null` frame is that it has no result.
  unfoldable pub add_turn_duration : String → ℕ → Option String
  unfolding meta_of Map.empty
  add_turn_duration frame duration = do
    msg ← object_of (codec.unmarshal frame)
    text ← Map.lookup "result" msg
    result ← object_of (codec.unmarshal text)
    meta ← meta_of (Map.lookup "_meta" result)
    ferngeist ←
        codec.marshal (Map.insert "durationMs" (codec.format_int (duration / 1_000_000)) Map.empty)
    meta' ← codec.marshal (Map.insert "ferngeist" ferngeist meta)
    result' ← codec.marshal (Map.insert "_meta" meta' result)
    some (marshal_or codec (Map.insert "result" result' msg) frame)

  unfoldable pub with_turn_duration : String → ℕ → String
  unfolding add_turn_duration
  with_turn_duration frame duration = or_text codec frame (add_turn_duration frame duration)

  -- The reason that the reply gives, if any.
  abbrev pub stop_reason_of : FrameProbe → String
  stop_reason_of probe = elim probe.result [
    | none ↦ "end_turn"
    | some result ↦ if result.stop_reason == "" then "end_turn" else result.stop_reason
  ]

  -- A Go map of texts or of values is written as its members are; an error gives the empty text.
  unfoldable pub turn_ended_frame : String → FrameProbe → String
  unfolding Map.empty
  turn_ended_frame session_id probe =
      let params =
        marshal_or codec
          (Map.insert "stopReason" (codec.quote (stop_reason_of probe))
            (Map.insert "sessionId" (codec.quote session_id) Map.empty))
          "" in
      marshal_or codec
        (Map.insert "params" params (
          Map.insert "method" (codec.quote turn_ended_method)
            (Map.insert "jsonrpc" (codec.quote "2.0") Map.empty)))
        ""

  -- The elicitation with the client's ID of the request that it is tied to.
  unfoldable pub scope_frame : String → String → Option String
  scope_frame client_id frame = do
    msg ← object_of (codec.unmarshal frame)
    text ← Map.lookup "params" msg
    params ← object_of (codec.unmarshal text)
    raw ← codec.marshal (Map.insert "requestId" client_id params)
    some (marshal_or codec (Map.insert "params" raw msg) frame)

  -- The client request that an elicitation is tied to.
  abbrev pub tied_to : FrameProbe → Option String
  tied_to probe =
      if probe.method == elicitation_method
      then elim probe.params [ none ↦ none | some params ↦ params.request_id ]
      else none

  unfoldable pub scope_elicitation : ℕ → FrameProbe → List String → RequestIds → List String
  unfolding scope_frame
  scope_elicitation gen probe [] r = []
  scope_elicitation gen probe (frame ∷ []) r = elim (tied_to probe) [
    | none ↦ frame ∷ []
    | some id ↦ elim (Map.lookup (response_id_key codec id) r.pending) [
      | none ↦ frame ∷ []
      | some origin ↦
          if origin.gen == gen
          then or_text codec frame (scope_frame origin.client_id frame) ∷ []
          else frame ∷ []
    ]
  ]
  scope_elicitation gen probe (x ∷ y ∷ l) r = x ∷ y ∷ l

  -- The reply as the connection that asked reads it.
  unfoldable pub restore_reply : ℕ → PendingRequest → String → String
  unfolding with_turn_duration
  restore_reply now origin frame =
      let restored = or_text codec frame (rewrite_response_id codec frame origin.client_id) in
      if origin.prompt_session == ""
      then restored
      else with_turn_duration restored (now - origin.started_at)

  unfoldable pub reply_frames : ℕ → ℕ → FrameProbe → PendingRequest → List String → List String
  unfolding set_last restore_reply turn_ended_frame
  reply_frames current_gen now probe origin frames =
      if origin.gen == current_gen
      then set_last (restore_reply now origin) frames
      else (if origin.prompt_session == ""
          then []
          else turn_ended_frame origin.prompt_session probe ∷ [])

  -- `reply` of a frame that answers the agent's ID.
  unfoldable pub reply_to :
      ℕ → ℕ → FrameProbe → String → List String → RequestIds → RequestIds × List String
  unfolding settle reply_frames
  reply_to current_gen now probe agent_id frames r = elim (Map.lookup agent_id r.pending) [
    | none ↦ (r, frames)
    | some origin ↦ (settle agent_id origin r, reply_frames current_gen now probe origin frames)
  ]

  unfoldable pub reply : ℕ → ℕ → FrameProbe → List String → RequestIds → RequestIds × List String
  unfolding reply_to
  reply current_gen now probe frames r = elim probe.id [
    | none ↦ (r, frames)
    | some id ↦
        let routed = reply_to current_gen now probe (response_id_key codec id) frames r in
        if not (probe.method == "") || is_empty frames then (r, frames) else routed
  ]
