-- ===== src/Session/RequestIds.antt =====
-- internal/session/request_ids.go: the IDs that the gateway gives to the requests of its clients, and
-- the agent's own requests that wait for an answer. `next` is the 64 bits of Go's `int64`, times are
-- nanoseconds, and `pokes` counts the calls of `turnsChanged`.
pub mod Replies
pub mod Answers
pub mod LiveTurns
pub mod Sound
pub mod Histories
pub mod Invariant
pub mod Correlation
pub mod Redelivery
pub mod Pokes
pub mod Teardown
use Prim.Native.String.{◌++◌ as concat}
use ferngeist_acp_gateway.Prelude.{
  is_empty, ℕ, suc, ◌+◌, ◌%◌, ◌^◌, Bool, true, false, not, ◌&&◌, ◌||◌, Option, none, some, List, [],
  ◌∷◌, ◌++◌, String, by_text, by_number, length, leb, ltb, ◌==◌, if◌then◌else◌,
}
use ferngeist_acp_gateway.Map
use ferngeist_acp_gateway.Map.{Map}
use ferngeist_acp_gateway.Session.Frames.{
  Codec, Decoded, malformed, null, object, ClientFrame, ClientParams, FrameProbe, response_id_key,
  marshal_or,
}

abbrev pub turn_ended_method : String
turn_ended_method = "_ferngeist/turn_ended"

abbrev pub elicitation_method : String
elicitation_method = "elicitation/create"

abbrev pub max_pending_agent_requests : ℕ
max_pending_agent_requests = 64

abbrev pub attention_permission : String
attention_permission = "permission"

abbrev pub attention_elicitation : String
attention_elicitation = "elicitation"

pub record AgentRequest : Type 0 where
  pub key : String
  pub frame : String
  pub session_id : String
  pub delivered_gen : ℕ
  pub attention : String
  pub attention_session : String

pub record PendingRequest : Type 0 where
  pub gen : ℕ
  pub client_id : String
  pub owner : String
  pub method : String
  pub prompt_session : String
  pub prompt_client_id : String
  pub started_at : ℕ
  pub load_session : String

pub record RequestIds : Type 0 where
  pub next : ℕ
  pub pending : Map String PendingRequest
  pub by_owner : Map String String
  pub agent_reqs : List AgentRequest
  pub pokes : ℕ

unfoldable pub new_request_ids : RequestIds
unfolding Map.empty
new_request_ids = record {
  next = 0;
  pending = Map.empty;
  by_owner = Map.empty;
  agent_reqs = [];
  pokes = 0;
}

-- `r.changed()`
abbrev pub changed : RequestIds → RequestIds
changed r = record r { pokes = suc r.pokes }

-- The first request with the key leaves the list; the flag tells whether there was one.
unfoldable pub drop_agent_request : String → List AgentRequest → List AgentRequest × Bool
drop_agent_request key [] = ([], false)
drop_agent_request key (req ∷ reqs) =
    let rest = drop_agent_request key reqs in
    if req.key == key then (reqs, true) else (req ∷ rest.0, rest.1)

unfoldable pub drop_session_agent_requests : String → List AgentRequest → List AgentRequest
drop_session_agent_requests session_id [] = []
drop_session_agent_requests session_id (req ∷ reqs) =
    let rest = drop_session_agent_requests session_id reqs in
    if not (req.session_id == session_id) && not (req.attention_session == session_id)
    then req ∷ rest
    else rest

-- `r.pending[key].promptSession`, with Go's zero value where there is none.
abbrev pub prompt_session_of : Option PendingRequest → String
prompt_session_of none = ""
prompt_session_of (some origin) = origin.prompt_session

-- The request `key` is not pending any more.
unfoldable pub forget_request : String → PendingRequest → RequestIds → RequestIds
forget_request key origin r = record r {
  pending = Map.delete key r.pending;
  by_owner = Map.delete origin.owner r.by_owner;
}

-- `f.Params.SessionID` of a method that loads a session.
abbrev pub loads : String → Bool
loads method = (method == "session/load") || (method == "session/resume")

abbrev pub rest_requests : List AgentRequest → List AgentRequest
rest_requests [] = []
rest_requests (req ∷ reqs) = reqs

-- The oldest request is forgotten where there is no room.
abbrev pub within_cap : List AgentRequest → List AgentRequest
within_cap reqs = if leb max_pending_agent_requests (length reqs) then rest_requests reqs else reqs

module _ (codec : Codec) where
  abbrev pub owner_key : ℕ → String → String
  owner_key gen client_id = concat (codec.format_int gen) (concat ":" client_id)

  -- What the client's request is, before it has an ID of the gateway.
  abbrev pub origin_of : ℕ → ℕ → String → ClientFrame → PendingRequest
  origin_of gen now client_id f = record {
    gen = gen;
    client_id = client_id;
    owner = owner_key gen client_id;
    method = f.method;
    prompt_session = if f.method == "session/prompt" then f.params.session_id else "";
    prompt_client_id = if f.method == "session/prompt" then f.params.client_id else "";
    started_at = if f.method == "session/prompt" then now else 0;
    load_session = if loads f.method then f.params.session_id else "";
  }

  -- `r.next++` and the ID it gives.
  abbrev pub next_of : RequestIds → ℕ
  next_of r = (r.next + 1) % 2 ^ 64

  abbrev pub agent_id_of : RequestIds → String
  agent_id_of r = codec.format_int (next_of r)

  unfoldable pub register : PendingRequest → RequestIds → RequestIds
  register origin r = changed (record r {
    next = next_of r;
    pending = Map.insert (agent_id_of r) origin r.pending;
    by_owner = Map.insert origin.owner (agent_id_of r) r.by_owner;
  })

  unfoldable pub with_id : String → ClientFrame → Map String String → ClientFrame
  with_id agent_id f fields =
      let fields' = Map.insert "id" agent_id fields in
      record f { id = some agent_id; fields = some fields'; raw = marshal_or codec fields' f.raw }

  unfoldable pub answer_agent_request : String → RequestIds → RequestIds
  unfolding drop_agent_request
  answer_agent_request id r =
      let dropped = drop_agent_request (response_id_key codec id) r.agent_reqs in
      if dropped.1 then changed (record r { agent_reqs = dropped.0 }) else r

  -- The members of the parameters, pointed at the agent's ID.
  unfoldable pub retarget_params : String → Option String → Option String
  retarget_params agent_id none = none
  retarget_params agent_id (some text) = elim (codec.unmarshal text) [
    | malformed ↦ none
    | null ↦ none
    | object params ↦ codec.marshal (Map.insert "requestId" agent_id params)
  ]

  -- The members of a cancel that is pointed at its target's ID, `none` where it is not.
  unfoldable pub retarget_cancel :
      ℕ → ClientFrame → Map String String → RequestIds → Option (Map String String)
  unfolding retarget_params
  retarget_cancel gen f fields r = elim f.params.request_id [
    | none ↦ none
    | some request_id ↦ elim (Map.lookup (owner_key gen request_id) r.by_owner) [
      | none ↦ none
      | some agent_id ↦ elim (retarget_params agent_id (Map.lookup "params" fields)) [
        | none ↦ none
        | some raw ↦ some (Map.insert "params" raw fields)
      ]
    ]
  ]

  abbrev pub cancel_frame : ClientFrame → Option (Map String String) → ClientFrame
  cancel_frame f none = f
  cancel_frame f (some fields) = record f {
    fields = some fields;
    raw = marshal_or codec fields f.raw;
  }

  -- `outbound` of a frame that has members; what it returns is the frame's `raw`.
  unfoldable pub outbound_fields :
      ℕ → ℕ → ClientFrame → Map String String → RequestIds → RequestIds × ClientFrame
  unfolding retarget_cancel register with_id answer_agent_request
  outbound_fields gen now f fields r =
      if f.method == ""
      then elim f.id [ none ↦ (r, f) | some id ↦ (answer_agent_request id r, f) ]
      else elim f.id [
        | none ↦ (
          r,
          if f.method == "$/cancel_request"
              then cancel_frame f (retarget_cancel gen f fields r)
              else f,
        )
        | some client_id ↦
            (register (origin_of gen now client_id f) r, with_id (agent_id_of r) f fields)
      ]

  unfoldable pub outbound : ℕ → ℕ → ClientFrame → RequestIds → RequestIds × ClientFrame
  unfolding outbound_fields
  outbound gen now f r = elim f.fields [
    | none ↦ (r, f)
    | some fields ↦ outbound_fields gen now f fields r
  ]

  unfoldable pub peek : FrameProbe → RequestIds → Option PendingRequest
  peek probe r =
      if probe.method == ""
      then elim probe.id [ none ↦ none | some id ↦ Map.lookup (response_id_key codec id) r.pending ]
      else none

  -- What the agent's request waits for, and whose chat that is.
  unfoldable pub set_attention : FrameProbe → AgentRequest → RequestIds → AgentRequest
  set_attention probe req r =
      if probe.method == "session/request_permission"
      then record req { attention = attention_permission; attention_session = req.session_id }
      else (if probe.method == elicitation_method
          then (let tied : Option String = elim probe.params [
            | none ↦ none
            | some params ↦ params.request_id
          ] in
              let session_id =
                if req.session_id == ""
                then elim tied [
                  | none ↦ ""
                  | some id ↦ prompt_session_of (Map.lookup (response_id_key codec id) r.pending)
                ]
                else req.session_id in
              record req {
                attention_session = session_id;
                attention = if session_id == "" then req.attention else attention_elicitation;
              })
          else req)

  -- The request that the probe describes, before its attention is set.
  abbrev pub new_agent_request : FrameProbe → String → String → ℕ → AgentRequest
  new_agent_request probe id line delivered_gen = record {
    key = response_id_key codec id;
    frame = line;
    session_id = elim probe.params [ none ↦ "" | some params ↦ params.session_id ];
    delivered_gen = delivered_gen;
    attention = "";
    attention_session = "";
  }

  unfoldable pub track_agent_request : FrameProbe → String → ℕ → RequestIds → RequestIds
  unfolding set_attention drop_agent_request
  track_agent_request probe line delivered_gen r = elim probe.id [
    | none ↦ r
    | some id ↦
        let req = set_attention probe (new_agent_request probe id line delivered_gen) r in
        let others = (drop_agent_request req.key r.agent_reqs).0 in
        if probe.method == ""
        then r
        else changed (record r { agent_reqs = within_cap others ++ req ∷ [] })
  ]

  unfoldable pub discard : String → RequestIds → RequestIds
  unfolding forget_request
  discard agent_id r = elim (Map.lookup (response_id_key codec agent_id) r.pending) [
    | none ↦ r
    | some origin ↦ changed (forget_request (response_id_key codec agent_id) origin r)
  ]

-- `hasAgentRequests`
abbrev pub has_agent_requests : RequestIds → Bool
has_agent_requests r = not (is_empty r.agent_reqs)

-- `redeliver`'s loop: what is still to be sent of the chat's requests, and the list with them marked.
unfoldable pub redeliver_each : ℕ → String → List AgentRequest → List AgentRequest × List String
redeliver_each gen session_id [] = ([], [])
redeliver_each gen session_id (req ∷ reqs) =
    let rest = redeliver_each gen session_id reqs in
    if (req.session_id == session_id) && not (req.delivered_gen == gen)
    then (record req { delivered_gen = gen } ∷ rest.0, req.frame ∷ rest.1)
    else (req ∷ rest.0, rest.1)

unfoldable pub redeliver : ℕ → String → List String → RequestIds → RequestIds × List String
unfolding redeliver_each
redeliver gen session_id frames r =
    let sent = redeliver_each gen session_id r.agent_reqs in
    (record r { agent_reqs = sent.0 }, frames ++ sent.1)

-- `takePrompts`'s loop over the pending requests.
unfoldable pub take_each :
    List (String × PendingRequest) → RequestIds → RequestIds × List PendingRequest
unfolding forget_request
take_each [] r = (r, [])
take_each ((id, req) ∷ rest) r =
    let skipped = take_each rest r in
    let taken = take_each rest (forget_request id req r) in
    if req.prompt_session == "" then skipped else (taken.0, req ∷ taken.1)

unfoldable pub take_prompts : RequestIds → RequestIds × List PendingRequest
unfolding take_each
take_prompts r =
    let taken = take_each r.pending.entries r in
    if is_empty taken.1 then taken else (changed taken.0, taken.1)
