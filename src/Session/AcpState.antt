-- ===== src/Session/AcpState.antt =====
-- internal/session/acpstate.go: what the gateway remembers of the conversation on one agent process.
-- The decoding of an initialize response is the SDK's, a parameter that gives `none` for its error or
-- where there is no result.
pub mod Histories
pub mod Projects
pub mod Swallowed
use ferngeist_acp_gateway.Prelude.{
  is_some, ℕ, Bool, true, false, not, ◌&&◌, ◌||◌, Option, none, some, List, [], ◌∷◌, String,
  by_text, ◌==◌, if◌then◌else◌,
}
use ferngeist_acp_gateway.Prelude.Int.{ℤ, is_zero}
use ferngeist_acp_gateway.Map
use ferngeist_acp_gateway.Map.{Map}
use ferngeist_acp_gateway.Session.Frames.{
  Codec, ClientFrame, ClientParams, FrameProbe, ProbeResult, ProbeUpdate, Usage,
  rewrite_response_id,
}
use ferngeist_acp_gateway.Session.RequestIds.{PendingRequest, loads}

pub record AgentInfo : Type 0 where
  pub name : String
  pub title : Option String

-- `acp.InitializeResponse`, as far as it is read.
pub record InitializeResponse : Type 0 where
  pub close : Bool
  pub agent_info : Option AgentInfo

pub record AcpState : Type 0 where
  pub init_response : Option String
  pub agent_name : String
  pub close_supported : Bool
  pub session_id : String
  pub cwd : String
  pub cwd_by_session : Map String String
  pub pending_cwd : Map String String
  pub held : Map String Bool
  pub turn_active : Bool
  pub turn_had_content : Bool
  pub tool_kinds : Map String String

unfoldable pub new_acp_state : AcpState
unfolding Map.empty
new_acp_state = record {
  init_response = none;
  agent_name = "";
  close_supported = false;
  session_id = "";
  cwd = "";
  cwd_by_session = Map.empty;
  pending_cwd = Map.empty;
  held = Map.empty;
  turn_active = false;
  turn_had_content = false;
  tool_kinds = Map.empty;
}

-- `m[key]` of texts, with Go's zero value where there is none.
abbrev pub text_of : Option String → String
text_of none = ""
text_of (some text) = text

abbrev pub has_version : FrameProbe → Bool
has_version probe = elim probe.result [
  | none ↦ false
  | some result ↦ is_some result.protocol_version
]

-- The agent's name for a client: its title where it has one.
abbrev pub display_name : AgentInfo → String
display_name info = elim info.title [
  | none ↦ info.name
  | some title ↦ if title == "" then info.name else title
]

unfoldable pub cache_response : String → Option InitializeResponse → AcpState → AcpState
cache_response raw none s = record s { init_response = some raw }
cache_response raw (some typed) s = record s {
  init_response = some raw;
  close_supported = typed.close || s.close_supported;
  agent_name = elim typed.agent_info [ none ↦ s.agent_name | some info ↦ display_name info ];
}

unfoldable pub observe_initialize :
    (String → Option InitializeResponse) → FrameProbe → String → AcpState → AcpState
unfolding cache_response
observe_initialize decode probe raw s =
    if has_version probe && not (is_some s.init_response)
    then cache_response raw (decode raw) s
    else s

-- `name`, `closes`, `holds`, `AcpCwdFor`
abbrev pub name : String → AcpState → String
name fallback s = if s.agent_name == "" then fallback else s.agent_name

abbrev pub closes : AcpState → Bool
closes s = s.close_supported

abbrev pub holds : String → AcpState → Bool
holds session_id s = elim (Map.lookup session_id s.held) [ none ↦ false | some b ↦ b ]

abbrev pub acp_cwd_for : String → AcpState → String
acp_cwd_for session_id s = text_of (Map.lookup session_id s.cwd_by_session)

-- The ID of the session that the agent's answer names.
abbrev pub result_session : FrameProbe → String
result_session probe = elim probe.result [ none ↦ "" | some result ↦ result.session_id ]

unfoldable pub observe_session_id : FrameProbe → AcpState → AcpState
observe_session_id probe s =
    if (s.session_id == "") && not (result_session probe == "")
    then record s { session_id = result_session probe }
    else s

-- The project that waits under the answer's ID is an argument.
unfoldable pub bind_found : FrameProbe → String → Option String → AcpState → AcpState
bind_found probe key none s = s
bind_found probe key (some cwd) s =
    let dropped : AcpState = record s { pending_cwd = Map.delete key s.pending_cwd } in
    if result_session probe == ""
    then dropped
    else record dropped { cwd_by_session = Map.insert (result_session probe) cwd s.cwd_by_session }

unfoldable pub bind_pending_cwd : FrameProbe → AcpState → AcpState
unfolding bind_found
bind_pending_cwd probe s = elim probe.id [
  | none ↦ s
  | some key ↦
      if probe.method == "" then bind_found probe key (Map.lookup key s.pending_cwd) s else s
]

-- The request that the frame answers is `none` where it is no reply.
abbrev pub accepted_session : PendingRequest → FrameProbe → String
accepted_session origin probe =
    if (origin.method == "session/new") && is_some probe.result
    then result_session probe
    else origin.load_session

unfoldable pub accept_session : Option PendingRequest → Bool → FrameProbe → AcpState → AcpState
accept_session none resumed probe s = s
accept_session (some origin) resumed probe s =
    let session_id = accepted_session origin probe in
    if (not resumed && is_some probe.error) || (session_id == "")
    then s
    else record s { held = Map.insert session_id true s.held }

unfoldable pub start_turn : ClientFrame → AcpState → AcpState
start_turn f s =
    if f.method == "session/prompt"
    then record s { turn_active = true; turn_had_content = false }
    else s

unfoldable pub name_session : ClientFrame → AcpState → AcpState
name_session f s =
    if not (f.params.session_id == "") && (s.session_id == "")
    then record s { session_id = f.params.session_id }
    else s

-- The project of a frame that opens or loads a session.
unfoldable pub open_project : ClientFrame → AcpState → AcpState
open_project f s =
    let opened : AcpState = record s { cwd = f.params.cwd } in
    if f.method == "session/new"
    then elim f.id [
      | none ↦ opened
      | some id ↦ record opened { pending_cwd = Map.insert id f.params.cwd s.pending_cwd }
    ]
    else (if f.params.session_id == "" then opened else record opened {
      cwd_by_session = Map.insert f.params.session_id f.params.cwd s.cwd_by_session;
    })

unfoldable pub observe_inbound : ClientFrame → AcpState → AcpState
unfolding start_turn name_session open_project
observe_inbound f s =
    let named = name_session f (start_turn f s) in
    if ((f.method == "session/new") || loads f.method) && not (f.params.cwd == "")
    then open_project f named
    else named

abbrev pub update_of : FrameProbe → Option ProbeUpdate
update_of probe = elim probe.params [ none ↦ none | some params ↦ params.update ]

abbrev pub is_content : ProbeUpdate → Bool
is_content update =
    (update.discriminator == "agent_message_chunk")
    || ((update.discriminator == "tool_call") || (update.discriminator == "tool_call_update"))

abbrev pub is_used : Option Usage → Bool
is_used none = false
is_used (some usage) =
    not (is_zero usage.total_tokens)
    || (not (is_zero usage.input_tokens) || not (is_zero usage.output_tokens))

-- A reply that is known to answer another request than a prompt.
abbrev pub is_other_reply : Option PendingRequest → Bool
is_other_reply none = false
is_other_reply (some origin) = not (origin.method == "session/prompt")

-- `observeTurn` of a frame that reports no update.
unfoldable pub judge_turn : FrameProbe → Option PendingRequest → AcpState → AcpState × Bool
judge_turn probe origin s = elim probe.result [
  | none ↦ (s, false)
  | some result ↦
      if not s.turn_active
        || (is_other_reply origin || (not (is_some probe.id) || is_some probe.error))
      then (s, false)
      else (
        record s { turn_active = false },
        (result.stop_reason == "end_turn")
            && (not (is_used result.usage) && not s.turn_had_content),
      )
]

unfoldable pub observe_turn : FrameProbe → Option PendingRequest → AcpState → AcpState × Bool
unfolding judge_turn
observe_turn probe origin s = elim (update_of probe) [
  | some update ↦ (if is_content update then (record s { turn_had_content = true }) else s, false)
  | none ↦ judge_turn probe origin s
]

unfoldable pub tool_kind_for : String → String → AcpState → AcpState × String
tool_kind_for call_id kind s =
    if kind == ""
    then (s, text_of (Map.lookup call_id s.tool_kinds))
    else (record s { tool_kinds = Map.insert call_id kind s.tool_kinds }, kind)

unfoldable pub forget_tool : String → AcpState → AcpState
forget_tool call_id s = record s { tool_kinds = Map.delete call_id s.tool_kinds }

-- `AcpSessionsWithCwd`
unfoldable pub sessions_with_cwd : (String → Bool) → List (String × String) → List String
sessions_with_cwd match [] = []
sessions_with_cwd match ((id, cwd) ∷ l) =
    let rest = sessions_with_cwd match l in if match cwd then id ∷ rest else rest

-- The answer to a client's `initialize`, `none` where it goes on to the agent.
unfoldable pub replay_initialize : Codec → ClientFrame → AcpState → Option String
replay_initialize codec f s =
    if f.method == "initialize"
    then elim s.init_response [
      | none ↦ none
      | some cached ↦ rewrite_response_id codec cached (text_of f.id)
    ]
    else none
