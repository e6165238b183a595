-- ===== src/Session/RequestIds/LiveTurns.antt =====
-- `promptStartedAt` and `liveTurns` of internal/session/request_ids.go: the chats whose prompt awaits
-- its reply, in the order in which the loop meets them.
pub mod Sorting
pub mod Latest
pub mod Started
use ferngeist_acp_gateway.Prelude.{
  ℕ, Bool, true, false, not, Option, none, some, List, [], ◌∷◌, ◌++◌, map, String, by_text, ltb,
  ◌==◌, if◌then◌else◌,
}
use ferngeist_acp_gateway.Map
use ferngeist_acp_gateway.Map.{Map}
use ferngeist_acp_gateway.Session.RequestIds.{PendingRequest, AgentRequest, RequestIds}
use Sorting.{sort_texts, compact}

pub record LiveTurn : Type 0 where
  pub session_id : String
  pub started_at : ℕ
  pub attention : List String

abbrev pub max_time : ℕ → ℕ → ℕ
max_time a b = if ltb a b then b else a

abbrev pub start_of : Option ℕ → ℕ
start_of none = 0
start_of (some t) = t

-- `promptStartedAt`'s loop; the answer so far is an argument.
unfoldable pub latest_start : String → List (String × PendingRequest) → Option ℕ → Option ℕ
latest_start session_id [] best = best
latest_start session_id ((id, req) ∷ rest) best = latest_start session_id rest (
    if req.prompt_session == session_id
    then some (max_time (start_of best) req.started_at)
    else best)

unfoldable pub prompt_started_at : String → RequestIds → Option ℕ
unfolding latest_start
prompt_started_at session_id r = latest_start session_id r.pending.entries none

-- `promptRunning`
abbrev pub prompt_running : String → RequestIds → Bool
prompt_running session_id r = elim (prompt_started_at session_id r) [ none ↦ false | some t ↦ true ]

-- `bySession` and `order`.
pub record Gathered : Type 0 where
  pub by_session : Map String LiveTurn
  pub order : List String

abbrev pub new_live_turn : String → LiveTurn
new_live_turn session_id = record { session_id = session_id; started_at = 0; attention = [] }

abbrev pub started : ℕ → LiveTurn → LiveTurn
started at t = record t { started_at = max_time t.started_at at }

-- A prompt of the chat; the chat's turn so far is an argument.
unfoldable pub add_prompt : PendingRequest → Option LiveTurn → Gathered → Gathered
add_prompt req none g = record {
  by_session =
      Map.insert req.prompt_session (started req.started_at (new_live_turn req.prompt_session))
        g.by_session;
  order = g.order ++ req.prompt_session ∷ [];
}
add_prompt req (some t) g = record g {
  by_session = Map.insert req.prompt_session (started req.started_at t) g.by_session;
}

unfoldable pub gather : List (String × PendingRequest) → Gathered → Gathered
unfolding add_prompt
gather [] g = g
gather ((id, req) ∷ rest) g = gather rest (
    if req.prompt_session == ""
    then g
    else add_prompt req (Map.lookup req.prompt_session g.by_session) g)

abbrev pub attend : String → LiveTurn → LiveTurn
attend attention t = record t { attention = t.attention ++ attention ∷ [] }

-- What the agent's requests wait for.
unfoldable pub attend_each : List AgentRequest → Map String LiveTurn → Map String LiveTurn
attend_each [] m = m
attend_each (req ∷ rest) m = attend_each rest (elim (Map.lookup req.attention_session m) [
  | none ↦ m
  | some t ↦
      if req.attention == "" then m else Map.insert req.attention_session (attend req.attention t) m
])

abbrev pub tidy : LiveTurn → LiveTurn
tidy t = record t { attention = compact (sort_texts t.attention) }

-- The turns in the order of the chats. Each of them is in the map.
unfoldable pub in_order : List String → Map String LiveTurn → List LiveTurn
in_order [] m = []
in_order (id ∷ ids) m =
    let rest = in_order ids m in elim (Map.lookup id m) [ none ↦ rest | some t ↦ tidy t ∷ rest ]

unfoldable pub live_turns : RequestIds → List LiveTurn
unfolding gather attend_each in_order Map.empty
live_turns r =
    let g = gather r.pending.entries (record { by_session = Map.empty; order = [] }) in
    in_order g.order (attend_each r.agent_reqs g.by_session)
