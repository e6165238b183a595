-- ===== src/Session/LoadRecovery/Recovery.antt =====
-- internal/session/load_recovery.go: LoadRecovery over all sessions, and the replay in place of a load
-- that the agent rejects.
use ferngeist_acp_gateway.Prelude.{
  ℕ, Bool, false, not, ◌&&◌, ◌||◌, Option, none, some, List, [], ◌∷◌, ◌++◌, map, String, by_text,
  length, ◌==◌, ◌+◌, if◌then◌else◌, Result, ◌>>=◌,
}
use ferngeist_acp_gateway.Map
use ferngeist_acp_gateway.Map.{Map}
use ferngeist_acp_gateway.Session.Frames.{Codec, ClientFrame, FrameProbe, response_id_key}
use ferngeist_acp_gateway.Session.RequestIds.Replies.{members_of, object_of}
use ferngeist_acp_gateway.Session.LoadRecovery.{
  SessionLog, empty_log, record_update, buffer_block, catch_up, forget_prompt, Gap,
}

-- `loadCursor`
pub record LoadCursor : Type 0 where
  pub epoch : String
  pub head_seq : ℕ

-- What LoadRecovery calls to write texts: the number of an update (`withUpdateMeta`), the frame of a
-- prompt's block, the notification that a session was restored, and a cursor's JSON, each an error
-- where it is `none`; and its test of an error's message.
pub record Texts : Type 0 where
  pub stamp : String → ℕ → Option String
  pub prompt_frame : String → String → ℕ → String → Option String
  pub resumed_frame : String → ℕ → Bool → String
  pub cursor_text : LoadCursor → String
  pub already_loaded : String → Bool

pub record LoadRecovery : Type 0 where
  pub logs : Map String SessionLog
  pub pending_loads : Map String String
  pub epoch : String

unfoldable pub new_load_recovery : String → LoadRecovery
unfolding Map.empty
new_load_recovery epoch = record { logs = Map.empty; pending_loads = Map.empty; epoch = epoch }

-- Go's zero values where the maps have nothing.
abbrev pub log_or_empty : Option SessionLog → SessionLog
log_or_empty none = empty_log
log_or_empty (some log) = log

abbrev pub log_of : String → LoadRecovery → SessionLog
log_of session_id r = log_or_empty (Map.lookup session_id r.logs)

abbrev pub set_log : String → SessionLog → LoadRecovery → LoadRecovery
set_log session_id log r = record r { logs = Map.insert session_id log r.logs }

abbrev pub probe_session : FrameProbe → String
probe_session probe = elim probe.params [ none ↦ "" | some params ↦ params.session_id ]

abbrev pub is_user_chunk : FrameProbe → Bool
is_user_chunk probe = elim probe.params [
  | none ↦ false
  | some params ↦ elim params.update [
    | none ↦ false
    | some update ↦ update.discriminator == "user_message_chunk"
  ]
]

abbrev pub or_line : String → Option String → String
or_line line none = line
or_line line (some stamped) = stamped

-- The blocks of a prompt, one after the other.
unfoldable pub buffer_blocks :
    Texts → String → String → String → List String → SessionLog → SessionLog
unfolding buffer_block
buffer_blocks texts session_id client_id prompt_id [] log = log
buffer_blocks texts session_id client_id prompt_id (block ∷ blocks) log =
    buffer_blocks texts session_id client_id prompt_id blocks
      (buffer_block prompt_id (texts.prompt_frame session_id block (log.seq + 1) client_id) log)

unfoldable pub buffer_prompt :
    Texts → String → List String → String → String → LoadRecovery → LoadRecovery
unfolding buffer_blocks
buffer_prompt texts session_id blocks client_id prompt_id r =
    set_log session_id
      (buffer_blocks texts session_id client_id prompt_id blocks (log_of session_id r)) r

module _ (codec : Codec) (texts : Texts) where
  -- `record`: the line to forward is the second result.
  unfoldable pub record_line : String → FrameProbe → Bool → LoadRecovery → LoadRecovery × String
  unfolding record_update
  record_line line probe is_ok r =
      let session_id = probe_session probe in
      let log = log_of session_id r in
      let stamped = texts.stamp line (log.seq + 1) in
      if is_ok && ((probe.method == "session/update") && not (session_id == ""))
      then (
        set_log session_id (record_update line (is_user_chunk probe) stamped log) r,
        or_line line stamped,
      )
      else (r, line)

  abbrev pub key_of_frame : ClientFrame → String
  key_of_frame f = elim f.id [
    | none ↦ response_id_key codec ""
    | some id ↦ response_id_key codec id
  ]

  -- The prompt's blocks are `f.Params.Prompt`.
  unfoldable pub on_outbound : ClientFrame → List String → LoadRecovery → LoadRecovery
  unfolding buffer_prompt
  on_outbound f blocks r =
      let session_id = f.params.session_id in
      let tracked : LoadRecovery = elim f.id [
        | none ↦ r
        | some id ↦ if id == "" then r else record r {
          pending_loads = Map.insert (response_id_key codec id) session_id r.pending_loads;
        }
      ] in
      if session_id == ""
      then r
      else (if f.method == "session/prompt"
          then buffer_prompt texts session_id blocks f.params.client_id (key_of_frame f) r
          else (if f.method == "session/load" then tracked else r))

  -- `synthesizeLoadSuccess`; the members of nothing are none.
  unfoldable pub members_or_empty : Option String → Option (Map String String)
  unfolding Map.empty
  members_or_empty none = some Map.empty
  members_or_empty (some text) =
      if text == "" then some Map.empty else members_of (codec.unmarshal text)

  -- A cached answer that is `null` is not a success.
  unfoldable pub cached_members : Option String → Option (Map String String)
  unfolding Map.empty
  cached_members none = some Map.empty
  cached_members (some text) =
      if text == "" then some Map.empty else object_of (codec.unmarshal text)

  abbrev pub text_or_empty : Option String → String
  text_or_empty none = ""
  text_or_empty (some text) = text

  unfoldable pub synthesize_load_success : Option String → String → LoadCursor → Option String
  unfolding members_or_empty cached_members
  synthesize_load_success cached id cursor = do
    resp ← cached_members cached
    result ← members_or_empty (Map.lookup "result" resp)
    meta ← members_or_empty (Map.lookup "_meta" result)
    let meta' =
        text_or_empty
          (codec.marshal (Map.insert "ferngeist/catchUp" (texts.cursor_text cursor) meta))
    let result' = text_or_empty (codec.marshal (Map.insert "_meta" meta' result))
    codec.marshal
        (Map.insert "id" id (Map.insert "jsonrpc" "\"2.0\"" (Map.insert "result" result' resp)))

  -- The frames that replace a rejected load.
  unfoldable pub replay : String → String → LoadRecovery → Option (List String)
  unfolding synthesize_load_success
  replay session_id id r =
      let log = log_of session_id r in
      elim (synthesize_load_success log.response id
        (record { epoch = r.epoch; head_seq = log.seq })) [
          | none ↦ none
          | some success ↦ some (
              (texts.resumed_frame session_id (length log.history) log.trimmed
                ∷ map (λ f. f.line) log.history)
              ++ success ∷ [])
        ]

  -- `OnFrame` of the answer to a load that is pending.
  unfoldable pub on_load_answer :
      String → FrameProbe → String → String → LoadRecovery → LoadRecovery × Option (List String)
  unfolding replay
  on_load_answer line probe id session_id r =
      let settled : LoadRecovery = record r {
        pending_loads = Map.delete (response_id_key codec id) r.pending_loads;
      } in
      elim probe.error [
        | none ↦ (
          set_log session_id (record (log_of session_id r) { response = some line }) settled,
          none,
        )
        | some message ↦
            (settled, if texts.already_loaded message then replay session_id id settled else none)
      ]

  unfoldable pub on_frame :
      String → FrameProbe → Bool → LoadRecovery → LoadRecovery × Option (List String)
  unfolding on_load_answer
  on_frame line probe is_ok r = elim probe.id [
    | none ↦ (r, none)
    | some id ↦ elim (Map.lookup (response_id_key codec id) r.pending_loads) [
      | none ↦ (r, none)
      | some session_id ↦
          if not is_ok || (id == "") then (r, none) else on_load_answer line probe id session_id r
    ]
  ]

-- `catchUp` and `forgetPrompt`
unfoldable pub catch_up_session : String → String → ℕ → LoadRecovery → Result Gap (List String) × ℕ
unfolding catch_up
catch_up_session session_id epoch after r =
    (catch_up (epoch == r.epoch) after (log_of session_id r), (log_of session_id r).seq)

unfoldable pub forget_session_prompt : String → String → LoadRecovery → LoadRecovery
unfolding forget_prompt
forget_session_prompt session_id prompt_id r =
    set_log session_id (forget_prompt prompt_id (log_of session_id r)) r
