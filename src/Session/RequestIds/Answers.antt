-- ===== src/Session/RequestIds/Answers.antt =====
-- What a connection reads of the reply to a request, said without the functions of
-- internal/session/request_ids.go: in terms of the members that the frames have, and the texts in which
-- they are written.
use ferngeist_acp_gateway.Prelude.{
  ℕ, ◌-◌, ◌/◌, ◌≡◌, ◌≢◌, refl, sym, ap, Option, none, some, List, [], ◌∷◌, ◌++◌, String, by_text,
  by_number, ◌⊎◌, inl, inr, beq_of_ne,
}
use ferngeist_acp_gateway.Map
use ferngeist_acp_gateway.Map.{Map}
use ferngeist_acp_gateway.Session.Frames.{
  Codec, object, FrameProbe, ProbeResult, rewrite_response_id,
}
use ferngeist_acp_gateway.Session.RequestIds.{PendingRequest}
use ferngeist_acp_gateway.Session.RequestIds.Replies.{
  set_last, meta_of, add_turn_duration, with_turn_duration, stop_reason_of, turn_ended_frame,
  restore_reply, reply_frames,
}

-- The frame with the client's ID.
pub record IsRenamed (codec : Codec) (client_id frame restored : String) : Type 0 where
  pub members : Map String String
  pub reads : codec.unmarshal frame ≡ object members
  pub writes : codec.marshal (Map.insert "id" client_id members) ≡ some restored

-- The frame with the milliseconds as `durationMs` of `ferngeist` in the `_meta` of its result, where the
-- members that are there stay.
pub record IsTimed (codec : Codec) (ms : ℕ) (frame timed : String) : Type 0 where
  pub members : Map String String
  pub result : Map String String
  pub meta : Map String String
  pub result_text : String
  pub ferngeist : String
  pub new_meta : String
  pub new_result : String
  pub reads : codec.unmarshal frame ≡ object members
  pub has_result : Map.lookup "result" members ≡ some result_text
  pub reads_result : codec.unmarshal result_text ≡ object result
  pub reads_meta :
      ((Map.lookup "_meta" result ≡ none) × (meta ≡ Map.empty))
      ⊎ ((raw : String) × (Map.lookup "_meta" result ≡ some raw)
          × (codec.unmarshal raw ≡ object meta))
  pub writes_ms :
      codec.marshal (Map.insert "durationMs" (codec.format_int ms) Map.empty) ≡ some ferngeist
  pub writes_meta : codec.marshal (Map.insert "ferngeist" ferngeist meta) ≡ some new_meta
  pub writes_result : codec.marshal (Map.insert "_meta" new_meta result) ≡ some new_result
  pub writes : codec.marshal (Map.insert "result" new_result members) ≡ some timed

-- The reason for which the turn ended.
abbrev pub IsReason : Option ProbeResult → String → Type 0
IsReason none reason = reason ≡ "end_turn"
IsReason (some result) reason =
    ((result.stop_reason ≡ "") × (reason ≡ "end_turn"))
    ⊎ ((result.stop_reason ≢ "") × (reason ≡ result.stop_reason))

-- The notification that the turn of the chat ended for the reason.
pub record IsEnded (codec : Codec) (session_id : String) (probe : FrameProbe) (ended : String)
    : Type 0 where
  pub reason : String
  pub params : String
  pub is_reason : IsReason probe.result reason
  pub writes_params :
      codec.marshal (
        Map.insert "stopReason"
          (codec.quote reason)
          (Map.insert "sessionId" (codec.quote session_id) Map.empty))
      ≡ some params
  pub writes :
      codec.marshal (
        Map.insert "params" params (
          Map.insert "method"
            (codec.quote "_ferngeist/turn_ended")
            (Map.insert "jsonrpc" (codec.quote "2.0") Map.empty)))
      ≡ some ended

-- What the current connection reads of the reply `x` that comes with `front`, to a request that connection
-- `gen` made with the client's ID; `session_id` is the chat whose prompt it is, if it is one.
pub data Reads (codec : Codec) (gen current ms : ℕ) (session_id client_id : String)
    (probe : FrameProbe) (front : List String) (x : String) : List String → Type 0 where
  plain :
      (restored : String)
      → gen ≡ current
      → session_id ≡ ""
      → IsRenamed codec client_id x restored
      → Reads codec gen current ms session_id client_id probe front x (front ++ restored ∷ [])
  with_duration :
      (restored timed : String)
      → gen ≡ current
      → session_id ≢ ""
      → IsRenamed codec client_id x restored
      → IsTimed codec ms restored timed
      → Reads codec gen current ms session_id client_id probe front x (front ++ timed ∷ [])
  withheld :
      gen ≢ current
      → session_id ≡ ""
      → Reads codec gen current ms session_id client_id probe front x []
  turn_ended :
      (ended : String)
      → gen ≢ current
      → session_id ≢ ""
      → IsEnded codec session_id probe ended
      → Reads codec gen current ms session_id client_id probe front x (ended ∷ [])

set_last-append :
    (f : String → String) (front : List String) (x : String)
    → set_last f (front ++ x ∷ []) ≡ front ++ f x ∷ []
unfolding set_last
set_last-append f [] x = refl
set_last-append f (y ∷ []) x = refl
set_last-append f (y ∷ z ∷ l) x = ap (λ t. y ∷ t) (set_last-append f (z ∷ l) x)

IsRenamed-rewrite :
    (codec : Codec) (client_id frame restored : String)
    → client_id ≢ ""
    → IsRenamed codec client_id frame restored
    → rewrite_response_id codec frame client_id ≡ some restored
unfolding rewrite_response_id
IsRenamed-rewrite codec client_id frame restored ne h =
    rw (h.reads, rewrite_response_id, beq_of_ne client_id "" ne) h.writes

IsTimed-meta :
    (codec : Codec) (o : Option String) (meta : Map String String)
    → ((o ≡ none) × (meta ≡ Map.empty))
      ⊎ ((raw : String) × (o ≡ some raw) × (codec.unmarshal raw ≡ object meta))
    → meta_of codec o ≡ some meta
unfolding meta_of
IsTimed-meta codec o meta (inl (e, same)) = rw (e, same) refl
IsTimed-meta codec o meta (inr (raw, e, reads)) = rw (e, reads) refl

IsTimed-add :
    (codec : Codec) (duration : ℕ) (frame timed : String)
    → IsTimed codec (duration / 1_000_000) frame timed
    → with_turn_duration codec frame duration ≡ timed
unfolding with_turn_duration add_turn_duration
IsTimed-add codec duration frame timed h =
    rw
      (
        h.reads,
        h.has_result,
        h.reads_result,
        IsTimed-meta codec (Map.lookup "_meta" h.result) h.meta h.reads_meta,
        h.writes_ms,
        h.writes_meta,
        h.writes_result,
        h.writes,
      )
      refl

IsReason-stop :
    (codec : Codec) (probe : FrameProbe) (o : Option ProbeResult) (reason : String)
    → probe.result ≡ o
    → IsReason o reason
    → stop_reason_of codec probe ≡ reason
IsReason-stop codec probe none reason e h = rw e (sym h)
IsReason-stop codec probe (some result) reason e (inl (empty, h)) = rw (e, empty) (sym h)
IsReason-stop codec probe (some result) reason e (inr (ne, h)) =
    rw (e, beq_of_ne result.stop_reason "" ne) (sym h)

IsEnded-frame :
    (codec : Codec) (session_id : String) (probe : FrameProbe) (ended : String)
    → IsEnded codec session_id probe ended
    → turn_ended_frame codec session_id probe ≡ ended
unfolding turn_ended_frame
IsEnded-frame codec session_id probe ended h =
    rw (IsReason-stop codec probe probe.result h.reason refl h.is_reason, h.writes_params, h.writes)
      refl

-- The frames that `reply` gives are those.
pub Reads-reply_frames :
    (codec : Codec) (current later : ℕ) (probe : FrameProbe) (origin : PendingRequest)
    (front : List String) (x : String) (read : List String)
    → origin.client_id ≢ ""
    → Reads codec origin.gen current
        ((later - origin.started_at) / 1_000_000)
        origin.prompt_session
        origin.client_id
        probe
        front
        x
        read
    → reply_frames codec current later probe origin (front ++ x ∷ []) ≡ read
unfolding reply_frames restore_reply
Reads-reply_frames codec current later probe origin front x read named (plain restored g e r) =
    rw
      (
        (by_number.same_key_iff origin.gen current).1 g,
        set_last-append (restore_reply codec later origin) front x,
        restore_reply,
        IsRenamed-rewrite codec origin.client_id x restored named r,
        (by_text.same_key_iff origin.prompt_session "").1 e,
      )
      refl
Reads-reply_frames codec current later probe origin front x read named
      (with_duration restored timed g e r t) =
    rw
      (
        (by_number.same_key_iff origin.gen current).1 g,
        set_last-append (restore_reply codec later origin) front x,
        restore_reply,
        IsRenamed-rewrite codec origin.client_id x restored named r,
        beq_of_ne origin.prompt_session "" e,
        IsTimed-add codec (later - origin.started_at) restored timed t,
      )
      refl
Reads-reply_frames codec current later probe origin front x read named (withheld g e) =
    rw (beq_of_ne origin.gen current g, e) refl
Reads-reply_frames codec current later probe origin front x read named (turn_ended ended g e h) =
    rw
      (
        beq_of_ne origin.gen current g,
        beq_of_ne origin.prompt_session "" e,
        IsEnded-frame codec origin.prompt_session probe ended h,
      )
      refl
