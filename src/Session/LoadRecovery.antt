-- ===== src/Session/LoadRecovery.antt =====
-- internal/session/load_recovery.go: the buffered updates of each session, numbered for a client that
-- catches up. What Go's maps history, histSize, userFrames, trimmed, response, seq, evicted and
-- rejected hold of a session is one record; an entry that is missing is Go's zero value. Sizes are
-- bytes, and numbers do not wrap. Writing an update's number into its text (withUpdateMeta) and the
-- texts of the notifications are parameters, `Texts`.
pub mod Recovery
pub mod Trimming
pub mod Sizes
pub mod CatchUp
pub mod Forgetting
pub mod Bounds
use Prim.Native.String.{len}
use ferngeist_acp_gateway.Prelude.{
  ℕ, suc, ◌+◌, ◌-◌, ◌*◌, Bool, true, false, not, ◌&&◌, ◌||◌, Option, none, some, List, [], ◌∷◌,
  ◌++◌, map, String, by_text, by_number, length, ltb, leb, ◌==◌, if◌then◌else◌, is_empty, is_some,
  Result, ok, err, ◌>>=◌,
}
use ferngeist_acp_gateway.Map
use ferngeist_acp_gateway.Map.{Map}
use ferngeist_acp_gateway.Session.Frames.{
  Codec, ClientFrame, ClientParams, FrameProbe, ProbeParams, ProbeUpdate, response_id_key,
}
use ferngeist_acp_gateway.Session.RequestIds.Replies.{members_of}

-- 8 << 20
abbrev pub max_load_history_bytes : ℕ
max_load_history_bytes = 8 * 1_048_576

pub record HistoryFrame : Type 0 where
  pub line : String
  pub user : Bool
  pub seq : ℕ
  pub prompt_id : String
  pub gap_boundary : ℕ

pub record CursorRange : Type 0 where
  pub from : ℕ
  pub through : ℕ

pub record SessionLog : Type 0 where
  pub history : List HistoryFrame
  pub hist_size : ℕ
  pub user_frames : ℕ
  pub trimmed : Bool
  pub response : Option String
  pub seq : ℕ
  pub evicted : ℕ
  pub rejected : List CursorRange

abbrev pub empty_log : SessionLog
empty_log = record {
  history = [];
  hist_size = 0;
  user_frames = 0;
  trimmed = false;
  response = none;
  seq = 0;
  evicted = 0;
  rejected = [];
}

abbrev pub later : ℕ → ℕ → ℕ
later a b = if ltb a b then b else a

abbrev pub earlier : ℕ → ℕ → ℕ
earlier a b = if ltb b a then b else a

-- What a cursor must have passed not to miss the frame.
abbrev pub boundary_of : HistoryFrame → ℕ
boundary_of f = if f.seq == 0 then f.gap_boundary else f.seq

-- `dropOldestLocked` of a history that is the frame and the rest.
unfoldable pub drop_oldest : HistoryFrame → List HistoryFrame → SessionLog → SessionLog
drop_oldest dropped rest log = record log {
  history = rest;
  hist_size = log.hist_size - len dropped.line;
  evicted = later log.evicted (boundary_of dropped);
  user_frames = if dropped.user then log.user_frames - 1 else log.user_frames;
}

-- The first loop of `appendHistoryLocked`, over the history; the flag is `evicted`.
unfoldable pub evict_over : List HistoryFrame → SessionLog → SessionLog × Bool
unfolding drop_oldest
evict_over [] log = (log, false)
evict_over (f ∷ []) log = (log, false)
evict_over (f ∷ g ∷ rest) log =
    let more = evict_over (g ∷ rest) (drop_oldest f (g ∷ rest) log) in
    if ltb max_load_history_bytes log.hist_size then (more.0, true) else (log, false)

-- The second loop, up to the next message of a user.
unfoldable pub evict_reply : List HistoryFrame → SessionLog → SessionLog
unfolding drop_oldest
evict_reply [] log = log
evict_reply (f ∷ rest) log =
    let more = evict_reply rest (drop_oldest f rest log) in
    if ltb 0 log.user_frames && not f.user then more else log

abbrev pub history_frame : String → Bool → ℕ → SessionLog → HistoryFrame
history_frame line user seq log = record {
  line = line;
  user = user;
  seq = seq;
  prompt_id = "";
  gap_boundary = log.seq + 1;
}

abbrev pub appended : String → Bool → ℕ → SessionLog → SessionLog
appended line user seq log = record log {
  history = log.history ++ history_frame line user seq log ∷ [];
  hist_size = log.hist_size + len line;
  user_frames = if user then suc log.user_frames else log.user_frames;
}

-- The loops of `appendHistoryLocked`.
unfoldable pub trim : SessionLog → SessionLog
unfolding evict_over evict_reply
trim log =
    let over = evict_over log.history log in
    if over.1 then record (evict_reply over.0.history over.0) { trimmed = true } else over.0

unfoldable pub append_history : String → Bool → ℕ → SessionLog → SessionLog
unfolding trim
append_history line user seq log = trim (appended line user seq log)

-- `record` of a session's update; `stamped` is the line with its number, `none` where it cannot have
-- one.
unfoldable pub record_update : String → Bool → Option String → SessionLog → SessionLog
unfolding append_history
record_update line user none log = append_history line user 0 log
record_update line user (some stamped) log =
    append_history stamped user (log.seq + 1) (record log { seq = log.seq + 1 })

-- `r.history[sessionID][len(…)-1].promptID = promptID`
unfoldable pub mark_last : String → List HistoryFrame → List HistoryFrame
mark_last prompt_id [] = []
mark_last prompt_id (f ∷ []) = record f { prompt_id = prompt_id } ∷ []
mark_last prompt_id (f ∷ g ∷ l) = f ∷ mark_last prompt_id (g ∷ l)

-- A block of a prompt; its frame is `none` where it cannot be written.
unfoldable pub buffer_block : String → Option String → SessionLog → SessionLog
unfolding append_history mark_last
buffer_block prompt_id none log = log
buffer_block prompt_id (some line) log =
    let seq = log.seq + 1 in
    let added = append_history line true seq (record log { seq = seq }) in
    record added { history = mark_last prompt_id added.history }

-- Why a cursor cannot be answered: `gap`.
pub data Gap : Type 0 where
  gap : Gap

abbrev pub is_invalid : ℕ → List CursorRange → Bool
is_invalid after [] = false
is_invalid after (r ∷ rs) = (leb r.from after && leb after r.through) || is_invalid after rs

-- The loop of `catchUp` over the history.
unfoldable pub collect : ℕ → List HistoryFrame → Result Gap (List String)
collect after [] = ok []
collect after (f ∷ rest) =
    let more = collect after rest in
    if (f.seq == 0) && ltb after f.gap_boundary then err gap else elim more [
      | err e ↦ err e
      | ok lines ↦ ok (if ltb after f.seq then f.line ∷ lines else lines)
    ]

-- `catchUp` of a session; the flag is `epoch == r.epoch`. The head is the log's `seq`.
unfoldable pub catch_up : Bool → ℕ → SessionLog → Result Gap (List String)
unfolding collect
catch_up same_epoch after log =
    if not same_epoch || (ltb after log.evicted || ltb log.seq after)
    then err gap
    else (if is_invalid after log.rejected then err gap else collect after log.history)

-- The frame is of the prompt.
abbrev pub is_of : String → HistoryFrame → Bool
is_of prompt_id f = (f.prompt_id == prompt_id) && not (prompt_id == "")

-- The first loop of `forgetPrompt`: an update follows the prompt.
unfoldable pub is_answered : String → Bool → List HistoryFrame → Bool
is_answered prompt_id found [] = false
is_answered prompt_id found (f ∷ rest) =
    let seen = found || is_of prompt_id f in
    (seen && (f.prompt_id == "")) || is_answered prompt_id seen rest

abbrev pub still_held : ℕ → List CursorRange → List CursorRange
still_held evicted [] = []
still_held evicted (r ∷ rs) = if ltb r.through evicted then still_held evicted rs else r ∷ rs

-- The ranges at the end that meet the new one are part of it; the number is where it starts.
unfoldable pub merge_ranges : ℕ → List CursorRange → List CursorRange × ℕ
merge_ranges seq [] = ([], seq)
merge_ranges seq (r ∷ rs) =
    let rest = merge_ranges seq rs in
    if is_empty rest.0 && leb (rest.1 - 1) r.through
    then ([], earlier rest.1 r.from)
    else (r ∷ rest.0, rest.1)

unfoldable pub invalidate_prompt : ℕ → SessionLog → SessionLog
unfolding merge_ranges
invalidate_prompt seq log =
    let merged = merge_ranges seq (still_held log.evicted log.rejected) in
    record log { rejected = merged.0 ++ record { from = merged.1; through = log.seq } ∷ [] }

-- The counters without the frame.
abbrev pub uncounted : HistoryFrame → SessionLog → SessionLog
uncounted f log = record log {
  hist_size = log.hist_size - len f.line;
  user_frames = log.user_frames - 1;
}

-- The second loop of `forgetPrompt`; `kept` is built beside the log.
unfoldable pub remove_prompt :
    String → List HistoryFrame → SessionLog → SessionLog × List HistoryFrame
unfolding invalidate_prompt
remove_prompt prompt_id [] log = (log, [])
remove_prompt prompt_id (f ∷ rest) log =
    let skipped = remove_prompt prompt_id rest log in
    let removed = remove_prompt prompt_id rest (invalidate_prompt f.seq (uncounted f log)) in
    if is_of prompt_id f then removed else (skipped.0, f ∷ skipped.1)

unfoldable pub forget_prompt : String → SessionLog → SessionLog
unfolding is_answered remove_prompt
forget_prompt prompt_id log =
    let removed = remove_prompt prompt_id log.history log in
    let seq = if ltb (length removed.1) (length log.history) then log.seq + 1 else log.seq in
    if is_answered prompt_id false log.history
    then log
    else record removed.0 { history = removed.1; seq = seq }
