-- ===== src/ConversationTests.antt =====
-- Concrete runs of the request IDs and of the state of the conversation of internal/session, and the
-- theorems about them at inputs that meet their hypotheses.
use Prim.Native.Char.{char}
use Prim.Native.String.{[] as empty_text, ◌∷◌ as cons, count}
use text.Mathlib.TextLemmas.{length-nil, length-cons}
use ferngeist_acp_gateway.Prelude.{
  ℕ, zero, suc, ◌≤◌, ◌<◌, ◌≡◌, ◌⊎◌, inl, inr, ◌==◌, is_some, if◌then◌else◌, refl, sym, ap, ◌∙◌,
  false, not, Option, none, some, List, [], ◌∷◌, String, arith, by_text, by_number, length,
}
use ferngeist_acp_gateway.Prelude.Int.{pos}
use ferngeist_acp_gateway.Map
use ferngeist_acp_gateway.Map.{Map}
use ferngeist_acp_gateway.Session.Frames.{
  Codec, object, no_params, rewrite_response_id, ClientFrame, FrameProbe,
}
use ferngeist_acp_gateway.Session.RequestIds.{
  RequestIds, new_request_ids, drop_agent_request, drop_session_agent_requests, forget_request,
  register, with_id, answer_agent_request, retarget_params, retarget_cancel, outbound_fields,
  outbound, peek, set_attention, track_agent_request, discard, redeliver_each, redeliver, take_each,
  take_prompts,
}
use ferngeist_acp_gateway.Session.RequestIds.Replies.{
  set_last, meta_of, add_turn_duration, with_turn_duration, turn_ended_frame, restore_reply, settle,
  reply_frames, reply_to, reply,
}
use ferngeist_acp_gateway.Session.RequestIds.LiveTurns.{
  latest_start, prompt_started_at, add_prompt, gather, attend_each, in_order, live_turns,
}
use ferngeist_acp_gateway.Session.RequestIds.LiveTurns.Sorting.{
  insert_text, sort_texts, compact_after, compact,
}
use ferngeist_acp_gateway.Session.RequestIds.LiveTurns.Latest.{IsLatest}
use ferngeist_acp_gateway.Session.RequestIds.LiveTurns.Started.{
  first_start, count_turns, live_turns-prompt_started_at,
}
use ferngeist_acp_gateway.Session.RequestIds.Sound.{IsInjective, IsConsistent}
use ferngeist_acp_gateway.Session.RequestIds.Histories.{Event, sends, asks, tears_down, step, run}
use ferngeist_acp_gateway.Session.RequestIds.Invariant.{run-IsConsistent}
use ferngeist_acp_gateway.Session.RequestIds.Answers.{IsRenamed, IsTimed, with_duration}
use ferngeist_acp_gateway.Session.RequestIds.Correlation.{reply-run-outbound}
use ferngeist_acp_gateway.Session.RequestIds.Redelivery.{redeliver-run-redeliver}
use ferngeist_acp_gateway.Session.RequestIds.Pokes.{step-pokes}
use ferngeist_acp_gateway.Session.RequestIds.Teardown.{is_other, take_prompts_lem}
use ferngeist_acp_gateway.Session.AcpState.{
  InitializeResponse, new_acp_state, cache_response, observe_initialize, observe_session_id,
  bind_found, bind_pending_cwd, accept_session, start_turn, name_session, open_project,
  observe_inbound, judge_turn, observe_turn, acp_cwd_for,
}
use ferngeist_acp_gateway.Session.AcpState.Histories.{
  Event as Observed, reads, hears, hear, step as observe_step, run as observe_all,
}
use ferngeist_acp_gateway.Session.AcpState.Projects.{open-run-bind}
use ferngeist_acp_gateway.Session.AcpState.Swallowed.{
  is_flagged, flags, prompts, shows, flags-le-prompts, prompt-run-flagged,
}

-- Integers by strokes: a text for each.
tally : ℕ → String
tally zero = empty_text
tally (suc n) = cons (char 49 tt) (tally n)

count-tally : (n : ℕ) → count (tally n) ≡ n
unfolding tally
count-tally zero = length-nil
count-tally (suc n) = length-cons (char 49 tt) (tally n) ∙ ap suc (count-tally n)

-- A codec whose objects have no members, and which writes the ID of an object.
abbrev strokes : Codec
strokes = record {
  unmarshal = λ text. object Map.empty;
  marshal = λ m. Map.lookup "id" m;
  quote = λ text. text;
  decode_text = λ o. "";
  decode_params = λ o. no_params;
  format_int = tally;
  trim_space = λ text. text;
}

strokes-IsInjective : IsInjective strokes
strokes-IsInjective a b small_a small_b e = sym (count-tally a) ∙ (ap count e ∙ count-tally b)

-- Opens every operation, for the runs below.
request_runs : Unit {0}
unfolding tally rewrite_response_id new_request_ids drop_agent_request drop_session_agent_requests
    forget_request register with_id answer_agent_request retarget_params retarget_cancel
    outbound_fields outbound peek set_attention track_agent_request discard redeliver_each redeliver
    take_each take_prompts set_last meta_of add_turn_duration with_turn_duration turn_ended_frame
    restore_reply settle reply_frames reply_to reply latest_start prompt_started_at add_prompt
    gather attend_each in_order live_turns insert_text sort_texts compact_after compact first_start
    count_turns step run Map.empty Map.lookup Map.insert Map.delete Map.retain Map.values
request_runs = tt

abbrev prompt : String → ClientFrame
prompt id = record {
  raw = "{}";
  fields = some Map.empty;
  method = "session/prompt";
  id = some id;
  params = record no_params { session_id = "s1"; client_id = "p1" };
}

-- The agent's answer to the ID, and its request for a permission.
abbrev answer : String → FrameProbe
answer id = record { method = ""; id = some id; result = none; error = none; params = none }

abbrev permission : String → FrameProbe
permission id = record {
  method = "session/request_permission";
  id = some id;
  result = none;
  error = none;
  params = some (record { session_id = "s1"; request_id = none; update = none });
}

abbrev first_calls : List Event
first_calls = sends 1 5 (prompt "7") ∷ asks (permission "a") "ask" 1 ∷ []

abbrev more_calls : List Event
more_calls = asks (permission "b") "ask" 2 ∷ sends 2 9 (prompt "8") ∷ []

-- The prompt of an earlier connection ends its turn on the later one.
one_turn : length (live_turns (run strokes new_request_ids first_calls)) ≡ 1
unfolding request_runs
one_turn = refl

run-IsConsistent_example : IsConsistent strokes (run strokes new_request_ids first_calls)
run-IsConsistent_example = run-IsConsistent strokes first_calls strokes-IsInjective (omega arith)

step-pokes_example :
    (live_turns (step strokes (run strokes new_request_ids first_calls) tears_down)
      ≡ live_turns (run strokes new_request_ids first_calls))
    ⊎ ((run strokes new_request_ids first_calls).pokes
        < (step strokes (run strokes new_request_ids first_calls) tears_down).pokes)
step-pokes_example = step-pokes strokes tears_down (run strokes new_request_ids first_calls)

take_prompts_lem_example :
    ((take_prompts (run strokes new_request_ids first_calls)).1
      ≡ Map.values (
          Map.retain (λ k p. not (is_other k p)) (run strokes new_request_ids first_calls).pending))
    × ((key : String)
        → Map.lookup key (take_prompts (run strokes new_request_ids first_calls)).0.pending
          ≡ Map.lookup key (Map.retain is_other (run strokes new_request_ids first_calls).pending))
    × (live_turns (take_prompts (run strokes new_request_ids first_calls)).0 ≡ [])
take_prompts_lem_example = take_prompts_lem (run strokes new_request_ids first_calls)

live_turns-prompt_started_at_example :
    (first_start "s1" (live_turns (run strokes new_request_ids first_calls)) ≡ some 5)
    × IsLatest (run strokes new_request_ids first_calls).pending "s1" (some 5)
    × (count_turns "s1" (live_turns (run strokes new_request_ids first_calls)) ≤ 1)
unfolding request_runs
live_turns-prompt_started_at_example =
    live_turns-prompt_started_at "s1" (run strokes new_request_ids first_calls)
      (λ e. ground (arith, by_text.same_key_iff "s1" ""))

redeliver-run-redeliver_example :
    (redeliver 2 "s1"
      ("load" ∷ [])
      (run strokes (redeliver 2 "s1" [] (run strokes new_request_ids first_calls)).0 more_calls)).1
    ≡ "load" ∷ []
redeliver-run-redeliver_example =
    redeliver-run-redeliver strokes 2 "s1" [] ("load" ∷ []) more_calls
      (run strokes new_request_ids first_calls) (inr refl, (tt, tt))

abbrev after_first : RequestIds
after_first = run strokes new_request_ids first_calls

abbrev third_key : String
third_key = "11"

-- A codec whose texts have a result, but for the result itself, and which writes of an object its ID, or
-- else the member that a turn's duration is in: what it writes is what was put in.
abbrev written : Map String String → Option String
written m =
    if is_some (Map.lookup "id" m)
    then Map.lookup "id" m
    else (if is_some (Map.lookup "result" m)
        then Map.lookup "result" m
        else (if is_some (Map.lookup "_meta" m)
            then Map.lookup "_meta" m
            else (if is_some (Map.lookup "ferngeist" m)
                then Map.lookup "ferngeist" m
                else Map.lookup "durationMs" m)))

abbrev timing : Codec
timing = record strokes {
  unmarshal = λ text.
      object (if text == "result" then Map.empty else Map.insert "result" "result" Map.empty);
  marshal = written;
}

timing-IsInjective : IsInjective timing
timing-IsInjective a b small_a small_b e = strokes-IsInjective a b small_a small_b e

-- The turn took three milliseconds.
renamed : IsRenamed timing "8" "r" "8"
unfolding request_runs
renamed = record { members = Map.insert "result" "result" Map.empty; reads = refl; writes = refl }

timed : IsTimed timing 3 "8" "111"
unfolding request_runs
timed = record {
  members = Map.insert "result" "result" Map.empty;
  result = Map.empty;
  meta = Map.empty;
  result_text = "result";
  ferngeist = "111";
  new_meta = "111";
  new_result = "111";
  reads = refl;
  has_result = refl;
  reads_result = refl;
  reads_meta = inl (refl, refl);
  writes_ms = refl;
  writes_meta = refl;
  writes_result = refl;
  writes = refl;
}

reply-run-outbound_example :
    let r = run timing new_request_ids first_calls in
    let routed =
      reply timing 2 3_000_009
        (answer third_key)
        ("r" ∷ [])
        (run timing (outbound timing 2 9 (prompt "8") r).0 first_calls) in
    ((outbound timing 2 9 (prompt "8") r).1.id ≡ some third_key)
    × (routed.1 ≡ "111" ∷ [])
    × (reply timing 2 3_000_009 (answer third_key) ("r" ∷ []) routed.0 ≡ (routed.0, "r" ∷ []))
unfolding request_runs
reply-run-outbound_example =
    reply-run-outbound timing first_calls first_calls 2 9 2 3_000_009 (prompt "8") Map.empty "8"
      third_key (answer third_key) [] "r" ("111" ∷ []) timing-IsInjective (omega arith) refl
      (λ e. ground (arith, by_text.same_key_iff "session/prompt" "")) refl
      (λ e. ground (arith, by_text.same_key_iff "8" "")) (tt, (tt, tt)) refl refl refl
      (with_duration "8" "111" refl (λ e. ground (arith, by_text.same_key_iff "s1" "")) renamed
        timed)

-- Opens every observation, for the runs below.
observed_runs : Unit {0}
unfolding new_acp_state cache_response observe_initialize observe_session_id bind_found
    bind_pending_cwd accept_session start_turn name_session open_project observe_inbound judge_turn
    observe_turn hear observe_step observe_all is_flagged flags prompts shows Map.empty Map.lookup
    Map.insert Map.delete
observed_runs = tt

abbrev unread : String → Option InitializeResponse
unread raw = none

abbrev opening : ClientFrame
opening = record {
  raw = "{}";
  fields = some Map.empty;
  method = "session/new";
  id = some "11";
  params = record no_params { cwd = "/home/project" };
}

abbrev opened : FrameProbe
opened = record {
  method = "";
  id = some "11";
  result =
      some (record { protocol_version = none; session_id = "s1"; stop_reason = ""; usage = none });
  error = none;
  params = none;
}

abbrev ended : FrameProbe
ended = record opened {
  id = some "7";
  result = some (record {
    protocol_version = none;
    session_id = "";
    stop_reason = "end_turn";
    usage = some (record { total_tokens = pos 0; input_tokens = pos 0; output_tokens = pos 0 });
  });
}

abbrev chunk : FrameProbe
chunk = record {
  method = "session/update";
  id = none;
  result = none;
  error = none;
  params = some (record {
    session_id = "s1";
    request_id = none;
    update = some (record {
      discriminator = "agent_message_chunk";
      tool_call_id = "";
      status = "";
      kind = "";
    });
  });
}

abbrev silent_turns : List Observed
silent_turns =
    reads (prompt "7")
    ∷ hears ended "" none false
    ∷ hears ended "" none false
    ∷ reads (prompt "7")
    ∷ hears chunk "" none false
    ∷ hears ended "" none false
    ∷ []

one_flag : flags unread new_acp_state silent_turns ≡ 1
unfolding observed_runs
one_flag = refl

flags-le-prompts_example : flags unread new_acp_state silent_turns ≤ prompts silent_turns
flags-le-prompts_example = flags-le-prompts unread silent_turns

prompt-run-flagged_example :
    is_flagged unread
      (observe_all unread
        (observe_inbound (prompt "7") new_acp_state)
        (reads opening ∷ hears chunk "" none false ∷ []))
      (hears ended "" none false)
    ≡ false
unfolding observed_runs
prompt-run-flagged_example =
    prompt-run-flagged unread (prompt "7") (reads opening ∷ hears chunk "" none false ∷ [])
      new_acp_state ended "" none false
      (record {
        protocol_version = none;
        session_id = "";
        stop_reason = "end_turn";
        usage = some (record { total_tokens = pos 0; input_tokens = pos 0; output_tokens = pos 0 });
      })
      refl (λ e. ground (arith, by_text.same_key_iff "session/new" "session/prompt"), (refl, tt))
      refl refl

open-run-bind_example :
    (acp_cwd_for "s1" (
        bind_pending_cwd opened (
          observe_all unread
            (observe_inbound opening new_acp_state)
            (hears ended "" none false ∷ [])))
      ≡ "/home/project")
    × (Map.lookup "11"
          (bind_pending_cwd opened (
            observe_all unread
              (observe_inbound opening new_acp_state)
              (hears ended "" none false ∷ []))).pending_cwd
        ≡ none)
open-run-bind_example =
    open-run-bind unread opening (hears ended "" none false ∷ []) new_acp_state "11" opened refl
      refl (λ e. ground (arith, by_text.same_key_iff "/home/project" ""))
      (λ e. ground (arith, by_text.same_key_iff "7" "11"), tt) refl refl
      (λ e. ground (arith, by_text.same_key_iff "s1" ""))
