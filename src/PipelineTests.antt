-- ===== src/PipelineTests.antt =====
-- A concrete run of internal/session/pipeline.go, and the theorem about it there.
use ferngeist_acp_gateway.Prelude.{
  ◌≡◌, inr, List, refl, false, true, none, some, [], ◌∷◌, String, by_text, arith,
}
use ferngeist_acp_gateway.Map
use ferngeist_acp_gateway.Session.Frames.{Codec, Usage, ProbeResult, object, no_params}
use ferngeist_acp_gateway.Session.RequestIds.{
  PendingRequest, new_request_ids, redeliver, track_agent_request,
}
use ferngeist_acp_gateway.Session.RequestIds.Replies.{reply, scope_elicitation}
use ferngeist_acp_gateway.Session.TurnResults.{TurnResult, store_turn_result}
use ferngeist_acp_gateway.Session.AcpState.{new_acp_state}
use ferngeist_acp_gateway.Session.LoadRecovery.Recovery.{Texts, new_load_recovery, record_line}
use ferngeist_acp_gateway.Session.Pump.{
  new_pump, attach, bind, detach, start_writer, stop_writer, push, queue_to, queue_bound,
  queue_frames,
}
use ferngeist_acp_gateway.Session.Pipeline.{
  Conversation, Frame, forward, replied, route, restored_session, restore_replied, missed_result,
  keep_missed,
}
use ferngeist_acp_gateway.Session.Pipeline.Histories.{Event, attaches, binds, forwards, step, run}
use ferngeist_acp_gateway.Session.Pipeline.Missed.{forward-run-forward}

-- A codec that reads and writes nothing.
abbrev silent : Codec
silent = record {
  unmarshal = λ text. object Map.empty;
  marshal = λ m. none;
  quote = λ text. text;
  decode_text = λ o. "";
  decode_params = λ o. no_params;
  format_int = λ n. "1";
  trim_space = λ text. text;
}

abbrev no_texts : Texts
no_texts = record {
  stamp = λ line n. none;
  prompt_frame = λ session client n block. none;
  resumed_frame = λ id n more. "";
  cursor_text = λ cursor. "";
  already_loaded = λ text. false;
}

abbrev asked : PendingRequest
asked = record {
  gen = 1;
  client_id = "1";
  owner = "1/1";
  method = "session/prompt";
  prompt_session = "s1";
  prompt_client_id = "";
  started_at = 0;
  load_session = "";
}

abbrev finished : ProbeResult
finished = record {
  protocol_version = none;
  session_id = "";
  stop_reason = "end_turn";
  usage = none;
}

abbrev answer : Frame
answer = record {
  line = "done";
  probe = record {
    method = "";
    id = some "1";
    result = some finished;
    error = none;
    params = none;
  };
  is_ok = true;
  origin = some asked;
  out = "done" ∷ [];
  resumed = false;
}

-- The client that asked left again.
abbrev alone : Conversation
alone = record {
  pump = (detach 1 (bind 7 1 (attach new_pump)).0).0;
  request_ids = new_request_ids;
  acp = new_acp_state;
  recovery = new_load_recovery "e";
  results = record { results = Map.empty };
}

abbrev notice : String → TurnResult Usage → String
notice session res = res.stop_reason

-- The client comes back, and its first load fails.
abbrev loading : PendingRequest
loading = record asked {
  gen = 2;
  method = "session/load";
  prompt_session = "";
  load_session = "s1";
}

abbrev unloaded : Frame
unloaded = record {
  line = "failed";
  probe = record { method = ""; id = none; result = none; error = some "busy"; params = none };
  is_ok = true;
  origin = some loading;
  out = "failed" ∷ [];
  resumed = false;
}

abbrev loaded : Frame
loaded = record {
  line = "loaded";
  probe = record { method = ""; id = none; result = none; error = none; params = none };
  is_ok = true;
  origin = some loading;
  out = "loaded" ∷ [];
  resumed = false;
}

abbrev returning : List Event
returning = attaches ∷ binds 7 2 ∷ forwards 6_000_000 unloaded ∷ []

abbrev returned : Conversation
returned =
    run notice silent no_texts (forward notice silent no_texts 5_000_000 answer alone) returning

-- Opens what the stages do, for the run below.
pipeline_runs : Unit {0}
unfolding new_pump push queue_to queue_bound queue_frames attach bind detach start_writer
    stop_writer new_request_ids new_acp_state new_load_recovery record_line reply
    track_agent_request scope_elicitation restored_session restore_replied missed_result keep_missed
    store_turn_result replied route forward step run Map.empty Map.lookup Map.insert Map.delete
pipeline_runs = tt

forward-run-forward_example :
    let after = forward notice silent no_texts 7_000_000 loaded returned in
    (after.pump
      ≡ queue_bound
          ("end_turn"
            ∷ "loaded"
            ∷ (redeliver 2 "s1" [] (replied notice silent no_texts 7_000_000 loaded returned).0).1)
          returned.pump)
    × (Map.lookup "s1" after.results.results ≡ none)
unfolding pipeline_runs
forward-run-forward_example =
    forward-run-forward notice silent no_texts 5_000_000 7_000_000 answer loaded alone returning
      asked loading finished [] "loaded" refl refl refl refl
      (λ e. ground (arith, by_text.same_key_iff "s1" "")) refl
      (
        tt,
        (
          tt,
          (
            (λ origin e.
                (λ same. ground (arith, by_text.same_key_iff "s1" ""), inr (inr (refl, refl)))),
            tt,
          ),
        ),
      )
      refl refl refl refl refl (inr refl) refl
