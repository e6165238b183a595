-- ===== src/Session/Pipeline/Histories.antt =====
-- Any sequence of the stages of internal/session/pipeline.go and of the moves of connections of
-- internal/session/pump.go.
use ferngeist_acp_gateway.Prelude.{ℕ, List, [], ◌∷◌, String}
use ferngeist_acp_gateway.Session.Frames.{Codec, ClientFrame, Usage}
use ferngeist_acp_gateway.Session.TurnResults.{TurnResult}
use ferngeist_acp_gateway.Session.LoadRecovery.Recovery.{Texts}
use ferngeist_acp_gateway.Session.Pump.{attach, bind, detach}
use ferngeist_acp_gateway.Session.Pipeline.{Conversation, Frame, forward, prepare_outbound}

pub data Event : Type 0 where
  forwards : ℕ → Frame → Event
  prepares : ℕ → ℕ → ClientFrame → List String → Event
  attaches : Event
  binds : ℕ → ℕ → Event
  detaches : ℕ → Event

module _ (result_frame : String → TurnResult Usage → String) (codec : Codec) (texts : Texts) where
  unfoldable pub step : Conversation → Event → Conversation
  step c (forwards now f) = forward result_frame codec texts now f c
  step c (prepares gen now f blocks) =
      (prepare_outbound result_frame codec texts gen now f blocks c).0
  step c attaches = record c { pump = attach c.pump }
  step c (binds conn gen) = record c { pump = (bind conn gen c.pump).0 }
  step c (detaches gen) = record c { pump = (detach gen c.pump).0 }

  unfoldable pub run : Conversation → List Event → Conversation
  run c [] = c
  run c (e ∷ es) = run (step c e) es
