-- ===== src/Session/AcpState/Histories.antt =====
-- Any sequence of frames that internal/session/acpstate.go observes, as the pipeline's stages of
-- internal/session/pipeline.go call it.
use ferngeist_acp_gateway.Prelude.{Bool, Option, List, [], ◌∷◌, String, by_text}
use ferngeist_acp_gateway.Session.Frames.{ClientFrame, FrameProbe}
use ferngeist_acp_gateway.Session.RequestIds.{PendingRequest}
use ferngeist_acp_gateway.Session.AcpState.{
  AcpState, InitializeResponse, observe_initialize, observe_session_id, bind_pending_cwd,
  accept_session, observe_inbound, observe_turn,
}

-- A frame of a client, or one of the agent with the request that it answers and whether it was
-- recovered.
pub data Event : Type 0 where
  reads : ClientFrame → Event
  hears : FrameProbe → String → Option PendingRequest → Bool → Event

-- The stages of the pipeline that keep this state, in its order.
unfoldable pub hear :
    (String → Option InitializeResponse)
    → FrameProbe
    → String
    → Option PendingRequest
    → Bool
    → AcpState
    → AcpState
unfolding observe_initialize observe_session_id bind_pending_cwd observe_turn accept_session
hear decode probe raw origin resumed s =
    accept_session origin resumed probe
      (observe_turn probe origin (
        bind_pending_cwd probe
          (observe_session_id probe (observe_initialize decode probe raw s)))).0

unfoldable pub step : (String → Option InitializeResponse) → AcpState → Event → AcpState
unfolding hear observe_inbound
step decode s (reads f) = observe_inbound f s
step decode s (hears probe raw origin resumed) = hear decode probe raw origin resumed s

unfoldable pub run : (String → Option InitializeResponse) → AcpState → List Event → AcpState
unfolding step
run decode s [] = s
run decode s (e ∷ es) = run decode (step decode s e) es
