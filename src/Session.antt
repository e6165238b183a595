-- ===== src/Session.antt =====
-- internal/session: durable agent sessions: the attach tokens (token.go), the prompts that reached
-- the agent (prompt_ids.go), the results of turns (turn_result.go), the frames (pipeline.go), the
-- request IDs (request_ids.go), the state of the conversation (acpstate.go), the buffered updates
-- (load_recovery.go), the client side of the pump (pump.go) and the stages over all of them
-- (pipeline.go).
pub mod Token
pub mod Prompts
pub mod TurnResults
pub mod Frames
pub mod RequestIds
pub mod AcpState
pub mod LoadRecovery
pub mod Pump
pub mod Pipeline
