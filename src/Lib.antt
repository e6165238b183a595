-- ===== src/Lib.antt =====
-- A model of the Ferngeist gateway (Go), the daemon that lets a paired phone drive the coding agents
-- of a computer, and the theorems about it.
--
-- The gateway pairs a device (internal/pairing), whose requests it serves over HTTP
-- (internal/api). A device opens a chat, a session (internal/session), which attaches over a
-- WebSocket with a single-use token, and it watches the turns of all chats through a feed
-- (internal/turns). The pairings are rows of a database (internal/storage), and the quotas of the
-- agents' providers are cached (internal/quota).
--
-- Which file models which part:
--   Storage/Pairings       internal/storage/pairing.go: the table of pairings; a store is its rows
--                          and the failures that the next transactions meet.
--   Pairing                internal/pairing/service.go. Types has the records, Locked the methods
--                          that run under the lock, Challenges, Completion, Credentials and Refresh
--                          the public methods, Startup the constructor with loadPersistedCredentials.
--                          Histories runs any sequence of calls; the other modules are proofs.
--   Session/Token          internal/session/token.go: TokenService.
--   Session/Prompts        internal/session/prompt_ids.go: deliveredPrompts, dropDuplicatePrompt.
--   Session/TurnResults    internal/session/turn_result.go: the results kept for a missed turn.
--   Session/Frames         internal/session/pipeline.go: clientFrame, frameProbe and their parse, with the
--                          helpers of load_recovery.go and request_ids.go that rewrite a frame.
--   Session/RequestIds     internal/session/request_ids.go: requestIDs. Replies has scopeElicitation and
--                          reply, LiveTurns has liveTurns, Answers says what a
--                          reply is read as; the other modules are proofs.
--   Session/AcpState       internal/session/acpstate.go: acpState; Histories runs the stages of
--                          pipeline.go that keep it.
--   Session/LoadRecovery   internal/session/load_recovery.go: the log of one session, and in Recovery
--                          LoadRecovery over all sessions; the other modules are proofs.
--   Session/Pump           internal/session/pump.go: the client side of StdioPump.
--   Session/Pipeline       internal/session/pipeline.go: forward, restoreLocked and prepareOutbound over
--                          those parts, for a pump with its load recovery; Histories runs any
--                          sequence of stages, and Kept and Missed are proofs.
--   Turns/Types, Store     internal/turns/store.go: Outcome and Store.
--   Turns/Diff, Feed       internal/turns/feed.go: diffTurns, and a step for each case of Feed.Run.
--   Api/Attempts           internal/api/pairing_attempt.go, and handlePairComplete of
--                          internal/api/pairing_handlers.go around the tracker of failures, as the two
--                          steps in which it locks the tracker; Requests interleaves those of requests in
--                          parallel, and Budget, Rooms, Moves and Lockout are proofs.
--   Api/Proof              internal/api/proof.go: verifyCredentialProof and the tracker of nonces.
--   Quota/Cache            internal/quota/cache.go: Cache; Polling runs any refreshes.
--   Map                    Go's maps, as association lists without a repeated key, behind laws; the
--                          order of an iteration is not specified, and the theorems do not use it.
--   Prelude                shared names, tests on numbers, equality of keys, results.
--   PairingTests, TokenTests, SessionTests, ConversationTests, RecoveryTests, PumpTests,
--   PipelineTests, TurnTests, ApiTests, QuotaTests
--                          concrete runs.
--
-- A Go method is a function of the same name in snake case that takes the state and gives the new
-- state with the results. A method that locks a mutex is one step, so a history of calls is a list
-- of steps. Readings of the clock and random texts are arguments, hashes and encodings are
-- parameters (Pairing.Types.Libraries, Api.Proof.ProofLibraries, Session.Frames.Codec,
-- Session.LoadRecovery.Recovery.Texts, and `result_frame` in Session/Pipeline). Times and durations
-- are nanoseconds since Go's zero time as natural numbers (in Api/Proof since the Unix epoch), where
-- the zero time.Time is 0 or none; durations that Go tests for a sign are integers. No loop needs
-- fuel: every loop runs over a list. Counters of the statistics do not wrap, which Go's 64-bit ones
-- do after 2 ^ 63 events.
--
-- Not modelled: goroutines, channels and contexts but for what a step of the feed does with a queue;
-- logging; JSON, SQL and HTTP; the rate limiter of internal/api, which counts in floating point; the
-- lifecycle of sessions, the supervisor of agents, the listings of projects, the workspaces,
-- updates, the providers of quotas and push notifications.
pub mod Prelude
pub mod Map
pub mod Storage
pub mod Pairing
mod PairingTests
mod TokenTests
mod ApiTests
mod SessionTests
mod TurnTests
mod ConversationTests
mod RecoveryTests
mod PumpTests
mod PipelineTests
mod QuotaTests
pub mod Session
pub mod Api
pub mod Turns
pub mod Quota
