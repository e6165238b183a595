-- ===== src/Session/AcpState/Swallowed.antt =====
-- The detection of failures that an agent swallows, in internal/session/acpstate.go: a turn is judged
-- once, by whether it showed anything since its prompt.
use ferngeist_acp_gateway.Prelude.{
  is_some, ℕ, suc, ◌+◌, ◌≤◌, ◌≡◌, ◌≢◌, refl, ap, ◌∙◌, Bool, true, false, not, ◌&&◌, ◌||◌, Option,
  none, some, List, [], ◌∷◌, String, by_text, arith, All, ◌==◌, if-cases, if◌then◌else◌,
}
use ferngeist_acp_gateway.Session.Frames.{ClientFrame, FrameProbe, ProbeResult}
use ferngeist_acp_gateway.Session.RequestIds.{PendingRequest, loads}
use ferngeist_acp_gateway.Session.AcpState.{
  AcpState, new_acp_state, InitializeResponse, cache_response, observe_initialize,
  observe_session_id, bind_found, bind_pending_cwd, accept_session, start_turn, name_session,
  open_project, observe_inbound, judge_turn, observe_turn, result_session, update_of, is_content,
  is_used, is_other_reply, has_version,
}
use ferngeist_acp_gateway.Session.AcpState.Histories.{Event, reads, hears, hear, step, run}

-- What the turn's judgement reads of the state.
abbrev turn : AcpState → Bool × Bool
turn s = (s.turn_active, s.turn_had_content)

observe_initialize-turn :
    (decode : String → Option InitializeResponse) (probe : FrameProbe) (raw : String) (s : AcpState)
    → turn (observe_initialize decode probe raw s) ≡ turn s
unfolding observe_initialize cache_response
observe_initialize-turn decode probe raw s =
    if-cases (λ (x : AcpState). turn x ≡ turn s)
      (has_version probe && not (is_some s.init_response)) (λ q. cached (decode raw)) (λ q. refl)
  where
    cached : (typed : Option InitializeResponse) → turn (cache_response raw typed s) ≡ turn s
    cached none = refl
    cached (some typed) = refl

observe_session_id-turn :
    (probe : FrameProbe) (s : AcpState) → turn (observe_session_id probe s) ≡ turn s
unfolding observe_session_id
observe_session_id-turn probe s =
    if-cases (λ (x : AcpState). turn x ≡ turn s)
      ((s.session_id == "") && not (result_session probe == "")) (λ q. refl) (λ q. refl)

bind_pending_cwd-turn :
    (probe : FrameProbe) (s : AcpState) → turn (bind_pending_cwd probe s) ≡ turn s
unfolding bind_pending_cwd bind_found
bind_pending_cwd-turn probe s = ground arith

accept_session-turn :
    (origin : Option PendingRequest) (resumed : Bool) (probe : FrameProbe) (s : AcpState)
    → turn (accept_session origin resumed probe s) ≡ turn s
unfolding accept_session
accept_session-turn none resumed probe s = refl
accept_session-turn (some origin) resumed probe s =
    if-cases (λ (x : AcpState). turn x ≡ turn s) _ (λ q. refl) (λ q. refl)

open_project-turn : (f : ClientFrame) (s : AcpState) → turn (open_project f s) ≡ turn s
unfolding open_project
open_project-turn f s = ground arith

start_name-turn :
    (f : ClientFrame) (s : AcpState)
    → turn (name_session f (start_turn f s))
      ≡ (if f.method == "session/prompt" then (true, false) else turn s)
unfolding start_turn name_session
start_name-turn f s = ground arith

observe_inbound-turn :
    (f : ClientFrame) (s : AcpState)
    → turn (observe_inbound f s) ≡ (if f.method == "session/prompt" then (true, false) else turn s)
unfolding observe_inbound
observe_inbound-turn f s =
    if-cases
      (λ (x : AcpState). turn x ≡ (if f.method == "session/prompt" then (true, false) else turn s))
      (((f.method == "session/new") || loads f.method) && not (f.params.cwd == ""))
      (λ q. open_project-turn f (name_session f (start_turn f s)) ∙ start_name-turn f s)
      (λ q. start_name-turn f s)

-- The state in which the agent's frame is judged.
abbrev before : (String → Option InitializeResponse) → FrameProbe → String → AcpState → AcpState
before decode probe raw s =
    bind_pending_cwd probe (observe_session_id probe (observe_initialize decode probe raw s))

before-turn :
    (decode : String → Option InitializeResponse) (probe : FrameProbe) (raw : String) (s : AcpState)
    → turn (before decode probe raw s) ≡ turn s
before-turn decode probe raw s =
    let s1 = observe_initialize decode probe raw s in
    bind_pending_cwd-turn probe (observe_session_id probe s1)
    ∙ (observe_session_id-turn probe s1 ∙ observe_initialize-turn decode probe raw s)

hear-turn :
    (decode : String → Option InitializeResponse) (probe : FrameProbe) (raw : String)
    (origin : Option PendingRequest) (resumed : Bool) (s : AcpState)
    → turn (hear decode probe raw origin resumed s)
      ≡ turn (observe_turn probe origin (before decode probe raw s)).0
unfolding hear
hear-turn decode probe raw origin resumed s = accept_session-turn origin resumed probe _

-- The answer of `observeTurn` in the pipeline: the failure is flagged.
unfoldable pub is_flagged : (String → Option InitializeResponse) → AcpState → Event → Bool
is_flagged decode s (reads f) = false
is_flagged decode s (hears probe raw origin resumed) =
    (observe_turn probe origin (before decode probe raw s)).1

unfoldable pub flags : (String → Option InitializeResponse) → AcpState → List Event → ℕ
flags decode s [] = 0
flags decode s (e ∷ es) =
    let rest = flags decode (step decode s e) es in if is_flagged decode s e then suc rest else rest

unfoldable pub prompts : List Event → ℕ
prompts [] = 0
prompts (reads f ∷ es) =
    let rest = prompts es in if f.method == "session/prompt" then suc rest else rest
prompts (hears probe raw origin resumed ∷ es) = prompts es

observe_turn-flag :
    (probe : FrameProbe) (origin : Option PendingRequest) (s : AcpState)
    → (observe_turn probe origin s).1 ≡ true
    → (s.turn_active ≡ true) × ((observe_turn probe origin s).0.turn_active ≡ false)
unfolding observe_turn judge_turn
observe_turn-flag probe origin s h = ground arith

observe_turn-active :
    (probe : FrameProbe) (origin : Option PendingRequest) (s : AcpState)
    → (observe_turn probe origin s).0.turn_active ≡ true
    → s.turn_active ≡ true
unfolding observe_turn judge_turn
observe_turn-active probe origin s h = ground arith

abbrev count : Bool → ℕ
count b = if b then 1 else 0

flags-le :
    (decode : String → Option InitializeResponse) (es : List Event) (s : AcpState)
    → flags decode s es ≤ prompts es + count s.turn_active
unfolding flags prompts is_flagged step
flags-le decode [] s = omega arith
flags-le decode (reads f ∷ es) s =
    let rest = flags-le decode es (observe_inbound f s) in
    let active = ap (λ (t : Bool × Bool). t.0) (observe_inbound-turn f s) in ground arith
flags-le decode (hears probe raw origin resumed ∷ es) s =
    let rest = flags-le decode es (hear decode probe raw origin resumed s) in
    let after = ap (λ (t : Bool × Bool). t.0) (hear-turn decode probe raw origin resumed s) in
    let same = ap (λ (t : Bool × Bool). t.0) (before-turn decode probe raw s) in
    ground (
      arith,
      observe_turn-flag probe origin (before decode probe raw s),
      observe_turn-active probe origin (before decode probe raw s),
    )

-- Over any history of frames, at most as many turns are flagged as failed as prompts were sent.
pub flags-le-prompts :
    (decode : String → Option InitializeResponse) (es : List Event)
    → flags decode new_acp_state es ≤ prompts es
unfolding new_acp_state
flags-le-prompts decode es = omega (arith, flags-le decode es new_acp_state)

-- The frame is the result of a prompt, or could be.
abbrev pub is_judged : FrameProbe → Option PendingRequest → Bool
is_judged probe origin =
    not (is_some (update_of probe))
    && (is_some probe.result
        && not (is_other_reply origin || (not (is_some probe.id) || is_some probe.error)))

-- The frame neither ends the turn nor starts another.
abbrev pub IsDuring : Event → Type 0
IsDuring (reads f) = f.method ≢ "session/prompt"
IsDuring (hears probe raw origin resumed) = is_judged probe origin ≡ false

-- Some frame shows content.
unfoldable pub shows : List Event → Bool
shows [] = false
shows (reads f ∷ es) = shows es
shows (hears probe raw origin resumed ∷ es) =
    let rest = shows es in
    elim (update_of probe) [ none ↦ rest | some update ↦ is_content update || rest ]

observe_turn-during :
    (probe : FrameProbe) (origin : Option PendingRequest) (s : AcpState)
    → is_judged probe origin ≡ false
    → turn (observe_turn probe origin s).0 ≡ elim (update_of probe) [
      | none ↦ turn s
      | some update ↦ (s.turn_active, is_content update || s.turn_had_content)
    ]
unfolding observe_turn judge_turn
observe_turn-during probe origin s h = ground arith

run-during :
    (decode : String → Option InitializeResponse) (es : List Event) (s : AcpState)
    → All IsDuring es
    → turn (run decode s es) ≡ (s.turn_active, shows es || s.turn_had_content)
unfolding run step shows
run-during decode [] s a = refl
run-during decode (reads f ∷ es) s a =
    let other : (f.method == "session/prompt") ≡ false =
      ground (arith, a.0, by_text.same_key_iff f.method "session/prompt") in
    let rest = run-during decode es (observe_inbound f s) a.1 in
    let same = observe_inbound-turn f s in ground arith
run-during decode (hears probe raw origin resumed ∷ es) s a =
    let rest = run-during decode es (hear decode probe raw origin resumed s) a.1 in
    let after = hear-turn decode probe raw origin resumed s in
    let seen = observe_turn-during probe origin (before decode probe raw s) a.0 in
    let same = before-turn decode probe raw s in ground arith

-- A prompt's result is flagged exactly if it ends the turn with `end_turn` and no usage and no frame
-- since the prompt showed content, over any frames in between that neither end the turn nor start
-- another.
pub prompt-run-flagged :
    (decode : String → Option InitializeResponse) (f : ClientFrame) (es : List Event) (s : AcpState)
    (probe : FrameProbe) (raw : String) (origin : Option PendingRequest) (resumed : Bool)
    (result : ProbeResult)
    → f.method ≡ "session/prompt"
    → All IsDuring es
    → is_judged probe origin ≡ true
    → probe.result ≡ some result
    → is_flagged decode (run decode (observe_inbound f s) es) (hears probe raw origin resumed)
      ≡ ((result.stop_reason == "end_turn") && (not (is_used result.usage) && not (shows es)))
unfolding is_flagged observe_turn judge_turn
prompt-run-flagged decode f es s probe raw origin resumed result m a judged has =
    let prompt : (f.method == "session/prompt") ≡ true =
      ground (arith, m, by_text.same_key_iff f.method "session/prompt") in
    let started = observe_inbound-turn f s in
    let during = run-during decode es (observe_inbound f s) a in
    let same = before-turn decode probe raw (run decode (observe_inbound f s) es) in ground arith
