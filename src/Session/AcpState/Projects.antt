-- ===== src/Session/AcpState/Projects.antt =====
-- The project of a session that a client opens, as internal/session/acpstate.go remembers it until
-- the agent names the session.
use ferngeist_acp_gateway.Prelude.{
  is_some, ◌≡◌, ◌≢◌, refl, ap, ◌∙◌, Bool, true, not, ◌&&◌, ◌||◌, Option, none, some, List, [], ◌∷◌,
  String, by_text, arith, All, Option-cases, inl, inr, ◌==◌, beq_of_ne, if-cases,
}
use ferngeist_acp_gateway.Map
use ferngeist_acp_gateway.Session.Frames.{ClientFrame, FrameProbe}
use ferngeist_acp_gateway.Session.RequestIds.{PendingRequest, loads}
use ferngeist_acp_gateway.Session.AcpState.{
  AcpState, InitializeResponse, cache_response, observe_initialize, observe_session_id, bind_found,
  bind_pending_cwd, accept_session, start_turn, name_session, open_project, observe_inbound,
  judge_turn, observe_turn, result_session, acp_cwd_for, text_of, has_version,
}
use ferngeist_acp_gateway.Session.AcpState.Histories.{Event, reads, hears, hear, step, run}

-- The frame neither answers the request nor opens a session under its ID.
abbrev pub Leaves : String → Event → Type 0
Leaves key (reads f) = f.id ≢ some key
Leaves key (hears probe raw origin resumed) = probe.id ≢ some key

-- What each stage does to the projects that wait.
observe_initialize-pending :
    (decode : String → Option InitializeResponse) (probe : FrameProbe) (raw : String) (s : AcpState)
    → (observe_initialize decode probe raw s).pending_cwd ≡ s.pending_cwd
unfolding observe_initialize cache_response
observe_initialize-pending decode probe raw s =
    if-cases (λ (x : AcpState). x.pending_cwd ≡ s.pending_cwd)
      (has_version probe && not (is_some s.init_response)) (λ q. cached (decode raw)) (λ q. refl)
  where
    cached :
        (typed : Option InitializeResponse)
        → (cache_response raw typed s).pending_cwd ≡ s.pending_cwd
    cached none = refl
    cached (some typed) = refl

observe_session_id-pending :
    (probe : FrameProbe) (s : AcpState) → (observe_session_id probe s).pending_cwd ≡ s.pending_cwd
unfolding observe_session_id
observe_session_id-pending probe s =
    if-cases (λ (x : AcpState). x.pending_cwd ≡ s.pending_cwd)
      ((s.session_id == "") && not (result_session probe == "")) (λ q. refl) (λ q. refl)

observe_turn-pending :
    (probe : FrameProbe) (origin : Option PendingRequest) (s : AcpState)
    → (observe_turn probe origin s).0.pending_cwd ≡ s.pending_cwd
unfolding observe_turn judge_turn
observe_turn-pending probe origin s = ground arith

accept_session-pending :
    (origin : Option PendingRequest) (resumed : Bool) (probe : FrameProbe) (s : AcpState)
    → (accept_session origin resumed probe s).pending_cwd ≡ s.pending_cwd
unfolding accept_session
accept_session-pending none resumed probe s = refl
accept_session-pending (some origin) resumed probe s =
    if-cases (λ (x : AcpState). x.pending_cwd ≡ s.pending_cwd) _ (λ q. refl) (λ q. refl)

bind_pending_cwd-pending :
    (key : String) (probe : FrameProbe) (s : AcpState)
    → probe.id ≢ some key
    → Map.lookup key (bind_pending_cwd probe s).pending_cwd ≡ Map.lookup key s.pending_cwd
unfolding bind_pending_cwd bind_found
bind_pending_cwd-pending key probe s other = elim (Option-cases probe.id) [
  | inl q ↦ rw q refl
  | inr (id, q) ↦ rw q (
      if-cases (λ (x : AcpState). Map.lookup key x.pending_cwd ≡ Map.lookup key s.pending_cwd)
        (probe.method == "")
        (λ e. found id (Map.lookup id s.pending_cwd) (λ e'. other (q ∙ ap some e'))) (λ e. refl))
]
  where
    found :
        (id : String) (o : Option String)
        → id ≢ key
        → Map.lookup key (bind_found probe id o s).pending_cwd ≡ Map.lookup key s.pending_cwd
    found id none ne = refl
    found id (some cwd) ne =
        if-cases (λ (x : AcpState). Map.lookup key x.pending_cwd ≡ Map.lookup key s.pending_cwd)
          (result_session probe == "") (λ e. Map.lookup-delete_ne key id s.pending_cwd ne)
          (λ e. Map.lookup-delete_ne key id s.pending_cwd ne)

hear-pending :
    (decode : String → Option InitializeResponse) (key : String) (probe : FrameProbe) (raw : String)
    (origin : Option PendingRequest) (resumed : Bool) (s : AcpState)
    → probe.id ≢ some key
    → Map.lookup key (hear decode probe raw origin resumed s).pending_cwd
      ≡ Map.lookup key s.pending_cwd
unfolding hear
hear-pending decode key probe raw origin resumed s other =
    let s1 = observe_initialize decode probe raw s in
    let s2 = observe_session_id probe s1 in
    let s3 = bind_pending_cwd probe s2 in
    ap (Map.lookup key) (
      accept_session-pending origin resumed probe (observe_turn probe origin s3).0
      ∙ observe_turn-pending probe origin s3)
    ∙ (bind_pending_cwd-pending key probe s2 other
        ∙ ap (Map.lookup key)
            (observe_session_id-pending probe s1 ∙ observe_initialize-pending decode probe raw s))

start_name-pending :
    (f : ClientFrame) (s : AcpState) → (name_session f (start_turn f s)).pending_cwd ≡ s.pending_cwd
unfolding start_turn name_session
start_name-pending f s = ground arith

open_project-pending :
    (key : String) (f : ClientFrame) (s : AcpState)
    → f.id ≢ some key
    → Map.lookup key (open_project f s).pending_cwd ≡ Map.lookup key s.pending_cwd
unfolding open_project
open_project-pending key f s other = elim (Option-cases f.id) [
  | inl q ↦ ground (arith, q)
  | inr (id, q) ↦
      let ne : id ≢ key = λ e. other (q ∙ ap some e) in
      ground (arith, q, Map.lookup-insert_ne key id f.params.cwd s.pending_cwd ne)
]

observe_inbound-pending :
    (key : String) (f : ClientFrame) (s : AcpState)
    → f.id ≢ some key
    → Map.lookup key (observe_inbound f s).pending_cwd ≡ Map.lookup key s.pending_cwd
unfolding observe_inbound
observe_inbound-pending key f s other =
    let named = name_session f (start_turn f s) in
    let same = ap (Map.lookup key) (start_name-pending f s) in
    if-cases (λ (x : AcpState). Map.lookup key x.pending_cwd ≡ Map.lookup key s.pending_cwd) _
      (λ q. open_project-pending key f named other ∙ same) (λ q. same)

run-pending :
    (decode : String → Option InitializeResponse) (key : String) (es : List Event) (s : AcpState)
    → All (Leaves key) es
    → Map.lookup key (run decode s es).pending_cwd ≡ Map.lookup key s.pending_cwd
unfolding run step
run-pending decode key [] s a = refl
run-pending decode key (reads f ∷ es) s a =
    run-pending decode key es (observe_inbound f s) a.1 ∙ observe_inbound-pending key f s a.0
run-pending decode key (hears probe raw origin resumed ∷ es) s a =
    run-pending decode key es (hear decode probe raw origin resumed s) a.1
    ∙ hear-pending decode key probe raw origin resumed s a.0

-- The project of a new session waits under the request's ID.
opened-pending :
    (f : ClientFrame) (s : AcpState) (key : String)
    → f.method ≡ "session/new"
    → f.id ≡ some key
    → f.params.cwd ≢ ""
    → Map.lookup key (observe_inbound f s).pending_cwd ≡ some f.params.cwd
unfolding observe_inbound open_project
opened-pending f s key m i c =
    let named = name_session f (start_turn f s) in
    let new : (f.method == "session/new") ≡ true =
      ground (arith, m, by_text.same_key_iff f.method "session/new") in
    if-cases (λ (x : AcpState). Map.lookup key x.pending_cwd ≡ some f.params.cwd)
      (((f.method == "session/new") || loads f.method) && not (f.params.cwd == ""))
      (λ q. rw (new, i, open_project) (Map.lookup-insert_self key f.params.cwd named.pending_cwd))
      (λ q. absurd (ground (arith, new, beq_of_ne f.params.cwd "" c)))

bind_reply :
    (probe : FrameProbe) (key : String) (o : Option String) (s : AcpState)
    → probe.id ≡ some key
    → (probe.method == "") ≡ true
    → Map.lookup key s.pending_cwd ≡ o
    → bind_pending_cwd probe s ≡ bind_found probe key o s
unfolding bind_pending_cwd
bind_reply probe key o s i m q = rw (i, m, q, bind_pending_cwd) refl

-- A session that a client opens with a project keeps it, once the agent answers with the session's ID:
-- over any frames in between that neither answer the request nor carry its ID.
pub open-run-bind :
    (decode : String → Option InitializeResponse) (f : ClientFrame) (es : List Event) (s : AcpState)
    (key : String) (probe : FrameProbe)
    → f.method ≡ "session/new"
    → f.id ≡ some key
    → f.params.cwd ≢ ""
    → All (Leaves key) es
    → probe.method ≡ ""
    → probe.id ≡ some key
    → result_session probe ≢ ""
    → let bound = bind_pending_cwd probe (run decode (observe_inbound f s) es) in
      (acp_cwd_for (result_session probe) bound ≡ f.params.cwd)
      × (Map.lookup key bound.pending_cwd ≡ none)
unfolding bind_pending_cwd bind_found
open-run-bind decode f es s key probe m i c a reply probe_id named =
    let s' = run decode (observe_inbound f s) es in
    let waits = run-pending decode key es (observe_inbound f s) a ∙ opened-pending f s key m i c in
    let is_reply : (probe.method == "") ≡ true =
      ground (arith, reply, by_text.same_key_iff probe.method "") in
    let is_named = beq_of_ne (result_session probe) "" named in
    let binding = bind_reply probe key (some f.params.cwd) s' probe_id is_reply waits in
    (
      ap (acp_cwd_for (result_session probe)) binding
          ∙ rw (is_named, bind_found)
              (ap text_of
                (Map.lookup-insert_self (result_session probe) f.params.cwd s'.cwd_by_session)),
      ap (λ x. Map.lookup key x.pending_cwd) binding
          ∙ rw (is_named, bind_found) (Map.lookup-delete_self key s'.pending_cwd),
    )
