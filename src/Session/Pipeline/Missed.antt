-- ===== src/Session/Pipeline/Missed.antt =====
-- A turn that ends while nobody is attached: internal/session/pipeline.go tells its result once, with the
-- next reply that restores its session.
use ferngeist_acp_gateway.Prelude.{
  ℕ, ◌≡◌, ◌≢◌, refl, ap, ◌∙◌, false, none, some, List, [], ◌∷◌, ◌++◌, String, by_number, by_text,
  arith, if-cases, is_empty, is_empty-append, beq_of_ne, true, ◌⊎◌, inl, inr, Option-cases, All,
}
use ferngeist_acp_gateway.Map
use ferngeist_acp_gateway.Map.{Map}
use ferngeist_acp_gateway.Session.Frames.{Codec, FrameProbe, ProbeResult, Usage}
use ferngeist_acp_gateway.Session.RequestIds.{PendingRequest, redeliver, loads, RequestIds}
use ferngeist_acp_gateway.Session.RequestIds.Replies.{scope_elicitation}
use ferngeist_acp_gateway.Session.TurnResults.{TurnResult, store_turn_result, take_turn_result}
use ferngeist_acp_gateway.Session.LoadRecovery.Recovery.{Texts}
use ferngeist_acp_gateway.Session.Pump.{Pump, queue_bound}
use ferngeist_acp_gateway.Session.Pipeline.{
  Conversation, Frame, is_bound, before_last, with_result, restore_locked, missed_result,
  keep_missed, restored_session, restore_replied, route, forward, replied,
}
use ferngeist_acp_gateway.Session.Pipeline.Histories.{Event, run}
use ferngeist_acp_gateway.Session.Pipeline.Kept.{
  result_of, Leaves, missed_result-some, restore_replied-keeps, run-keeps,
}

before_last-append :
    (frame reply : String) (l rest : List String)
    → before_last frame (l ++ reply ∷ []) rest ≡ l ++ frame ∷ reply ∷ rest
unfolding before_last
before_last-append frame reply [] rest = refl
before_last-append frame reply (x ∷ []) rest = refl
before_last-append frame reply (x ∷ y ∷ l) rest =
    ap (λ t. x ∷ t) (before_last-append frame reply (y ∷ l) rest)

module _ (result_frame : String → TurnResult Usage → String) where
  restore_found :
      (session_id : String) (l : List String) (reply : String) (c : Conversation)
      (res : TurnResult Usage)
      → Map.lookup session_id c.results.results ≡ some res
      → ((restore_locked result_frame session_id (l ++ reply ∷ []) c).1
          ≡ l
            ++ result_frame session_id res
              ∷ reply
              ∷ (redeliver c.pump.conn_gen session_id [] c.request_ids).1)
        × (Map.lookup session_id
              (restore_locked result_frame session_id (l ++ reply ∷ []) c).0.results.results
            ≡ none)
  unfolding restore_locked take_turn_result with_result
  restore_found session_id l reply c res found =
      let out = l ++ reply ∷ [] in
      let requests = (redeliver c.pump.conn_gen session_id [] c.request_ids).1 in
      if-cases
        (λ (x : Conversation × List String).
          (x.1 ≡ l ++ result_frame session_id res ∷ reply ∷ requests)
          × (Map.lookup session_id x.0.results.results ≡ none))
        (is_empty out) (λ t. absurd (ground (arith, is_empty-append l reply)))
        (λ t. (
          ap (with_result result_frame session_id out requests) found
              ∙ before_last-append (result_frame session_id res) reply l requests,
          ground (arith, found, Map.lookup-delete_self session_id c.results.results),
        ))

  module _ (codec : Codec) (texts : Texts) where
    -- A reply that restores its session has the kept result of it before its last frame.
    restored-some :
        (f : Frame) (p : Pump) (asked : PendingRequest)
        → f.origin ≡ some asked
        → loads asked.method ≡ true
        → asked.gen ≡ p.conn_gen
        → is_bound p ≡ true
        → (f.resumed ≡ true) ⊎ (f.probe.error ≡ none)
        → restored_session f p ≡ some asked.load_session
    unfolding restored_session
    restored-some f p asked o m g b (inl done) =
        rw (o, m, (by_number.same_key_iff asked.gen p.conn_gen).1 g, b, done) refl
    restored-some f p asked o m g b (inr done) =
        rw (o, m, (by_number.same_key_iff asked.gen p.conn_gen).1 g, b, done) (ground arith)

    scoped :
        (gen : ℕ) (probe : FrameProbe) (l rest : List String) (x y : String) (r : RequestIds)
        → scope_elicitation codec gen probe (l ++ x ∷ y ∷ rest) r ≡ l ++ x ∷ y ∷ rest
    unfolding scope_elicitation
    scoped gen probe [] rest x y r = refl
    scoped gen probe (z ∷ []) rest x y r = refl
    scoped gen probe (z ∷ w ∷ l) rest x y r = refl

    bound_missed :
        (now : ℕ) (f : Frame) (p : Pump) (asked : PendingRequest)
        → f.origin ≡ some asked
        → is_bound p ≡ true
        → missed_result now f.probe f.origin p ≡ none
    unfolding missed_result
    bound_missed now f p asked o b = elim (Option-cases f.probe.result) [
      | inl q ↦ rw (o, q) refl
      | inr (result, q) ↦ rw (o, q, b) refl
    ]

    -- The frames of a reply that restores a session whose result is kept, and what stays of the result.
    route_restored :
        (now : ℕ) (g : Frame) (c : Conversation) (s : String) (res : TurnResult Usage)
        (l : List String) (last : String)
        → restored_session g c.pump ≡ some s
        → missed_result now g.probe g.origin c.pump ≡ none
        → Map.lookup s c.results.results ≡ some res
        → (replied result_frame codec texts now g c).1 ≡ l ++ last ∷ []
        → let requests =
            (redeliver c.pump.conn_gen s [] (replied result_frame codec texts now g c).0).1 in
          let routed = route result_frame codec texts now g c in
          (routed.1 ≡ l ++ result_frame s res ∷ last ∷ requests)
          × (Map.lookup s routed.0.results.results ≡ none)
    unfolding route restore_replied keep_missed
    route_restored now g c s res l last restores none_missed found frames =
        rw (restores, none_missed, frames) (restore_found s l last _ res found)

    -- A reply to a client that is not there restores nothing.
    unbound :
        (f : Frame) (p : Pump) (id : String) → is_bound p ≡ false → restored_session f p ≢ some id
    unfolding restored_session
    unbound f p id h e = ground arith

    forward-kept :
        (now : ℕ) (f : Frame) (c : Conversation) (origin : PendingRequest) (result : ProbeResult)
        → is_bound c.pump ≡ false
        → f.origin ≡ some origin
        → origin.method ≡ "session/prompt"
        → origin.gen ≡ c.pump.conn_gen
        → origin.prompt_session ≢ ""
        → f.probe.result ≡ some result
        → Map.lookup origin.prompt_session
            (forward result_frame codec texts now f c).results.results
          ≡ some (result_of now origin result)
    unfolding forward route store_turn_result keep_missed
    forward-kept now f c origin result away is_reply m g named r =
        restore_replied-keeps result_frame origin.prompt_session (restored_session f c.pump) _ _
          (λ id h. absurd (unbound f c.pump id away h))
        ∙ (ap (λ o. Map.lookup origin.prompt_session (keep_missed o c.results).results)
              (missed_result-some now f.probe f.origin origin result c.pump away is_reply m g r)
            ∙ rw (beq_of_ne origin.prompt_session "" named, store_turn_result)
                (Map.lookup-insert_self origin.prompt_session (result_of now origin result)
                  c.results.results))

    pub forward-run-forward :
        (now later : ℕ) (f g : Frame) (c : Conversation) (between : List Event)
        (origin asked : PendingRequest) (result : ProbeResult) (l : List String) (last : String)
        → is_bound c.pump ≡ false
        → f.origin ≡ some origin
        → origin.method ≡ "session/prompt"
        → origin.gen ≡ c.pump.conn_gen
        → origin.prompt_session ≢ ""
        → f.probe.result ≡ some result
        → All (Leaves origin.prompt_session) between
        → let back =
            run result_frame codec texts (forward result_frame codec texts now f c) between in
          is_bound back.pump ≡ true
          → g.origin ≡ some asked
          → loads asked.method ≡ true
          → asked.gen ≡ back.pump.conn_gen
          → asked.load_session ≡ origin.prompt_session
          → (g.resumed ≡ true) ⊎ (g.probe.error ≡ none)
          → (replied result_frame codec texts later g back).1 ≡ l ++ last ∷ []
          → let told = result_frame origin.prompt_session (result_of now origin result) in
            let requests =
              (redeliver back.pump.conn_gen origin.prompt_session []
                (replied result_frame codec texts later g back).0).1 in
            let after = forward result_frame codec texts later g back in
            (after.pump ≡ queue_bound (l ++ told ∷ last ∷ requests) back.pump)
            × (Map.lookup origin.prompt_session after.results.results ≡ none)
    unfolding forward
    forward-run-forward now later f g c between origin asked result l last away is_reply m gen named
          r leaves bound asks load own same restores frames =
        let s = origin.prompt_session in
        let first = forward result_frame codec texts now f c in
        let back = run result_frame codec texts first between in
        let found =
          run-keeps result_frame codec texts s first between leaves
          ∙ forward-kept now f c origin result away is_reply m gen named r in
        let restored =
          restored-some g back.pump asked asks load own bound restores ∙ ap (λ x. some x) same in
        let (sent, gone) =
          route_restored later g back s (result_of now origin result) l last restored
            (bound_missed later g back.pump asked asks bound) found frames in
        (
          rw (bound, sent)
              (ap (λ x. queue_bound x back.pump) (scoped back.pump.conn_gen g.probe l _ _ last _)),
          gone,
        )
