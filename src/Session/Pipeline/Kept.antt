-- ===== src/Session/Pipeline/Kept.antt =====
-- The kept result of a turn in internal/session/pipeline.go: what leaves it over any stages.
use ferngeist_acp_gateway.Prelude.{
  ℕ, ◌-◌, ◌/◌, ◌≡◌, ◌≢◌, refl, ◌∙◌, false, Option, none, some, List, [], ◌∷◌, String, by_number,
  by_text, arith, if-cases, ◌==◌, ◌&&◌, not, sym, beq→eq, is_some, true, ◌⊎◌, inl, inr,
  Option-cases, All,
}
use ferngeist_acp_gateway.Prelude.Int.{pos}
use ferngeist_acp_gateway.Map
use ferngeist_acp_gateway.Map.{Map}
use ferngeist_acp_gateway.Session.Frames.{Codec, ClientFrame, FrameProbe, ProbeResult, Usage}
use ferngeist_acp_gateway.Session.RequestIds.{
  PendingRequest, loads, outbound, outbound_fields, with_id, retarget_cancel, RequestIds,
}
use ferngeist_acp_gateway.Session.TurnResults.{
  TurnResult, TurnResults, clear_turn_result, store_turn_result, take_turn_result,
}
use ferngeist_acp_gateway.Session.LoadRecovery.Recovery.{Texts}
use ferngeist_acp_gateway.Session.Pump.{Pump}
use ferngeist_acp_gateway.Session.Pipeline.{
  Conversation, Frame, is_bound, restore_locked, missed_result, keep_missed, restored_session,
  restore_replied, route, forward, prepare_outbound,
}
use ferngeist_acp_gateway.Session.Pipeline.Histories.{
  Event, forwards, prepares, attaches, binds, detaches, step, run,
}

-- The frame neither answers a prompt of the session nor restores the session.
abbrev pub Spares : String → Frame → Type 0
Spares s f =
    (origin : PendingRequest)
    → f.origin ≡ some origin
    → (origin.prompt_session ≢ s)
      × ((loads origin.method ≡ false)
          ⊎ (origin.load_session ≢ s)
          ⊎ ((f.resumed ≡ false) × (is_some f.probe.error ≡ true)))

-- The event leaves the kept result of the session: no prompt of it is sent either.
abbrev pub Leaves : String → Event → Type 0
Leaves s (forwards now f) = Spares s f
Leaves s (prepares gen now f blocks) = f.method ≡ "session/prompt" → f.params.session_id ≢ s
Leaves s attaches = Unit {0}
Leaves s (binds conn gen) = Unit {0}
Leaves s (detaches gen) = Unit {0}

-- The result of the prompt that the frame answers.
abbrev pub result_of : ℕ → PendingRequest → ProbeResult → TurnResult Usage
result_of now origin result = record {
  stop_reason = result.stop_reason;
  usage = result.usage;
  duration_ms = pos ((now - origin.started_at) / 1_000_000);
}

pub missed_result-some :
    (now : ℕ) (probe : FrameProbe) (o : Option PendingRequest) (origin : PendingRequest)
    (result : ProbeResult) (p : Pump)
    → is_bound p ≡ false
    → o ≡ some origin
    → origin.method ≡ "session/prompt"
    → origin.gen ≡ p.conn_gen
    → probe.result ≡ some result
    → missed_result now probe o p ≡ some (origin.prompt_session, result_of now origin result)
unfolding missed_result
missed_result-some now probe none origin result p h e m g r = absurd (ground arith)
missed_result-some now probe (some o) origin result p h e m g r =
    ground (
      arith,
      by_text.same_key_iff o.method "session/prompt",
      by_number.same_key_iff o.gen p.conn_gen,
    )

keep_missed-keeps :
    (s : String) (o : Option (String × TurnResult Usage)) (results : TurnResults Usage)
    → ((e : String × TurnResult Usage) → o ≡ some e → e.0 ≢ s)
    → Map.lookup s (keep_missed o results).results ≡ Map.lookup s results.results
unfolding keep_missed store_turn_result
keep_missed-keeps s none results other = refl
keep_missed-keeps s (some (id, res)) results other =
    ground (arith, Map.lookup-insert_ne s id res results.results (other (id, res) refl))

missed_result-session :
    (now : ℕ) (probe : FrameProbe) (origin : PendingRequest) (p : Pump)
    (e : String × TurnResult Usage)
    → missed_result now probe (some origin) p ≡ some e
    → e.0 ≡ origin.prompt_session
unfolding missed_result
missed_result-session now probe origin p e h = elim (Option-cases probe.result) [
  | inl q ↦ absurd (ground (arith, q))
  | inr (result, q) ↦
      if-cases (λ o. o ≡ some e → e.0 ≡ origin.prompt_session)
        (not (is_bound p) && ((origin.method == "session/prompt") && (origin.gen == p.conn_gen)))
        (λ t h'. ground arith) (λ t h'. absurd (ground arith)) (rw q at h)
]

Spares-missed :
    (s : String) (now : ℕ) (f : Frame) (p : Pump) (results : TurnResults Usage)
    → Spares s f
    → Map.lookup s (keep_missed (missed_result now f.probe f.origin p) results).results
      ≡ Map.lookup s results.results
unfolding missed_result keep_missed
Spares-missed s now f p results spares = elim (Option-cases f.origin) [
  | inl q ↦ rw q refl
  | inr (origin, q) ↦ rw q (
      keep_missed-keeps s (missed_result now f.probe (some origin) p) results (λ e h same.
        (spares origin q).0 (sym (missed_result-session now f.probe origin p e h) ∙ same)))
]

Spares-restored :
    (s : String) (f : Frame) (p : Pump) (id : String)
    → Spares s f
    → restored_session f p ≡ some id
    → id ≢ s
unfolding restored_session
Spares-restored s f p id spares h = elim (Option-cases f.origin) [
  | inl q ↦ absurd (ground (arith, q))
  | inr (origin, q) ↦ elim (spares origin q).1 [
    | inl plain ↦ absurd (ground (arith, q, plain))
    | inr (inl other) ↦ λ e. ground (arith, q)
    | inr (inr (own, failed)) ↦ absurd (ground (arith, q, own, failed))
  ]
]

module _ (result_frame : String → TurnResult Usage → String) where
  pub restore_replied-keeps :
      (s : String) (o : Option String) (out : List String) (c : Conversation)
      → ((id : String) → o ≡ some id → id ≢ s)
      → Map.lookup s (restore_replied result_frame o out c).0.results.results
        ≡ Map.lookup s c.results.results
  unfolding restore_replied restore_locked take_turn_result
  restore_replied-keeps s none out c other = refl
  restore_replied-keeps s (some id) out c other =
      ground (arith, Map.lookup-delete_ne s id c.results.results (other id refl))

  module _ (codec : Codec) (texts : Texts) where
    forward-keeps :
        (s : String) (now : ℕ) (f : Frame) (c : Conversation)
        → Spares s f
        → Map.lookup s (forward result_frame codec texts now f c).results.results
          ≡ Map.lookup s c.results.results
    unfolding forward route
    forward-keeps s now f c spares =
        restore_replied-keeps s (restored_session f c.pump) _ _
          (λ id h. Spares-restored s f c.pump id spares h)
        ∙ Spares-missed s now f c.pump c.results spares

    outbound-names :
        (gen now : ℕ) (f : ClientFrame) (r : RequestIds)
        → ((outbound codec gen now f r).1.method ≡ f.method)
          × ((outbound codec gen now f r).1.params.session_id ≡ f.params.session_id)
    unfolding outbound outbound_fields with_id
    outbound-names gen now f r = elim (Option-cases f.fields) [
      | inl q ↦ rw (q, outbound) (refl, refl)
      | inr (fields, q) ↦ elim (Option-cases f.id) [
        | inr (id, i) ↦ rw (q, i, outbound, outbound_fields, i) (ground arith)
        | inl i ↦ elim (Option-cases (retarget_cancel codec gen f fields r)) [
          | inl t ↦ rw (q, outbound, i, t) (ground arith)
          | inr (fields', t) ↦ rw (q, outbound, i, t) (ground arith)
        ]
      ]
    ]

    prepare-keeps :
        (s : String) (gen now : ℕ) (f : ClientFrame) (blocks : List String) (c : Conversation)
        → (f.method ≡ "session/prompt" → f.params.session_id ≢ s)
        → Map.lookup s
            (prepare_outbound result_frame codec texts gen now f blocks c).0.results.results
          ≡ Map.lookup s c.results.results
    unfolding prepare_outbound clear_turn_result
    prepare-keeps s gen now f blocks c other =
        let (same_method, same_session) = outbound-names gen now f c.request_ids in
        rw (same_method, same_session)
          (if-cases
            (λ (r : TurnResults Usage). Map.lookup s r.results ≡ Map.lookup s c.results.results)
            (f.method == "session/prompt")
            (λ q.
              Map.lookup-delete_ne s f.params.session_id c.results.results
                (other (beq→eq f.method "session/prompt" q)))
            (λ q. refl))

    step-keeps :
        (s : String) (c : Conversation) (e : Event)
        → Leaves s e
        → Map.lookup s (step result_frame codec texts c e).results.results
          ≡ Map.lookup s c.results.results
    unfolding step
    step-keeps s c (forwards now f) h = forward-keeps s now f c h
    step-keeps s c (prepares gen now f blocks) h = prepare-keeps s gen now f blocks c h
    step-keeps s c attaches h = refl
    step-keeps s c (binds conn gen) h = refl
    step-keeps s c (detaches gen) h = refl

    pub run-keeps :
        (s : String) (c : Conversation) (es : List Event)
        → All (Leaves s) es
        → Map.lookup s (run result_frame codec texts c es).results.results
          ≡ Map.lookup s c.results.results
    unfolding run
    run-keeps s c [] h = refl
    run-keeps s c (e ∷ es) h =
        run-keeps s (step result_frame codec texts c e) es h.1 ∙ step-keeps s c e h.0
