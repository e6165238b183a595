-- ===== src/Session/RequestIds/Correlation.antt =====
-- A request of internal/session/request_ids.go and its reply: what the client reads, and on which
-- connection, whatever happens in between.
use ferngeist_acp_gateway.Prelude.{
  is_empty, is_empty-append, ℕ, suc, ◌+◌, ◌-◌, ◌/◌, ◌++◌, ◌^◌, ◌<◌, ◌≡◌, ◌≢◌, refl, sym, ap, ◌∙◌,
  false, not, ◌||◌, none, some, List, [], ◌∷◌, String, by_text, by_number, arith, All, length,
  Bool-cases, Option-cases, inl, inr, ◌⊎◌, ◌==◌, beq_of_ne, beq→eq, if-cases, if◌then◌else◌,
}
use ferngeist_acp_gateway.Map
use ferngeist_acp_gateway.Map.{Map}
use ferngeist_acp_gateway.Session.Frames.{Codec, ClientFrame, FrameProbe, response_id_key}
use ferngeist_acp_gateway.Session.RequestIds.{
  RequestIds, new_request_ids, PendingRequest, forget_request, register, answer_agent_request,
  outbound_fields, outbound, origin_of, agent_id_of, with_id, track_agent_request, discard,
  redeliver, take_each, take_prompts,
}
use ferngeist_acp_gateway.Session.RequestIds.Replies.{settle, reply_to, reply, reply_frames}
use ferngeist_acp_gateway.Session.RequestIds.Answers.{Reads, Reads-reply_frames}
use ferngeist_acp_gateway.Session.RequestIds.Sound.{IsInjective, IsConsistent, agent_id-apart}
use ferngeist_acp_gateway.Session.RequestIds.Histories.{
  Event, sends, replies, asks, fails, tears_down, loads_session, step, run,
}
use ferngeist_acp_gateway.Session.RequestIds.Invariant.{
  step-next, step-IsConsistent, run_from-IsConsistent, new_request_ids-IsConsistent,
}

-- The call neither answers the request nor gives it up.
abbrev pub Leaves : Codec → String → PendingRequest → Event → Type 0
Leaves codec key origin (sends gen now f) = Unit {0}
Leaves codec key origin (replies gen now probe frames) =
    (id : String) → probe.id ≡ some id → response_id_key codec id ≢ key
Leaves codec key origin (asks probe line gen) = Unit {0}
Leaves codec key origin (fails id) = response_id_key codec id ≢ key
Leaves codec key origin tears_down = origin.prompt_session ≡ ""
Leaves codec key origin (loads_session gen session_id) = Unit {0}

-- The entry does not leave with the prompts, or is another than the key's.
abbrev Passes : String → String × PendingRequest → Type 0
Passes key e = (e.1.prompt_session ≡ "") ⊎ (e.0 ≢ key)

take_each-keeps :
    (key : String) (l : List (String × PendingRequest)) (r : RequestIds)
    → All (Passes key) l
    → Map.lookup key (take_each l r).0.pending ≡ Map.lookup key r.pending
unfolding take_each forget_request
take_each-keeps key [] r a = refl
take_each-keeps key ((id, req) ∷ l) r a = elim (Bool-cases (req.prompt_session == "")) [
  | inl q ↦ rw q (take_each-keeps key l r a.1)
  | inr q ↦ elim a.0 [
    | inl e ↦ absurd (ground (arith, by_text.same_key_iff req.prompt_session ""))
    | inr ne ↦ rw q (
        take_each-keeps key l (forget_request id req r) a.1
        ∙ Map.lookup-delete_ne key id r.pending ne)
  ]
]

take_prompts-keeps :
    (key : String) (origin : PendingRequest) (r : RequestIds)
    → Map.lookup key r.pending ≡ some origin
    → origin.prompt_session ≡ ""
    → Map.lookup key (take_prompts r).0.pending ≡ some origin
unfolding take_prompts
take_prompts-keeps key origin r f e =
    if-cases (λ (x : RequestIds × List PendingRequest). Map.lookup key x.0.pending ≡ some origin)
      (is_empty (take_each r.pending.entries r).1) (λ q. kept ∙ f) (λ q. kept ∙ f)
  where
    kept : Map.lookup key (take_each r.pending.entries r).0.pending ≡ Map.lookup key r.pending
    kept = take_each-keeps key r.pending.entries r (
        Map.All-of_lookup (Passes key) r.pending (λ k p g. elim (Bool-cases (k == key)) [
          | inl same ↦
              let one : Map.lookup key r.pending ≡ some p =
                ap (λ x. Map.lookup x r.pending) (sym (beq→eq k key same)) ∙ g in
              inl (ground arith)
          | inr other ↦ inr (λ q. ground (arith, by_text.same_key_iff k key))
        ]))

step-keeps :
    (codec : Codec) (key : String) (origin : PendingRequest) (e : Event) (r : RequestIds)
    → IsInjective codec
    → suc r.next < 2 ^ 64
    → IsConsistent codec r
    → Map.lookup key r.pending ≡ some origin
    → Leaves codec key origin e
    → Map.lookup key (step codec r e).pending ≡ some origin
unfolding step outbound outbound_fields register answer_agent_request reply reply_to settle
    forget_request track_agent_request discard redeliver
step-keeps codec key origin (sends gen now f) r inj room h q leaves =
    let apart = agent_id-apart codec r.next key origin r.pending inj room h.issued q in
    elim (Option-cases f.fields) [
      | inl g ↦ rw g q
      | inr (fields, g) ↦ elim (Option-cases f.id) [
        | inl i ↦ rw (g, i) (ground arith)
        | inr (id, i) ↦ ground (
          arith,
          g,
          i,
          Map.lookup-insert_ne key (agent_id_of codec r) (origin_of codec gen now id f) r.pending
              apart,
        )
      ]
    ]
step-keeps codec key origin (replies gen now probe frames) r inj room h q leaves =
    elim (Option-cases probe.id) [
      | inl i ↦ rw i q
      | inr (id, i) ↦
          ground
            (arith, i, Map.lookup-delete_ne key (response_id_key codec id) r.pending (leaves id i))
    ]
step-keeps codec key origin (asks probe line gen) r inj room h q leaves = ground arith
step-keeps codec key origin (fails id) r inj room h q leaves =
    ground (arith, Map.lookup-delete_ne key (response_id_key codec id) r.pending leaves)
step-keeps codec key origin tears_down r inj room h q leaves =
    take_prompts-keeps key origin r q leaves
step-keeps codec key origin (loads_session gen session_id) r inj room h q leaves = q

run-keeps :
    (codec : Codec) (key : String) (origin : PendingRequest) (es : List Event) (r : RequestIds)
    → IsInjective codec
    → r.next + length es < 2 ^ 64
    → IsConsistent codec r
    → Map.lookup key r.pending ≡ some origin
    → All (Leaves codec key origin) es
    → Map.lookup key (run codec r es).pending ≡ some origin
unfolding run
run-keeps codec key origin [] r inj room h q leaves = q
run-keeps codec key origin (e ∷ es) r inj room h q leaves =
    let small : suc r.next < 2 ^ 64 = omega (arith, room) in
    run-keeps codec key origin es (step codec r e) inj
      (omega (arith, step-next codec e r small, room)) (step-IsConsistent codec e r inj small h)
      (step-keeps codec key origin e r inj small h q leaves.0) leaves.1

outbound_request :
    (codec : Codec) (gen now : ℕ) (f : ClientFrame) (fields : Map String String)
    (client_id : String) (r : RequestIds)
    → f.fields ≡ some fields
    → f.method ≢ ""
    → f.id ≡ some client_id
    → outbound codec gen now f r ≡ (
      register codec (origin_of codec gen now client_id f) r,
      with_id codec (agent_id_of codec r) f fields,
    )
unfolding outbound outbound_fields
outbound_request codec gen now f fields client_id r has_fields named has_id =
    rw (has_fields, beq_of_ne f.method "" named, has_id, outbound) refl

register-pending :
    (codec : Codec) (origin : PendingRequest) (r : RequestIds)
    → Map.lookup (agent_id_of codec r) (register codec origin r).pending ≡ some origin
unfolding register
register-pending codec origin r = Map.lookup-insert_self (agent_id_of codec r) origin r.pending

settle-pending :
    (key : String) (origin : PendingRequest) (r : RequestIds)
    → Map.lookup key (settle key origin r).pending ≡ none
unfolding settle forget_request
settle-pending key origin r = ground (arith, Map.lookup-delete_self key r.pending)

-- A frame that answers an ID.
module _ (codec : Codec) (current later : ℕ) (probe : FrameProbe) (id : String)
    (frames : List String) where
  reply_known :
      (origin : PendingRequest) (r : RequestIds)
      → probe.method ≡ ""
      → probe.id ≡ some id
      → is_empty frames ≡ false
      → Map.lookup (response_id_key codec id) r.pending ≡ some origin
      → reply codec current later probe frames r ≡ (
        settle (response_id_key codec id) origin r,
        reply_frames codec current later probe origin frames,
      )
  unfolding reply reply_to
  reply_known origin r m i e q =
      let goal : RequestIds × List String = (
        settle (response_id_key codec id) origin r,
        reply_frames codec current later probe origin frames,
      ) in
      let routed : reply_to codec current later probe (response_id_key codec id) frames r ≡ goal =
        rw (q, reply_to) refl in
      rw (i, reply)
        (if-cases (λ x. x ≡ goal) (not (probe.method == "") || is_empty frames)
          (λ t. absurd (ground (arith, m, e, by_text.same_key_iff probe.method ""))) (λ t. routed))

  reply_unknown :
      (r : RequestIds)
      → probe.id ≡ some id
      → Map.lookup (response_id_key codec id) r.pending ≡ none
      → reply codec current later probe frames r ≡ (r, frames)
  unfolding reply reply_to
  reply_unknown r i q = ground (arith, i, q)

routed_frames :
    (codec : Codec) (before between : List Event) (gen now current later : ℕ) (f : ClientFrame)
    (fields : Map String String) (client_id id : String) (probe : FrameProbe) (frames : List String)
    → IsInjective codec
    → suc (length before + length between) < 2 ^ 64
    → f.fields ≡ some fields
    → f.method ≢ ""
    → f.id ≡ some client_id
    → let r = run codec new_request_ids before in
      let origin = origin_of codec gen now client_id f in
      let sent = outbound codec gen now f r in
      let routed = reply codec current later probe frames (run codec sent.0 between) in
      All (Leaves codec (agent_id_of codec r) origin) between
      → probe.method ≡ ""
      → probe.id ≡ some id
      → response_id_key codec id ≡ agent_id_of codec r
      → is_empty frames ≡ false
      → (sent.1.id ≡ some (agent_id_of codec r))
        × (routed.1 ≡ reply_frames codec current later probe origin frames)
        × (reply codec current later probe frames routed.0 ≡ (routed.0, frames))
unfolding with_id new_request_ids step
routed_frames codec before between gen now current later f fields client_id id probe frames inj room
      has_fields named has_id leaves is_reply probe_id same some_frame =
    let r = run codec new_request_ids before in
    let key = agent_id_of codec r in
    let origin = origin_of codec gen now client_id f in
    let start = new_request_ids-IsConsistent codec in
    let (sound, le) =
      run_from-IsConsistent codec before new_request_ids inj (omega (arith, room)) start in
    let sent = outbound codec gen now f r in
    let sending = outbound_request codec gen now f fields client_id r has_fields named has_id in
    let small : suc r.next < 2 ^ 64 = omega (arith, room, le) in
    let next = step-next codec (sends gen now f) r small in
    let pending : Map.lookup key sent.0.pending ≡ some origin =
      ap (λ x. Map.lookup key x.0.pending) sending ∙ register-pending codec origin r in
    let kept =
      run-keeps codec key origin between sent.0 inj (omega (arith, room, le, next))
        (step-IsConsistent codec (sends gen now f) r inj small sound) pending leaves in
    let r' = run codec sent.0 between in
    let routing =
      reply_known codec current later probe id frames origin r' is_reply probe_id some_frame
        (ap (λ k. Map.lookup k r'.pending) same ∙ kept) in
    (
      ap (λ x. x.1.id) sending,
      ap (λ x. x.1) routing,
      reply_unknown codec current later probe id frames
          (reply codec current later probe frames r').0 probe_id
          (ap (λ x. Map.lookup (response_id_key codec id) x.0.pending) routing
            ∙ settle-pending (response_id_key codec id) origin r'),
    )

-- After any history of fewer than 2^64 calls that neither answer a client's request nor give it up,
-- the agent's reply `x` to the ID that the request was given, which comes last of the frames to send, is
-- routed by the connection. The one that asked reads `x` with its own ID, and with the turn's milliseconds in
-- the `_meta` of its result if the request is a prompt; another reads nothing, or for a prompt that the turn
-- of its chat ended, and why. That is, where the frames have the members that are written and the
-- codec writes them. The same reply passes unchanged when it comes again.
pub reply-run-outbound :
    (codec : Codec) (before between : List Event) (gen now current later : ℕ) (f : ClientFrame)
    (fields : Map String String) (client_id id : String) (probe : FrameProbe) (front : List String)
    (x : String) (read : List String)
    → IsInjective codec
    → suc (length before + length between) < 2 ^ 64
    → f.fields ≡ some fields
    → f.method ≢ ""
    → f.id ≡ some client_id
    → client_id ≢ ""
    → let r = run codec new_request_ids before in
      let origin = origin_of codec gen now client_id f in
      let sent = outbound codec gen now f r in
      let frames = front ++ x ∷ [] in
      let routed = reply codec current later probe frames (run codec sent.0 between) in
      let started = if f.method == "session/prompt" then now else 0 in
      let session_id = if f.method == "session/prompt" then f.params.session_id else "" in
      All (Leaves codec (agent_id_of codec r) origin) between
      → probe.method ≡ ""
      → probe.id ≡ some id
      → response_id_key codec id ≡ agent_id_of codec r
      → Reads codec gen current
          ((later - started) / 1_000_000)
          session_id
          client_id
          probe
          front
          x
          read
      → (sent.1.id ≡ some (agent_id_of codec r))
        × (routed.1 ≡ read)
        × (reply codec current later probe frames routed.0 ≡ (routed.0, frames))
reply-run-outbound codec before between gen now current later f fields client_id id probe front x
      read inj room has_fields named has_id known leaves is_reply probe_id same reads =
    let (own, routed, again) =
      routed_frames codec before between gen now current later f fields client_id id probe
        (front ++ x ∷ []) inj room has_fields named has_id leaves is_reply probe_id same
        (is_empty-append front x) in
    (
      own,
      routed
          ∙ Reads-reply_frames codec current later probe (origin_of codec gen now client_id f) front
              x read known reads,
      again,
    )
