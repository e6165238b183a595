-- ===== src/Session/Pump/Delivery.antt =====
-- A client of internal/session/pump.go reads the frames meant for it without a hole: it is disconnected
-- rather than sent a stream with frames missing.
use ferngeist_acp_gateway.Prelude.{
  ℕ, ◌≡◌, ◌≢◌, refl, sym, ap, subst, ◌∙◌, Bool, true, false, not, ◌&&◌, ◌||◌, none, some, List, [],
  ◌∷◌, ◌++◌, String, by_number, arith, Bool-cases, inl, inr, ◌⊎◌, ◌==◌, beq→eq, if-cases,
  if◌then◌else◌,
}
use ferngeist_acp_gateway.Map
use ferngeist_acp_gateway.Map.{Map}
use ferngeist_acp_gateway.Session.Pump.{
  ClientQueue, new_client_queue, Pump, new_pump, queue_or_new, queue_of, set_queue, stop_writer,
  start_writer, queue_bound, queue_client_reply, attach, bind, detach, write_queued, is_client,
  fail_write, end_drain,
}
use ferngeist_acp_gateway.Session.Pump.Lossless.{
  is_writer, append_nil, append_assoc, queue_of-set, queue_of-set_ne, IsHeld, IsLossless,
  queue_bound-IsLossless, quiet-IsLossless,
}

-- What the pump meets. The frames of `sends` are the agent's, those of `replies` the gateway's.
pub data Event : Type 0 where
  sends : List String → Event
  replies : ℕ → List String → Event
  attaches ends : Event
  binds : ℕ → ℕ → Event
  detaches writes fails : ℕ → Event

unfoldable pub step : Pump → Event → Pump
step p (sends frames) = queue_bound frames p
step p (replies gen frames) = queue_client_reply gen frames p
step p attaches = attach p
step p ends = end_drain p
step p (binds conn gen) = (bind conn gen p).0
step p (detaches gen) = (detach gen p).0
step p (writes q) = (write_queued q p).0
step p (fails conn) = fail_write conn p

-- The frames meant for the queue's client, and those that its writer takes, in one step.
unfoldable pub meant : ℕ → Pump → Event → List String
meant q p (sends frames) = if is_writer q p then frames else []
meant q p (replies gen frames) = if is_writer q p && (gen == p.conn_gen) then frames else []
meant q p attaches = []
meant q p ends = []
meant q p (binds conn gen) = []
meant q p (detaches gen) = []
meant q p (writes w) = []
meant q p (fails conn) = []

unfoldable pub taken : ℕ → Pump → Event → List String
taken q p (writes w) = if w == q then (write_queued w p).1 else []
taken q p (sends frames) = []
taken q p (replies gen frames) = []
taken q p attaches = []
taken q p ends = []
taken q p (binds conn gen) = []
taken q p (detaches gen) = []
taken q p (fails conn) = []

unfoldable pub run : Pump → List Event → Pump
run p [] = p
run p (e ∷ es) = run (step p e) es

unfoldable pub all_meant : ℕ → Pump → List Event → List String
all_meant q p [] = []
all_meant q p (e ∷ es) = meant q p e ++ all_meant q (step p e) es

unfoldable pub all_taken : ℕ → Pump → List Event → List String
all_taken q p [] = []
all_taken q p (e ∷ es) = taken q p e ++ all_taken q (step p e) es

write_queued-IsLossless :
    (q w : ℕ) (out intended : List String) (p : Pump)
    → IsLossless q out intended p
    → IsLossless q (out ++ taken q p (writes w)) intended (write_queued w p).0
unfolding write_queued taken
write_queued-IsLossless q w out intended p h = elim (Bool-cases (w == q)) [
  | inr other ↦
      let ne : w ≢ q = λ x. ground arith in
      subst (λ l. IsLossless q l intended (set_queue w new_client_queue p))
        (sym (ap (λ b. out ++ (if b then (queue_of w p).frames else [])) other ∙ append_nil out))
        (quiet-IsLossless q out intended p (set_queue w new_client_queue p) h
          (ap (λ x. x.frames) (queue_of-set_ne q w new_client_queue p ne)) (λ v f. inl f) h.known
          (omega arith))
  | inl same ↦
      let (rest, all, owed) = h.held in
      let e = beq→eq w q same in
      let empty : (queue_of q (set_queue w new_client_queue p)).frames ≡ [] =
        ap (λ x. (queue_of q (set_queue x new_client_queue p)).frames) e
        ∙ ap (λ x. x.frames) (queue_of-set q new_client_queue p) in
      let out' : out ++ (if w == q then (queue_of w p).frames else [])
          ≡ out ++ (queue_of q p).frames =
        ap (λ b. out ++ (if b then (queue_of w p).frames else [])) same
        ∙ ap (λ x. out ++ (queue_of x p).frames) e in
      subst (λ l. IsLossless q l intended (set_queue w new_client_queue p)) (sym out')
        (record {
          held = (
            rest,
            all
                ∙ ap (λ l. l ++ rest)
                    (sym (ap (λ l. (out ++ (queue_of q p).frames) ++ l) empty ∙ append_nil _)),
            owed,
          );
          known = h.known;
          fresh = λ le.
              let (o, i, f) = h.fresh le in (ap (λ l. l ++ (queue_of q p).frames) o ∙ f, i, empty);
        })
]

-- Where the writer is stopped, or nothing changes.
stopped-IsLossless :
    (q : ℕ) (out intended : List String) (p p' : Pump)
    → IsLossless q out intended p
    → p'.queues ≡ p.queues
    → p'.next_queue ≡ p.next_queue
    → (p'.writer_q ≡ none) ⊎ (p'.writer_q ≡ p.writer_q)
    → IsLossless q out intended p'
stopped-IsLossless q out intended p p' h queues next writer =
    quiet-IsLossless q out intended p p' h (ap (λ m. (queue_or_new (Map.lookup q m)).frames) queues)
      (λ w f. elim writer [ inl e ↦ absurd (ground arith) | inr e ↦ inl (sym e ∙ f) ])
      (λ w f. elim writer [
        | inl e ↦ absurd (ground arith)
        | inr e ↦ omega (arith, next, h.known w (sym e ∙ f))
      ])
      (omega (arith, next))

bind-IsLossless :
    (q conn gen : ℕ) (out intended : List String) (p : Pump)
    → IsLossless q out intended p
    → IsLossless q out intended (bind conn gen p).0
unfolding bind
bind-IsLossless q conn gen out intended p h =
    if-cases (λ (x : Pump × Bool). IsLossless q out intended x.0)
      (p.closed || not (p.conn_gen == gen)) (λ r. h)
      (λ r.
        quiet-IsLossless q out intended p (start_writer (record p { client = some conn })) h
          (started (Bool-cases (p.next_queue == q))) (λ w f. inr (ground arith))
          (λ w f. ground arith) (omega arith))
  where
    started :
        ((p.next_queue == q) ≡ true) ⊎ ((p.next_queue == q) ≡ false)
        → (queue_of q (start_writer (record p { client = some conn }))).frames
          ≡ (queue_of q p).frames
    started (inl same) =
        let (o, i, empty) = h.fresh (ground arith) in
        ap (λ x. (queue_or_new x).frames)
          (Map.lookup-insert q p.next_queue new_client_queue p.queues
            ∙ ap (λ b. if b then some new_client_queue else Map.lookup q p.queues) same)
        ∙ sym empty
    started (inr other) =
        ap (λ x. (queue_or_new x).frames)
          (Map.lookup-insert_ne q p.next_queue new_client_queue p.queues (λ x. ground arith))

nothing_taken :
    (q : ℕ) (out intended : List String) (p : Pump)
    → IsLossless q out intended p
    → IsLossless q (out ++ []) intended p
nothing_taken q out intended p h = subst (λ l. IsLossless q l intended p) (sym (append_nil out)) h

untouched :
    (q : ℕ) (out intended : List String) (p : Pump)
    → IsLossless q out intended p
    → IsLossless q (out ++ []) (intended ++ []) p
untouched q out intended p h =
    nothing_taken q out (intended ++ []) p
      (subst (λ l. IsLossless q out l p) (sym (append_nil intended)) h)

queue_client_reply-IsLossless :
    (q gen : ℕ) (frames out intended : List String) (p : Pump)
    → IsLossless q out intended p
    → IsLossless q out
        (intended ++ (if is_writer q p && (gen == p.conn_gen) then frames else []))
        (queue_client_reply gen frames p)
unfolding queue_client_reply
queue_client_reply-IsLossless q gen frames out intended p h =
    elim (Bool-cases (gen == p.conn_gen)) [
      | inl same ↦
          let own : (if is_writer q p && (gen == p.conn_gen) then frames else [])
              ≡ (if is_writer q p then frames else []) =
            ground (arith, same) in
          subst (λ m. IsLossless q out (intended ++ m) (queue_client_reply gen frames p)) (sym own)
            (subst (IsLossless q out (intended ++ (if is_writer q p then frames else [])))
              (sym (ap (λ b. if b then queue_bound frames p else p) same))
              (queue_bound-IsLossless q frames out intended p h))
      | inr other ↦
          let none_of : (if is_writer q p && (gen == p.conn_gen) then frames else []) ≡ [] =
            ground (arith, other) in
          subst (λ m. IsLossless q out (intended ++ m) (queue_client_reply gen frames p))
            (sym none_of)
            (subst (IsLossless q out (intended ++ []))
              (sym (ap (λ b. if b then queue_bound frames p else p) other))
              (subst (λ l. IsLossless q out l p) (sym (append_nil intended)) h))
    ]

step-IsLossless :
    (q : ℕ) (e : Event) (out intended : List String) (p : Pump)
    → IsLossless q out intended p
    → IsLossless q (out ++ taken q p e) (intended ++ meant q p e) (step p e)
unfolding step meant taken attach detach fail_write end_drain
step-IsLossless q (sends frames) out intended p h =
    nothing_taken q out _ (queue_bound frames p) (queue_bound-IsLossless q frames out intended p h)
step-IsLossless q (replies gen frames) out intended p h =
    nothing_taken q out _ (queue_client_reply gen frames p)
      (queue_client_reply-IsLossless q gen frames out intended p h)
step-IsLossless q attaches out intended p h =
    untouched q out intended _ (stopped-IsLossless q out intended p _ h refl refl (inl refl))
step-IsLossless q ends out intended p h =
    untouched q out intended _ (stopped-IsLossless q out intended p _ h refl refl (inl refl))
step-IsLossless q (binds conn gen) out intended p h =
    untouched q out intended _ (bind-IsLossless q conn gen out intended p h)
step-IsLossless q (detaches gen) out intended p h =
    if-cases (λ (x : Pump × Bool). IsLossless q (out ++ []) (intended ++ []) x.0)
      (p.conn_gen == gen)
      (λ r. untouched q out intended _ (
        stopped-IsLossless q out intended p (stop_writer (record p { client = none })) h refl refl
          (inl refl)))
      (λ r. untouched q out intended p h)
step-IsLossless q (writes w) out intended p h =
    subst (λ l. IsLossless q (out ++ taken q p (writes w)) l (write_queued w p).0)
      (sym (append_nil intended)) (write_queued-IsLossless q w out intended p h)
step-IsLossless q (fails conn) out intended p h =
    if-cases (IsLossless q (out ++ []) (intended ++ [])) (is_client conn p.client)
      (λ r. untouched q out intended _ (
        stopped-IsLossless q out intended p (stop_writer (record p { client = none })) h refl refl
          (inl refl)))
      (λ r. untouched q out intended p h)

run_from-IsLossless :
    (q : ℕ) (es : List Event) (out intended : List String) (p : Pump)
    → IsLossless q out intended p
    → IsLossless q (out ++ all_taken q p es) (intended ++ all_meant q p es) (run p es)
unfolding run all_taken all_meant
run_from-IsLossless q [] out intended p h = untouched q out intended p h
run_from-IsLossless q (e ∷ es) out intended p h =
    subst
      (λ l.
        IsLossless q l (intended ++ (meant q p e ++ all_meant q (step p e) es)) (run (step p e) es))
      (append_assoc out (taken q p e) (all_taken q (step p e) es))
      (subst
        (λ l.
          IsLossless q ((out ++ taken q p e) ++ all_taken q (step p e) es) l (run (step p e) es))
        (append_assoc intended (meant q p e) (all_meant q (step p e) es))
        (run_from-IsLossless q es (out ++ taken q p e) (intended ++ meant q p e) (step p e)
          (step-IsLossless q e out intended p h)))

new_pump-IsLossless : (q : ℕ) → IsLossless q [] [] new_pump
unfolding new_pump
new_pump-IsLossless q = record {
  held = ([], ap (λ l. l ++ []) (sym (nothing_queued q)), λ e. refl);
  known = λ w e. absurd (ground arith);
  fresh = λ le. (refl, refl, nothing_queued q);
}
  where
    nothing_queued :
        (x : ℕ) → (queue_or_new (Map.lookup x (Map.empty {V = ClientQueue}))).frames ≡ []
    nothing_queued x = ap (λ o. (queue_or_new o).frames) (Map.lookup-empty {V = ClientQueue} x)

-- Over any history of a pump, the frames that were meant for a client while it was bound are those that
-- its writer took and those that are queued, in their order, and then a rest, which is empty as long as
-- the queue is the writer's.
pub run-IsHeld :
    (q : ℕ) (es : List Event)
    → IsHeld q (all_taken q new_pump es) (all_meant q new_pump es) (run new_pump es)
run-IsHeld q es = (run_from-IsLossless q es [] [] new_pump (new_pump-IsLossless q)).held
