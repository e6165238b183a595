-- ===== src/Session/Pump/Lossless.antt =====
-- The queue of a client of internal/session/pump.go: what was meant for it is what its writer took and
-- what it holds, and a rest that was not queued only where the writer is stopped.
use ferngeist_acp_gateway.Prelude.{
  ℕ, ◌≤◌, ◌<◌, ◌≡◌, ◌≢◌, refl, sym, ap, subst, ◌∙◌, Bool, true, false, ◌&&◌, none, some, List, [],
  ◌∷◌, ◌++◌, String, by_number, arith, Bool-cases, Option-cases, inl, inr, ◌⊎◌, ◌==◌, beq→eq,
  if◌then◌else◌, is_some,
}
use ferngeist_acp_gateway.Map
use ferngeist_acp_gateway.Map.{Map}
use ferngeist_acp_gateway.Session.Pump.{
  ClientQueue, push, Pump, queue_or_new, queue_of, set_queue, queue_frames, queue_to, queue_bound,
}

-- The queue's client is the one bound.
abbrev pub is_writer : ℕ → Pump → Bool
is_writer q p = elim p.writer_q [ none ↦ false | some w ↦ (w == q) && is_some p.client ]

pub append_nil : (l : List String) → l ++ [] ≡ l
append_nil [] = refl
append_nil (x ∷ l) = ap (λ t. x ∷ t) (append_nil l)

pub append_assoc : (k l m : List String) → (k ++ l) ++ m ≡ k ++ (l ++ m)
append_assoc [] l m = refl
append_assoc (x ∷ k) l m = ap (λ t. x ∷ t) (append_assoc k l m)

-- What was meant is what was taken, what is queued, and a rest that no writer of the queue is owed.
abbrev pub IsHeld : ℕ → List String → List String → Pump → Type 0
IsHeld q out intended p =
    (rest : List String) × (intended ≡ (out ++ (queue_of q p).frames) ++ rest)
    × (p.writer_q ≡ some q → rest ≡ [])

push-frames :
    (frame : String) (q q' : ClientQueue)
    → push frame q ≡ some q'
    → q'.frames ≡ q.frames ++ frame ∷ []
unfolding push
push-frames frame q q' h = ground arith

pub queue_of-set :
    (q : ℕ) (queue : ClientQueue) (p : Pump) → queue_of q (set_queue q queue p) ≡ queue
queue_of-set q queue p = ap queue_or_new (Map.lookup-insert_self q queue p.queues)

pub queue_of-set_ne :
    (q w : ℕ) (queue : ClientQueue) (p : Pump)
    → w ≢ q
    → queue_of q (set_queue w queue p) ≡ queue_of q p
queue_of-set_ne q w queue p ne = ap queue_or_new (Map.lookup-insert_ne q w queue p.queues ne)

-- The frames that the writer's queue gets, up to the one that is refused.
queue_frames-IsHeld :
    (q : ℕ) (frames out intended : List String) (p : Pump)
    → intended ≡ out ++ (queue_of q p).frames
    → IsHeld q out (intended ++ frames) (queue_frames q frames p)
unfolding queue_frames
queue_frames-IsHeld q [] out intended p e =
    ([], append_nil intended ∙ (e ∙ sym (append_nil (out ++ (queue_of q p).frames))), λ w. refl)
queue_frames-IsHeld q (frame ∷ frames) out intended p e =
    elim (Option-cases (push frame (queue_of q p))) [
      | inl r ↦
          rw (r, queue_frames)
            (frame ∷ frames, ap (λ l. l ++ frame ∷ frames) e, λ w. absurd (ground arith))
      | inr (queue, r) ↦
          let next : intended ++ frame ∷ [] ≡ out ++ (queue_of q (set_queue q queue p)).frames =
            ap (λ l. l ++ frame ∷ []) e
            ∙ (append_assoc out (queue_of q p).frames (frame ∷ [])
                ∙ ap (λ l. out ++ l)
                    (sym (push-frames frame (queue_of q p) queue r)
                      ∙ sym (ap (λ x. x.frames) (queue_of-set q queue p)))) in
          let (rest, same, owed) =
            queue_frames-IsHeld q frames out (intended ++ frame ∷ []) (set_queue q queue p) next in
          rw (r, queue_frames) (rest, sym (append_assoc intended (frame ∷ []) frames) ∙ same, owed)
    ]

-- Another queue keeps its frames, and the writer is the same or gone.
queue_frames-others :
    (q w : ℕ) (frames : List String) (p : Pump)
    → w ≢ q
    → (queue_of q (queue_frames w frames p) ≡ queue_of q p)
      × (((queue_frames w frames p).writer_q ≡ p.writer_q)
          ⊎ ((queue_frames w frames p).writer_q ≡ none))
      × ((queue_frames w frames p).next_queue ≡ p.next_queue)
unfolding queue_frames
queue_frames-others q w [] p ne = (refl, inl refl, refl)
queue_frames-others q w (frame ∷ frames) p ne = elim (Option-cases (push frame (queue_of w p))) [
  | inl r ↦ rw (r, queue_frames) (refl, inr refl, refl)
  | inr (queue, r) ↦
      let (same, writer, next) = queue_frames-others q w frames (set_queue w queue p) ne in
      rw (r, queue_frames) (same ∙ queue_of-set_ne q w queue p ne, writer, next)
]

queue_frames-writer :
    (w : ℕ) (frames : List String) (p : Pump)
    → (((queue_frames w frames p).writer_q ≡ p.writer_q)
        ⊎ ((queue_frames w frames p).writer_q ≡ none))
      × ((queue_frames w frames p).next_queue ≡ p.next_queue)
unfolding queue_frames
queue_frames-writer w [] p = (inl refl, refl)
queue_frames-writer w (frame ∷ frames) p = elim (Option-cases (push frame (queue_of w p))) [
  | inl r ↦ rw (r, queue_frames) (inr refl, refl)
  | inr (queue, r) ↦ rw (r, queue_frames) (queue_frames-writer w frames (set_queue w queue p))
]

-- Besides, a writer's queue was given out, and one that was not has nothing.
pub record IsLossless (q : ℕ) (out intended : List String) (p : Pump) : Type 0 where
  pub held : IsHeld q out intended p
  pub known : (w : ℕ) → p.writer_q ≡ some w → w < p.next_queue
  pub fresh : p.next_queue ≤ q → (out ≡ []) × (intended ≡ []) × ((queue_of q p).frames ≡ [])

-- The same step, where it is known what was meant for the queue and what the pump is then.
move :
    (q : ℕ) (frames out intended : List String) (p p' : Pump) (b : Bool)
    → is_writer q p ≡ b
    → queue_bound frames p ≡ p'
    → IsLossless q out (intended ++ (if b then frames else [])) p'
    → IsLossless q out (intended ++ (if is_writer q p then frames else [])) (queue_bound frames p)
move q frames out intended p p' b w same h =
    subst (λ x. IsLossless q out (intended ++ (if is_writer q p then frames else [])) x) (sym same)
      (subst (λ x. IsLossless q out (intended ++ (if x then frames else [])) p') (sym w) h)

nothing_meant :
    (q : ℕ) (out intended : List String) (p : Pump)
    → IsLossless q out intended p
    → IsLossless q out (intended ++ []) p
nothing_meant q out intended p h = subst (λ l. IsLossless q out l p) (sym (append_nil intended)) h

queue_bound-none : (frames : List String) (p : Pump) → p.writer_q ≡ none → queue_bound frames p ≡ p
unfolding queue_bound queue_to
queue_bound-none frames p e = ap (queue_to frames p) e

queue_bound-absent :
    (frames : List String) (w : ℕ) (p : Pump)
    → p.writer_q ≡ some w
    → is_some p.client ≡ false
    → queue_bound frames p ≡ p
unfolding queue_bound queue_to
queue_bound-absent frames w p e c =
    ap (queue_to frames p) e ∙ ap (λ b. if b then queue_frames w frames p else p) c

queue_bound-present :
    (frames : List String) (w : ℕ) (p : Pump)
    → p.writer_q ≡ some w
    → is_some p.client ≡ true
    → queue_bound frames p ≡ queue_frames w frames p
unfolding queue_bound queue_to
queue_bound-present frames w p e c =
    ap (queue_to frames p) e ∙ ap (λ b. if b then queue_frames w frames p else p) c

-- The queue's own frames, and those of another.
queue_frames-own :
    (q : ℕ) (frames out intended : List String) (p : Pump)
    → p.writer_q ≡ some q
    → IsLossless q out intended p
    → IsLossless q out (intended ++ frames) (queue_frames q frames p)
queue_frames-own q frames out intended p e h =
    let (rest, same, owed) = h.held in
    let now : intended ≡ out ++ (queue_of q p).frames =
      same ∙ (ap (λ l. (out ++ (queue_of q p).frames) ++ l) (owed e) ∙ append_nil _) in
    let (writer, next) = queue_frames-writer q frames p in
    record {
      held = queue_frames-IsHeld q frames out intended p now;
      known = λ w f. elim writer [
        | inl kept ↦ omega (arith, next, h.known w (sym kept ∙ f))
        | inr gone ↦ absurd (ground arith)
      ];
      fresh = λ le. absurd (omega (arith, next, h.known q e));
    }

queue_frames-other :
    (q w : ℕ) (frames out intended : List String) (p : Pump)
    → w ≢ q
    → IsLossless q out intended p
    → IsLossless q out intended (queue_frames w frames p)
queue_frames-other q w frames out intended p ne h =
    let (rest, same, owed) = h.held in
    let (kept, writer, next) = queue_frames-others q w frames p ne in
    record {
      held = (
        rest,
        same ∙ ap (λ x. (out ++ x.frames) ++ rest) (sym kept),
        λ f. elim writer [ inl e ↦ owed (sym e ∙ f) | inr e ↦ absurd (ground arith) ],
      );
      known = λ v f. elim writer [
        | inl e ↦ omega (arith, next, h.known v (sym e ∙ f))
        | inr e ↦ absurd (ground arith)
      ];
      fresh = λ le.
          let (o, i, f) = h.fresh (omega (arith, next)) in (o, i, ap (λ x. x.frames) kept ∙ f);
    }

pub queue_bound-IsLossless :
    (q : ℕ) (frames out intended : List String) (p : Pump)
    → IsLossless q out intended p
    → IsLossless q out (intended ++ (if is_writer q p then frames else [])) (queue_bound frames p)
queue_bound-IsLossless q frames out intended p h = elim (Option-cases p.writer_q) [
  | inl e ↦
      move q frames out intended p p false (ground (arith, e)) (queue_bound-none frames p e)
        (nothing_meant q out intended p h)
  | inr (w, e) ↦ elim (Bool-cases (is_some p.client)) [
    | inr c ↦
        move q frames out intended p p false (ground (arith, e, c))
          (queue_bound-absent frames w p e c) (nothing_meant q out intended p h)
    | inl c ↦ elim (Bool-cases (w == q)) [
      | inl same ↦
          let e' : p.writer_q ≡ some q = e ∙ ap some (beq→eq w q same) in
          move q frames out intended p (queue_frames q frames p) true (ground (arith, e, c))
            (queue_bound-present frames q p e' c) (queue_frames-own q frames out intended p e' h)
      | inr other ↦
          move q frames out intended p (queue_frames w frames p) false (ground (arith, e, c))
            (queue_bound-present frames w p e c)
            (nothing_meant q out intended (queue_frames w frames p)
              (queue_frames-other q w frames out intended p (λ x. ground arith) h))
    ]
  ]
]

-- A call that touches no queue given out, and makes no queue the writer's but a new one.
pub quiet-IsLossless :
    (q : ℕ) (out intended : List String) (p p' : Pump)
    → IsLossless q out intended p
    → (queue_of q p').frames ≡ (queue_of q p).frames
    → ((w : ℕ) → p'.writer_q ≡ some w → (p.writer_q ≡ some w) ⊎ (w ≡ p.next_queue))
    → ((w : ℕ) → p'.writer_q ≡ some w → w < p'.next_queue)
    → p.next_queue ≤ p'.next_queue
    → IsLossless q out intended p'
quiet-IsLossless q out intended p p' h kept writer known le =
    let (rest, same, owed) = h.held in
    record {
      held = (
        rest,
        same ∙ ap (λ x. (out ++ x) ++ rest) (sym kept),
        λ f. elim (writer q f) [
          | inl e ↦ owed e
          | inr e ↦
              let (o, i, empty) = h.fresh (omega arith) in
              no_rest out intended (queue_of q p).frames rest o i empty same
        ],
      );
      known = known;
      fresh = λ past. let (o, i, empty) = h.fresh (omega (arith, past, le)) in (o, i, kept ∙ empty);
    }
  where
    no_rest :
        (out intended frames rest : List String)
        → out ≡ []
        → intended ≡ []
        → frames ≡ []
        → intended ≡ (out ++ frames) ++ rest
        → rest ≡ []
    no_rest out intended frames rest o i f e =
        sym (ap (λ l. l ++ rest) (ap (λ l. l ++ frames) o ∙ f)) ∙ (sym e ∙ i)
