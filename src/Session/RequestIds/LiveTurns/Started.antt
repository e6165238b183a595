-- ===== src/Session/RequestIds/LiveTurns/Started.antt =====
-- `liveTurns` of internal/session/request_ids.go lists exactly the chats whose prompt awaits its
-- reply, each once, with the time that `promptStartedAt` gives.
use ferngeist_acp_gateway.Prelude.{
  ℕ, suc, ◌≤◌, ◌≡◌, ◌≢◌, refl, sym, subst, ap, ◌∙◌, false, Option, none, some, List, [], ◌∷◌, ◌++◌,
  String, by_text, arith, Bool-cases, Option-cases, inl, inr, ◌==◌, if-cases, if◌then◌else◌, ltb,
}
use ferngeist_acp_gateway.Map
use ferngeist_acp_gateway.Map.{Map}
use ferngeist_acp_gateway.Session.RequestIds.{PendingRequest, AgentRequest, RequestIds}
use ferngeist_acp_gateway.Session.RequestIds.LiveTurns.Latest.{IsLatest, prompt_started_at-IsLatest}
use ferngeist_acp_gateway.Session.RequestIds.LiveTurns.{
  LiveTurn, start_of, max_time, latest_start, prompt_started_at, Gathered, new_live_turn, started,
  add_prompt, gather, attend, attend_each, in_order, live_turns,
}

-- When the chat's turn started, by what the map has of it.
abbrev start_in : Option LiveTurn → Option ℕ
start_in none = none
start_in (some t) = some t.started_at

abbrev present : Option ℕ → ℕ
present none = 0
present (some t) = 1

unfoldable pub count_text : String → List String → ℕ
count_text s [] = 0
count_text s (x ∷ l) = let rest = count_text s l in if x == s then suc rest else rest

-- The turns of the chat in a list, counted, and the first of them.
unfoldable pub count_turns : String → List LiveTurn → ℕ
count_turns s [] = 0
count_turns s (t ∷ l) = let rest = count_turns s l in if t.session_id == s then suc rest else rest

unfoldable pub first_start : String → List LiveTurn → Option ℕ
first_start s [] = none
first_start s (t ∷ l) =
    let rest = first_start s l in if t.session_id == s then some t.started_at else rest

-- Each turn stands under its chat, and the order has the chats of the map once each.
record IsGathered (g : Gathered) : Type 0 where
  named : (s : String) (t : LiveTurn) → Map.lookup s g.by_session ≡ some t → t.session_id ≡ s
  listed : (s : String) → count_text s g.order ≡ present (start_in (Map.lookup s g.by_session))

count_text-append :
    (s x : String) (l : List String)
    → count_text s (l ++ x ∷ []) ≡ (if x == s then suc (count_text s l) else count_text s l)
unfolding count_text
count_text-append s x [] = ground arith
count_text-append s x (y ∷ l) = ground (arith, count_text-append s x l)

add_prompt-IsGathered :
    (req : PendingRequest) (g : Gathered)
    → IsGathered g
    → IsGathered (add_prompt req (Map.lookup req.prompt_session g.by_session) g)
unfolding add_prompt
add_prompt-IsGathered req g h =
    let id = req.prompt_session in
    elim (Option-cases (Map.lookup id g.by_session)) [
      | inl q ↦
          let t = started req.started_at (new_live_turn id) in
          rw (q, add_prompt)
            (record {
              named = λ s u f. elim (Map.lookup-insert-some s id t g.by_session f) [
                | inl (e, same) ↦ ap (λ v. v.session_id) (sym same) ∙ e
                | inr (ne, f') ↦ h.named s u f'
              ];
              listed = λ s. ground (
                arith,
                count_text-append s id g.order,
                h.listed s,
                Map.lookup-insert s id t g.by_session,
                by_text.same_key_iff id s,
              );
            })
      | inr (old, q) ↦
          let t = started req.started_at old in
          rw (q, add_prompt)
            (record {
              named = λ s u f. elim (Map.lookup-insert-some s id t g.by_session f) [
                | inl (e, same) ↦ ap (λ v. v.session_id) (sym same) ∙ (h.named id old q ∙ e)
                | inr (ne, f') ↦ h.named s u f'
              ];
              listed = λ s. ground (
                arith,
                h.listed s,
                Map.lookup-insert s id t g.by_session,
                by_text.same_key_iff id s,
              );
            })
    ]

add_prompt-start :
    (s : String) (req : PendingRequest) (g : Gathered)
    → start_in
        (Map.lookup s (add_prompt req (Map.lookup req.prompt_session g.by_session) g).by_session)
      ≡ (if req.prompt_session == s
          then some (max_time (start_of (start_in (Map.lookup s g.by_session))) req.started_at)
          else start_in (Map.lookup s g.by_session))
unfolding add_prompt
add_prompt-start s req g =
    let id = req.prompt_session in
    elim (Option-cases (Map.lookup id g.by_session)) [
      | inl q ↦
          rw (q, add_prompt)
            (ground (
              arith,
              q,
              by_text.same_key_iff id s,
              Map.lookup-insert s id (started req.started_at (new_live_turn id)) g.by_session,
            ))
      | inr (old, q) ↦
          rw (q, add_prompt)
            (ground (
              arith,
              q,
              by_text.same_key_iff id s,
              Map.lookup-insert s id (started req.started_at old) g.by_session,
            ))
    ]

gather-IsGathered :
    (l : List (String × PendingRequest)) (g : Gathered) → IsGathered g → IsGathered (gather l g)
unfolding gather
gather-IsGathered [] g h = h
gather-IsGathered ((id, req) ∷ l) g h =
    gather-IsGathered l _
      (if-cases IsGathered (req.prompt_session == "") (λ q. h) (λ q. add_prompt-IsGathered req g h))

gather-start :
    (s : String) (l : List (String × PendingRequest)) (g : Gathered)
    → s ≢ ""
    → start_in (Map.lookup s (gather l g).by_session)
      ≡ latest_start s l (start_in (Map.lookup s g.by_session))
unfolding gather latest_start
gather-start s [] g ne = refl
gather-start s ((id, req) ∷ l) g ne = elim (Bool-cases (req.prompt_session == "")) [
  | inl q ↦
      let other : (req.prompt_session == s) ≡ false = ground (
        arith,
        by_text.same_key_iff req.prompt_session s,
        by_text.same_key_iff req.prompt_session "",
      ) in
      rw (q, other, gather, latest_start) (gather-start s l g ne)
  | inr q ↦
      rw (q, gather)
        (gather-start s l _ ne ∙ ap (λ o. latest_start s l o) (add_prompt-start s req g))
]

attend_each-start :
    (s : String) (reqs : List AgentRequest) (m : Map String LiveTurn)
    → start_in (Map.lookup s (attend_each reqs m)) ≡ start_in (Map.lookup s m)
unfolding attend_each
attend_each-start s [] m = refl
attend_each-start s (req ∷ reqs) m = elim (Option-cases (Map.lookup req.attention_session m)) [
  | inl q ↦ rw (q, attend_each) (attend_each-start s reqs m)
  | inr (t, q) ↦ elim (Bool-cases (req.attention == "")) [
    | inl e ↦ rw (q, e, attend_each) (attend_each-start s reqs m)
    | inr e ↦
        let m' = Map.insert req.attention_session (attend req.attention t) m in
        rw (q, e, attend_each)
          (attend_each-start s reqs m'
            ∙ ground (
              arith,
              q,
              by_text.same_key_iff req.attention_session s,
              Map.lookup-insert s req.attention_session (attend req.attention t) m,
            ))
  ]
]

attend_each-named :
    (reqs : List AgentRequest) (m : Map String LiveTurn)
    → ((s : String) (t : LiveTurn) → Map.lookup s m ≡ some t → t.session_id ≡ s)
    → (s : String) (t : LiveTurn) → Map.lookup s (attend_each reqs m) ≡ some t
    → t.session_id ≡ s
unfolding attend_each
attend_each-named [] m named = named
attend_each-named (req ∷ reqs) m named = elim (Option-cases (Map.lookup req.attention_session m)) [
  | inl q ↦ rw (q, attend_each) (attend_each-named reqs m named)
  | inr (old, q) ↦ elim (Bool-cases (req.attention == "")) [
    | inl e ↦ rw (q, e, attend_each) (attend_each-named reqs m named)
    | inr e ↦
        rw (q, e, attend_each)
          (attend_each-named reqs _ (λ s t f.
            elim (Map.lookup-insert-some s req.attention_session (attend req.attention old) m f) [
              | inl (same, is) ↦
                  ap (λ v. v.session_id) (sym is) ∙ (named req.attention_session old q ∙ same)
              | inr (ne, f') ↦ named s t f'
            ]))
  ]
]

in_order-start :
    (s : String) (ids : List String) (m : Map String LiveTurn)
    → ((x : String) (t : LiveTurn) → Map.lookup x m ≡ some t → t.session_id ≡ x)
    → first_start s (in_order ids m)
      ≡ (if ltb 0 (count_text s ids) then start_in (Map.lookup s m) else none)
unfolding first_start in_order count_text
in_order-start s [] m named = refl
in_order-start s (id ∷ ids) m named = elim (Option-cases (Map.lookup id m)) [
  | inl q ↦
      rw (q, in_order) (ground (arith, q, by_text.same_key_iff id s, in_order-start s ids m named))
  | inr (t, q) ↦
      rw (q, in_order)
        (ground (arith, q, named id t q, by_text.same_key_iff id s, in_order-start s ids m named))
]

in_order-count :
    (s : String) (ids : List String) (m : Map String LiveTurn)
    → ((x : String) (t : LiveTurn) → Map.lookup x m ≡ some t → t.session_id ≡ x)
    → count_turns s (in_order ids m) ≤ count_text s ids
unfolding count_turns in_order count_text
in_order-count s [] m named = omega arith
in_order-count s (id ∷ ids) m named = elim (Option-cases (Map.lookup id m)) [
  | inl q ↦ rw (q, in_order) (ground (arith, in_order-count s ids m named))
  | inr (t, q) ↦ rw (q, in_order) (ground (arith, named id t q, in_order-count s ids m named))
]

start-IsGathered : IsGathered (record { by_session = Map.empty; order = [] })
unfolding count_text
start-IsGathered = record {
  named = λ s t f. absurd (ground (arith, Map.lookup-empty {V = LiveTurn} s));
  listed = λ s. ground (arith, Map.lookup-empty {V = LiveTurn} s);
}

live_turns_each :
    (session_id : String) (r : RequestIds)
    → session_id ≢ ""
    → (first_start session_id (live_turns r) ≡ prompt_started_at session_id r)
      × (count_turns session_id (live_turns r) ≤ 1)
unfolding live_turns prompt_started_at
live_turns_each s r ne =
    let g = gather r.pending.entries (record { by_session = Map.empty; order = [] }) in
    let h = gather-IsGathered r.pending.entries _ start-IsGathered in
    let named = attend_each-named r.agent_reqs g.by_session h.named in
    let start =
      gather-start s r.pending.entries (record { by_session = Map.empty; order = [] }) ne in
    (
      in_order-start s g.order (attend_each r.agent_reqs g.by_session) named
          ∙ (ground (arith, h.listed s, attend_each-start s r.agent_reqs g.by_session)
              ∙ (start
                  ∙ ap (λ o. latest_start s r.pending.entries (start_in o))
                      (Map.lookup-empty {V = LiveTurn} s))),
      ground (
        arith,
        h.listed s,
        in_order-count s g.order (attend_each r.agent_reqs g.by_session) named,
      ),
    )

-- Where the chat's name is not empty: the live turns have the chat exactly if a prompt of it is pending, at
-- most once, and then with the time at which the latest of those prompts started, which is also what
-- `promptStartedAt` answers.
pub live_turns-prompt_started_at :
    (session_id : String) (r : RequestIds)
    → session_id ≢ ""
    → (first_start session_id (live_turns r) ≡ prompt_started_at session_id r)
      × IsLatest r.pending session_id (first_start session_id (live_turns r))
      × (count_turns session_id (live_turns r) ≤ 1)
live_turns-prompt_started_at s r ne =
    let (same, once) = live_turns_each s r ne in
    (same, subst (IsLatest r.pending s) (sym same) (prompt_started_at-IsLatest s r), once)
