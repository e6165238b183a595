-- ===== src/Session/RequestIds/Sound.antt =====
-- What the maps of internal/session/request_ids.go keep true: the IDs pending were given out, and a
-- cancel is pointed at a request that is in flight.
use ferngeist_acp_gateway.Prelude.{
  ℕ, suc, ◌+◌, ◌%◌, ◌^◌, ◌≤◌, ◌<◌, ◌≡◌, ◌≢◌, refl, sym, ap, subst, ◌∙◌, some, List, [], ◌∷◌, String,
  by_text, arith, length, Option-cases, inl, inr, ◌==◌, if-cases,
}
use ferngeist_acp_gateway.Map
use ferngeist_acp_gateway.Map.{Map}
use ferngeist_acp_gateway.Session.Frames.{Codec, ClientFrame, response_id_key}
use ferngeist_acp_gateway.Session.RequestIds.{
  RequestIds, PendingRequest, AgentRequest, max_pending_agent_requests, drop_agent_request,
  drop_session_agent_requests, forget_request, within_cap, next_of, agent_id_of, register,
  answer_agent_request, outbound_fields, outbound, origin_of, redeliver_each,
}

-- `strconv.FormatInt` gives different texts for different integers of 64 bits.
abbrev pub IsInjective : Codec → Type 0
IsInjective codec =
    (a b : ℕ) → a < 2 ^ 64 → b < 2 ^ 64 → codec.format_int a ≡ codec.format_int b → a ≡ b

-- Every pending ID was given out.
abbrev pub IsIssued : Codec → ℕ → Map String PendingRequest → Type 0
IsIssued codec next pending =
    (key : String) (origin : PendingRequest)
    → Map.lookup key pending ≡ some origin
    → (n : ℕ) × (key ≡ codec.format_int n) × (n ≤ next)

-- The request that an owner's cancel is pointed at is in flight, and the owner's.
abbrev pub IsOwned : Map String PendingRequest → Map String String → Type 0
IsOwned pending by_owner =
    (owner key : String)
    → Map.lookup owner by_owner ≡ some key
    → (origin : PendingRequest) × (Map.lookup key pending ≡ some origin) × (origin.owner ≡ owner)

pub record IsConsistent (codec : Codec) (r : RequestIds) : Type 0 where
  pub issued : IsIssued codec r.next r.pending
  pub owned : IsOwned r.pending r.by_owner
  pub few : length r.agent_reqs ≤ max_pending_agent_requests

forget-IsIssued :
    (codec : Codec) (next : ℕ) (key : String) (pending : Map String PendingRequest)
    → IsIssued codec next pending
    → IsIssued codec next (Map.delete key pending)
forget-IsIssued codec next key pending h k p g = h k p (Map.lookup-delete-some k key pending g).0

forget-IsOwned :
    (key : String) (origin : PendingRequest) (pending : Map String PendingRequest)
    (by_owner : Map String String)
    → Map.lookup key pending ≡ some origin
    → IsOwned pending by_owner
    → IsOwned (Map.delete key pending) (Map.delete origin.owner by_owner)
forget-IsOwned key origin pending by_owner f h o k g =
    let (g', ne) = Map.lookup-delete-some o origin.owner by_owner g in
    let (p, q, e) = h o k g' in
    let other : key ≢ k = λ same.
      let one : some origin ≡ some p = sym f ∙ (ap (λ x. Map.lookup x pending) same ∙ q) in
      ne (ground arith) in
    (p, Map.lookup-delete_ne k key pending other ∙ q, e)

pub forget_request-IsConsistent :
    (codec : Codec) (key : String) (origin : PendingRequest) (r : RequestIds)
    → Map.lookup key r.pending ≡ some origin
    → IsConsistent codec r
    → IsConsistent codec (forget_request key origin r)
unfolding forget_request
forget_request-IsConsistent codec key origin r f h = record {
  issued = forget-IsIssued codec r.next key r.pending h.issued;
  owned = forget-IsOwned key origin r.pending r.by_owner f h.owned;
  few = h.few;
}

-- The next ID is none of those that are pending.
pub agent_id-apart :
    (codec : Codec) (next : ℕ) (key : String) (origin : PendingRequest)
    (pending : Map String PendingRequest)
    → IsInjective codec
    → suc next < 2 ^ 64
    → IsIssued codec next pending
    → Map.lookup key pending ≡ some origin
    → codec.format_int ((next + 1) % 2 ^ 64) ≢ key
agent_id-apart codec next key origin pending inj room h f e =
    let (n, k, le) = h key origin f in
    let same : suc next ≡ n =
      inj (suc next) n room (omega arith) (ap codec.format_int small ∙ (e ∙ k)) in
    omega arith
  where
    small : suc next ≡ (next + 1) % 2 ^ 64
    small = omega arith

register-IsConsistent :
    (codec : Codec) (origin : PendingRequest) (r : RequestIds)
    → IsInjective codec
    → suc r.next < 2 ^ 64
    → IsConsistent codec r
    → IsConsistent codec (register codec origin r)
unfolding register
register-IsConsistent codec origin r inj room h =
    let id = agent_id_of codec r in
    let next : next_of codec r ≡ suc r.next = omega arith in
    record {
      issued = λ k p g. elim (Map.lookup-insert-some k id origin r.pending g) [
        | inl (e, same) ↦ (next_of codec r, sym e, omega arith)
        | inr (ne, g') ↦ let (n, q, le) = h.issued k p g' in (n, q, omega (arith, next))
      ];
      owned = λ o k g. elim (Map.lookup-insert-some o origin.owner id r.by_owner g) [
        | inl (e, same) ↦ (
          origin,
          ap (λ x. Map.lookup x (Map.insert id origin r.pending)) (sym same)
              ∙ Map.lookup-insert_self id origin r.pending,
          e,
        )
        | inr (ne, g') ↦
            let (p, q, e) = h.owned o k g' in
            (
              p,
              Map.lookup-insert_ne k id origin r.pending
                    (agent_id-apart codec r.next k p r.pending inj room h.issued q)
                  ∙ q,
              e,
            )
      ];
      few = h.few;
    }

pub length-drop_agent_request :
    (key : String) (reqs : List AgentRequest) → length (drop_agent_request key reqs).0 ≤ length reqs
unfolding drop_agent_request
length-drop_agent_request key [] = omega arith
length-drop_agent_request key (req ∷ reqs) = ground (arith, length-drop_agent_request key reqs)

pub length-drop_session_agent_requests :
    (session_id : String) (reqs : List AgentRequest)
    → length (drop_session_agent_requests session_id reqs) ≤ length reqs
unfolding drop_session_agent_requests
length-drop_session_agent_requests session_id [] = omega arith
length-drop_session_agent_requests session_id (req ∷ reqs) =
    ground (arith, length-drop_session_agent_requests session_id reqs)

pub length-within_cap :
    (reqs : List AgentRequest)
    → length reqs ≤ max_pending_agent_requests
    → length (within_cap reqs) < max_pending_agent_requests
length-within_cap [] h = omega arith
length-within_cap (req ∷ reqs) h = ground arith

pub length-redeliver_each :
    (gen : ℕ) (session_id : String) (reqs : List AgentRequest)
    → length (redeliver_each gen session_id reqs).0 ≡ length reqs
unfolding redeliver_each
length-redeliver_each gen session_id [] = refl
length-redeliver_each gen session_id (req ∷ reqs) =
    ground (arith, length-redeliver_each gen session_id reqs)

-- Where only the agent's requests change, and do not grow past the cap.
pub agent_reqs-IsConsistent :
    (codec : Codec) (r r' : RequestIds)
    → r'.next ≡ r.next
    → r'.pending ≡ r.pending
    → r'.by_owner ≡ r.by_owner
    → length r'.agent_reqs ≤ max_pending_agent_requests
    → IsConsistent codec r
    → IsConsistent codec r'
agent_reqs-IsConsistent codec r r' n p o few h = record {
  issued =
      subst (λ x. IsIssued codec x r'.pending) (sym n)
        (subst (IsIssued codec r.next) (sym p) h.issued);
  owned = subst (λ x. IsOwned x r'.by_owner) (sym p) (subst (IsOwned r.pending) (sym o) h.owned);
  few = few;
}

pub outbound-IsConsistent :
    (codec : Codec) (gen now : ℕ) (f : ClientFrame) (r : RequestIds)
    → IsInjective codec
    → suc r.next < 2 ^ 64
    → IsConsistent codec r
    → IsConsistent codec (outbound codec gen now f r).0
unfolding outbound outbound_fields answer_agent_request
outbound-IsConsistent codec gen now f r inj room h = elim (Option-cases f.fields) [
  | inl q ↦ rw q h
  | inr (fields, q) ↦ rw q (
      if-cases (λ (x : RequestIds × ClientFrame). IsConsistent codec x.0) (f.method == "")
        (λ empty. elim (Option-cases f.id) [ inl i ↦ rw i h | inr (id, i) ↦ rw i (answered id) ])
        (λ named. elim (Option-cases f.id) [
          | inl i ↦ rw i h
          | inr (id, i) ↦
              rw i (register-IsConsistent codec (origin_of codec gen now id f) r inj room h)
        ]))
]
  where
    answered : (id : String) → IsConsistent codec (answer_agent_request codec id r)
    answered id =
        if-cases (IsConsistent codec) (drop_agent_request (response_id_key codec id) r.agent_reqs).1
          (λ q.
            agent_reqs-IsConsistent codec r _ refl refl refl
              (omega
                (arith, length-drop_agent_request (response_id_key codec id) r.agent_reqs, h.few))
              h)
          (λ q. h)
