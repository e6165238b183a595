-- ===== src/Session/Prompts/Bounds.antt =====
-- What a claim and a release leave in the list of a session, and the cap of the lists.
use ferngeist_acp_gateway.Prelude.{
  ◌≤◌, ◌≡◌, refl, sym, List, [], ◌∷◌, ◌++◌, String, by_text, length, ◌==◌, if◌then◌else◌, arith,
  Bool-cases, Option-cases, inl, inr, beq→eq,
}
use ferngeist_acp_gateway.Map
use ferngeist_acp_gateway.Session.Prompts.{
  DeliveredPrompts, new_delivered_prompts, max_delivered_prompts, ids_of, contains_id, delete_all,
  drop_first, claim, forget, release,
}
use ferngeist_acp_gateway.Session.Prompts.Recent.{length-push, length-delete_all}

pub data Call : Type 0 where
  claims releases : String → String → Call

unfoldable pub step : DeliveredPrompts → Call → DeliveredPrompts
step d (claims session_id client_id) = (claim session_id client_id d).0
step d (releases session_id client_id) = release session_id client_id d

unfoldable pub run : DeliveredPrompts → List Call → DeliveredPrompts
run d [] = d
run d (c ∷ cs) = run (step d c) cs

abbrev pub recorded : String → DeliveredPrompts → List String
recorded session_id d = ids_of (Map.lookup session_id d.ids)

abbrev pub IsBounded : DeliveredPrompts → Type 0
IsBounded d = (session_id : String) → length (recorded session_id d) ≤ max_delivered_prompts

-- What a claim and a release leave in the list of a session.
abbrev pub pushed : String → List String → List String
pushed client_id ids =
    if client_id == ""
    then ids
    else (if contains_id client_id ids then ids else drop_first ids ++ client_id ∷ [])

pub claim-recorded :
    (session_id client_id other : String) (d : DeliveredPrompts)
    → recorded other (claim session_id client_id d).0
      ≡ (if session_id == other then pushed client_id (recorded other d) else recorded other d)
unfolding claim
claim-recorded session_id client_id other d =
    let put = drop_first (recorded session_id d) ++ client_id ∷ [] in
    elim (Bool-cases (session_id == other)) [
      | inl q ↦
          rw (q, beq→eq session_id other q)
            (ground (
              arith,
              Map.lookup-insert_self other (drop_first (recorded other d) ++ client_id ∷ []) d.ids,
            ))
      | inr q ↦ rw q (ground (arith, Map.lookup-insert other session_id put d.ids))
    ]

pub release-recorded :
    (session_id client_id other : String) (d : DeliveredPrompts)
    → recorded other (release session_id client_id d)
      ≡ (if session_id == other then delete_all client_id (recorded other d) else recorded other d)
unfolding release forget delete_all
release-recorded session_id client_id other d = elim (Option-cases (Map.lookup session_id d.ids)) [
  | inl f ↦ elim (Bool-cases (session_id == other)) [
    | inl q ↦ rw (f, q) (rw (sym (beq→eq session_id other q), f) refl)
    | inr q ↦ rw (f, q) refl
  ]
  | inr (ids, f) ↦ elim (Bool-cases (session_id == other)) [
    | inl q ↦
        rw (f, q)
          (rw
            (
              sym (beq→eq session_id other q),
              f,
              Map.lookup-insert_self session_id (delete_all client_id ids) d.ids,
            )
            refl)
    | inr q ↦ rw (f, q, Map.lookup-insert other session_id (delete_all client_id ids) d.ids, q) refl
  ]
]

pushed-length :
    (client_id : String) (ids : List String)
    → length ids ≤ max_delivered_prompts
    → length (pushed client_id ids) ≤ max_delivered_prompts
pushed-length client_id ids h = ground (arith, length-push client_id ids h)

pub claim-IsBounded :
    (session_id client_id : String) (d : DeliveredPrompts)
    → IsBounded d
    → IsBounded (claim session_id client_id d).0
claim-IsBounded session_id client_id d h other =
    rw (claim-recorded session_id client_id other d)
      (ground (arith, h other, pushed-length client_id (recorded other d) (h other)))

pub step-IsBounded : (d : DeliveredPrompts) (c : Call) → IsBounded d → IsBounded (step d c)
unfolding step
step-IsBounded d (claims session_id client_id) h = claim-IsBounded session_id client_id d h
step-IsBounded d (releases session_id client_id) h = λ other.
    rw (release-recorded session_id client_id other d)
      (ground (arith, h other, length-delete_all client_id (recorded other d)))

run_from-IsBounded : (d : DeliveredPrompts) (cs : List Call) → IsBounded d → IsBounded (run d cs)
unfolding run
run_from-IsBounded d [] h = h
run_from-IsBounded d (c ∷ cs) h = run_from-IsBounded (step d c) cs (step-IsBounded d c h)

new-IsBounded : IsBounded new_delivered_prompts
unfolding new_delivered_prompts
new-IsBounded session_id = rw (Map.lookup-empty {V = List String} session_id) (omega arith)

-- After any history of claims and releases no session's list holds more than 32 client IDs.
pub run-recorded_bounded :
    (cs : List Call) (session_id : String)
    → length (recorded session_id (run new_delivered_prompts cs)) ≤ max_delivered_prompts
run-recorded_bounded cs = run_from-IsBounded new_delivered_prompts cs new-IsBounded
