-- ===== src/Session/Prompts/Repeats.antt =====
-- A prompt that was claimed is refused when it comes again.
use ferngeist_acp_gateway.Prelude.{
  ℕ, suc, ◌+◌, ◌≤◌, ◌≡◌, ◌≢◌, refl, Bool, true, false, ◌||◌, List, [], ◌∷◌, ◌++◌, String, by_text,
  length, ◌==◌, if◌then◌else◌, arith, Bool-cases, inl, inr, beq_of_ne, ◌&&◌,
}
use ferngeist_acp_gateway.Map
use ferngeist_acp_gateway.Session.Prompts.{
  DeliveredPrompts, max_delivered_prompts, contains_id, drop_first, claim, release,
}
use ferngeist_acp_gateway.Session.Prompts.Recent.{
  behind, IsRecent, contains_id-behind, contains_id-drop_first, contains_id-delete_all,
  behind-append_new, behind-delete_all, behind-push,
}
use ferngeist_acp_gateway.Session.Prompts.Bounds.{
  Call, claims, releases, step, run, recorded, IsBounded, pushed, claim-recorded, release-recorded,
  claim-IsBounded, step-IsBounded,
}

-- How many claims of a session a history has, and whether it releases one of its prompts.
abbrev claim_of : String → Call → ℕ
claim_of session_id (claims s c) = if s == session_id then 1 else 0
claim_of session_id (releases s c) = 0

unfoldable pub claims_of : String → List Call → ℕ
claims_of session_id [] = 0
claims_of session_id (c ∷ cs) = claim_of session_id c + claims_of session_id cs

abbrev release_of : String → String → Call → Bool
release_of session_id client_id (claims s c) = false
release_of session_id client_id (releases s c) = (s == session_id) && (c == client_id)

unfoldable pub releases_of : String → String → List Call → Bool
releases_of session_id client_id [] = false
releases_of session_id client_id (c ∷ cs) =
    release_of session_id client_id c || releases_of session_id client_id cs

pushed-IsRecent :
    (id client_id : String) (ids : List String) (k : ℕ)
    → length ids ≤ max_delivered_prompts
    → suc (suc k) ≤ max_delivered_prompts
    → IsRecent k (behind id ids)
    → IsRecent (suc k) (behind id (pushed client_id ids))
pushed-IsRecent id client_id ids k h small (n, f, le) = elim (Bool-cases (client_id == "")) [
  | inl q ↦ rw q (n, f, omega arith)
  | inr q ↦ rw q (elim (Bool-cases (contains_id client_id ids)) [
    | inl r ↦ rw r (n, f, omega arith)
    | inr r ↦ rw r (behind-push id client_id ids k h small (n, f, le))
  ])
]

step-IsRecent :
    (session_id id : String) (d : DeliveredPrompts) (c : Call) (k : ℕ)
    → IsBounded d
    → suc (claim_of session_id c + k) ≤ max_delivered_prompts
    → release_of session_id id c ≡ false
    → IsRecent k (behind id (recorded session_id d))
    → IsRecent (claim_of session_id c + k) (behind id (recorded session_id (step d c)))
unfolding step
step-IsRecent session_id id d (claims s c) k h small kept recent =
    rw (claim-recorded s c session_id d) (elim (Bool-cases (s == session_id)) [
      | inl q ↦ rw q (
          let (n, f, le) =
            pushed-IsRecent id c (recorded session_id d) k (h session_id) (ground arith) recent in
          (n, f, omega arith))
      | inr q ↦ rw q (recent.0, recent.1, omega (arith, recent.2))
    ])
step-IsRecent session_id id d (releases s c) k h small kept (n, f, le) =
    rw (release-recorded s c session_id d) (elim (Bool-cases (s == session_id)) [
      | inl q ↦ rw q (
          let (m, g, less) =
            behind-delete_all id c (recorded session_id d) n k (ground arith) f le in
          (m, g, omega arith))
      | inr q ↦ rw q (n, f, omega arith)
    ])

run-IsRecent :
    (session_id id : String) (d : DeliveredPrompts) (cs : List Call) (k : ℕ)
    → IsBounded d
    → suc (claims_of session_id cs + k) ≤ max_delivered_prompts
    → releases_of session_id id cs ≡ false
    → IsRecent k (behind id (recorded session_id d))
    → IsRecent (claims_of session_id cs + k) (behind id (recorded session_id (run d cs)))
unfolding run claims_of releases_of
run-IsRecent session_id id d [] k h small kept (n, f, le) = (n, f, omega arith)
run-IsRecent session_id id d (c ∷ cs) k h small kept recent =
    let (n, f, le) =
      run-IsRecent session_id id (step d c) cs (claim_of session_id c + k) (step-IsBounded d c h)
        (omega arith) (ground arith)
        (step-IsRecent session_id id d c k h (omega arith) (ground arith) recent) in
    (n, f, omega arith)

claim-IsRecent :
    (session_id id : String) (d : DeliveredPrompts)
    → id ≢ ""
    → (claim session_id id d).1 ≡ true
    → IsRecent 0 (behind id (recorded session_id (claim session_id id d).0))
unfolding claim
claim-IsRecent session_id id d full new =
    elim (Bool-cases (contains_id id (recorded session_id d))) [
      | inl q ↦ absurd (ground (arith, beq_of_ne id "" full))
      | inr q ↦
          rw
            (
              beq_of_ne id "" full,
              q,
              Map.lookup-insert_self session_id (drop_first (recorded session_id d) ++ id ∷ [])
                  d.ids,
            )
            (
              0,
              behind-append_new id (drop_first (recorded session_id d))
                  (contains_id-drop_first id (recorded session_id d) q),
              omega arith,
            )
    ]

claim-refused :
    (session_id id : String) (d : DeliveredPrompts)
    → id ≢ ""
    → contains_id id (recorded session_id d) ≡ true
    → (claim session_id id d).1 ≡ false
unfolding claim
claim-refused session_id id d full again = rw (beq_of_ne id "" full, again) refl

-- Where the lists are within the cap: once the claim of a prompt with an ID is new, the same claim is
-- refused after any history of claims and releases that does not release the prompt and makes at
-- most 31 claims of its session.
pub claim-run-claim :
    (session_id id : String) (d : DeliveredPrompts) (cs : List Call)
    → IsBounded d
    → id ≢ ""
    → (claim session_id id d).1 ≡ true
    → suc (claims_of session_id cs) ≤ max_delivered_prompts
    → releases_of session_id id cs ≡ false
    → (claim session_id id (run (claim session_id id d).0 cs)).1 ≡ false
claim-run-claim session_id id d cs h full new few kept =
    let first = (claim session_id id d).0 in
    let (n, f, le) =
      run-IsRecent session_id id first cs 0 (claim-IsBounded session_id id d h) (omega (arith, few))
        kept (claim-IsRecent session_id id d full new) in
    claim-refused session_id id (run first cs) full
      (contains_id-behind id (recorded session_id (run first cs)) n f)

-- A released prompt is delivered when it comes again.
pub release-claim :
    (session_id id : String) (d : DeliveredPrompts)
    → (claim session_id id (release session_id id d)).1 ≡ true
release-claim session_id id d =
    let gone : contains_id id (recorded session_id (release session_id id d)) ≡ false =
      rw (release-recorded session_id id session_id d) (
        ground (
          arith,
          by_text.same_key_iff session_id session_id,
          contains_id-delete_all id (recorded session_id d),
        )) in
    unfold claim in ground (arith, gone)
