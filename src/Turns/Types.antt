-- ===== src/Turns/Types.antt =====
-- internal/turns/store.go, feed.go: the statuses of turns and their keys. Times are nanoseconds. The
-- stop reasons are strings of the protocol's package: the four that the code names are parameters.
use ferngeist_acp_gateway.Prelude.{
  ℕ, ◌≡◌, ◌↔◌, refl, Bool, true, false, ◌&&◌, ◌||◌, List, [], ◌∷◌, String, by_text, by_number, ◌==◌,
  Comparable, ◌≢◌, Bool-cases, inl, inr, arith, if◌then◌else◌,
}

abbrev pub state_running : String
state_running = "running"

abbrev pub state_succeeded : String
state_succeeded = "succeeded"

abbrev pub state_failed : String
state_failed = "failed"

abbrev pub state_cancelled : String
state_cancelled = "cancelled"

abbrev pub state_unknown : String
state_unknown = "unknown"

pub record Status : Type 0 where
  pub agent_id : String
  pub session_id : String
  pub gateway_session_id : String
  pub runtime_id : String
  pub state : String
  pub attention : List String
  pub started_at : ℕ
  pub changed_at : ℕ
  pub stop_reason : String

pub record Key : Type 0 where
  pub agent_id : String
  pub gateway_session_id : String
  pub session_id : String

-- Both `Status.key` and `keyOf`.
abbrev pub key_of : Status → Key
key_of s = record {
  agent_id = s.agent_id;
  gateway_session_id = s.gateway_session_id;
  session_id = s.session_id;
}

unfoldable pub same_key_as : Key → Key → Bool
same_key_as a b =
    (a.agent_id == b.agent_id)
    && ((a.gateway_session_id == b.gateway_session_id) && (a.session_id == b.session_id))

pub same_key_as_iff : (a b : Key) → (same_key_as a b ≡ true) ↔ (a ≡ b)
unfolding same_key_as
same_key_as_iff a b = ground (
  arith,
  by_text.same_key_iff a.agent_id b.agent_id,
  by_text.same_key_iff a.gateway_session_id b.gateway_session_id,
  by_text.same_key_iff a.session_id b.session_id,
)

instance abbrev pub by_key : Comparable Key
by_key = record { same_key = same_key_as; same_key_iff = same_key_as_iff }

pub record StopReasons : Type 0 where
  pub end_turn : String
  pub cancelled : String
  pub max_tokens : String
  pub max_turn_requests : String
  pub refusal : String

unfoldable pub outcome : StopReasons → Bool → String → String
outcome reasons errored reason =
    if errored
    then state_failed
    else (if reason == reasons.end_turn
        then state_succeeded
        else (if reason == reasons.cancelled
            then state_cancelled
            else (if (reason == reasons.max_tokens)
                  || ((reason == reasons.max_turn_requests) || (reason == reasons.refusal))
                then state_failed
                else state_unknown)))

-- `slices.Equal`
unfoldable pub equal_items : List String → List String → Bool
equal_items [] [] = true
equal_items [] (y ∷ ys) = false
equal_items (x ∷ xs) [] = false
equal_items (x ∷ xs) (y ∷ ys) = (x == y) && equal_items xs ys

unfoldable pub same_status : Status → Status → Bool
same_status a b =
    (a.agent_id == b.agent_id)
    && ((a.session_id == b.session_id)
        && ((a.gateway_session_id == b.gateway_session_id)
            && ((a.runtime_id == b.runtime_id)
                && ((a.state == b.state)
                    && ((a.stop_reason == b.stop_reason)
                        && ((a.started_at == b.started_at)
                            && ((a.changed_at == b.changed_at)
                                && equal_items a.attention b.attention)))))))

equal_items_lem : (xs ys : List String) → equal_items xs ys ≡ true → xs ≡ ys
unfolding equal_items
equal_items_lem [] [] h = refl
equal_items_lem [] (y ∷ ys) h = ground arith
equal_items_lem (x ∷ xs) [] h = ground arith
equal_items_lem (x ∷ xs) (y ∷ ys) h =
    ground (arith, equal_items_lem xs ys, by_text.same_key_iff x y)

-- Two statuses that are found the same are equal.
pub same_status→eq : (a b : Status) → same_status a b ≡ true → a ≡ b
unfolding same_status
same_status→eq a b h = ground (
  arith,
  by_text.same_key_iff a.agent_id b.agent_id,
  by_text.same_key_iff a.session_id b.session_id,
  by_text.same_key_iff a.gateway_session_id b.gateway_session_id,
  by_text.same_key_iff a.runtime_id b.runtime_id,
  by_text.same_key_iff a.state b.state,
  by_text.same_key_iff a.stop_reason b.stop_reason,
  by_number.same_key_iff a.started_at b.started_at,
  by_number.same_key_iff a.changed_at b.changed_at,
  equal_items_lem a.attention b.attention,
)

distinct_texts : (a b : String) → (a == b) ≡ false → a ≢ b
distinct_texts a b h e = ground (arith, by_text.same_key_iff a b)

if-ne : (b : Bool) {x y z : String} → x ≢ z → y ≢ z → (if b then x else y) ≢ z
if-ne true f g = f
if-ne false f g = g

-- A finished prompt succeeded exactly if it got a reply with the stop reason end_turn and no error.
pub outcome-succeeded :
    (reasons : StopReasons) (errored : Bool) (reason : String)
    → (outcome reasons errored reason ≡ state_succeeded)
      ↔ ((errored ≡ false) × (reason ≡ reasons.end_turn))
unfolding outcome
outcome-succeeded reasons errored reason =
    let failed = distinct_texts state_failed state_succeeded refl in
    let cancelled = distinct_texts state_cancelled state_succeeded refl in
    let unknown = distinct_texts state_unknown state_succeeded refl in
    elim (Bool-cases errored) [
      | inl q ↦ rw q (ground (arith, failed))
      | inr q ↦ rw q (elim (Bool-cases (reason == reasons.end_turn)) [
        | inl r ↦ rw r (ground (arith, by_text.same_key_iff reason reasons.end_turn))
        | inr r ↦ rw r (
          (λ h. absurd (if-ne _ cancelled (if-ne _ failed unknown) h)),
          (λ h. ground (arith, by_text.same_key_iff reason reasons.end_turn)),
        )
      ])
    ]
