-- ===== src/Session/TurnResults.antt =====
-- internal/session/turn_result.go: the outcome of a turn that ended while no client was attached.
-- `Usage` is a type of the protocol's package, and the text of the notification is JSON.
use ferngeist_acp_gateway.Prelude.{
  ◌≡◌, refl, ◌∙◌, ap, Option, none, some, List, [], ◌∷◌, String, by_text, arith, ◌==◌,
  if◌then◌else◌,
}
use ferngeist_acp_gateway.Prelude.Int.{ℤ}
use ferngeist_acp_gateway.Map
use ferngeist_acp_gateway.Map.{Map}

pub record TurnResult (Usage : Type 0) : Type 0 where
  pub stop_reason : String
  pub usage : Option Usage
  pub duration_ms : ℤ

-- `StdioPump.turnResults`
pub record TurnResults (Usage : Type 0) : Type 0 where
  pub results : Map String (TurnResult Usage)

module _ {Usage : Type 0} where
  unfoldable pub store_turn_result :
      String → TurnResult Usage → TurnResults Usage → TurnResults Usage
  store_turn_result session_id res p =
      if session_id == "" then p else record { results = Map.insert session_id res p.results }

  unfoldable pub take_turn_result :
      String → TurnResults Usage → TurnResults Usage × Option (TurnResult Usage)
  take_turn_result session_id p =
      let found = Map.lookup session_id p.results in
      (
        elim found [ none ↦ p | some res ↦ record { results = Map.delete session_id p.results } ],
        found,
      )

  unfoldable pub clear_turn_result : String → TurnResults Usage → TurnResults Usage
  clear_turn_result session_id p = record { results = Map.delete session_id p.results }

-- One call.
pub data Call (Usage : Type 0) : Type 0 where
  stores : String → TurnResult Usage → Call Usage
  takes clears : String → Call Usage

module _ {Usage : Type 0} where
  unfoldable pub step : TurnResults Usage → Call Usage → TurnResults Usage
  step p (stores session_id res) = store_turn_result session_id res p
  step p (takes session_id) = (take_turn_result session_id p).0
  step p (clears session_id) = clear_turn_result session_id p

  unfoldable pub run : TurnResults Usage → List (Call Usage) → TurnResults Usage
  run p [] = p
  run p (c ∷ cs) = run (step p c) cs

  -- What one session is owed: the last result stored, until it is taken or cleared.
  abbrev pub owe : String → Option (TurnResult Usage) → Call Usage → Option (TurnResult Usage)
  owe session_id owed (stores s res) =
      if s == "" then owed else (if s == session_id then some res else owed)
  owe session_id owed (takes s) = if s == session_id then none else owed
  owe session_id owed (clears s) = if s == session_id then none else owed

  unfoldable pub owed_after :
      String → Option (TurnResult Usage) → List (Call Usage) → Option (TurnResult Usage)
  owed_after session_id owed [] = owed
  owed_after session_id owed (c ∷ cs) = owed_after session_id (owe session_id owed c) cs

  step-lookup :
      (session_id : String) (p : TurnResults Usage) (c : Call Usage)
      → Map.lookup session_id (step p c).results
        ≡ owe session_id (Map.lookup session_id p.results) c
  unfolding step store_turn_result take_turn_result clear_turn_result
  step-lookup session_id p (stores s res) =
      ground (arith, Map.lookup-insert session_id s res p.results)
  step-lookup session_id p (takes s) =
      ground (arith, Map.lookup-delete session_id s p.results, by_text.same_key_iff s session_id)
  step-lookup session_id p (clears s) = Map.lookup-delete session_id s p.results

  run-lookup :
      (session_id : String) (p : TurnResults Usage) (cs : List (Call Usage))
      → Map.lookup session_id (run p cs).results
        ≡ owed_after session_id (Map.lookup session_id p.results) cs
  unfolding run owed_after
  run-lookup session_id p [] = refl
  run-lookup session_id p (c ∷ cs) =
      run-lookup session_id (step p c) cs
      ∙ ap (λ o. owed_after session_id o cs) (step-lookup session_id p c)

  -- After any history of calls a session takes the last result stored for it since the last take
  -- or clear, whatever the calls for other sessions.
  pub run-take_turn_result :
      (session_id : String) (p : TurnResults Usage) (cs : List (Call Usage))
      → (take_turn_result session_id (run p cs)).1
        ≡ owed_after session_id (Map.lookup session_id p.results) cs
  unfolding take_turn_result
  run-take_turn_result session_id p cs = run-lookup session_id p cs
