-- ===== src/Api/Attempts/Budget.antt =====
-- How many wrong codes an address may still try, and what the parts of the tracker do to it.
use ferngeist_acp_gateway.Prelude.{
  ℕ, suc, ◌+◌, ◌-◌, ◌≤◌, ◌≡◌, refl, sym, ap, ◌∙◌, false, Option, none, some, String, by_text, arith,
  leb, ◌==◌, Bool-cases, Option-cases, inl, inr, if◌then◌else◌, beq→eq,
}
use ferngeist_acp_gateway.Map
use ferngeist_acp_gateway.Map.{Map}
use ferngeist_acp_gateway.Api.Attempts.{
  AttemptState, PairingAttemptTracker, next_attempt_state, state_of, source_key, locked_state,
  attempt_locked, is_locked,
}

-- What the address may still guess up to a time.
abbrev pub budget : ℕ → ℕ → Option AttemptState → ℕ
budget max until none = max
budget max until (some state) = elim state.locked_until [
  | none ↦ suc (max - suc state.failures)
  | some end ↦ if leb until end then 0 else max
]

pub budget_max : (max until : ℕ) (o : Option AttemptState) → 1 ≤ max → budget max until o ≤ max
budget_max max until none h = omega arith
budget_max max until (some state) h = elim (Option-cases state.locked_until) [
  | inl q ↦ ground arith
  | inr (e, q) ↦ ground arith
]

abbrev pub left : ℕ → String → PairingAttemptTracker → ℕ
left until source t = budget t.max_attempts until (Map.lookup source t.ip_attempts)

-- The test of the lock gives an address no more guesses.
pub attempt_locked-budget :
    (source key : String) (now until max : ℕ) (m : Map String AttemptState)
    → now ≤ until
    → 1 ≤ max
    → budget max until (Map.lookup source (attempt_locked key now m).0)
      ≤ budget max until (Map.lookup source m)
unfolding attempt_locked locked_state
attempt_locked-budget source key now until max m h pos = elim (Option-cases (Map.lookup key m)) [
  | inl q ↦ rw q (omega arith)
  | inr (state, q) ↦ rw q (elim (Option-cases state.locked_until) [
    | inl z ↦ rw z (omega arith)
    | inr (end, z) ↦ rw z (elim (Bool-cases (leb now end)) [
      | inl y ↦ rw y (omega arith)
      | inr y ↦
          rw (y, Map.lookup-delete source key m)
            (elim (Bool-cases (key == source)) [
              | inr x ↦ rw x (omega arith)
              | inl x ↦
                  let g : Map.lookup source m ≡ some state =
                    ap (λ k. Map.lookup k m) (sym (beq→eq key source x)) ∙ q in
                  rw (x, g, z) (ground arith)
            ])
    ])
  ])
]

-- An address that comes past the test has no lock.
pub attempt_locked-free :
    (key : String) (now : ℕ) (m : Map String AttemptState) (state : AttemptState)
    → (attempt_locked key now m).1 ≡ false
    → Map.lookup key (attempt_locked key now m).0 ≡ some state
    → state.locked_until ≡ none
unfolding attempt_locked locked_state
attempt_locked-free key now m state h f = elim (Option-cases (Map.lookup key m)) [
  | inl q ↦ ground arith
  | inr (found, q) ↦ elim (Option-cases found.locked_until) [
    | inl z ↦ ground arith
    | inr (end, z) ↦ ground (arith, Map.lookup-delete_self key m)
  ]
]

pub is_locked-ip_attempts :
    (ip key : String) (now : ℕ) (t : PairingAttemptTracker)
    → (is_locked ip key now t).0.ip_attempts ≡ (attempt_locked (source_key ip) now t.ip_attempts).0
unfolding is_locked
is_locked-ip_attempts ip key now t = ground arith

pub is_locked-options :
    (ip key : String) (now : ℕ) (t : PairingAttemptTracker)
    → ((is_locked ip key now t).0.max_attempts ≡ t.max_attempts)
      × ((is_locked ip key now t).0.lockout_window ≡ t.lockout_window)
unfolding is_locked
is_locked-options ip key now t = ground arith

pub is_locked-past :
    (ip key : String) (now : ℕ) (t : PairingAttemptTracker)
    → (is_locked ip key now t).1 ≡ false
    → (attempt_locked (source_key ip) now t.ip_attempts).1 ≡ false
unfolding is_locked
is_locked-past ip key now t h = ground arith

-- A wrong code of an address without a lock costs it a guess.
pub next-budget :
    (later start until max window : ℕ) (o : Option AttemptState)
    → start ≤ later
    → until ≤ start + window
    → 1 ≤ max
    → ((state : AttemptState) → o ≡ some state → state.locked_until ≡ none)
    → suc (budget max until (some (next_attempt_state (state_of o) later max window)))
      ≤ budget max until o
unfolding next_attempt_state
next-budget later start until max window none h w pos free = ground arith
next-budget later start until max window (some state) h w pos free =
    let z = free state refl in
    elim (Bool-cases (leb max (suc state.failures))) [
      | inl q ↦ rw (q, z) (ground arith)
      | inr q ↦ rw (q, z) (ground arith)
    ]

-- The lock of an address, if it has one, lasts that long.
abbrev pub LocksPast : ℕ → Option AttemptState → Type 0
LocksPast until o =
    (state : AttemptState) (end : ℕ) → o ≡ some state → state.locked_until ≡ some end → until ≤ end

pub budget_locked :
    (max until : ℕ) (o : Option AttemptState)
    → 1 ≤ max
    → budget max until o ≡ 0
    → (state : AttemptState) × (end : ℕ) × (o ≡ some state) × (state.locked_until ≡ some end)
budget_locked max until none pos h = absurd (omega (arith, h))
budget_locked max until (some state) pos h = elim (Option-cases state.locked_until) [
  | inl z ↦ absurd (ground arith)
  | inr (end, z) ↦ (state, end, refl, z)
]

pub budget_free :
    (max until : ℕ) (o : Option AttemptState) (state : AttemptState)
    → LocksPast until o
    → 1 ≤ budget max until o
    → o ≡ some state
    → state.locked_until ≡ none
budget_free max until none state past h e = absurd (ground arith)
budget_free max until (some found) state past h e = elim (Option-cases found.locked_until) [
  | inl z ↦ ground arith
  | inr (end, z) ↦ absurd (ground (arith, past found end refl z))
]

pub next-LocksPast :
    (later start until max window : ℕ) (o : Option AttemptState)
    → start ≤ later
    → until ≤ start + window
    → LocksPast until o
    → LocksPast until (some (next_attempt_state (state_of o) later max window))
unfolding next_attempt_state
next-LocksPast later start until max window none h w past state end e l = ground arith
next-LocksPast later start until max window (some found) h w past state end e l =
    elim (Option-cases found.locked_until) [
      | inl z ↦ ground arith
      | inr (old, z) ↦ ground (arith, past found old refl z)
    ]

-- A lock stays where the code was wrong again.
pub next-locked :
    (later start until max window : ℕ) (o : Option AttemptState)
    → start ≤ later
    → until ≤ start + window
    → 1 ≤ max
    → LocksPast until o
    → budget max until o ≡ 0
    → budget max until (some (next_attempt_state (state_of o) later max window)) ≡ 0
unfolding next_attempt_state
next-locked later start until max window none h w pos past z = absurd (omega (arith, z))
next-locked later start until max window (some found) h w pos past z =
    elim (Option-cases found.locked_until) [
      | inl q ↦ absurd (ground arith)
      | inr (end, q) ↦ elim (Bool-cases (leb max (suc found.failures))) [
        | inl y ↦ rw y (ground arith)
        | inr y ↦ rw (y, q) (ground (arith, past found end refl q))
      ]
    ]

pub attempt_locked-some :
    (source key : String) (now : ℕ) (m : Map String AttemptState) (state : AttemptState)
    → Map.lookup source (attempt_locked key now m).0 ≡ some state
    → Map.lookup source m ≡ some state
unfolding attempt_locked locked_state
attempt_locked-some source key now m state h = elim (Option-cases (Map.lookup key m)) [
  | inl q ↦ rw q at h
  | inr (found, q) ↦ elim (Option-cases found.locked_until) [
    | inl z ↦ rw (q, z) at h
    | inr (end, z) ↦ elim (Bool-cases (leb now end)) [
      | inl y ↦ rw (q, z, y) at h
      | inr y ↦ (Map.lookup-delete-some source key m (rw (q, z, y) at h)).0
    ]
  ]
]
