-- ===== src/Turns/Keys.antt =====
-- Lists of turns by key: whether a key is in one, and the last status that it has.
use ferngeist_acp_gateway.Prelude.{
  ◌≡◌, refl, Bool, true, false, ◌||◌, Option, some, List, [], ◌∷◌, ◌==◌, arith, if◌then◌else◌,
  Bool-cases, inl, inr,
}
use ferngeist_acp_gateway.Turns.Types.{Status, Key, key_of, by_key}

-- `present[k]`
unfoldable pub present : Key → List Status → Bool
present k [] = false
present k (st ∷ l) = (key_of st == k) || present k l

-- No two statuses have one key.
unfoldable pub OneEach : List Status → Type 0
OneEach [] = Unit
OneEach (st ∷ l) = (present (key_of st) l ≡ false) × OneEach l

-- What a list says of a key: the last status with it.
unfoldable pub last_of : Key → List Status → Option Status → Option Status
last_of k [] found = found
last_of k (st ∷ l) found = last_of k l (if key_of st == k then some st else found)

-- A list without the key leaves what was found.
pub last_of-absent :
    (k : Key) (l : List Status) (found : Option Status)
    → present k l ≡ false
    → last_of k l found ≡ found
unfolding present last_of
last_of-absent k [] found h = refl
last_of-absent k (st ∷ l) found h = elim (Bool-cases (key_of st == k)) [
  | inl q ↦ absurd (ground arith)
  | inr q ↦ rw q (last_of-absent k l found (ground arith))
]

pub last_of-hit :
    (k : Key) (st : Status) (l : List Status) (found : Option Status)
    → (key_of st == k) ≡ true
    → last_of k (st ∷ l) found ≡ last_of k l (some st)
unfolding last_of
last_of-hit k st l found q = rw q refl

pub last_of-miss :
    (k : Key) (st : Status) (l : List Status) (found : Option Status)
    → (key_of st == k) ≡ false
    → last_of k (st ∷ l) found ≡ last_of k l found
unfolding last_of
last_of-miss k st l found q = rw q refl

pub last_of-present :
    (k : Key) (l : List Status) (a b : Option Status)
    → present k l ≡ true
    → last_of k l a ≡ last_of k l b
unfolding present last_of
last_of-present k [] a b h = ground arith
last_of-present k (st ∷ l) a b h = elim (Bool-cases (key_of st == k)) [
  | inl q ↦ rw q refl
  | inr q ↦ rw q (last_of-present k l a b (ground arith))
]
