-- ===== src/Session/Prompts/Recent.antt =====
-- How far back in a session's list a client ID stands.
use ferngeist_acp_gateway.Prelude.{
  ℕ, suc, ◌≤◌, ◌≡◌, refl, true, false, Option, none, some, List, [], ◌∷◌, ◌++◌, String, by_text,
  length, leb, ◌==◌, if◌then◌else◌, arith, Bool-cases, inl, inr, length-append,
}
use ferngeist_acp_gateway.Session.Prompts.{
  contains_id, rest_ids, delete_all, drop_first, max_delivered_prompts,
}

-- How many items stand behind the first occurrence.
unfoldable pub behind : String → List String → Option ℕ
behind id [] = none
behind id (x ∷ xs) = if x == id then some (length xs) else behind id xs

abbrev pub IsRecent : ℕ → Option ℕ → Type 0
IsRecent k o = (n : ℕ) × (o ≡ some n) × (n ≤ k)

behind_lt : (id : String) (l : List String) (n : ℕ) → behind id l ≡ some n → suc n ≤ length l
unfolding behind
behind_lt id [] n h = ground arith
behind_lt id (x ∷ xs) n h = ground (arith, behind_lt id xs n)

pub contains_id-behind :
    (id : String) (l : List String) (n : ℕ) → behind id l ≡ some n → contains_id id l ≡ true
unfolding behind contains_id
contains_id-behind id [] n h = ground arith
contains_id-behind id (x ∷ xs) n h = ground (arith, contains_id-behind id xs n)

pub behind-append :
    (id other : String) (l : List String) (n : ℕ)
    → behind id l ≡ some n
    → behind id (l ++ other ∷ []) ≡ some (suc n)
unfolding behind
behind-append id other [] n h = ground arith
behind-append id other (x ∷ xs) n h =
    ground (arith, behind-append id other xs n, length-append xs (other ∷ []))

pub behind-append_new :
    (id : String) (l : List String) → contains_id id l ≡ false → behind id (l ++ id ∷ []) ≡ some 0
unfolding behind contains_id
behind-append_new id [] h = ground (arith, by_text.same_key_iff id id)
behind-append_new id (x ∷ xs) h = ground (arith, behind-append_new id xs)

pub behind-rest_of :
    (id : String) (l : List String) (n : ℕ)
    → behind id l ≡ some n
    → suc (suc n) ≤ length l
    → behind id (rest_ids l) ≡ some n
unfolding behind
behind-rest_of id [] n h le = ground arith
behind-rest_of id (x ∷ xs) n h le = ground arith

pub length-delete_all : (id : String) (l : List String) → length (delete_all id l) ≤ length l
unfolding delete_all
length-delete_all id [] = omega arith
length-delete_all id (x ∷ xs) = ground (arith, length-delete_all id xs)

pub behind-delete_all :
    (id other : String) (l : List String) (n k : ℕ)
    → (other == id) ≡ false
    → behind id l ≡ some n
    → n ≤ k
    → IsRecent k (behind id (delete_all other l))
unfolding behind delete_all
behind-delete_all id other [] n k ne h le = (n, ground arith, le)
behind-delete_all id other (x ∷ xs) n k ne h le = elim (Bool-cases (x == id)) [
  | inl q ↦
      let ne' : (x == other) ≡ false = ground (
        arith,
        by_text.same_key_iff x id,
        by_text.same_key_iff x other,
        by_text.same_key_iff other id,
      ) in
      (length (delete_all other xs), ground arith, ground (arith, length-delete_all other xs))
  | inr q ↦
      let (m, f, small) = behind-delete_all id other xs n k ne (ground arith) le in
      (m, ground arith, small)
]

length-rest_of : (l : List String) → 1 ≤ length l → suc (length (rest_ids l)) ≡ length l
length-rest_of [] h = ground arith
length-rest_of (x ∷ xs) h = refl

-- The cap is kept by an insertion and by a deletion.
pub length-push :
    (id : String) (l : List String)
    → length l ≤ max_delivered_prompts
    → length (drop_first l ++ id ∷ []) ≤ max_delivered_prompts
unfolding drop_first
length-push id l h =
    ground
      (arith, length-append l (id ∷ []), length-append (rest_ids l) (id ∷ []), length-rest_of l)

-- Another ID pushes it one further back, and not out of a list of 32 while there are 30 behind.
pub behind-push :
    (id other : String) (l : List String) (k : ℕ)
    → length l ≤ max_delivered_prompts
    → suc (suc k) ≤ max_delivered_prompts
    → IsRecent k (behind id l)
    → IsRecent (suc k) (behind id (drop_first l ++ other ∷ []))
unfolding drop_first
behind-push id other l k h small (n, f, le) =
    elim (Bool-cases (leb max_delivered_prompts (length l))) [
      | inl q ↦ (
        suc n,
        rw q (behind-append id other (rest_ids l) n (behind-rest_of id l n f (ground arith))),
        omega arith,
      )
      | inr q ↦ (suc n, rw q (behind-append id other l n f), omega arith)
    ]

pub contains_id-drop_first :
    (id : String) (l : List String)
    → contains_id id l ≡ false
    → contains_id id (drop_first l) ≡ false
unfolding contains_id drop_first
contains_id-drop_first id [] h = ground arith
contains_id-drop_first id (x ∷ xs) h = ground arith

pub contains_id-delete_all :
    (id : String) (l : List String) → contains_id id (delete_all id l) ≡ false
unfolding contains_id delete_all
contains_id-delete_all id [] = refl
contains_id-delete_all id (x ∷ xs) = ground (arith, contains_id-delete_all id xs)
