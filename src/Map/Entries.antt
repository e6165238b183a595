-- ===== src/Map/Entries.antt =====
-- Association lists: the representation behind `Map`.
use ferngeist_acp_gateway.Prelude.{
  suc, ◌≤◌, ◌≡◌, refl, Bool, Option, none, some, List, [], ◌∷◌, arith, Comparable, ◌==◌, beq_refl,
  beq→eq, Bool-cases, subst, inl, inr, length, All, if◌then◌else◌,
}

module _ {ℓ κ} {K : Type ℓ} {V : Type κ} where
  -- What an iteration that tests each entry keeps of a lookup's answer.
  abbrev pub keep : (K → V → Bool) → K → Option V → Option V
  keep p k none = none
  keep p k (some v) = if p k v then some v else none

  unfoldable pub sieve : (K → V → Bool) → List (K × V) → List (K × V)
  sieve p [] = []
  sieve p ((k, v) ∷ l) = if p k v then (k, v) ∷ sieve p l else sieve p l

  pub length-sieve : (p : K → V → Bool) (l : List (K × V)) → length (sieve p l) ≤ length l
  unfolding sieve
  length-sieve p [] = omega arith
  length-sieve p ((k, v) ∷ l) = ground (arith, length-sieve p l)

module _ {ℓ κ} {K : Type ℓ} {V : Type κ} ⦃e : Comparable K⦄ where
  unfoldable pub find : K → List (K × V) → Option V
  find key [] = none
  find key ((i, w) ∷ rest) = if i == key then some w else find key rest

  unfoldable pub put : K → V → List (K × V) → List (K × V)
  put key value [] = (key, value) ∷ []
  put key value ((i, w) ∷ rest) =
      if i == key then (key, value) ∷ rest else (i, w) ∷ put key value rest

  unfoldable pub remove : K → List (K × V) → List (K × V)
  remove k [] = []
  remove k ((j, w) ∷ l) = if j == k then remove k l else (j, w) ∷ remove k l

  -- No key stands twice.
  abbrev pub Distinct : List (K × V) → Type κ
  Distinct [] = Unit
  Distinct ((k, v) ∷ l) = (find k l ≡ none) × Distinct l

  pub find-put :
      (j k : K) (v : V) (l : List (K × V))
      → find j (put k v l) ≡ (if k == j then some v else find j l)
  unfolding find put
  find-put j k v [] = refl
  find-put j k v ((i, w) ∷ l) =
      ground (arith, e.same_key_iff k j, e.same_key_iff i k, e.same_key_iff i j, find-put j k v l)

  pub find-remove :
      (j k : K) (l : List (K × V)) → find j (remove k l) ≡ (if k == j then none else find j l)
  unfolding find remove
  find-remove j k [] = ground arith
  find-remove j k ((i, w) ∷ l) =
      ground (arith, e.same_key_iff k j, e.same_key_iff i k, e.same_key_iff i j, find-remove j k l)

  pub find-sieve-none :
      (p : K → V → Bool) (j : K) (l : List (K × V)) → find j l ≡ none → find j (sieve p l) ≡ none
  unfolding find sieve
  find-sieve-none p j [] h = refl
  find-sieve-none p j ((i, w) ∷ l) h = ground (arith, find-sieve-none p j l)

  pub find-sieve :
      (p : K → V → Bool) (j : K) (l : List (K × V))
      → Distinct l
      → find j (sieve p l) ≡ keep p j (find j l)
  unfolding find sieve
  find-sieve p j [] d = refl
  find-sieve p j ((i, w) ∷ l) d =
      ground (arith, e.same_key_iff i j, find-sieve-none p i l d.0, find-sieve p j l d.1)

  pub put-Distinct : (k : K) (v : V) (l : List (K × V)) → Distinct l → Distinct (put k v l)
  unfolding put
  put-Distinct k v [] d = unfold find in (refl, tt)
  put-Distinct k v ((i, w) ∷ l) d =
      ground
        (arith, e.same_key_iff i k, e.same_key_iff k i, find-put i k v l, put-Distinct k v l d.1)

  pub remove-Distinct : (k : K) (l : List (K × V)) → Distinct l → Distinct (remove k l)
  unfolding remove
  remove-Distinct k [] d = tt
  remove-Distinct k ((i, w) ∷ l) d = ground (arith, find-remove i k l, remove-Distinct k l d.1)

  pub sieve-Distinct : (p : K → V → Bool) (l : List (K × V)) → Distinct l → Distinct (sieve p l)
  unfolding sieve
  sieve-Distinct p [] d = tt
  sieve-Distinct p ((i, w) ∷ l) d =
      ground (arith, find-sieve-none p i l d.0, sieve-Distinct p l d.1)

  pub length-put-none :
      (k : K) (v : V) (l : List (K × V)) → find k l ≡ none → length (put k v l) ≡ suc (length l)
  unfolding find put
  length-put-none k v [] h = refl
  length-put-none k v ((i, w) ∷ l) h = ground (arith, length-put-none k v l)

  pub length-put-some :
      (k : K) (v w : V) (l : List (K × V)) → find k l ≡ some w → length (put k v l) ≡ length l
  unfolding find put
  length-put-some k v w [] h = ground arith
  length-put-some k v w ((i, u) ∷ l) h = ground (arith, length-put-some k v w l)

  pub length-remove-le : (k : K) (l : List (K × V)) → length (remove k l) ≤ length l
  unfolding remove
  length-remove-le k [] = omega arith
  length-remove-le k ((i, w) ∷ l) = ground (arith, length-remove-le k l)

  pub length-remove-some :
      (k : K) (v : V) (l : List (K × V)) → find k l ≡ some v → suc (length (remove k l)) ≤ length l
  unfolding find remove
  length-remove-some k v [] h = ground arith
  length-remove-some k v ((i, w) ∷ l) h =
      ground (arith, length-remove-le k l, length-remove-some k v l)

  -- A property of every entry, and of every lookup.
  pub All-of_find {μ} :
      (P : K × V → Type μ) (l : List (K × V))
      → Distinct l
      → ((k : K) (v : V) → find k l ≡ some v → P (k, v))
      → All P l
  unfolding find
  All-of_find P [] d h = tt
  All-of_find P ((i, w) ∷ l) d h = (
    h i w (rw (beq_refl i)),
    All-of_find P l d.1 (λ k v q. h k v (ground (arith, e.same_key_iff i k, d.0))),
  )

  pub find_of_All {μ} :
      (P : K × V → Type μ) (l : List (K × V)) (k : K) (v : V)
      → All P l
      → find k l ≡ some v
      → P (k, v)
  unfolding find
  find_of_All P [] k v a h = absurd (ground arith)
  find_of_All P ((i, w) ∷ l) k v a h = elim (Bool-cases (i == k)) [
    | inl q ↦ subst P (ground (arith, beq→eq i k q)) a.0
    | inr q ↦ find_of_All P l k v a.1 (ground arith)
  ]

  pub find-length_zero : (k : K) (l : List (K × V)) → length l ≡ 0 → find k l ≡ none
  unfolding find
  find-length_zero k [] h = refl
  find-length_zero k (x ∷ l) h = absurd (omega arith)
