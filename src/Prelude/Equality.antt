-- ===== src/Prelude/Equality.antt =====
-- Equality of keys as an interface, for the program's comparisons of texts, numbers and structs.
use Prim.Native.Nat.{ℕ}
use Prim.Native.String.{String}
use mathlib.Core.Path.{◌≡◌, refl}
use mathlib.Core.Logic.{◌↔◌, ◌≢◌}
use mathlib.Core.Bool.{Bool, true, false}
use native.Mathlib.Omega.{arith}
use text.Mathlib.Text.{◌==◌ as str_beq}
use text.Mathlib.TextEquality.{eq_iff}
use ferngeist_acp_gateway.Prelude.Tests.{nat_beq, nat_beq_iff}

-- What a map asks of its keys: the test of Go's `==`, which decides equality.
pub record Comparable {ℓ} (K : Type ℓ) : Type ℓ where
  pub same_key : K → K → Bool
  pub same_key_iff : (x y : K) → (same_key x y ≡ true) ↔ (x ≡ y)

instance abbrev pub by_text : Comparable String
by_text = record { same_key = str_beq; same_key_iff = eq_iff }

instance abbrev pub by_number : Comparable ℕ
by_number = record { same_key = nat_beq; same_key_iff = nat_beq_iff }

module _ {ℓ} {K : Type ℓ} ⦃c : Comparable K⦄ where
  infix 50 ◌==◌
  abbrev pub ◌==◌ : K → K → Bool
  x == y = c.same_key x y

  pub beq_refl : (x : K) → (x == x) ≡ true
  beq_refl x = (c.same_key_iff x x).1 refl

  pub beq→eq : (x y : K) → (x == y) ≡ true → x ≡ y
  beq→eq x y h = (c.same_key_iff x y).0 h

  pub beq_of_ne : (x y : K) → x ≢ y → (x == y) ≡ false
  beq_of_ne x y h = ground (arith, c.same_key_iff x y)
