-- ===== src/Common/Equality.antt =====
-- Equality tests as an interface: `==` of the keys of a dict or the members of a set.
use Prim.Native.Nat.{ℕ}
use Prim.Native.String.{String}
use text.Mathlib.TextEquality.{eq_iff}
use mathlib.Core.Path.{◌≡◌}
use mathlib.Core.Logic.{◌↔◌}
use mathlib.Core.Bool.{Bool, true, ◌&&◌}
use native.Mathlib.Omega.{arith}
use monty_pod.Common.Tests.{◌==◌, str_eq, ==_iff}

pub record Eq (A : Type 0) : Type 0 where
  pub beq : A → A → Bool
  pub beq_iff : (a b : A) → (beq a b ≡ true) ↔ (a ≡ b)

abbrev pub eqb : {A : Type 0} ⦃e : Eq A⦄ → A → A → Bool
eqb ⦃e⦄ = e.beq

instance abbrev pub nat_eq : Eq ℕ
nat_eq = record { beq = ◌==◌; beq_iff = ==_iff }

instance abbrev pub string_eq : Eq String
string_eq = record { beq = str_eq; beq_iff = eq_iff }

-- A Python tuple of a text and a number.
abbrev pub pair_beq : String × ℕ → String × ℕ → Bool
pair_beq (s, n) (t, m) = str_eq s t && (n == m)

pub pair_beq_iff : (p q : String × ℕ) → (pair_beq p q ≡ true) ↔ (p ≡ q)
pair_beq_iff p q = (λ h. ground (arith, eq_iff p.0 q.0), λ h. ground (arith, eq_iff p.0 q.0))

instance abbrev pub pair_eq : Eq (String × ℕ)
pair_eq = record { beq = pair_beq; beq_iff = pair_beq_iff }
