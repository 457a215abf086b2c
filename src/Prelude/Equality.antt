-- ===== src/Prelude/Equality.antt =====
-- Types whose values the program compares with `==`.
use Prim.Native.String.{String}
use mathlib.Core.Path.{◌≡◌, refl}
use mathlib.Core.Logic.{◌↔◌}
use mathlib.Core.Bool.{Bool, true, false}
use text.Mathlib.Text.{◌==◌ as str_eq}
use text.Mathlib.TextEquality.{eq_iff}

pub record Comparable {ℓ} (A : Type ℓ) : Type ℓ where
  pub equals : A → A → Bool
  pub equals_iff : (a b : A) → (equals a b ≡ true) ↔ (a ≡ b)

module _ {ℓ} {A : Type ℓ} ⦃c : Comparable A⦄ where
  infix 50 ◌==◌
  abbrev pub ◌==◌ : A → A → Bool
  x == y = c.equals x y

instance abbrev pub string_eq : Comparable String
string_eq = record { equals = str_eq; equals_iff = eq_iff }

false≢true : false ≡ true → ⊥
false≢true e = cc

-- what a Boolean test reflects is decided
reflected : {P : Type 0} (test : Bool) → ((test ≡ true) ↔ P) → Dec P
reflected true (of_true, to_true) = yes (of_true refl)
reflected false (of_true, to_true) = no (λ p. false≢true (to_true p))

pub String-discrete : Discrete String
String-discrete a b = reflected (str_eq a b) (eq_iff a b)

module _ {ℓ} {A : Type ℓ} where
  abbrev is_yes : Dec A → Bool
  is_yes (yes a) = true
  is_yes (no n) = false

  pub is_yes_iff : (d : Dec A) → (is_yes d ≡ true) ↔ A
  is_yes_iff (yes a) = ((λ e. a), λ a'. refl)
  is_yes_iff (no n) = ((λ e. absurd (false≢true e)), λ a. absurd (n a))

-- `==` on a type whose equality is decided
abbrev pub discrete_eq {ℓ} : {A : Type ℓ} → Discrete A → Comparable A
discrete_eq d = record { equals = λ a b. is_yes (d a b); equals_iff = λ a b. is_yes_iff (d a b) }
