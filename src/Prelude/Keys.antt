-- ===== src/Prelude/Keys.antt =====
-- Types whose values the program compares for equality.
use Prim.Native.Nat.{ℕ}
use Prim.Native.String.{String}
use mathlib.Core.Path.{◌≡◌, refl}
use mathlib.Core.Logic.{◌↔◌, ◌≢◌}
use mathlib.Core.Bool.{Bool, true, false, ◌&&◌}
use mathlib.Core.List.{List, [], ◌∷◌}
use native.Mathlib.Omega.{arith}
use text.Mathlib.Text.{◌==◌ as str_eq}
use text.Mathlib.TextEquality.{eq_iff}
use cartolensia.Prelude.Tests.{eqb, if◌then◌else◌}

-- A type with Go's `==`: the test and what it decides.
pub record HasEq {ℓ} (T : Type ℓ) : Type ℓ where
  pub same : T → T → Bool
  pub same_iff : (x y : T) → (same x y ≡ true) ↔ (x ≡ y)

infix 50 ◌==◌
abbrev pub ◌==◌ {ℓ} : {T : Type ℓ} ⦃q : HasEq T⦄ → T → T → Bool
◌==◌ ⦃q⦄ x y = q.same x y

-- A text that the code takes apart is the list of its bytes.
abbrev pub Text : Type 0
Text = List ℕ

abbrev pub same_text : Text → Text → Bool
same_text [] [] = true
same_text [] (d ∷ t) = false
same_text (c ∷ s) [] = false
same_text (c ∷ s) (d ∷ t) = eqb c d && same_text s t

pub same_text_iff : (s t : Text) → (same_text s t ≡ true) ↔ (s ≡ t)
same_text_iff [] [] = (λ h. refl, λ h. refl)
same_text_iff [] (d ∷ t) = (λ h. cc, λ h. cc)
same_text_iff (c ∷ s) [] = (λ h. cc, λ h. cc)
same_text_iff (c ∷ s) (d ∷ t) = ground (arith, same_text_iff s t)

pub eqb_iff : (a b : ℕ) → (eqb a b ≡ true) ↔ (a ≡ b)
eqb_iff a b = ground arith

instance abbrev pub text_eq : HasEq Text
text_eq = record { same = same_text; same_iff = same_text_iff }

instance abbrev pub number_eq : HasEq ℕ
number_eq = record { same = eqb; same_iff = eqb_iff }

instance abbrev pub string_eq : HasEq String
string_eq = record { same = str_eq; same_iff = eq_iff }

module _ {ℓ} {T : Type ℓ} ⦃q : HasEq T⦄ where
  pub same_refl : (x : T) → (x == x) ≡ true
  same_refl x = (q.same_iff x x).1 refl

  pub same_ne : (x y : T) → x ≢ y → (x == y) ≡ false
  same_ne x y h = ground (arith, q.same_iff x y)

  -- `for _, x := range xs { if x == y { return true } }; return false`
  abbrev pub contains : List T → T → Bool
  contains [] y = false
  contains (x ∷ xs) y = if y == x then true else contains xs y
