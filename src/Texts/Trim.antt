-- ===== src/Texts/Trim.antt =====
-- What `strings.TrimSpace` and `strings.ToLower` make of a text.
use mathlib.Core.List.{reverse, reverse-append, reverse-reverse, reverse-cons}
use cartolensia.Prelude.{
  ℕ, false, [], ◌∷◌, ◌++◌, ◌≡◌, inl, inr, refl, sym, ap, arith, Text, Bool-cases, if◌then◌else◌,
}
use cartolensia.Texts.{is_space, trim_left, trim_space, lower, to_lower}

is_space-lower : (c : ℕ) → is_space (lower c) ≡ is_space c
unfolding is_space lower
is_space-lower c = ground arith

lower-lower : (c : ℕ) → lower (lower c) ≡ lower c
unfolding lower
lower-lower c = ground arith

-- Lowering a text twice is lowering it once.
pub to_lower-to_lower : (s : Text) → to_lower (to_lower s) ≡ to_lower s
unfolding to_lower
to_lower-to_lower [] = refl
to_lower-to_lower (c ∷ s) = rw (lower-lower c, to_lower-to_lower s)

trim_left-to_lower : (s : Text) → trim_left (to_lower s) ≡ to_lower (trim_left s)
unfolding trim_left to_lower
trim_left-to_lower [] = refl
trim_left-to_lower (c ∷ s) = elim (Bool-cases (is_space c)) [
  | inl e ↦ rw (is_space-lower c, e) (trim_left-to_lower s)
  | inr e ↦ rw (is_space-lower c, e)
]

-- A text that does not begin with a blank.
abbrev pub IsTrimmed : Text → Type 0
IsTrimmed [] = Unit
IsTrimmed (c ∷ s) = is_space c ≡ false

trim_left-IsTrimmed : (s : Text) → IsTrimmed (trim_left s)
unfolding trim_left
trim_left-IsTrimmed [] = tt
trim_left-IsTrimmed (c ∷ s) = elim (Bool-cases (is_space c)) [
  | inl e ↦ rw e (trim_left-IsTrimmed s)
  | inr e ↦ rw e e
]

trim_left_of_IsTrimmed : (s : Text) → IsTrimmed s → trim_left s ≡ s
unfolding trim_left
trim_left_of_IsTrimmed [] h = refl
trim_left_of_IsTrimmed (c ∷ s) h = rw h

IsTrimmed-append : (s t : Text) → IsTrimmed (s ++ t) → IsTrimmed s
IsTrimmed-append [] t h = tt
IsTrimmed-append (c ∷ s) t h = h

-- the blanks that `trim_left` takes away
blanks : Text → Text
blanks [] = []
blanks (c ∷ s) = if is_space c then c ∷ blanks s else []

blanks-append : (s : Text) → blanks s ++ trim_left s ≡ s
unfolding blanks trim_left
blanks-append [] = refl
blanks-append (c ∷ s) = elim (Bool-cases (is_space c)) [
  | inl e ↦ rw e (ap (λ (t : Text). c ∷ t) (blanks-append s))
  | inr e ↦ rw e
]

-- what is left of a trimmed text after its end is trimmed is still trimmed at the front
trim_end-IsTrimmed : (s : Text) → IsTrimmed s → IsTrimmed (reverse (trim_left (reverse s)))
trim_end-IsTrimmed s h =
    let r : Text = reverse s in
    IsTrimmed-append (reverse (trim_left r)) (reverse (blanks r))
      (rw (← reverse-append (blanks r) (trim_left r), blanks-append r, reverse-reverse) h)

-- Trimming a text twice is trimming it once.
pub trim_space-trim_space : (s : Text) → trim_space (trim_space s) ≡ trim_space s
unfolding trim_space
trim_space-trim_space s =
    let u : Text = trim_left s in
    let r : Text = trim_left (reverse u) in
    rw (
      trim_left_of_IsTrimmed (reverse r) (trim_end-IsTrimmed u (trim_left-IsTrimmed s)),
      reverse-reverse r,
      trim_left_of_IsTrimmed r (trim_left-IsTrimmed (reverse u)),
    )

to_lower-append : (s t : Text) → to_lower (s ++ t) ≡ to_lower s ++ to_lower t
unfolding to_lower
to_lower-append [] t = refl
to_lower-append (c ∷ s) t = rw (to_lower-append s t)

to_lower-reverse : (s : Text) → to_lower (reverse s) ≡ reverse (to_lower s)
to_lower-reverse [] = unfold to_lower in refl
to_lower-reverse (c ∷ s) =
    rw (reverse-cons c s, to_lower-append (reverse s) (c ∷ []), to_lower-reverse s)
      (unfold to_lower in sym (reverse-cons (lower c) (to_lower s)))

-- Trimming and lowering may be done in either order.
pub trim_space-to_lower : (s : Text) → trim_space (to_lower s) ≡ to_lower (trim_space s)
unfolding trim_space
trim_space-to_lower s = rw (
  trim_left-to_lower s,
  ← to_lower-reverse (trim_left s),
  trim_left-to_lower (reverse (trim_left s)),
  ← to_lower-reverse (trim_left (reverse (trim_left s))),
)

-- strings.ToLower(strings.TrimSpace(s)), the form in which texts are compared without regard to case
-- and blanks at the ends; it is its own normal form.
abbrev pub normal : Text → Text
normal s = to_lower (trim_space s)

pub normal-normal : (s : Text) → normal (normal s) ≡ normal s
normal-normal s =
    rw (
      trim_space-to_lower (trim_space s),
      trim_space-trim_space s,
      to_lower-to_lower (trim_space s),
    )
