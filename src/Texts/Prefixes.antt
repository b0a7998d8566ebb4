-- ===== src/Texts/Prefixes.antt =====
-- `strings.HasPrefix` and `strings.HasSuffix`, and what a text is that has the prefix or the suffix.
use cartolensia.Prelude.{true, [], ◌∷◌, ◌++◌, ◌≡◌, ◌↔◌, refl, arith, Text}
use mathlib.Core.List.{reverse, reverse-append, reverse-reverse}
use cartolensia.Texts.{has_prefix, has_suffix, drop_length, trim_suffix}

pub has_prefix-append : (p s : Text) → has_prefix (p ++ s) p ≡ true
unfolding has_prefix
has_prefix-append [] s = unfold has_prefix in refl
has_prefix-append (c ∷ p) s = ground (arith, has_prefix-append p s)

pub drop_length-append : (p s : Text) → drop_length (p ++ s) p ≡ s
drop_length-append [] s = ground arith
drop_length-append (c ∷ p) s = drop_length-append p s

pub append_drop : (p s : Text) → has_prefix s p ≡ true → p ++ drop_length s p ≡ s
unfolding has_prefix
append_drop [] s h = ground arith
append_drop (c ∷ p) [] h = cc
append_drop (c ∷ p) (d ∷ s) h = ground (arith, append_drop p s)

-- A text has a prefix exactly if it is the prefix with something behind it.
pub has_prefix_iff : (s p : Text) → (has_prefix s p ≡ true) ↔ ((rest : Text) × (p ++ rest ≡ s))
has_prefix_iff s p = (
  (λ h. (drop_length s p, append_drop p s h)),
  (λ (rest, e). rw (← e) (has_prefix-append p rest)),
)

-- A text has a suffix exactly if it is the suffix with something in front of it.
pub has_suffix_iff : (s p : Text) → (has_suffix s p ≡ true) ↔ ((front : Text) × (front ++ p ≡ s))
unfolding has_suffix
has_suffix_iff s p = (
  (λ h.
      let (rest, e) = (has_prefix_iff (reverse s) (reverse p)).0 h in
      (reverse rest, rw (← reverse-reverse s, ← e, reverse-append, reverse-reverse) refl)),
  (λ (front, e). rw (← e, reverse-append) (has_prefix-append (reverse p) (reverse front))),
)

-- `strings.TrimSuffix` gives back what stands in front of the suffix.
pub trim_suffix-append : (front p : Text) → trim_suffix (front ++ p) p ≡ front
unfolding trim_suffix has_suffix
trim_suffix-append front p = rw (
  reverse-append front p,
  has_prefix-append (reverse p) (reverse front),
  drop_length-append (reverse p) (reverse front),
  reverse-reverse front,
)
