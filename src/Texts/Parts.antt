-- ===== src/Texts/Parts.antt =====
-- `strings.Split` and `strings.Join` with one byte between the parts, one the inverse of the other.
use cartolensia.Prelude.{
  ℕ, false, List, [], ◌∷◌, ◌++◌, ◌≡◌, inl, inr, refl, ap, arith, Text, eqb, All, Bool-cases,
}
use cartolensia.Texts.{split, join, in_front}

-- The byte does not stand in the text.
abbrev pub Lacks : ℕ → Text → Type 0
Lacks b [] = Unit
Lacks b (c ∷ s) = (eqb c b ≡ false) × Lacks b s

Lacks-in_front :
    (b c : ℕ) (parts : List Text)
    → eqb c b ≡ false
    → All (Lacks b) parts
    → All (Lacks b) (in_front c parts)
Lacks-in_front b c [] e h = ((e, tt), tt)
Lacks-in_front b c (part ∷ parts) e h = ((e, h.0), h.1)

-- The parts of a text do not hold what it was split at.
pub split-Lacks : (b : ℕ) (s : Text) → All (Lacks b) (split b s)
unfolding split
split-Lacks b [] = (tt, tt)
split-Lacks b (c ∷ s) = elim (Bool-cases (eqb c b)) [
  | inl e ↦ rw e (tt, split-Lacks b s)
  | inr e ↦ rw e (Lacks-in_front b c (split b s) e (split-Lacks b s))
]

split-part : (b : ℕ) (part : Text) → Lacks b part → split b part ≡ part ∷ []
unfolding split
split-part b [] h = refl
split-part b (c ∷ part) (e, h) = rw (e, split-part b part h)

split-append :
    (b : ℕ) (part rest : Text) → Lacks b part → split b (part ++ (b ∷ rest)) ≡ part ∷ split b rest
unfolding split
split-append b [] rest h = ground arith
split-append b (c ∷ part) rest (e, h) = rw (e, split-append b part rest h)

-- Splitting joined parts gives the parts, if there is one and none holds the separator.
pub split-join :
    (b : ℕ) (part : Text) (parts : List Text)
    → Lacks b part
    → All (Lacks b) parts
    → split b (join b (part ∷ parts)) ≡ part ∷ parts
unfolding join
split-join b part [] h all = split-part b part h
split-join b part (next ∷ parts) h all =
    rw (split-append b part (join b (next ∷ parts)) h)
      (ap (λ (t : List Text). part ∷ t) (split-join b next parts all.0 all.1))
