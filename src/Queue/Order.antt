-- ===== src/Queue/Order.antt =====
-- The order in which queued jobs are taken: by time of creation, then by identifier.
use Prim.Native.Nat.{Ordering}
use Prim.Native.String.{compare}
use Prim.Native.String.compare
use text.Mathlib.TextPositions.{compare_refl}
use cartolensia.Prelude.{String, true, false, ◌≡◌, arith, inl, inr, Bool-cases}
use cartolensia.Jobs.{Job}
use cartolensia.Queue.{string_before, precedes}

compare_trans :
    (s t u : String)
    → compare s t ≡ Ordering.lt
    → compare t u ≡ Ordering.lt
    → compare s u ≡ Ordering.lt
compare_trans String.[] String.[] u h k = cc
compare_trans String.[] (String.◌∷◌ d t) String.[] h k = cc (compare.cons-nil d t, k)
compare_trans String.[] (String.◌∷◌ d t) (String.◌∷◌ e u) h k = compare.nil-cons e u
compare_trans (String.◌∷◌ c s) String.[] u h k = cc (compare.cons-nil c s, h)
compare_trans (String.◌∷◌ c s) (String.◌∷◌ d t) String.[] h k = cc (compare.cons-nil d t, k)
compare_trans (String.◌∷◌ c s) (String.◌∷◌ d t) (String.◌∷◌ e u) h k = ground (
  arith,
  compare.cons-cons c d s t,
  compare.cons-cons d e t u,
  compare.cons-cons c e s u,
  compare_trans s t u,
)

pub string_before_trans :
    (s t u : String)
    → string_before s t ≡ true
    → string_before t u ≡ true
    → string_before s u ≡ true
unfolding string_before
string_before_trans s t u h k = ground (arith, compare_trans s t u)

pub precedes_trans : (a b c : Job) → precedes a b ≡ true → precedes b c ≡ true → precedes a c ≡ true
unfolding precedes
precedes_trans a b c h k = ground (arith, string_before_trans a.id b.id c.id)

pub string_before_irrefl : (s : String) → string_before s s ≡ false
unfolding string_before
string_before_irrefl s = ground (arith, compare_refl s)

pub precedes_irrefl : (a : Job) → precedes a a ≡ false
unfolding precedes
precedes_irrefl a = ground (arith, string_before_irrefl a.id)

pub precedes_asym : (a b : Job) → precedes a b ≡ true → precedes b a ≡ false
precedes_asym a b h = elim (Bool-cases (precedes b a)) [
  | inl p ↦ cc (precedes_trans a b a h p, precedes_irrefl a)
  | inr p ↦ p
]

-- what does not come before `b` does not come before anything ahead of `b`
pub precedes-false :
    (a b c : Job) → precedes c b ≡ true → precedes a b ≡ false → precedes a c ≡ false
precedes-false a b c h k = elim (Bool-cases (precedes a c)) [
  | inl p ↦ cc (precedes_trans a c b p h, k)
  | inr p ↦ p
]
