-- ===== src/Texts/Search.antt =====
-- `strings.Contains`, `strings.EqualFold` and the order of texts that `sort.Strings` uses.
use cartolensia.Prelude.{
  Bool, true, false, ◌||◌, ◌&&◌, List, [], ◌∷◌, ltb, eqb, Text, text_eq, ◌==◌, if◌then◌else◌,
}
use cartolensia.Texts.{has_prefix, to_lower}

-- strings.Contains(s, part)
unfoldable pub has_part : Text → Text → Bool
unfolding has_prefix
has_part [] part = has_prefix [] part
has_part (c ∷ s) part = has_prefix (c ∷ s) part || has_part s part

-- strings.EqualFold(s, t)
unfoldable pub equal_fold : Text → Text → Bool
unfolding to_lower
equal_fold s t = to_lower s == to_lower t

unfoldable pub text_before : Text → Text → Bool
text_before s [] = false
text_before [] (d ∷ t) = true
text_before (c ∷ s) (d ∷ t) = ltb c d || (eqb c d && text_before s t)

unfoldable pub put_in_order : Text → List Text → List Text
unfolding text_before
put_in_order s [] = s ∷ []
put_in_order s (t ∷ ts) =
    let rest = put_in_order s ts in if text_before t s then t ∷ rest else s ∷ t ∷ ts

-- sort.Strings
unfoldable pub sort_texts : List Text → List Text
unfolding put_in_order
sort_texts [] = []
sort_texts (t ∷ ts) = put_in_order t (sort_texts ts)
