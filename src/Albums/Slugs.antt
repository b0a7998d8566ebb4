-- ===== src/Albums/Slugs.antt =====
-- internal/catalog/extended_store.go: `slugify`, the part of an album's address that is made of its title.
use cartolensia.Prelude.{
  ℕ, Bool, true, false, ◌&&◌, ◌||◌, [], ◌∷◌, Text, text_eq, ◌==◌, leb, if◌then◌else◌,
}
use cartolensia.Texts.{bytes, trim_space, to_lower, trim_byte}

abbrev pub dash : ℕ
dash = b'-'

abbrev pub is_slug_byte : ℕ → Bool
is_slug_byte c = (leb b'a' c && leb c b'z') || (leb b'0' c && leb c b'9')

-- the loop over the runes, with lastDash
unfoldable pub dashed : Bool → Text → Text
dashed last_dash [] = []
dashed last_dash (c ∷ s) =
    let kept = dashed false s in
    let gap = dashed true s in
    if is_slug_byte c then c ∷ kept else if last_dash then gap else dash ∷ gap

unfoldable pub slugify : Text → Text
unfolding dashed trim_byte to_lower trim_space
slugify input =
    let out = trim_byte dash (dashed false (to_lower (trim_space input))) in
    if out == [] then bytes "album" else out
