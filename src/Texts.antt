-- ===== src/Texts.antt =====
-- The functions of Go's `strings` package that the program calls, on texts as lists of bytes. The
-- texts are taken to be ASCII, where a byte is a character and `ToLower` shifts the letters A to Z.
pub mod Trim
pub mod Parts
pub mod Prefixes
pub mod FilePath
pub mod Search
pub mod Decimal
use Prim.Native.Char.{code}
use cartolensia.Prelude.{
  ℕ, zero, suc, ◌+◌, String, Bool, true, false, ◌&&◌, ◌||◌, Option, none, some, List, [], ◌∷◌, ◌++◌,
  map, ltb, leb, eqb, Text, text_eq, ◌==◌, if◌then◌else◌,
}
use mathlib.Core.List.{reverse}

-- The bytes of a literal.
abbrev pub bytes : String → Text
bytes String.[] = []
bytes (String.◌∷◌ c s) = code c ∷ bytes s

unfoldable pub is_space : ℕ → Bool
is_space c = eqb c 32 || (leb 9 c && leb c 13)

unfoldable pub trim_left : Text → Text
trim_left [] = []
trim_left (c ∷ s) = if is_space c then trim_left s else c ∷ s

-- strings.TrimSpace
unfoldable pub trim_space : Text → Text
unfolding trim_left is_space
trim_space s = reverse (trim_left (reverse (trim_left s)))

unfoldable pub lower : ℕ → ℕ
lower c = if leb b'A' c && leb c b'Z' then c + 32 else c

-- strings.ToLower
unfoldable pub to_lower : Text → Text
unfolding lower
to_lower s = map lower s

-- strings.HasPrefix(s, p)
unfoldable pub has_prefix : Text → Text → Bool
has_prefix s [] = true
has_prefix [] (d ∷ p) = false
has_prefix (c ∷ s) (d ∷ p) = eqb c d && has_prefix s p

-- what is left of a text after as many bytes as the prefix has
abbrev pub drop_length : Text → Text → Text
drop_length s [] = s
drop_length [] (d ∷ p) = []
drop_length (c ∷ s) (d ∷ p) = drop_length s p

-- strings.TrimPrefix(s, p)
unfoldable pub trim_prefix : Text → Text → Text
unfolding has_prefix
trim_prefix s p = if has_prefix s p then drop_length s p else s

-- strings.HasSuffix(s, p)
unfoldable pub has_suffix : Text → Text → Bool
unfolding has_prefix
has_suffix s p = has_prefix (reverse s) (reverse p)

-- strings.TrimSuffix(s, p)
unfoldable pub trim_suffix : Text → Text → Text
unfolding has_suffix
trim_suffix s p = if has_suffix s p then reverse (drop_length (reverse s) (reverse p)) else s

unfoldable pub drop_byte : ℕ → Text → Text
drop_byte b [] = []
drop_byte b (c ∷ s) = let rest = drop_byte b s in if eqb c b then rest else c ∷ s

-- strings.Trim(s, cutset) for a cutset of one byte
unfoldable pub trim_byte : ℕ → Text → Text
unfolding drop_byte
trim_byte b s = reverse (drop_byte b (reverse (drop_byte b s)))

-- strings.ReplaceAll(s, old, new) for single bytes
unfoldable pub replace_byte : ℕ → ℕ → Text → Text
replace_byte old new s = map (λ c. if eqb c old then new else c) s

abbrev pub in_front : ℕ → List Text → List Text
in_front c [] = (c ∷ []) ∷ []
in_front c (part ∷ parts) = (c ∷ part) ∷ parts

-- strings.Split(s, sep) for a separator of one byte
unfoldable pub split : ℕ → Text → List Text
split sep [] = [] ∷ []
split sep (c ∷ s) = let parts = split sep s in if eqb c sep then [] ∷ parts else in_front c parts

-- strings.Join(parts, sep) for a separator of one byte
unfoldable pub join : ℕ → List Text → Text
join sep [] = []
join sep (part ∷ []) = part
join sep (part ∷ next ∷ parts) = part ++ (sep ∷ join sep (next ∷ parts))
