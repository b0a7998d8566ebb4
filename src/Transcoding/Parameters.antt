-- ===== src/Transcoding/Parameters.antt =====
-- internal/server/transcode_sessions.go: the numbers and rates of a preset, made safe for a command line.
use cartolensia.Prelude.{
  ℕ, ◌*◌, Bool, false, ◌&&◌, ◌||◌, none, some, [], ◌∷◌, ◌++◌, eqb, Text, text_eq, ◌==◌, all,
  if◌then◌else◌,
}
use cartolensia.Texts.{bytes, trim_space, to_lower, has_suffix, trim_suffix}
use cartolensia.Texts.Decimal.{is_digit, parse_positive, print_int64}

unfoldable pub safe_numeric_parameter : Text → Text → Text
unfolding trim_space is_digit
safe_numeric_parameter value fallback =
    let v = trim_space value in if v == [] then fallback else if all is_digit v then v else fallback

unfoldable pub is_digits_only : Text → Bool
unfolding trim_space is_digit
is_digits_only value = let v = trim_space value in if v == [] then false else all is_digit v

-- What the loop over a rate comes to: it returns the text, it falls back, or it ends.
pub data RateEnd : Type 0 where
  with_unit bad_rate without_unit : RateEnd

unfoldable pub is_unit : ℕ → Bool
is_unit c = eqb c b'k' || eqb c b'm'

unfoldable pub rate_end : Text → RateEnd
unfolding is_digit is_unit
rate_end [] = without_unit
rate_end (c ∷ s) =
    let rest = rate_end s in
    if is_digit c then rest else if s == [] && is_unit c then with_unit else bad_rate

unfoldable pub safe_bitrate_parameter : Text → Text → Text
unfolding trim_space to_lower rate_end
safe_bitrate_parameter value fallback =
    let v = to_lower (trim_space value) in
    if v == []
    then fallback
    else elim (rate_end v) [ with_unit ↦ v | bad_rate ↦ fallback | without_unit ↦ v ++ bytes "k" ]

-- The unit behind a rate, if there is one.
unfoldable pub unit_of : Text → Text
unfolding has_suffix
unit_of v =
    if has_suffix v (bytes "k")
    then bytes "k"
    else if has_suffix v (bytes "m")
    then bytes "m"
    else []

unfoldable pub double_bitrate_parameter : Text → Text
unfolding trim_space to_lower unit_of trim_suffix parse_positive print_int64
double_bitrate_parameter value =
    let v = to_lower (trim_space value) in
    let unit = unit_of v in
    elim (parse_positive (trim_suffix v unit)) [
      | none ↦ bytes "3000k"
      | some parsed ↦ print_int64 (parsed * 2) ++ unit
    ]
