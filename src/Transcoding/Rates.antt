-- ===== src/Transcoding/Rates.antt =====
-- internal/server/transcode_sessions.go, `doubleBitrateParameter`: the buffer of twice the rate.
use cartolensia.Prelude.{
  ℕ, ◌*◌, ◌^◌, ◌<◌, true, false, [], ◌∷◌, ◌++◌, ◌≡◌, refl, arith, Text, text_eq, All, All-append,
}
use mathlib.Core.List.{reverse, reverse-cons, reverse-append, reverse-reverse}
use cartolensia.Texts.{is_space, trim_left, trim_space, lower, to_lower, has_prefix, has_suffix}
use cartolensia.Texts.Prefixes.{trim_suffix-append}
use cartolensia.Texts.Decimal.{
  is_digit, digits, parse_positive-digits, digits-All_is_digit, print_int64-digits,
}
use cartolensia.Transcoding.Parameters.{is_unit, unit_of, double_bitrate_parameter}

-- A byte that the trimming and the lowering leave as it is.
abbrev IsKept : ℕ → Type 0
IsKept c = (is_space c ≡ false) × (lower c ≡ c)

digit-IsKept : (c : ℕ) → is_digit c ≡ true → IsKept c
unfolding is_digit is_space lower
digit-IsKept c h = (ground (arith, h), ground (arith, h))

unit-IsKept : (c : ℕ) → is_unit c ≡ true → IsKept c
unfolding is_unit is_space lower
unit-IsKept c h = (ground (arith, h), ground (arith, h))

digits-AreKept : (s : Text) → All (λ c. is_digit c ≡ true) s → All IsKept s
digits-AreKept [] h = tt
digits-AreKept (c ∷ s) (d, h) = (digit-IsKept c d, digits-AreKept s h)

All-reverse : (s : Text) → All IsKept s → All IsKept (reverse s)
All-reverse [] h = tt
All-reverse (c ∷ s) (k, h) =
    rw (reverse-cons c s) (All-append IsKept (reverse s) (c ∷ []) (All-reverse s h) (k, tt))

trim_left-kept : (s : Text) → All IsKept s → trim_left s ≡ s
unfolding trim_left
trim_left-kept [] h = refl
trim_left-kept (c ∷ s) (k, h) = rw k.0 refl

to_lower-kept : (s : Text) → All IsKept s → to_lower s ≡ s
unfolding to_lower
to_lower-kept [] h = refl
to_lower-kept (c ∷ s) (k, h) = rw (k.1, to_lower-kept s h) refl

kept : (s : Text) → All IsKept s → to_lower (trim_space s) ≡ s
unfolding trim_space
kept s h =
    rw
      (
        trim_left-kept s h,
        trim_left-kept (reverse s) (All-reverse s h),
        reverse-reverse s,
        to_lower-kept s h,
      )
      refl

unit_of-append :
    (s : Text) (unit : ℕ) → is_unit unit ≡ true → unit_of (s ++ (unit ∷ [])) ≡ unit ∷ []
unfolding unit_of has_suffix has_prefix is_unit
unit_of-append s unit h = rw (reverse-append s (unit ∷ [])) (ground (arith, h))

-- The rate of a whole number above zero and below 2 ^ 62 with a unit is doubled: the digits of twice the
-- number, with the same unit.
pub double_bitrate_parameter-digits :
    (n unit : ℕ)
    → 0 < n
    → n < 2 ^ 62
    → is_unit unit ≡ true
    → double_bitrate_parameter (digits n ++ (unit ∷ [])) ≡ digits (n * 2) ++ (unit ∷ [])
unfolding double_bitrate_parameter
double_bitrate_parameter-digits n unit above small h =
    let rate = digits n ++ (unit ∷ []) in
    let all_kept : All IsKept rate =
      All-append IsKept (digits n) (unit ∷ []) (digits-AreKept (digits n) (digits-All_is_digit n))
        (unit-IsKept unit h, tt) in
    rw
      (
        double_bitrate_parameter,
        kept rate all_kept,
        unit_of-append (digits n) unit h,
        trim_suffix-append (digits n) (unit ∷ []),
        parse_positive-digits n above (omega (arith, small)),
      )
      (rw
        (
          kept rate all_kept,
          unit_of-append (digits n) unit h,
          print_int64-digits (n * 2) (omega (arith, small)),
        )
        refl)
