-- ===== src/Transcoding/Words.antt =====
-- internal/server/transcode_sessions.go: the arguments that describe the video, made from a preset.
use cartolensia.Prelude.{
  ◌*◌, Bool, true, false, List, [], ◌∷◌, ◌++◌, ◌≡◌, inl, inr, refl, arith, Text, text_eq, ◌==◌,
  contains, all, All, All-append, Bool-cases, Option-cases, if◌then◌else◌,
}
use cartolensia.Texts.{bytes, trim_space, to_lower, trim_suffix}
use cartolensia.Texts.Search.{has_part}
use cartolensia.Texts.Decimal.{is_digit, parse_positive}
use cartolensia.Transcoding.{Preset, Result, ok, err}
use cartolensia.Transcoding.Parameters.{
  is_unit, safe_numeric_parameter, safe_bitrate_parameter, unit_of, double_bitrate_parameter,
}
use cartolensia.Transcoding.Devices.{Host, vaapi_device_path}
use cartolensia.Transcoding.Arguments.{
  encoder_of, speed_args, quality_args, quantizer_args, bitrate_args, mode_args, scale_args,
  video_args_for_preset,
}
use cartolensia.Transcoding.Expected.{
  fixed_words, IsNumber, IsExpected, fixed, number, rate, doubled, the_encoder,
  fixed_words-AreExpected, safe_numeric_parameter-IsNumber, safe_bitrate_parameter-IsRate,
}

unit_of-known_words : (v : Text) → contains (bytes "k" ∷ bytes "m" ∷ [] ∷ []) (unit_of v) ≡ true
unfolding unit_of
unit_of-known_words v = ground arith

module _ (host : Host) (preset : Preset) (input_path session_dir : Text) where
  -- what the arguments of a session for the preset may be
  abbrev pub Expected : Text → Type 0
  Expected = IsExpected (encoder_of preset) (vaapi_device_path host) input_path session_dir

  abbrev pub known_words :
      (args : List Text) → all (contains fixed_words) args ≡ true → All Expected args
  known_words =
      fixed_words-AreExpected (encoder_of preset) (vaapi_device_path host) input_path session_dir

  double_bitrate_parameter-Expected : (v : Text) → Expected (double_bitrate_parameter v)
  unfolding double_bitrate_parameter is_digit is_unit
  double_bitrate_parameter-Expected value =
      let v = to_lower (trim_space value) in
      elim (Option-cases (parse_positive (trim_suffix v (unit_of v)))) [
        | inl a ↦ rw (double_bitrate_parameter, a) (rate (bytes "3000", b'k', refl, refl, refl))
        | inr (n, a) ↦
            rw (double_bitrate_parameter, a)
              (doubled (n * 2) (unit_of v) (unit_of-known_words v) refl)
      ]

  speed_args-Expected : (encoder : Text) → All Expected (speed_args encoder)
  unfolding speed_args
  speed_args-Expected encoder = known_words (speed_args encoder) (ground arith)

  scale_args-Expected : (encoder : Text) → All Expected (scale_args preset encoder)
  unfolding scale_args
  scale_args-Expected encoder = known_words (scale_args preset encoder) (ground arith)

  pub numeric-Expected :
      (fallback : Text)
      → IsNumber fallback
      → Expected (safe_numeric_parameter preset.parameter_value fallback)
  numeric-Expected fallback h =
      number (safe_numeric_parameter-IsNumber preset.parameter_value fallback h)

  quality_args-Expected : (encoder : Text) → All Expected (quality_args preset encoder)
  unfolding quality_args is_digit
  quality_args-Expected encoder =
      let n = numeric-Expected (bytes "24") (λ e. cc, refl) in
      elim (Bool-cases (has_part encoder (bytes "nvenc"))) [
        | inl a ↦ rw a (fixed refl, (fixed refl, (fixed refl, (n, (fixed refl, (fixed refl, tt))))))
        | inr a ↦ elim (Bool-cases (has_part encoder (bytes "vaapi"))) [
          | inl b ↦ rw (a, b) (fixed refl, (n, tt))
          | inr b ↦ rw (a, b) (fixed refl, (n, tt))
        ]
      ]

  quantizer_args-Expected : (encoder : Text) → All Expected (quantizer_args preset encoder)
  unfolding quantizer_args is_digit
  quantizer_args-Expected encoder =
      let n = numeric-Expected (bytes "24") (λ e. cc, refl) in
      elim (Bool-cases (has_part encoder (bytes "nvenc"))) [
        | inl a ↦ rw a (fixed refl, (fixed refl, (fixed refl, (n, tt))))
        | inr a ↦ rw a (fixed refl, (n, tt))
      ]

  bitrate_args-Expected : (encoder : Text) → All Expected (bitrate_args preset encoder)
  unfolding bitrate_args is_digit is_unit
  bitrate_args-Expected encoder =
      let bitrate = safe_bitrate_parameter preset.parameter_value (bytes "1500k") in
      let r =
        safe_bitrate_parameter-IsRate preset.parameter_value (bytes "1500k")
          (bytes "1500", b'k', refl, refl, refl) in
      elim (Bool-cases (has_part encoder (bytes "nvenc"))) [
        | inl a ↦ rw a (
          fixed refl,
          (
            rate r,
            (fixed refl, (rate r, (fixed refl, (double_bitrate_parameter-Expected bitrate, tt)))),
          ),
        )
        | inr a ↦ rw a (fixed refl, (rate r, tt))
      ]

  -- the arguments, if there are any, are as expected
  abbrev pub ok-Expected : Result (List Text) → Type 0
  ok-Expected (ok args) = All Expected args
  ok-Expected (err e) = Unit

  mode_args-Expected : (encoder : Text) → ok-Expected (mode_args preset encoder)
  unfolding mode_args
  mode_args-Expected encoder = elim (Bool-cases (preset.mode == bytes "quality")) [
    | inl a ↦ rw a (quality_args-Expected encoder)
    | inr a ↦ elim (Bool-cases (preset.mode == bytes "quantizer")) [
      | inl b ↦ rw (a, b) (quantizer_args-Expected encoder)
      | inr b ↦ elim (Bool-cases (preset.mode == bytes "bitrate")) [
        | inl c ↦ rw (a, b, c) (bitrate_args-Expected encoder)
        | inr c ↦ rw (a, b, c) tt
      ]
    ]
  ]

  pub ok-Expected-then :
      (f : List Text → List Text)
      → ((args : List Text) → All Expected args → All Expected (f args))
      → (r : Result (List Text)) → ok-Expected r
      → ok-Expected (elim r [ ok args ↦ ok (f args) | err e ↦ err e ])
  ok-Expected-then f g (ok args) h = g args h
  ok-Expected-then f g (err e) h = tt

  pub cond-Expected :
      (b : Bool) (xs ys : List Text)
      → All Expected xs
      → All Expected ys
      → All Expected (if b then xs else ys)
  cond-Expected true xs ys h k = h
  cond-Expected false xs ys h k = k

  pub video_args_for_preset-Expected : ok-Expected (video_args_for_preset preset)
  unfolding video_args_for_preset
  video_args_for_preset-Expected =
      let encoder = encoder_of preset in
      let speed = speed_args encoder in
      let scale = scale_args preset encoder in
      ok-Expected-then (λ args. bytes "-c:v" ∷ encoder ∷ (speed ++ (args ++ scale)))
        (λ args h. (
          fixed refl,
          (
            the_encoder refl,
            All-append Expected speed (args ++ scale) (speed_args-Expected encoder)
                (All-append Expected args scale h (scale_args-Expected encoder)),
          ),
        ))
        (mode_args preset encoder) (mode_args-Expected encoder)
