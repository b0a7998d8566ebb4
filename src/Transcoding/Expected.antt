-- ===== src/Transcoding/Expected.antt =====
-- What an argument for ffmpeg may be: a word that stands in the code, a number, a rate, the encoder, the
-- device, or a path; and that the sanitised parameters of a preset are numbers and rates.
use cartolensia.Prelude.{
  ℕ, true, List, [], ◌∷◌, ◌++◌, ◌≡◌, ◌≢◌, ◌⊎◌, inl, inr, refl, arith, map, String, Text, text_eq,
  ◌==◌, contains, all, All, same_text_iff, Bool-cases,
}
use cartolensia.Texts.{bytes, trim_space, to_lower}
use cartolensia.Texts.Decimal.{is_digit, print_int64}
use cartolensia.Transcoding.Parameters.{
  safe_numeric_parameter, safe_bitrate_parameter, is_unit, rate_end, RateEnd, with_unit, bad_rate,
  without_unit,
}

-- Every option and every fixed value that the code puts on a command line.
abbrev pub fixed_words : List Text
fixed_words = map bytes (
    "-hide_banner" ∷ "-nostdin" ∷ "-y" ∷ "-vaapi_device" ∷ "-i" ∷ "-map" ∷ "0:v:0" ∷ "0:a?" ∷ "-c:v"
    ∷ "-c:a" ∷ "-b:v" ∷ "-b:a" ∷ "-preset" ∷ "-cpu-used" ∷ "-row-mt" ∷ "-speed" ∷ "-rc" ∷ "-cq"
    ∷ "-qp" ∷ "-crf" ∷ "-maxrate" ∷ "-bufsize" ∷ "-vf" ∷ "-pix_fmt" ∷ "-sc_threshold" ∷ "-g" ∷ "-f"
    ∷ "-hls_time" ∷ "-hls_list_size" ∷ "-hls_flags" ∷ "-hls_segment_filename" ∷ "p5" ∷ "veryfast"
    ∷ "vbr" ∷ "constqp" ∷ "aac" ∷ "libopus" ∷ "hls" ∷ "webm" ∷ "independent_segments" ∷ "yuv420p"
    ∷ "scale=w=1280:h=-2" ∷ "scale=w=1280:h=-2,format=nv12,hwupload" ∷ "0" ∷ "1" ∷ "2" ∷ "8" ∷ "10"
    ∷ "48" ∷ "96k" ∷ "128k" ∷ [])

-- Decimal digits, at least one.
abbrev pub IsNumber : Text → Type 0
IsNumber s = (s ≢ []) × (all is_digit s ≡ true)

-- Decimal digits, perhaps none, with `k` or `m` behind them.
abbrev pub IsRate : Text → Type 0
IsRate s =
    (front : Text) × (unit : ℕ) × (s ≡ front ++ (unit ∷ []))
    × (all is_digit front ≡ true)
    × (is_unit unit ≡ true)

pub data IsExpected (encoder device input_path folder arg : Text) : Type 0 where
  fixed : contains fixed_words arg ≡ true → IsExpected encoder device input_path folder arg
  number : IsNumber arg → IsExpected encoder device input_path folder arg
  rate : IsRate arg → IsExpected encoder device input_path folder arg
  doubled :
      (n : ℕ) (unit : Text)
      → contains (bytes "k" ∷ bytes "m" ∷ [] ∷ []) unit ≡ true
      → arg ≡ print_int64 n ++ unit
      → IsExpected encoder device input_path folder arg
  the_encoder : arg ≡ encoder → IsExpected encoder device input_path folder arg
  the_device : arg ≡ device → IsExpected encoder device input_path folder arg
  the_input : arg ≡ input_path → IsExpected encoder device input_path folder arg
  in_the_folder :
      (file : String)
      → arg ≡ folder ++ (bytes "/" ++ bytes file)
      → IsExpected encoder device input_path folder arg

module _ (encoder device input_path folder : Text) where
  pub fixed_words-AreExpected :
      (args : List Text)
      → all (contains fixed_words) args ≡ true
      → All (IsExpected encoder device input_path folder) args
  fixed_words-AreExpected [] h = tt
  fixed_words-AreExpected (arg ∷ args) h = elim (Bool-cases (contains fixed_words arg)) [
    | inl b ↦ (fixed b, fixed_words-AreExpected args (ground (arith, h, b)))
    | inr b ↦ absurd (ground (arith, h, b))
  ]

pub safe_numeric_parameter-IsNumber :
    (value fallback : Text) → IsNumber fallback → IsNumber (safe_numeric_parameter value fallback)
unfolding safe_numeric_parameter
safe_numeric_parameter-IsNumber value fallback h = elim (Bool-cases (trim_space value == [])) [
  | inl a ↦ rw a h
  | inr a ↦ elim (Bool-cases (all is_digit (trim_space value))) [
    | inl b ↦ rw (a, b) ((λ e. cc (a, (same_text_iff (trim_space value) []).1 e)), b)
    | inr b ↦ rw (a, b) h
  ]
]

rate_end-without_unit : (s : Text) → rate_end s ≡ without_unit → all is_digit s ≡ true
unfolding rate_end
rate_end-without_unit [] h = refl
rate_end-without_unit (c ∷ s) h = ground (arith, rate_end-without_unit s)

rate_end-with_unit : (s : Text) → rate_end s ≡ with_unit → IsRate s
unfolding rate_end
rate_end-with_unit [] h = ground (arith, h)
rate_end-with_unit (c ∷ s) h = elim (Bool-cases (is_digit c)) [
  | inl d ↦
      let (front, unit, e, f, g) = rate_end-with_unit s (ground (arith, h, d)) in
      (c ∷ front, unit, rw e refl, rw (d, f) refl, g)
  | inr d ↦
      let last : s ≡ [] = (same_text_iff s []).0 (ground (arith, h, d)) in
      ([], c, rw last refl, refl, ground (arith, h, d))
]

RateEnd-cases : (e : RateEnd) → (e ≡ with_unit) ⊎ (e ≡ bad_rate) ⊎ (e ≡ without_unit)
RateEnd-cases with_unit = inl refl
RateEnd-cases bad_rate = inr (inl refl)
RateEnd-cases without_unit = inr (inr refl)

pub safe_bitrate_parameter-IsRate :
    (value fallback : Text) → IsRate fallback → IsRate (safe_bitrate_parameter value fallback)
unfolding safe_bitrate_parameter
safe_bitrate_parameter-IsRate value fallback h =
    let v = to_lower (trim_space value) in
    elim (Bool-cases (v == [])) [
      | inl a ↦ rw a h
      | inr a ↦ elim (RateEnd-cases (rate_end v)) [
        | inl b ↦ rw (a, b) (rate_end-with_unit v b)
        | inr (inl b) ↦ rw (a, b) h
        | inr (inr b) ↦ rw (a, b) (v, b'k', refl, rate_end-without_unit v b, refl)
      ]
    ]
