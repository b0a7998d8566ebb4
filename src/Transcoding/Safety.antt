-- ===== src/Transcoding/Safety.antt =====
-- internal/server/transcode_sessions.go: what a preset can put on the command line of ffmpeg.
use cartolensia.Prelude.{
  Bool, ◌||◌, List, [], ◌∷◌, ◌++◌, ◌≡◌, inl, inr, refl, arith, Text, text_eq, All, All-append,
  Bool-cases, subst, if◌then◌else◌,
}
use cartolensia.Texts.{bytes, to_lower}
use cartolensia.Texts.Search.{has_part, equal_fold}
use cartolensia.Texts.Decimal.{is_digit}
use cartolensia.Transcoding.{Preset, Result, ok}
use cartolensia.Transcoding.Parameters.{is_unit, safe_bitrate_parameter}
use cartolensia.Transcoding.Devices.{Host, vaapi_device_path}
use cartolensia.Transcoding.Arguments.{
  encoder_of, is_av1, numeric, video_args_for_preset, ffmpeg_input_args_for_preset, map_args,
  pixel_args, hls_words, output_args, hls_args_with_video_audio_for_preset, aac,
  hls_args_for_preset, webm_encoder_args, webm_scale_args, webm_args_for_preset,
  transcode_args_for_preset, in_folder,
}
use cartolensia.Transcoding.Expected.{
  IsRate, IsExpected, fixed, rate, the_encoder, the_device, the_input, in_the_folder,
  safe_bitrate_parameter-IsRate,
}
use cartolensia.Transcoding.Words.{
  Expected as SessionExpected, ok-Expected as ok-SessionExpected, known_words, cond-Expected,
  numeric-Expected, ok-Expected-then, video_args_for_preset-Expected,
}

module _ (host : Host) (preset : Preset) (input_path session_dir : Text) where
  abbrev Expected : Text → Type 0
  Expected = SessionExpected host preset input_path session_dir

  abbrev ok-Expected : Result (List Text) → Type 0
  ok-Expected = ok-SessionExpected host preset input_path session_dir

  ffmpeg_input_args_for_preset-Expected :
      All Expected (ffmpeg_input_args_for_preset host preset input_path)
  unfolding ffmpeg_input_args_for_preset
  ffmpeg_input_args_for_preset-Expected =
      let device : List Text = bytes "-vaapi_device" ∷ vaapi_device_path host ∷ [] in
      let wanted : Bool =
        has_part (to_lower preset.ffmpeg_encoder) (bytes "vaapi")
        || equal_fold preset.hardware (bytes "vaapi")
        || equal_fold preset.hardware (bytes "amd") in
      All-append Expected
        (bytes "-hide_banner" ∷ bytes "-nostdin" ∷ bytes "-y" ∷ (if wanted then device else []))
        (bytes "-i" ∷ input_path ∷ [])
        (
          fixed refl,
          (
            fixed refl,
            (
              fixed refl,
              cond-Expected host preset input_path session_dir wanted device []
                  (fixed refl, (the_device refl, tt)) tt,
            ),
          ),
        )
        (fixed refl, (the_input refl, tt))

  output_args-Expected : All Expected (output_args session_dir)
  unfolding output_args
  output_args-Expected =
      let made = in_folder session_dir in
      let ends : All Expected (made (bytes "segment_%05d.ts") ∷ made (bytes "master.m3u8") ∷ []) =
        (in_the_folder "segment_%05d.ts" refl, (in_the_folder "master.m3u8" refl, tt)) in
      All-append Expected hls_words
        (made (bytes "segment_%05d.ts") ∷ made (bytes "master.m3u8") ∷ [])
        (known_words host preset input_path session_dir hls_words refl) ends

  hls_args_with_video_audio_for_preset-Expected :
      (video_args audio_args : List Text)
      → All Expected video_args
      → All Expected audio_args
      → All Expected (
          hls_args_with_video_audio_for_preset host preset input_path session_dir video_args
            audio_args)
  unfolding hls_args_with_video_audio_for_preset
  hls_args_with_video_audio_for_preset-Expected video_args audio_args v a =
      let pixels : Bool = has_part (to_lower preset.ffmpeg_encoder) (bytes "vaapi") in
      let made : List Text = if pixels then [] else pixel_args in
      let out : List Text = output_args session_dir in
      All-append Expected (ffmpeg_input_args_for_preset host preset input_path)
        (map_args ++ (video_args ++ (audio_args ++ (made ++ out))))
        ffmpeg_input_args_for_preset-Expected
        (All-append Expected map_args (video_args ++ (audio_args ++ (made ++ out)))
          (known_words host preset input_path session_dir map_args refl)
          (All-append Expected video_args (audio_args ++ (made ++ out)) v (
            All-append Expected audio_args (made ++ out) a (
              All-append Expected made out
                (cond-Expected host preset input_path session_dir pixels [] pixel_args tt
                  (known_words host preset input_path session_dir pixel_args refl))
                output_args-Expected))))

  hls_args_for_preset-Expected :
      ok-Expected (hls_args_for_preset host preset input_path session_dir)
  unfolding hls_args_for_preset
  hls_args_for_preset-Expected =
      elim (Bool-cases (equal_fold preset.codec (bytes "av1") || is_av1 preset.ffmpeg_encoder)) [
        | inl a ↦ rw (hls_args_for_preset, a) tt
        | inr a ↦
            rw (hls_args_for_preset, a)
              (ok-Expected-then host preset input_path session_dir
                (λ args.
                  hls_args_with_video_audio_for_preset host preset input_path session_dir args
                    (aac "128k"))
                (λ args h.
                  hls_args_with_video_audio_for_preset-Expected args (aac "128k") h
                    (known_words host preset input_path session_dir (aac "128k") refl))
                (video_args_for_preset preset)
                (video_args_for_preset-Expected host preset input_path session_dir))
      ]

  webm_encoder_args-Expected : (encoder : Text) → All Expected (webm_encoder_args preset encoder)
  unfolding webm_encoder_args is_digit is_unit
  webm_encoder_args-Expected encoder =
      let n = numeric-Expected host preset input_path session_dir (bytes "38") (λ e. cc, refl) in
      let q = numeric-Expected host preset input_path session_dir (bytes "100") (λ e. cc, refl) in
      let r : IsRate (safe_bitrate_parameter preset.parameter_value (bytes "900k")) =
        safe_bitrate_parameter-IsRate preset.parameter_value (bytes "900k")
          (bytes "900", b'k', refl, refl, refl) in
      elim (Bool-cases (has_part encoder (bytes "svtav1"))) [
        | inl a ↦ rw a (fixed refl, (fixed refl, (fixed refl, (n, tt))))
        | inr a ↦ elim (Bool-cases (has_part encoder (bytes "libaom"))) [
          | inl b ↦
              rw (a, b)
                (All-append Expected
                  (bytes "-cpu-used" ∷ bytes "8" ∷ bytes "-row-mt" ∷ bytes "1" ∷ bytes "-crf" ∷ [])
                  (numeric preset "38" ∷ bytes "-b:v" ∷ bytes "0" ∷ [])
                  (known_words host preset input_path session_dir
                    (bytes "-cpu-used"
                      ∷ bytes "8"
                      ∷ bytes "-row-mt"
                      ∷ bytes "1"
                      ∷ bytes "-crf"
                      ∷ [])
                    refl)
                  (n, (fixed refl, (fixed refl, tt))))
          | inr b ↦ elim (Bool-cases (has_part encoder (bytes "rav1e"))) [
            | inl c ↦ rw (a, b, c) (fixed refl, (fixed refl, (fixed refl, (q, tt))))
            | inr c ↦ rw (a, b, c) (fixed refl, (rate r, tt))
          ]
        ]
      ]

  webm_scale_args-Expected : (encoder : Text) → All Expected (webm_scale_args encoder)
  unfolding webm_scale_args
  webm_scale_args-Expected encoder =
      known_words host preset input_path session_dir (webm_scale_args encoder) (ground arith)

  webm_args_for_preset-Expected :
      ok-Expected (webm_args_for_preset host preset input_path session_dir)
  unfolding webm_args_for_preset
  webm_args_for_preset-Expected =
      let encoder = encoder_of preset in
      let opus : List Text = bytes "-c:a" ∷ bytes "libopus" ∷ bytes "-b:a" ∷ bytes "96k" ∷ [] in
      let audio : List Text = if host.ffmpeg_on_path then opus else [] in
      let out : List Text =
        bytes "-f" ∷ bytes "webm" ∷ in_folder session_dir (bytes "output.webm") ∷ [] in
      let video : List Text =
        bytes "-c:v" ∷ encoder ∷ (webm_encoder_args preset encoder ++ webm_scale_args encoder) in
      elim (Bool-cases (is_av1 encoder)) [
        | inl a ↦
            rw (webm_args_for_preset, a)
              (All-append Expected (ffmpeg_input_args_for_preset host preset input_path)
                (map_args ++ (video ++ (audio ++ out))) ffmpeg_input_args_for_preset-Expected
                (All-append Expected map_args (video ++ (audio ++ out))
                  (known_words host preset input_path session_dir map_args refl)
                  (All-append Expected video (audio ++ out)
                    (
                      fixed refl,
                      (
                        the_encoder refl,
                        All-append Expected (webm_encoder_args preset encoder)
                            (webm_scale_args encoder) (webm_encoder_args-Expected encoder)
                            (webm_scale_args-Expected encoder),
                      ),
                    )
                    (All-append Expected audio out
                      (cond-Expected host preset input_path session_dir host.ffmpeg_on_path opus []
                        (known_words host preset input_path session_dir opus refl) tt)
                      (fixed refl, (fixed refl, (in_the_folder "output.webm" refl, tt)))))))
        | inr a ↦ rw (webm_args_for_preset, a) tt
      ]

  transcode_args_for_preset-ok :
      ok-Expected (transcode_args_for_preset host preset input_path session_dir)
  unfolding transcode_args_for_preset
  transcode_args_for_preset-ok = elim (Bool-cases (equal_fold preset.container (bytes "webm"))) [
    | inl a ↦ rw (transcode_args_for_preset, a) webm_args_for_preset-Expected
    | inr a ↦ rw (transcode_args_for_preset, a) hls_args_for_preset-Expected
  ]

  -- Whatever the preset holds, each argument that ffmpeg is started with is a word that stands in the
  -- code, a decimal number, a decimal rate with its unit, the print of a doubled rate with or without its
  -- unit, the name of the encoder, the path of the render device, the input's path, or a path in the
  -- session's folder.
  pub transcode_args_for_preset-AreExpected :
      (args : List Text)
      → transcode_args_for_preset host preset input_path session_dir ≡ ok args
      → All (IsExpected (encoder_of preset) (vaapi_device_path host) input_path session_dir) args
  transcode_args_for_preset-AreExpected args h = subst ok-Expected h transcode_args_for_preset-ok
