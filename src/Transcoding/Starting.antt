-- ===== src/Transcoding/Starting.antt =====
-- internal/server/transcode_sessions.go: which presets a session can be started with.
use cartolensia.Prelude.{
  Bool, true, false, not, ◌||◌, none, ◌≡◌, inl, inr, refl, ◌∙◌, arith, Text, text_eq, Bool-cases,
  if◌then◌else◌,
}
use cartolensia.Texts.{bytes}
use cartolensia.Texts.Search.{equal_fold}
use cartolensia.Transcoding.{Preset, Capabilities, Result, ok, err}
use cartolensia.Transcoding.Devices.{Host}
use cartolensia.Transcoding.Arguments.{
  encoder_of, is_av1, mode_args, video_args_for_preset, hls_args_for_preset, webm_args_for_preset,
  transcode_args_for_preset,
}
use cartolensia.Transcoding.Validation.{is_mode, validate_transcoding_preset}
use cartolensia.Transcoding.Profiles.{unchecked_session, checked_session}

-- The result is a success.
abbrev pub succeeds : {A : Type 0} → Result A → Bool
succeeds (ok a) = true
succeeds (err e) = false

-- WebM is for the AV1 encoders, HLS for the others.
abbrev pub is_live : Preset → Bool
is_live preset =
    if equal_fold preset.container (bytes "webm")
    then is_av1 (encoder_of preset)
    else not (equal_fold preset.codec (bytes "av1") || is_av1 preset.ffmpeg_encoder)

mode_args-succeeds :
    (preset : Preset) (encoder : Text)
    → is_mode preset.mode ≡ true
    → succeeds (mode_args preset encoder) ≡ true
unfolding mode_args is_mode
mode_args-succeeds preset encoder h = ground (arith, h)

validate-is_mode :
    (host : Host) (caps : Capabilities) (preset : Preset)
    → validate_transcoding_preset host caps preset ≡ none
    → is_mode preset.mode ≡ true
unfolding validate_transcoding_preset
validate-is_mode host caps preset h = ground (arith, h)

succeeds-then :
    {A B : Type 0} (f : A → B) (r : Result A)
    → succeeds (elim r [ ok a ↦ ok (f a) | err e ↦ err e ]) ≡ succeeds r
succeeds-then f (ok a) = refl
succeeds-then f (err e) = refl

video_args_for_preset-succeeds :
    (preset : Preset) → is_mode preset.mode ≡ true → succeeds (video_args_for_preset preset) ≡ true
unfolding video_args_for_preset
video_args_for_preset-succeeds preset h =
    succeeds-then _ (mode_args preset (encoder_of preset))
    ∙ mode_args-succeeds preset (encoder_of preset) h

module _ (host : Host) (preset : Preset) (input_path session_dir : Text) where
  webm-succeeds :
      succeeds (webm_args_for_preset host preset input_path session_dir)
      ≡ is_av1 (encoder_of preset)
  unfolding webm_args_for_preset
  webm-succeeds = elim (Bool-cases (is_av1 (encoder_of preset))) [
    | inl a ↦ rw (webm_args_for_preset, a) refl
    | inr a ↦ rw (webm_args_for_preset, a) refl
  ]

  hls-succeeds :
      is_mode preset.mode ≡ true
      → succeeds (hls_args_for_preset host preset input_path session_dir)
        ≡ not (equal_fold preset.codec (bytes "av1") || is_av1 preset.ffmpeg_encoder)
  unfolding hls_args_for_preset
  hls-succeeds h =
      elim (Bool-cases (equal_fold preset.codec (bytes "av1") || is_av1 preset.ffmpeg_encoder)) [
        | inl a ↦ rw (hls_args_for_preset, a) refl
        | inr a ↦
            rw (hls_args_for_preset, a)
              (succeeds-then _ (video_args_for_preset preset)
                ∙ video_args_for_preset-succeeds preset h)
      ]

  started-is_live :
      is_mode preset.mode ≡ true
      → succeeds (transcode_args_for_preset host preset input_path session_dir) ≡ is_live preset
  unfolding transcode_args_for_preset
  started-is_live h = elim (Bool-cases (equal_fold preset.container (bytes "webm"))) [
    | inl a ↦ rw (transcode_args_for_preset, a) webm-succeeds
    | inr a ↦ rw (transcode_args_for_preset, a) (hls-succeeds h)
  ]

  -- A preset that passes the validation gets arguments for ffmpeg exactly if its container fits its
  -- encoder: WebM with an encoder for AV1, or any other container with a codec and an encoder that are
  -- not for AV1.
  pub validate_transcoding_preset-started :
      (caps : Capabilities)
      → validate_transcoding_preset host caps preset ≡ none
      → succeeds (checked_session host caps preset input_path session_dir) ≡ is_live preset
  unfolding checked_session unchecked_session
  validate_transcoding_preset-started caps h =
      rw (checked_session, h)
        (succeeds-then _ (transcode_args_for_preset host preset input_path session_dir)
          ∙ started-is_live (validate-is_mode host caps preset h))
