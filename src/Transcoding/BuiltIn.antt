-- ===== src/Transcoding/BuiltIn.antt =====
-- internal/server/transcode_sessions.go: the presets that are built in, and the validation.
use cartolensia.Prelude.{
  subst, Bool, true, false, not, ◌&&◌, none, List, [], ◌∷◌, ◌≡◌, ◌≢◌, ◌⊎◌, inl, inr, refl, ◌∙◌,
  arith, Text, text_eq, ◌==◌, same_text_iff, All, Bool-cases,
}
use cartolensia.Texts.{bytes, trim_space, to_lower}
use cartolensia.Texts.Search.{has_part, equal_fold}
use cartolensia.Transcoding.{Preset, Capabilities}
use cartolensia.Transcoding.Presets.{
  encoder_available, hardware_available, av1_encoders, first_available, choose_av1_encoder,
  encodes_on, live, built_in_transcoding_presets,
}
use cartolensia.Transcoding.Devices.{Host}
use cartolensia.Transcoding.Arguments.{encoder_of, is_av1}
use cartolensia.Transcoding.Validation.{is_mode, validate_transcoding_preset}
use cartolensia.Transcoding.Profiles.{checked_session}
use cartolensia.Transcoding.Starting.{succeeds, is_live, validate_transcoding_preset-started}

first_available-cases :
    (P : Text → Type 0) (caps : Capabilities) (encoders : List Text)
    → All P encoders
    → (first_available caps encoders ≡ [])
      ⊎ ((encoder_available caps (first_available caps encoders) ≡ true)
          × P (first_available caps encoders))
unfolding first_available
first_available-cases P caps [] h = inl refl
first_available-cases P caps (encoder ∷ encoders) (p, h) =
    elim (Bool-cases (encoder_available caps encoder)) [
      | inl a ↦ inr (rw a (a, p))
      | inr a ↦ rw a (first_available-cases P caps encoders h)
    ]

choose_av1_encoder-cases :
    (caps : Capabilities)
    → (choose_av1_encoder caps ≡ [])
      ⊎ ((encoder_available caps (choose_av1_encoder caps) ≡ true)
          × (is_av1 (choose_av1_encoder caps) ≡ true))
unfolding choose_av1_encoder is_av1 has_part to_lower
choose_av1_encoder-cases caps =
    first_available-cases (λ encoder. is_av1 encoder ≡ true) caps av1_encoders
      (refl, (refl, (refl, (refl, (refl, (refl, tt))))))

-- The preset is an item of the list.
abbrev pub IsIn : Preset → List Preset → Type 0
IsIn preset [] = ⊥
IsIn preset (item ∷ items) = (item ≡ preset) ⊎ IsIn preset items

All-at :
    (P : Preset → Type 0) (preset : Preset) (items : List Preset)
    → IsIn preset items
    → All P items
    → P preset
All-at P preset [] h all = absurd h
All-at P preset (item ∷ items) (inl e) (p, all) = subst P e p
All-at P preset (item ∷ items) (inr h) (p, all) = All-at P preset items h all

module _ (host : Host) (caps : Capabilities) where
  -- An available preset other than the original file passes the validation and fits its container.
  abbrev IsUsable : Preset → Type 0
  IsUsable preset =
      preset.available ≡ true
      → preset.id ≢ bytes "original"
      → (validate_transcoding_preset host caps preset ≡ none) × (is_live preset ≡ true)

  -- A preset of the built-in kind with an available encoder and hardware.
  usable :
      (id name reason hardware codec encoder mode value container : Text) (there : Bool)
      → (trim_space name == []) ≡ false
      → (codec == []) ≡ false
      → is_mode mode ≡ true
      → (value == []) ≡ false
      → (encoder == []) ≡ false
      → (equal_fold codec (bytes "av1") && equal_fold container (bytes "hls")) ≡ false
      → host.has_dri ≡ true
      → (there ≡ true
          → (encoder_available caps encoder ≡ true) × (hardware_available caps hardware ≡ true))
      → is_live (live id name there reason hardware codec encoder mode value container) ≡ true
      → IsUsable (live id name there reason hardware codec encoder mode value container)
  unfolding validate_transcoding_preset encoder_of
  usable id name reason hardware codec encoder mode value container there a b c d e f dri h l t n =
      let (g, k) = h t in
      (rw (validate_transcoding_preset, a, b, c, d, e, g, f, k, dri) (ground arith), l)

  module _ (dri : host.has_dri ≡ true) where
    x264 :
        (id name value : Text)
        → (trim_space name == []) ≡ false
        → (value == []) ≡ false
        → IsUsable (
            live id name
              (caps.ffmpeg && encoder_available caps (bytes "libx264"))
              (bytes "ffmpeg/libx264 is unavailable")
              (bytes "cpu")
              (bytes "h264")
              (bytes "libx264")
              (bytes "quality")
              value
              (bytes "hls"))
    unfolding is_mode equal_fold to_lower hardware_available is_av1 has_part encoder_of
    x264 id name value a b =
        usable id name (bytes "ffmpeg/libx264 is unavailable") (bytes "cpu") (bytes "h264")
          (bytes "libx264") (bytes "quality") value (bytes "hls")
          (caps.ffmpeg && encoder_available caps (bytes "libx264")) a refl refl b refl refl dri
          (λ t. (ground (arith, t), refl)) refl

    on_hardware :
        (id name reason hardware codec encoder mode value container : Text)
        → (trim_space name == []) ≡ false
        → (codec == []) ≡ false
        → is_mode mode ≡ true
        → (value == []) ≡ false
        → (encoder == []) ≡ false
        → (equal_fold codec (bytes "av1") && equal_fold container (bytes "hls")) ≡ false
        → is_live (
            live id name
              (encodes_on caps encoder hardware)
              reason
              hardware
              codec
              encoder
              mode
              value
              container)
          ≡ true
        → IsUsable (
            live id name
              (encodes_on caps encoder hardware)
              reason
              hardware
              codec
              encoder
              mode
              value
              container)
    unfolding encodes_on
    on_hardware id name reason hardware codec encoder mode value container a b c d e f l =
        usable id name reason hardware codec encoder mode value container
          (encodes_on caps encoder hardware) a b c d e f dri
          (λ t. (ground (arith, t), ground (arith, t))) l

    av1 :
        (reason : Text)
        → IsUsable (
            live
              (bytes "av1_low_bitrate")
              (bytes "AV1 low bitrate")
              (caps.ffmpeg && not (choose_av1_encoder caps == []))
              reason
              (bytes "cpu")
              (bytes "av1")
              (choose_av1_encoder caps)
              (bytes "quality")
              (bytes "38")
              (bytes "webm"))
    unfolding is_mode equal_fold to_lower hardware_available encoder_of trim_space
    av1 reason = elim (Bool-cases (choose_av1_encoder caps == [])) [
      | inl e ↦ λ t n. absurd (ground (arith, t, e))
      | inr e ↦ elim (choose_av1_encoder-cases caps) [
        | inl a ↦ absurd (cc (e, (same_text_iff (choose_av1_encoder caps) []).1 a))
        | inr (g, k) ↦
            usable (bytes "av1_low_bitrate") (bytes "AV1 low bitrate") reason (bytes "cpu")
              (bytes "av1") (choose_av1_encoder caps) (bytes "quality") (bytes "38") (bytes "webm")
              (caps.ffmpeg && not (choose_av1_encoder caps == [])) refl refl refl refl e refl dri
              (λ t. (g, refl)) (rw e k)
      ]
    ]

    built_in_transcoding_presets-AreUsable : All IsUsable (built_in_transcoding_presets caps)
    unfolding built_in_transcoding_presets is_mode equal_fold to_lower is_av1 has_part encoder_of
        trim_space
    built_in_transcoding_presets-AreUsable = (
      (λ t n. absurd (n refl)),
      (
        x264 (bytes "h264_720p_lan") (bytes "H.264 720p LAN") (bytes "24") refl refl,
        (
          x264 (bytes "h264_low_bitrate") (bytes "H.264 low bitrate") (bytes "30") refl refl,
          (
            on_hardware (bytes "h264_nvenc_720p_lan") (bytes "H.264 NVIDIA NVENC 720p LAN")
                (bytes "ffmpeg h264_nvenc or NVIDIA runtime is unavailable") (bytes "nvidia")
                (bytes "h264") (bytes "h264_nvenc") (bytes "quality") (bytes "24") (bytes "hls")
                refl refl refl refl refl refl refl,
            (
              on_hardware (bytes "h264_vaapi_720p_lan") (bytes "H.264 VAAPI 720p LAN")
                  (bytes "ffmpeg h264_vaapi or /dev/dri VAAPI runtime is unavailable")
                  (bytes "vaapi") (bytes "h264") (bytes "h264_vaapi") (bytes "quantizer")
                  (bytes "24") (bytes "hls") refl refl refl refl refl refl refl,
              (
                av1 (
                    bytes
                      "No CPU AV1 encoder (libsvtav1, libaom-av1, or librav1e) is available in ffmpeg"),
                (
                  on_hardware (bytes "av1_nvenc_low_bitrate") (bytes "AV1 NVIDIA NVENC low bitrate")
                      (bytes "ffmpeg av1_nvenc or NVIDIA runtime is unavailable") (bytes "nvidia")
                      (bytes "av1") (bytes "av1_nvenc") (bytes "bitrate") (bytes "1000k")
                      (bytes "webm") refl refl refl refl refl refl refl,
                  (
                    on_hardware (bytes "av1_vaapi_low_bitrate") (bytes "AV1 VAAPI low bitrate")
                        (bytes "ffmpeg av1_vaapi or /dev/dri VAAPI runtime is unavailable")
                        (bytes "vaapi") (bytes "av1") (bytes "av1_vaapi") (bytes "bitrate")
                        (bytes "1000k") (bytes "webm") refl refl refl refl refl refl refl,
                    tt,
                  ),
                ),
              ),
            ),
          ),
        ),
      ),
    )

    -- Where /dev/dri can be read, each preset that is built in and shown as available, the original
    -- file aside, passes the validation against the same capabilities, and a session for it gets its
    -- arguments.
    pub built_in_transcoding_presets-start :
        (input_path session_dir : Text) (preset : Preset)
        → IsIn preset (built_in_transcoding_presets caps)
        → preset.available ≡ true
        → preset.id ≢ bytes "original"
        → (validate_transcoding_preset host caps preset ≡ none)
          × (succeeds (checked_session host caps preset input_path session_dir) ≡ true)
    built_in_transcoding_presets-start input_path session_dir preset is_in t n =
        let (accepted, fits) =
          All-at IsUsable preset (built_in_transcoding_presets caps) is_in
            built_in_transcoding_presets-AreUsable t n in
        (
          accepted,
          validate_transcoding_preset-started host preset input_path session_dir caps accepted
              ∙ fits,
        )
