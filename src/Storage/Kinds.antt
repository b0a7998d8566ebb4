-- ===== src/Storage/Kinds.antt =====
-- internal/storage/storage.go: the kind of medium a file is, and the extensions that are read.
use cartolensia.Prelude.{◌||◌, List, [], ◌∷◌, Text, text_eq, contains, if◌then◌else◌}
use cartolensia.Texts.{bytes, to_lower, has_prefix}

abbrev pub photo : Text
photo = bytes "photo"

abbrev pub video : Text
video = bytes "video"

abbrev pub audio : Text
audio = bytes "audio"

abbrev pub track : Text
track = bytes "track"

abbrev pub document : Text
document = bytes "document"

abbrev photo_extensions : List Text
photo_extensions =
    bytes "jpg"
    ∷ bytes "jpeg"
    ∷ bytes "png"
    ∷ bytes "webp"
    ∷ bytes "gif"
    ∷ bytes "heic"
    ∷ bytes "heif"
    ∷ bytes "tif"
    ∷ bytes "tiff"
    ∷ []

abbrev video_extensions : List Text
video_extensions =
    bytes "mp4" ∷ bytes "mov" ∷ bytes "mkv" ∷ bytes "avi" ∷ bytes "webm" ∷ bytes "m4v" ∷ []

abbrev audio_extensions : List Text
audio_extensions =
    bytes "3gp"
    ∷ bytes "3gpp"
    ∷ bytes "aac"
    ∷ bytes "m4a"
    ∷ bytes "mp3"
    ∷ bytes "wav"
    ∷ bytes "flac"
    ∷ bytes "ogg"
    ∷ bytes "oga"
    ∷ bytes "opus"
    ∷ bytes "amr"
    ∷ []

abbrev track_extensions : List Text
track_extensions =
    bytes "gpx" ∷ bytes "tcx" ∷ bytes "fit" ∷ bytes "kml" ∷ bytes "kmz" ∷ bytes "gpz" ∷ []

abbrev document_extensions : List Text
document_extensions = bytes "pdf" ∷ bytes "djvu" ∷ bytes "txt" ∷ bytes "md" ∷ bytes "markdown" ∷ []

-- supportedExtensions
abbrev pub supported_extensions : List Text
supported_extensions =
    bytes "jpg"
    ∷ bytes "jpeg"
    ∷ bytes "png"
    ∷ bytes "heif"
    ∷ bytes "heic"
    ∷ bytes "mp4"
    ∷ bytes "mov"
    ∷ bytes "webm"
    ∷ bytes "mkv"
    ∷ bytes "avi"
    ∷ bytes "m4v"
    ∷ bytes "gpx"
    ∷ bytes "kml"
    ∷ bytes "kmz"
    ∷ bytes "gpz"
    ∷ bytes "wav"
    ∷ bytes "mp3"
    ∷ bytes "3gp"
    ∷ bytes "3gpp"
    ∷ bytes "aac"
    ∷ bytes "m4a"
    ∷ bytes "flac"
    ∷ bytes "ogg"
    ∷ bytes "oga"
    ∷ bytes "opus"
    ∷ bytes "amr"
    ∷ bytes "pdf"
    ∷ bytes "djvu"
    ∷ bytes "txt"
    ∷ bytes "md"
    ∷ bytes "markdown"
    ∷ []

-- MediaKind
unfoldable pub media_kind : Text → Text → Text
unfolding to_lower has_prefix
media_kind given mime_type =
    let ext = to_lower given in
    if contains photo_extensions ext
    then photo
    else if contains video_extensions ext
    then video
    else if contains audio_extensions ext
    then audio
    else if contains track_extensions ext
    then track
    else if contains document_extensions ext
    then document
    else if has_prefix mime_type (bytes "image/")
    then photo
    else if has_prefix mime_type (bytes "video/")
    then video
    else if has_prefix mime_type (bytes "audio/")
    then audio
    else if has_prefix mime_type (bytes "application/pdf") || has_prefix mime_type (bytes "text/")
    then document
    else bytes "other"
