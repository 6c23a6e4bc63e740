-- ===== src/Recording.antt =====
-- app/src-tauri/src/recording.rs: a recorder and the file that it writes. What a BufWriter holds back counts as
-- written, since each close flushes it. The parameter `Json` is serde_json; `elapsed` is the time since the
-- start in milliseconds.
pub mod Manager
pub mod Log
pub mod Limit
pub mod Final
pub mod Info
mod Tests
use secure_desk.Base.{
  ℕ, ◌+◌, ◌*◌, ◌%◌, ◌^◌, ◌≡◌, Bool, true, false, Option, none, some, List, [], ◌∷◌, ◌++◌, ltb, ◌==◌,
  if◌then◌else◌, length, take, drop,
}
use secure_desk.Base.Outcome.{Outcome, ok, err, panic}
use secure_desk.Base.Words.{to_le16, to_le32, to_le64}
use secure_desk.Base.Text.{text_eq, decimal}
use secure_desk.Client.Connect.{without_spaces}

abbrev pub recording_version : ℕ
recording_version = 1

-- "SDRC"
abbrev pub magic : List ℕ
magic = b'S' ∷ b'D' ∷ b'R' ∷ b'C' ∷ []

abbrev pub max_recording_size : ℕ
max_recording_size = 2 * 1024 * 1024 * 1024

pub data FrameType : Type 0 where
  video audio input metadata : FrameType

abbrev pub frame_type_code : FrameType → ℕ
frame_type_code video = 0x01
frame_type_code audio = 0x02
frame_type_code input = 0x03
frame_type_code metadata = 0x04

pub record RecordingMetadata : Type 0 where
  pub version : ℕ
  pub created_at : ℕ
  pub remote_device_id : List ℕ
  pub remote_device_name : List ℕ
  pub duration_ms : ℕ
  pub frame_count : ℕ
  pub width : ℕ
  pub height : ℕ

-- What the code uses of serde_json, and that it reads what it has written.
pub record Json : Type 0 where
  pub to_vec : RecordingMetadata → List ℕ
  pub from_slice : List ℕ → Option RecordingMetadata

abbrev pub IsJson : Json → Type 0
IsJson json = (m : RecordingMetadata) → json.from_slice (json.to_vec m) ≡ some m

pub data RecordingError : Type 0 where
  cannot_create cannot_open not_recording size_limit_reached no_file no_active_recording :
      RecordingError
  invalid_file unsupported_version unexpected_end bad_metadata : RecordingError

-- The files by their paths; `writable` says whether files can be created and opened for writing.
pub record Disk : Type 0 where
  pub files : List ℕ → Option (List ℕ)
  pub writable : Bool

pub record SessionRecorder : Type 0 where
  pub has_file : Bool
  pub path : List ℕ
  pub frame_count : ℕ
  pub bytes_written : ℕ
  pub metadata : RecordingMetadata
  pub is_recording : Bool

abbrev pub Recording : Type 0 → Type 0
Recording A = Outcome RecordingError A × SessionRecorder × Disk

unfoldable pub set_file : List ℕ → List ℕ → Disk → Disk
set_file path content d = record d {
  files = λ p. if text_eq p path then some content else d.files p;
}

-- What is written at the end of an open file; a file that was removed meanwhile stays away.
unfoldable pub append_file : List ℕ → List ℕ → Disk → Disk
unfolding set_file
append_file path bytes d = elim (d.files path) [
  | none ↦ d
  | some content ↦ set_file path (content ++ bytes) d
]

-- "/recording_", "_" and ".sdrec"
abbrev file_prefix : List ℕ
file_prefix = b'/' ∷ b'r' ∷ b'e' ∷ b'c' ∷ b'o' ∷ b'r' ∷ b'd' ∷ b'i' ∷ b'n' ∷ b'g' ∷ b'_' ∷ []

abbrev pub file_suffix : List ℕ
file_suffix = b'.' ∷ b's' ∷ b'd' ∷ b'r' ∷ b'e' ∷ b'c' ∷ []

-- `dir` is the directory of the recordings.
unfoldable pub new_recorder : List ℕ → List ℕ → List ℕ → ℕ → SessionRecorder
unfolding without_spaces
new_recorder dir remote_device_id remote_device_name timestamp = record {
  has_file = false;
  path =
      dir
      ++ (file_prefix
          ++ (without_spaces remote_device_id ++ (b'_' ∷ (decimal timestamp ++ file_suffix))));
  frame_count = 0;
  bytes_written = 0;
  metadata = record {
    version = recording_version;
    created_at = timestamp;
    remote_device_id = remote_device_id;
    remote_device_name = remote_device_name;
    duration_ms = 0;
    frame_count = 0;
    width = 0;
    height = 0;
  };
  is_recording = false;
}

-- The length of the metadata in four bytes, and the metadata
abbrev pub sized : List ℕ → List ℕ
sized text = to_le32 (length text % 2 ^ 32) ++ text

abbrev pub file_header : List ℕ → List ℕ
file_header text = magic ++ (recording_version ∷ sized text)

-- What a file holds once bytes are written from position 5 on; a gap is filled with zeros.
abbrev pub overwrite : List ℕ → List ℕ → List ℕ
overwrite bytes content =
    take 5 (content ++ (0 ∷ 0 ∷ 0 ∷ 0 ∷ 0 ∷ [])) ++ (bytes ++ drop (5 + length bytes) content)

unfoldable pub video_frame : ℕ → ℕ → ℕ → List ℕ → List ℕ
video_frame timestamp_ms width height jpeg_data =
    frame_type_code video
    ∷ (to_le64 timestamp_ms
        ++ (to_le16 width
            ++ (to_le16 height ++ (to_le32 (length jpeg_data % 2 ^ 32) ++ jpeg_data))))

-- The resolution is that of the first picture that has a width.
abbrev pub with_resolution : ℕ → ℕ → RecordingMetadata → RecordingMetadata
with_resolution width height m =
    if m.width == 0 then record m { width = width; height = height } else m

module _ (json : Json) where
  unfoldable pub start : SessionRecorder → Disk → Recording (Unit {0})
  unfolding set_file
  start r d =
      if r.is_recording
      then (ok tt, r, d)
      else if d.writable
      then (
        ok tt,
        record r {
          bytes_written = 5 + 4 + length (json.to_vec r.metadata);
          has_file = true;
          is_recording = true;
        },
        set_file r.path (file_header (json.to_vec r.metadata)) d,
      )
      else (err cannot_create, r, d)

  unfoldable pub update_metadata_in_file : SessionRecorder → Disk → Outcome RecordingError Disk
  unfolding set_file
  update_metadata_in_file r d =
      if d.writable
      then elim (d.files r.path) [
        | none ↦ err cannot_open
        | some content ↦ ok (set_file r.path (overwrite (sized (json.to_vec r.metadata)) content) d)
      ]
      else err cannot_open

  -- The recorder as it is when its file is closed
  abbrev pub closed : ℕ → SessionRecorder → SessionRecorder
  closed elapsed r = record r {
    is_recording = false;
    has_file = false;
    metadata = record r.metadata { duration_ms = elapsed; frame_count = r.frame_count };
  }

  unfoldable pub stop : ℕ → SessionRecorder → Disk → Recording (List ℕ)
  unfolding update_metadata_in_file
  stop elapsed r d =
      if r.is_recording
      then elim (update_metadata_in_file (closed elapsed r) d) [
        | ok d' ↦ (ok r.path, closed elapsed r, d')
        | err e ↦ (err e, closed elapsed r, d)
        | panic ↦ (panic, closed elapsed r, d)
      ]
      else (err not_recording, r, d)

  -- An error of `stop` comes before that of the limit.
  abbrev pub limit_reached : Recording (List ℕ) → Recording (Unit {0})
  limit_reached (ok path, r, d) = (err size_limit_reached, r, d)
  limit_reached (err e, r, d) = (err e, r, d)
  limit_reached (panic, r, d) = (panic, r, d)

  -- A frame at the end of the file
  unfoldable pub add_frame : ℕ → ℕ → ℕ → List ℕ → SessionRecorder → Disk → Recording (Unit {0})
  unfolding append_file video_frame
  add_frame elapsed width height jpeg_data r d =
      if r.has_file
      then (
        ok tt,
        record r {
          frame_count = (r.frame_count + 1) % 2 ^ 64;
          bytes_written = (r.bytes_written + (1 + 8 + 2 + 2 + 4 + length jpeg_data)) % 2 ^ 64;
        },
        append_file r.path (video_frame elapsed width height jpeg_data) d,
      )
      else (err no_file, r, d)

  unfoldable pub write_video_frame :
      ℕ → ℕ → ℕ → List ℕ → SessionRecorder → Disk → Recording (Unit {0})
  unfolding stop add_frame
  write_video_frame elapsed width height jpeg_data r d =
      if r.is_recording
      then if ltb max_recording_size ((r.bytes_written + length jpeg_data) % 2 ^ 64)
        then limit_reached (stop elapsed r d)
        else add_frame elapsed width height jpeg_data
            (record r { metadata = with_resolution width height r.metadata }) d
      else (ok tt, r, d)
