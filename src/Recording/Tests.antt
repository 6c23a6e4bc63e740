-- ===== src/Recording/Tests.antt =====
-- Runs of app/src-tauri/src/recording.rs, and their theorems, with a toy in place of serde_json: its text is the
-- fields one after the other.
use secure_desk.Base.{
  ℕ, ◌+◌, ◌-◌, ◌≤◌, ◌≡◌, refl, true, false, Option, none, some, List, [], ◌∷◌, ◌++◌, length, take,
  drop, arith, take-length_append, drop-length_append,
}
use secure_desk.Base.Outcome.{Outcome, ok, err}
use secure_desk.Recording.{
  RecordingError, Json, IsJson, RecordingMetadata, Disk, SessionRecorder, write_video_frame,
  add_frame, append_file, set_file, update_metadata_in_file, new_recorder, start, stop, file_header,
  max_recording_size, not_recording, RecordingError, file_suffix,
}
use secure_desk.Recording.Manager.{write_frame, stop_recording, is_recording}
use secure_desk.Recording.Log.{Picture, frames_of, write_pictures}
use secure_desk.Recording.Final.{stop-write_pictures}
use secure_desk.Recording.Limit.{write_pictures-bytes_written, stop_recording-write_frame}
use secure_desk.Recording.Info.{RecordingInfo, read_recording_info, delete_recording}
use secure_desk.Recording.Info.Laws.{read_recording_info-stop, delete_recording_below}

abbrev toy_from_slice : List ℕ → Option RecordingMetadata
toy_from_slice (version ∷ created ∷ time ∷ frames ∷ w ∷ h ∷ n ∷ rest) = some (record {
  version = version;
  created_at = created;
  remote_device_id = take n rest;
  remote_device_name = drop n rest;
  duration_ms = time;
  frame_count = frames;
  width = w;
  height = h;
})
toy_from_slice _ = none

abbrev toy : Json
toy = record {
  to_vec = λ m.
      m.version
      ∷ m.created_at
      ∷ m.duration_ms
      ∷ m.frame_count
      ∷ m.width
      ∷ m.height
      ∷ length m.remote_device_id
      ∷ (m.remote_device_id ++ m.remote_device_name);
  from_slice = toy_from_slice;
}

toy-IsJson : IsJson toy
toy-IsJson m = simp (take-length_append, drop-length_append) refl

abbrev disk : Disk
disk = record { files = λ p. none; writable = true }

abbrev recorder : SessionRecorder
recorder = new_recorder (b'/' ∷ b'r' ∷ []) (b'7' ∷ []) (b'x' ∷ []) 5

abbrev picture : Picture
picture = record { elapsed = 3; width = 640; height = 480; jpeg_data = 1 ∷ 2 ∷ [] }

-- What the toy recording leaves.
abbrev ended : Outcome RecordingError (List ℕ) × SessionRecorder × Disk
ended =
    let begun = start toy recorder disk in
    let written = write_pictures toy (picture ∷ picture ∷ []) begun.1 begun.2 in
    stop toy 9 written.0 written.1

stop-write_pictures_example :
    (ended.0 ≡ ok recorder.path)
    × (ended.1.metadata.frame_count ≡ 2)
    × (ended.1.metadata.duration_ms ≡ 9)
    × (ended.2.files recorder.path
        ≡ some (
            file_header (toy.to_vec ended.1.metadata)
            ++ drop
                (length (toy.to_vec ended.1.metadata) - length (toy.to_vec recorder.metadata))
                (frames_of (picture ∷ picture ∷ []))))
unfolding new_recorder start stop write_video_frame add_frame append_file set_file
    update_metadata_in_file
stop-write_pictures_example =
    stop-write_pictures toy (picture ∷ picture ∷ []) 9 recorder disk refl refl refl (omega arith)
      (omega arith)

read_recording_info-stop_example :
    (content : List ℕ) × (info : RecordingInfo) × (ended.2.files recorder.path ≡ some content)
    × (read_recording_info toy [] [] content ≡ ok info)
    × (info.frame_count ≡ 2)
    × (info.duration_ms ≡ 9)
    × (info.size_bytes ≡ length content)
unfolding new_recorder start stop write_video_frame add_frame append_file set_file
    update_metadata_in_file
read_recording_info-stop_example =
    read_recording_info-stop toy toy-IsJson [] [] (picture ∷ picture ∷ []) 9 recorder disk refl refl
      refl (omega arith) (omega arith) (omega arith)

abbrev full : SessionRecorder
full = record recorder { bytes_written = max_recording_size; has_file = true; is_recording = true }

write_pictures-bytes_written_example :
    (write_pictures toy (picture ∷ []) full disk).0.bytes_written ≤ max_recording_size + 17
write_pictures-bytes_written_example =
    write_pictures-bytes_written toy (picture ∷ []) full disk (omega arith, tt) (omega arith)

stop_recording-write_frame_example :
    let written = write_frame toy 9 640 480 (1 ∷ 2 ∷ []) (some full) disk in
    ((e : RecordingError) × (written.0 ≡ err e))
    × (is_recording written.1 ≡ false)
    × (stop_recording toy 10 written.1 written.2 ≡ (err not_recording, written.1, written.2))
stop_recording-write_frame_example =
    stop_recording-write_frame toy 9 10 picture full disk refl (omega arith) (omega arith)
      (omega arith)

-- Two recordings and a file that is none
abbrev entries : List (List ℕ × List ℕ)
entries =
    (b'a' ∷ file_suffix, file_header (toy.to_vec recorder.metadata))
    ∷ (b'b' ∷ [], [])
    ∷ (b'c' ∷ file_suffix, file_header (toy.to_vec (record recorder.metadata { created_at = 8 })))
    ∷ []

-- "/r/../x"
delete_recording_below_example :
    delete_recording
      (λ path (d : ℕ). some (d + 1))
      (b'/' ∷ b'r' ∷ [])
      (b'/' ∷ b'r' ∷ b'/' ∷ b'.' ∷ b'.' ∷ b'/' ∷ b'x' ∷ [])
      0
    ≡ ok 1
delete_recording_below_example =
    delete_recording_below (λ path (d : ℕ). some (d + 1)) (b'/' ∷ b'r' ∷ [])
      (b'.' ∷ b'.' ∷ b'/' ∷ b'x' ∷ []) 0 1 refl refl
