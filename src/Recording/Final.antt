-- ===== src/Recording/Final.antt =====
-- app/src-tauri/src/recording.rs: the file of a recording that is over.
use secure_desk.Base.{
  ℕ, ◌+◌, ◌-◌, ◌≤◌, ◌≡◌, refl, sym, ap, ◌∙◌, true, false, some, List, ◌++◌, length, drop, take,
  drop-append_ge, arith,
}
use secure_desk.Base.Outcome.{ok}
use secure_desk.Base.Text.{text_eq_refl}
use secure_desk.Recording.{
  Json, Disk, SessionRecorder, RecordingMetadata, max_recording_size, set_file, sized, file_header,
  overwrite, start, stop, update_metadata_in_file,
}
use secure_desk.Recording.Log.{
  Picture, frames_of, size_of, write_pictures, IsAt, start-IsAt, write_pictures-IsAt,
}

-- The header that is written over the first one reaches into the frames by what it is longer.
overwrite-file_header :
    (first last frames : List ℕ)
    → length first ≤ length last
    → overwrite (sized last) (file_header first ++ frames)
      ≡ file_header last ++ drop (length last - length first) frames
overwrite-file_header first last frames h =
    ap (λ rest. take 5 (file_header first) ++ (sized last ++ rest))
      (drop-append_ge (file_header first) frames _ (length last - length first) (omega arith))

set_file-files :
    (target path content : List ℕ) (d : Disk)
    → target ≡ path
    → (set_file target content d).files path ≡ some content
unfolding set_file
set_file-files target path content d e = rw (e, text_eq_refl path) refl

module _ (json : Json) where
  -- The metadata that a recorder closes with
  abbrev pub last_metadata : ℕ → SessionRecorder → RecordingMetadata
  last_metadata elapsed r = record r.metadata { duration_ms = elapsed; frame_count = r.frame_count }

  module _ (elapsed : ℕ) (path content : List ℕ) (count bytes : ℕ) (r : SessionRecorder) (d : Disk)
      (h : IsAt json path content count bytes r d) where
    stop-path : (stop json elapsed r d).0 ≡ ok path
    unfolding stop update_metadata_in_file
    stop-path = rw (h.recording, h.writable, h.at_path, h.holds) (ap ok h.at_path)

    stop-files :
        (stop json elapsed r d).2.files path
        ≡ some (overwrite (sized (json.to_vec (last_metadata elapsed r))) content)
    unfolding stop update_metadata_in_file
    stop-files =
        rw (h.recording, h.writable, h.at_path, h.holds) (set_file-files r.path path _ d h.at_path)

    stop-metadata : (stop json elapsed r d).1.metadata ≡ last_metadata elapsed r
    unfolding stop update_metadata_in_file
    stop-metadata = rw (h.recording, h.writable, h.at_path, h.holds) refl

  -- A recorder that is new and can write its file, pictures that stay below the limit, and the end of the
  -- recording: it gives the path, its metadata has the number of pictures and the time, and where the
  -- last metadata is not shorter than the first, the file holds the header with the last metadata and then
  -- the pictures in their order, less as many bytes at their start as the metadata has grown.
  pub stop-write_pictures :
      (ps : List Picture) (elapsed : ℕ) (r : SessionRecorder) (d : Disk)
      → r.is_recording ≡ false
      → r.frame_count ≡ 0
      → d.writable ≡ true
      → 9 + length (json.to_vec r.metadata) + size_of ps ≤ max_recording_size
      → let begun = start json r d in
        let written = write_pictures json ps begun.1 begun.2 in
        let ended = stop json elapsed written.0 written.1 in
        length (json.to_vec r.metadata) ≤ length (json.to_vec ended.1.metadata)
        → (ended.0 ≡ ok r.path)
          × (ended.1.metadata.frame_count ≡ length ps)
          × (ended.1.metadata.duration_ms ≡ elapsed)
          × (ended.2.files r.path
              ≡ some (
                  file_header (json.to_vec ended.1.metadata)
                  ++ drop
                      (length (json.to_vec ended.1.metadata) - length (json.to_vec r.metadata))
                      (frames_of ps)))
  stop-write_pictures ps elapsed r d e e' w fits longer =
      let begun = start json r d in
      let written = write_pictures json ps begun.1 begun.2 in
      let h =
        write_pictures-IsAt json ps r.path _ r.frame_count _ begun.1 begun.2 (omega arith)
          (omega arith) (start-IsAt json r d e w) in
      let m = stop-metadata elapsed r.path _ _ _ written.0 written.1 h in
      (
        stop-path elapsed r.path _ _ _ written.0 written.1 h,
        ap (λ (x : RecordingMetadata). x.frame_count) m ∙ (h.counted ∙ omega arith),
        ap (λ (x : RecordingMetadata). x.duration_ms) m,
        stop-files elapsed r.path _ _ _ written.0 written.1 h
            ∙ ap
                (λ (x : RecordingMetadata). some (
                  overwrite (sized (json.to_vec x))
                    (file_header (json.to_vec r.metadata) ++ frames_of ps)))
                (sym m)
            ∙ ap some (overwrite-file_header (json.to_vec r.metadata) _ (frames_of ps) longer),
      )
