-- ===== src/Recording/Log.antt =====
-- app/src-tauri/src/recording.rs: the file of a recording as a header and a log of frames, from its start to
-- its end.
use secure_desk.Base.{
  ℕ, ◌+◌, ◌≤◌, ◌%◌, ◌^◌, ◌≡◌, refl, sym, ap, subst, ◌∙◌, true, false, some, List, [], ◌∷◌, ◌++◌,
  length, arith, append_assoc, append-nil, ltb,
}
use secure_desk.Base.Text.{text_eq_refl}
use secure_desk.Recording.{
  Json, Disk, SessionRecorder, max_recording_size, set_file, append_file, file_header, video_frame,
  with_resolution, start, add_frame, write_video_frame,
}

-- A picture that is recorded, at its time
pub record Picture : Type 0 where
  pub elapsed : ℕ
  pub width : ℕ
  pub height : ℕ
  pub jpeg_data : List ℕ

abbrev pub frames_of : List Picture → List ℕ
frames_of [] = []
frames_of (p ∷ ps) = video_frame p.elapsed p.width p.height p.jpeg_data ++ frames_of ps

-- The bytes of the pictures with the 17 that precede each
abbrev pub size_of : List Picture → ℕ
size_of [] = 0
size_of (p ∷ ps) = 17 + length p.jpeg_data + size_of ps

module _ (json : Json) where
  -- The pictures one after the other
  abbrev pub write_pictures : List Picture → SessionRecorder → Disk → SessionRecorder × Disk
  write_pictures [] r d = (r, d)
  write_pictures (p ∷ ps) r d =
      let written = write_video_frame json p.elapsed p.width p.height p.jpeg_data r d in
      write_pictures ps written.1 written.2

  -- A recorder at work, with what its file holds.
  pub record IsAt (path content : List ℕ) (count bytes : ℕ) (r : SessionRecorder) (d : Disk)
      : Type 0 where
    pub at_path : r.path ≡ path
    pub recording : r.is_recording ≡ true
    pub has_file : r.has_file ≡ true
    pub counted : r.frame_count ≡ count
    pub written : r.bytes_written ≡ bytes
    pub holds : d.files path ≡ some content
    pub writable : d.writable ≡ true

  pub start-IsAt :
      (r : SessionRecorder) (d : Disk)
      → r.is_recording ≡ false
      → d.writable ≡ true
      → IsAt r.path
          (file_header (json.to_vec r.metadata))
          r.frame_count
          (9 + length (json.to_vec r.metadata))
          (start json r d).1
          (start json r d).2
  unfolding start set_file
  start-IsAt r d e w = record {
    at_path = ground (arith, e, w);
    recording = ground (arith, e, w);
    has_file = ground (arith, e, w);
    counted = ground (arith, e, w);
    written = ground (arith, e, w);
    holds = ground (arith, e, w, text_eq_refl r.path);
    writable = ground (arith, e, w);
  }

  append_file-files :
      (target path content bytes : List ℕ) (d : Disk)
      → target ≡ path
      → d.files path ≡ some content
      → (append_file target bytes d).files path ≡ some (content ++ bytes)
  unfolding append_file set_file
  append_file-files target path content bytes d e h =
      subst (λ q. (append_file q bytes d).files path ≡ some (content ++ bytes)) (sym e)
        (rw (append_file, h) (rw (text_eq_refl path) refl))

  append_file-writable :
      (target bytes : List ℕ) (d : Disk) → (append_file target bytes d).writable ≡ d.writable
  unfolding append_file set_file
  append_file-writable target bytes d = ground arith

  -- Below the limit a picture is added.
  write_video_frame-add_frame :
      (p : Picture) (r : SessionRecorder) (d : Disk)
      → r.bytes_written + length p.jpeg_data ≤ max_recording_size
      → r.is_recording ≡ true
      → write_video_frame json p.elapsed p.width p.height p.jpeg_data r d
        ≡ add_frame json p.elapsed p.width p.height p.jpeg_data
            (record r { metadata = with_resolution p.width p.height r.metadata })
            d
  unfolding write_video_frame
  write_video_frame-add_frame p r d fits e =
      let below : ltb max_recording_size ((r.bytes_written + length p.jpeg_data) % 2 ^ 64) ≡ false =
        ground (arith, fits) in
      rw (e, below) refl

  write-IsAt :
      (p : Picture) (path content : List ℕ) (count bytes : ℕ) (r : SessionRecorder) (d : Disk)
      → count ≤ bytes
      → bytes + length p.jpeg_data ≤ max_recording_size
      → IsAt path content count bytes r d
      → let written = write_video_frame json p.elapsed p.width p.height p.jpeg_data r d in
        IsAt path
          (content ++ video_frame p.elapsed p.width p.height p.jpeg_data)
          (count + 1)
          (17 + length p.jpeg_data + bytes)
          written.1
          written.2
  unfolding add_frame
  write-IsAt p path content count bytes r d counted_bytes fits h =
      rw (write_video_frame-add_frame p r d (omega (arith, fits, h.written)) h.recording) (record {
        at_path = ground (arith, h.at_path, h.has_file);
        recording = ground (arith, h.recording, h.has_file);
        has_file = ground (arith, h.has_file);
        counted = ground (arith, fits, counted_bytes, h.has_file, h.counted);
        written = ground (arith, fits, h.has_file, h.written);
        holds = rw h.has_file (append_file-files r.path path content _ d h.at_path h.holds);
        writable = rw h.has_file (append_file-writable r.path _ d ∙ h.writable);
      })

  IsAt-eq :
      {path content content' : List ℕ} {count count' bytes bytes' : ℕ} {r : SessionRecorder}
      {d : Disk}
      → content ≡ content'
      → count ≡ count'
      → bytes ≡ bytes'
      → IsAt path content count bytes r d
      → IsAt path content' count' bytes' r d
  IsAt-eq e e' e'' h = record {
    at_path = h.at_path;
    recording = h.recording;
    has_file = h.has_file;
    counted = h.counted ∙ e';
    written = h.written ∙ e'';
    holds = h.holds ∙ ap some e;
    writable = h.writable;
  }

  pub write_pictures-IsAt :
      (ps : List Picture) (path content : List ℕ) (count bytes : ℕ) (r : SessionRecorder) (d : Disk)
      → count ≤ bytes
      → bytes + size_of ps ≤ max_recording_size
      → IsAt path content count bytes r d
      → IsAt path
          (content ++ frames_of ps)
          (count + length ps)
          (size_of ps + bytes)
          (write_pictures ps r d).0
          (write_pictures ps r d).1
  write_pictures-IsAt [] path content count bytes r d counted_bytes fits h =
      IsAt-eq (sym (append-nil content)) (omega arith) (omega arith) h
  write_pictures-IsAt (p ∷ ps) path content count bytes r d counted_bytes fits h =
      let written = write_video_frame json p.elapsed p.width p.height p.jpeg_data r d in
      IsAt-eq (append_assoc content _ (frames_of ps)) (omega arith) (omega arith) (
        write_pictures-IsAt ps path _ (count + 1) (17 + length p.jpeg_data + bytes) written.1
          written.2 (omega arith) (omega arith)
          (write-IsAt p path content count bytes r d counted_bytes (omega arith) h))
