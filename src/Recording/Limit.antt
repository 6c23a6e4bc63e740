-- ===== src/Recording/Limit.antt =====
-- app/src-tauri/src/recording.rs: the limit of a recording's size, and what is left where it is reached.
use secure_desk.Base.{
  ◌≢◌, ℕ, ◌+◌, ◌≤◌, ◌<◌, ◌%◌, ◌^◌, ◌≡◌, refl, ap, ◌∙◌, true, false, some, List, [], ◌∷◌, All,
  length, ltb, if-true, arith,
}
use secure_desk.Base.Outcome.{ok, err, panic}
use secure_desk.Recording.{
  Json, Disk, RecordingError, size_limit_reached, SessionRecorder, Recording, max_recording_size,
  not_recording, stop, limit_reached, add_frame, write_video_frame,
}
use secure_desk.Recording.Manager.{write_frame, stopped, stop_recording, is_recording}
use secure_desk.Recording.Log.{Picture, write_pictures}

-- No allocation is as large as half of the addresses.
abbrev pub IsAllocated : Picture → Type 0
IsAllocated p = length p.jpeg_data < 2 ^ 63

module _ (json : Json) where
  stop-bytes_written :
      (elapsed : ℕ) (r : SessionRecorder) (d : Disk)
      → (stop json elapsed r d).1.bytes_written ≡ r.bytes_written
  unfolding stop
  stop-bytes_written elapsed r d = ground arith

  limit_reached-state : (m : Recording (List ℕ)) → (limit_reached json m).1 ≡ m.1
  limit_reached-state (ok path, r, d) = refl
  limit_reached-state (err e, r, d) = refl
  limit_reached-state (panic, r, d) = refl

  stop-returns : (elapsed : ℕ) (r : SessionRecorder) (d : Disk) → (stop json elapsed r d).0 ≢ panic
  unfolding stop
  stop-returns elapsed r d = ground arith

  stop-is_recording :
      (elapsed : ℕ) (r : SessionRecorder) (d : Disk)
      → (stop json elapsed r d).1.is_recording ≡ false
  unfolding stop
  stop-is_recording elapsed r d = ground arith

  stop-not_recording :
      (elapsed : ℕ) (r : SessionRecorder) (d : Disk)
      → r.is_recording ≡ false
      → stop json elapsed r d ≡ (err not_recording, r, d)
  unfolding stop
  stop-not_recording elapsed r d e = rw e refl

  limit_reached-err :
      (m : Recording (List ℕ))
      → m.0 ≢ panic
      → (e : RecordingError) × ((limit_reached json m).0 ≡ err e)
  limit_reached-err (ok path, r, d) h = (size_limit_reached, refl)
  limit_reached-err (err e, r, d) h = (e, refl)
  limit_reached-err (panic, r, d) h = absurd (h refl)

  write-bytes_written :
      (p : Picture) (r : SessionRecorder) (d : Disk)
      → IsAllocated p
      → r.bytes_written ≤ max_recording_size + 17
      → (write_video_frame json p.elapsed p.width p.height p.jpeg_data r d).1.bytes_written
        ≤ max_recording_size + 17
  unfolding write_video_frame add_frame
  write-bytes_written p r d small h = ground (
    arith,
    small,
    h,
    stop-bytes_written p.elapsed r d,
    ap (λ (x : SessionRecorder). x.bytes_written) (limit_reached-state (stop json p.elapsed r d)),
  )

  -- Whatever pictures are written, the bytes that a recorder counts stay within 17 of the limit.
  pub write_pictures-bytes_written :
      (ps : List Picture) (r : SessionRecorder) (d : Disk)
      → All IsAllocated ps
      → r.bytes_written ≤ max_recording_size + 17
      → (write_pictures json ps r d).0.bytes_written ≤ max_recording_size + 17
  write_pictures-bytes_written [] r d small h = h
  write_pictures-bytes_written (p ∷ ps) r d small h =
      write_pictures-bytes_written ps _ _ small.1 (write-bytes_written p r d small.0 h)

  -- While a recording goes on whose count of bytes is at most 17 above the limit, a picture of less than 2 ^ 63 bytes
  -- that would make it larger than the limit ends it: the frame is refused with an error, recording is over, and the
  -- command that stops it afterwards reports that there is nothing to stop.
  pub stop_recording-write_frame :
      (elapsed later : ℕ) (p : Picture) (r : SessionRecorder) (d : Disk)
      → r.is_recording ≡ true
      → r.bytes_written ≤ max_recording_size + 17
      → IsAllocated p
      → max_recording_size < r.bytes_written + length p.jpeg_data
      → let written = write_frame json elapsed p.width p.height p.jpeg_data (some r) d in
        ((e : RecordingError) × (written.0 ≡ err e))
        × (is_recording written.1 ≡ false)
        × (stop_recording json later written.1 written.2
            ≡ (err not_recording, written.1, written.2))
  unfolding write_frame stop_recording is_recording write_video_frame
  stop_recording-write_frame elapsed later p r d e bound small over =
      let written = write_video_frame json elapsed p.width p.height p.jpeg_data r d in
      let full : ltb max_recording_size ((r.bytes_written + length p.jpeg_data) % 2 ^ 64) ≡ true =
        ground (arith, bound, small, over) in
      let ended : write_video_frame json elapsed p.width p.height p.jpeg_data r d
          ≡ limit_reached json (stop json elapsed r d) =
        if-true r.is_recording _ _ e ∙ if-true _ _ _ full in
      let over_now : written.1.is_recording ≡ false =
        ap (λ (x : Recording (Unit {0})). x.1.is_recording) ended
        ∙ ap (λ (x : SessionRecorder). x.is_recording) (limit_reached-state (stop json elapsed r d))
        ∙ stop-is_recording elapsed r d in
      let (e', refused) = limit_reached-err (stop json elapsed r d) (stop-returns elapsed r d) in
      (
        (e', ap (λ (x : Recording (Unit {0})). x.0) ended ∙ refused),
        over_now,
        ap (stopped json) (stop-not_recording later written.1 written.2 over_now),
      )
