-- ===== src/Recording/Manager.antt =====
-- app/src-tauri/src/recording.rs: `RecordingManager`, whose state is the recorder behind its lock, and
-- `delete_recording`.
use secure_desk.Base.{ℕ, Bool, false, Option, none, some, List, if◌then◌else◌}
use secure_desk.Base.Outcome.{Outcome, ok, err, panic}
use secure_desk.Recording.{
  Json, Disk, SessionRecorder, Recording, RecordingError, no_active_recording, new_recorder, start,
  stop, write_video_frame,
}

abbrev pub Managed : Type 0 → Type 0
Managed A = Outcome RecordingError A × Option SessionRecorder × Disk

pub record RecordingStatus : Type 0 where
  pub duration_ms : ℕ
  pub frame_count : ℕ
  pub path : List ℕ

module _ (json : Json) where
  -- A recording that goes on is stopped first, whatever comes of it.
  unfoldable pub stop_existing : ℕ → Option SessionRecorder → Disk → Option SessionRecorder × Disk
  unfolding stop
  stop_existing elapsed none d = (none, d)
  stop_existing elapsed (some r) d =
      let stopped = stop json elapsed r d in
      if r.is_recording then (some stopped.1, stopped.2) else (some r, d)

  -- The recorder that was there stays where the new one cannot start.
  abbrev pub started : Option SessionRecorder → Recording (Unit {0}) → Managed (Unit {0})
  started before (ok u, r, d) = (ok u, some r, d)
  started before (err e, r, d) = (err e, before, d)
  started before (panic, r, d) = (panic, before, d)

  unfoldable pub start_recording :
      ℕ → List ℕ → List ℕ → List ℕ → ℕ → Option SessionRecorder → Disk → Managed (Unit {0})
  unfolding start stop_existing new_recorder
  start_recording elapsed dir remote_device_id remote_device_name timestamp m d =
      let before = stop_existing elapsed m d in
      started before.0
        (start json (new_recorder dir remote_device_id remote_device_name timestamp) before.1)

  abbrev pub stopped : Recording (List ℕ) → Managed (List ℕ)
  stopped (ok path, r, d) = (ok path, none, d)
  stopped (err e, r, d) = (err e, some r, d)
  stopped (panic, r, d) = (panic, some r, d)

  unfoldable pub stop_recording : ℕ → Option SessionRecorder → Disk → Managed (List ℕ)
  unfolding stop
  stop_recording elapsed none d = (err no_active_recording, none, d)
  stop_recording elapsed (some r) d = stopped (stop json elapsed r d)

  unfoldable pub write_frame :
      ℕ → ℕ → ℕ → List ℕ → Option SessionRecorder → Disk → Managed (Unit {0})
  unfolding write_video_frame
  write_frame elapsed width height jpeg_data none d = (ok tt, none, d)
  write_frame elapsed width height jpeg_data (some r) d =
      let written = write_video_frame json elapsed width height jpeg_data r d in
      (written.0, some written.1, written.2)

unfoldable pub is_recording : Option SessionRecorder → Bool
is_recording none = false
is_recording (some r) = r.is_recording

unfoldable pub status : ℕ → Option SessionRecorder → Option RecordingStatus
status elapsed none = none
status elapsed (some r) =
    if r.is_recording
    then some (record { duration_ms = elapsed; frame_count = r.frame_count; path = r.path })
    else none
