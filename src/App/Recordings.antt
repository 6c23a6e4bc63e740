-- ===== src/App/Recordings.antt =====
-- app/src-tauri/src/main.rs: the commands for recordings. The time that a recording has lasted and the time of day are
-- arguments.
use secure_desk.Base.{ℕ, Bool, Option, List}
use secure_desk.Base.Outcome.{Outcome}
use secure_desk.Recording.{Json, Disk, RecordingError}
use secure_desk.Recording.Manager.{RecordingStatus}
use secure_desk.Recording.Manager
use secure_desk.App.Startup.{AppState}

abbrev pub Recorded : Type 0 → Type 0 → Type 0
Recorded A S = Outcome RecordingError A × AppState S × Disk

abbrev pub managed : {A S : Type 0} → Manager.Managed A → AppState S → Recorded A S
managed (r, recorder, d) state = (r, record state { recorder = recorder }, d)

module _ {S : Type 0} (json : Json) where
  unfoldable pub start_recording :
      ℕ → List ℕ → List ℕ → List ℕ → ℕ → AppState S → Disk → Recorded (Unit {0}) S
  unfolding Manager.start_recording
  start_recording elapsed dir remote_device_id remote_device_name timestamp state d =
      managed
        (Manager.start_recording json elapsed dir remote_device_id remote_device_name timestamp
          state.recorder d)
        state

  unfoldable pub stop_recording : ℕ → AppState S → Disk → Recorded (List ℕ) S
  unfolding Manager.stop_recording
  stop_recording elapsed state d =
      managed (Manager.stop_recording json elapsed state.recorder d) state

unfoldable pub is_recording : {S : Type 0} → AppState S → Bool
unfolding Manager.is_recording
is_recording state = Manager.is_recording state.recorder

unfoldable pub get_recording_status : {S : Type 0} → ℕ → AppState S → Option RecordingStatus
unfolding Manager.status
get_recording_status elapsed state = Manager.status elapsed state.recorder
