-- ===== src/Capture/Duplication.antt =====
-- app/src-tauri/src/capture.rs, on Windows: ScreenCapture::capture with its cached frame. What the desktop
-- duplication answers during a call is an argument, `Desktop`; `encode` is the JPEG encoder at the current quality.
use secure_desk.Base.{
  ℕ, zero, suc, ◌+◌, ◌%◌, ◌^◌, Bool, true, false, Option, none, some, List, [], if◌then◌else◌, leb,
}
use secure_desk.Base.Outcome.{Outcome, ok, err, panic}
use secure_desk.Capture.{bgra_to_rgb}

-- The texture's bytes with their pitch, as they are mapped
pub record Mapped : Type 0 where
  pub row_pitch : ℕ
  pub bytes : List ℕ

-- AcquireNextFrame; a frame that cannot be mapped is `got none`.
pub data Acquired : Type 0 where
  got : Option Mapped → Acquired
  wait_timeout access_lost refused : Acquired

pub record Desktop : Type 0 where
  pub duplicates : Bool
  pub acquired : Acquired
  pub releases : Bool

pub data CaptureError : Type 0 where
  not_recreated lost acquire_failed not_mapped encode_failed release_failed : CaptureError

pub record ScreenCapture : Type 0 where
  pub width : ℕ
  pub height : ℕ
  pub last_frame : Option (List ℕ)
  pub unchanged_count : ℕ
  pub needs_recreate : Bool
  pub frame_count : ℕ

pub record Picture : Type 0 where
  pub width : ℕ
  pub height : ℕ
  pub jpeg : List ℕ

abbrev pub Captured : Type 0
Captured = Outcome CaptureError Picture × ScreenCapture

abbrev pub picture : ScreenCapture → List ℕ → Outcome CaptureError Picture
picture s jpeg = ok (record { width = s.width; height = s.height; jpeg = jpeg })

abbrev pub last_or : ScreenCapture → CaptureError → Outcome CaptureError Picture
last_or s e = elim s.last_frame [ none ↦ err e | some frame ↦ picture s frame ]

abbrev pub timed_out : ScreenCapture → Captured
timed_out s = elim s.last_frame [
  | none ↦ (picture s [], s)
  | some frame ↦
      let counted = record s { unchanged_count = (s.unchanged_count + 1) % 2 ^ 32 } in
      if leb counted.unchanged_count 10 then (picture s frame, counted) else (picture s [], counted)
]

abbrev pub released : Desktop → List ℕ → ScreenCapture → Captured
released d jpeg s =
    if d.releases
    then (
      picture s jpeg,
      record s { last_frame = some jpeg; frame_count = (s.frame_count + 1) % 2 ^ 32 },
    )
    else (err release_failed, s)

module _ (encode : ℕ → ℕ → List ℕ → Option (List ℕ)) where
  -- The conversion, the encoder, and the release of the frame
  abbrev pub encoded : Desktop → List ℕ → ScreenCapture → Captured
  encoded d rgb s = elim (encode s.width s.height rgb) [
    | none ↦ (err encode_failed, s)
    | some jpeg ↦ released d jpeg s
  ]

  abbrev pub mapped : Desktop → Mapped → ScreenCapture → Captured
  mapped d m s = elim (bgra_to_rgb {E = CaptureError} s.width s.height m.bytes m.row_pitch) [
    | ok rgb ↦ encoded d rgb s
    | err e ↦ (err e, s)
    | panic ↦ (panic, s)
  ]

  abbrev pub acquire : Desktop → ScreenCapture → Captured
  acquire d s = elim d.acquired [
    | wait_timeout ↦ timed_out s
    | access_lost ↦ let stale = record s { needs_recreate = true } in (last_or stale lost, stale)
    | refused ↦ (err acquire_failed, s)
    | got (none) ↦ (err not_mapped, record s { unchanged_count = 0 })
    | got (some m) ↦ mapped d m (record s { unchanged_count = 0 })
  ]

  unfoldable pub capture_internal : Desktop → ScreenCapture → Captured
  capture_internal d s =
      if s.needs_recreate
      then (if d.duplicates
          then acquire d (record s { needs_recreate = false })
          else (last_or s not_recreated, s))
      else acquire d s

  -- The state behind `n` calls that time out
  unfoldable pub after_timeouts : ℕ → Desktop → ScreenCapture → ScreenCapture
  after_timeouts zero d s = s
  after_timeouts (suc n) d s =
      (capture_internal (record d { acquired = wait_timeout }) (after_timeouts n d s)).1
