-- ===== src/Capture/Tests.antt =====
-- Runs of app/src-tauri/src/capture.rs, and its theorems, on a picture of one row of two pixels with padding behind
-- them; the toy encoder leaves the bytes as they are.
use secure_desk.Base.{
  ℕ, ◌≡◌, refl, ◌<◌, ◌+◌, ◌*◌, ◌-◌, true, none, some, List, [], ◌∷◌, length, get_elem?,
  if◌then◌else◌, leb, arith,
}
use secure_desk.Base.Outcome.{ok, panic}
use secure_desk.Capture.{bgra_to_rgb, convert_to_rgb, ximage_to_rgb}
use secure_desk.Capture.Pixels.{bgra_to_rgb_pixels, conversions_agree}
use secure_desk.Capture.Duplication.{
  Desktop, got, wait_timeout, CaptureError, ScreenCapture, picture, capture_internal,
  after_timeouts,
}
use secure_desk.Capture.Cached.{capture_internal-after_timeouts}

abbrev memory : List ℕ
memory = 10 ∷ 20 ∷ 30 ∷ 255 ∷ 11 ∷ 21 ∷ 31 ∷ 255 ∷ 0 ∷ 0 ∷ []

abbrev desktop : Desktop
desktop = record {
  duplicates = true;
  acquired = got (some (record { row_pitch = 10; bytes = memory }));
  releases = true;
}

abbrev capturer : ScreenCapture
capturer = record {
  width = 2;
  height = 1;
  last_frame = none;
  unchanged_count = 3;
  needs_recreate = true;
  frame_count = 0;
}

abbrev toy : ℕ → ℕ → List ℕ → List ℕ
toy width height rgb = rgb

-- A short buffer: convert_to_rgb leaves out a pixel that lacks its last byte, bgra_to_rgb panics at one that is not
-- there.
short_buffer :
    (convert_to_rgb {E = CaptureError} (10 ∷ 20 ∷ 30 ∷ []) 4 1 1 ≡ ok [])
    × (bgra_to_rgb {E = CaptureError} 1 2 (10 ∷ 20 ∷ 30 ∷ []) 4 ≡ panic)
short_buffer = (refl, refl)

bgra_to_rgb_pixels_example :
    (rgb : List ℕ) × (bgra_to_rgb {E = CaptureError} 2 1 memory 10 ≡ ok rgb)
    × (length rgb ≡ 1 * (2 * 3))
    × ((x y c : ℕ)
        → x < 2
        → y < 1
        → c < 3
        → get_elem? rgb ((y * 2 + x) * 3 + c) ≡ get_elem? memory (y * 10 + x * 4 + (2 - c)))
bgra_to_rgb_pixels_example =
    bgra_to_rgb_pixels CaptureError memory 10 2 1 (omega arith) (omega arith)

conversions_agree_example :
    (convert_to_rgb {E = CaptureError} memory 10 2 1 ≡ bgra_to_rgb 2 1 memory 10)
    × (ximage_to_rgb {E = CaptureError} (record {
      width = 2;
      height = 1;
      bytes_per_line = 10;
      bits_per_pixel = 32;
      data_bytes = memory;
    })
        ≡ bgra_to_rgb 2 1 memory 10)
conversions_agree_example = conversions_agree CaptureError memory 10 2 1 (omega arith) (omega arith)

capture_internal-after_timeouts_example :
    (rgb : List ℕ) × (bgra_to_rgb {E = CaptureError} 2 1 memory 10 ≡ ok rgb)
    × ((capture_internal (λ width height rgb. some rgb) desktop capturer).0 ≡ picture capturer rgb)
    × ((capture_internal
          (λ width height rgb. some rgb)
          (record desktop { acquired = wait_timeout })
          (after_timeouts
            (λ width height rgb. some rgb)
            12
            desktop
            (capture_internal (λ width height rgb. some rgb) desktop capturer).1)).0
        ≡ picture capturer (if leb (12 + 1) 10 then rgb else []))
capture_internal-after_timeouts_example =
    capture_internal-after_timeouts toy desktop capturer (record { row_pitch = 10; bytes = memory })
      12 refl refl refl (omega arith) (omega arith) (omega arith)
