-- ===== src/Capture.antt =====
-- app/src-tauri/src/capture.rs: the conversions of a captured picture to RGB, one for each operating system.
-- A loop concatenates what its rounds push. A read outside the memory of
-- an image, which the pointers of ximage_to_rgb do not check, is a panic here.
mod Loops
pub mod Pixels
pub mod Duplication
pub mod Cached
mod Tests
use secure_desk.Base.{
  ℕ, zero, suc, ◌+◌, ◌*◌, ◌/◌, ◌≡◌, List, [], ◌∷◌, ◌++◌, if◌then◌else◌, ltb, ◌==◌, length, min, max,
}
use secure_desk.Base.Outcome.{Outcome, ok, at, ◌>>=◌}

-- `for x in start..start + count`
abbrev pub for_range : {E : Type 0} → (ℕ → Outcome E (List ℕ)) → ℕ → ℕ → Outcome E (List ℕ)
for_range round start zero = ok []
for_range round start (suc count) = do
  pushed ← round start
  rest ← for_range round (suc start) count
  ok (pushed ++ rest)

-- The three pushes of a pixel at an offset
abbrev pub push_pixel : {E : Type 0} → List ℕ → ℕ → Outcome E (List ℕ)
push_pixel bytes i = do
  r ← at bytes (i + 2)
  g ← at bytes (i + 1)
  b ← at bytes i
  ok (r ∷ g ∷ b ∷ [])

abbrev pub bgra_to_rgb : {E : Type 0} → ℕ → ℕ → List ℕ → ℕ → Outcome E (List ℕ)
bgra_to_rgb width height bgra pitch =
    for_range (λ y. for_range (λ x. push_pixel bgra (y * pitch + x * 4)) 0 width) 0 height

abbrev pub convert_to_rgb : {E : Type 0} → List ℕ → ℕ → ℕ → ℕ → Outcome E (List ℕ)
convert_to_rgb pixels bytes_per_row width height =
    for_range
      (λ y.
        for_range
          (λ x.
            let i = y * bytes_per_row + x * 4 in
            if ltb (i + 3) (length pixels) then push_pixel pixels i else ok [])
          0 width)
      0 height

pub record XImage : Type 0 where
  pub width : ℕ
  pub height : ℕ
  pub bytes_per_line : ℕ
  pub bits_per_pixel : ℕ
  pub data_bytes : List ℕ

abbrev pub ximage_to_rgb : {E : Type 0} → XImage → Outcome E (List ℕ)
ximage_to_rgb image =
    for_range
      (λ y.
        for_range
          (λ x.
            let pixel_offset = y * image.bytes_per_line + x * (image.bits_per_pixel / 8) in
            if image.bits_per_pixel == 32
            then push_pixel image.data_bytes pixel_offset
            else if image.bits_per_pixel == 24
            then push_pixel image.data_bytes pixel_offset
            else ok (0 ∷ 0 ∷ 0 ∷ []))
          0 image.width)
      0 image.height
