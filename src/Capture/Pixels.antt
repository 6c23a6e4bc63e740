-- ===== src/Capture/Pixels.antt =====
-- app/src-tauri/src/capture.rs: what the conversions of a picture give.
use secure_desk.Base.{
  ℕ, zero, suc, ◌+◌, ◌-◌, ◌*◌, ◌≤◌, ◌<◌, ◌≡◌, refl, sym, ap, ◌∙◌, List, [], ◌∷◌, length, get_elem?,
  get_elem?-lt, get_or, arith,
}
use secure_desk.Base.Outcome.{ok, at-lt}
use secure_desk.Capture.{push_pixel, bgra_to_rgb, convert_to_rgb, ximage_to_rgb}
use secure_desk.Capture.Loops.{
  collect, for_range-collect, for_range_eq, length-collect, get_elem?-collect, row_le,
}

abbrev pixel_at : List ℕ → ℕ → List ℕ
pixel_at bytes i = get_or bytes (i + 2) 0 ∷ get_or bytes (i + 1) 0 ∷ get_or bytes i 0 ∷ []

push_pixel_lem :
    {E : Type 0} (bytes : List ℕ) (i : ℕ)
    → i + 2 < length bytes
    → push_pixel {E = E} bytes i ≡ ok (pixel_at bytes i)
push_pixel_lem {E} bytes i h =
    rw
      (
        at-lt {E = E} bytes (i + 2) h,
        at-lt {E = E} bytes (i + 1) (omega arith),
        at-lt {E = E} bytes i (omega arith),
      )
      refl

-- A channel of a pixel is a byte of the source, blue last.
get_elem?-pixel_at :
    (bytes : List ℕ) (i c : ℕ)
    → i + 2 < length bytes
    → c < 3
    → get_elem? (pixel_at bytes i) c ≡ get_elem? bytes (i + (2 - c))
get_elem?-pixel_at bytes i zero h h' = sym (get_elem?-lt bytes (i + 2) 0 h)
get_elem?-pixel_at bytes i (suc zero) h h' = sym (get_elem?-lt bytes (i + 1) 0 (omega arith))
get_elem?-pixel_at bytes i (suc (suc zero)) h h' =
    let last : i ≡ i + (2 - 2) = omega arith in
    sym (get_elem?-lt bytes i 0 (omega arith)) ∙ ap (get_elem? bytes) last
get_elem?-pixel_at bytes i (suc (suc (suc c))) h h' = absurd (omega arith)

-- The pixels of a picture lie within its bytes.
pixel-lt :
    (bytes : List ℕ) (pitch width height x y : ℕ)
    → width * 4 ≤ pitch
    → height * pitch ≤ length bytes
    → x < width
    → y < height
    → y * pitch + x * 4 + 3 < length bytes
pixel-lt bytes pitch width height x y wide high hx hy = omega (arith, row_le y height pitch hy)

module _ (E : Type 0) (bytes : List ℕ) (pitch width height : ℕ) (wide : width * 4 ≤ pitch)
    (high : height * pitch ≤ length bytes) where
  abbrev row : ℕ → List ℕ
  row y = collect (λ x. pixel_at bytes (y * pitch + x * 4)) 0 width

  length-row : (y : ℕ) → length (row y) ≡ width * 3
  length-row y = length-collect (λ x. pixel_at bytes (y * pitch + x * 4)) 3 (λ x. refl) 0 width

  bgra_to_rgb-collect : bgra_to_rgb {E = E} width height bytes pitch ≡ ok (collect row 0 height)
  bgra_to_rgb-collect = for_range-collect _ row 0 height (λ y hy.
      for_range-collect _ (λ x. pixel_at bytes (y * pitch + x * 4)) 0 width
        (λ x hx. push_pixel_lem bytes (y * pitch + x * 4) (
          let within =
            pixel-lt bytes pitch width height x y wide high (omega arith) (omega arith) in
          omega arith)))

  -- When the rows lie in the memory one after the other, at least four bytes apart for each pixel, the
  -- conversion returns, with three bytes for each pixel, and each of the three bytes of the pixel at (x, y) is the
  -- byte of that pixel in the memory, the order of blue, green and red reversed.
  pub bgra_to_rgb_pixels :
      (rgb : List ℕ) × (bgra_to_rgb {E = E} width height bytes pitch ≡ ok rgb)
      × (length rgb ≡ height * (width * 3))
      × ((x y c : ℕ)
          → x < width
          → y < height
          → c < 3
          → get_elem? rgb ((y * width + x) * 3 + c) ≡ get_elem? bytes (y * pitch + x * 4 + (2 - c)))
  bgra_to_rgb_pixels = (
    collect row 0 height,
    bgra_to_rgb-collect,
    length-collect row (width * 3) length-row 0 height,
    λ x y c hx hy hc.
        let within = pixel-lt bytes pitch width height x y wide high hx hy in
        get_elem?-collect row (width * 3) length-row 0 height y (x * 3 + c)
          ((y * width + x) * 3 + c) y (omega arith) (omega arith) hy (omega arith)
        ∙ (get_elem?-collect (λ x. pixel_at bytes (y * pitch + x * 4)) 3 (λ x. refl) 0 width x c
              (x * 3 + c) x refl (omega arith) hx hc
            ∙ get_elem?-pixel_at bytes (y * pitch + x * 4) c (omega arith) hc),
  )

  -- When the rows lie in the memory one after the other, at least four bytes apart for each pixel, the three
  -- systems make the same picture of the same memory, at 32 bits per pixel.
  pub conversions_agree :
      (convert_to_rgb {E = E} bytes pitch width height ≡ bgra_to_rgb width height bytes pitch)
      × (ximage_to_rgb {E = E} (record {
        width = width;
        height = height;
        bytes_per_line = pitch;
        bits_per_pixel = 32;
        data_bytes = bytes;
      })
          ≡ bgra_to_rgb width height bytes pitch)
  conversions_agree = (
    for_range_eq _ _ 0 height (λ y hy. for_range_eq _ _ 0 width (λ x hx.
        let within = pixel-lt bytes pitch width height x y wide high (omega arith) (omega arith) in
        ground arith)),
    refl,
  )
