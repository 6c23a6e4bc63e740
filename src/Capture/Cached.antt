-- ===== src/Capture/Cached.antt =====
-- app/src-tauri/src/capture.rs, on Windows: how long a cached frame serves.
use secure_desk.Base.{
  ℕ, zero, suc, ◌+◌, ◌*◌, ◌%◌, ◌^◌, ◌≤◌, ◌<◌, ◌≡◌, refl, ap, ◌∙◌, Bool, true, false, Option, some,
  List, [], if◌then◌else◌, leb, length, arith, not, ◌&&◌, if-false,
}
use secure_desk.Base.Outcome.{ok}
use secure_desk.Capture.{bgra_to_rgb}
use secure_desk.Capture.Pixels.{bgra_to_rgb_pixels}
use secure_desk.Capture.Duplication.{
  Mapped, Desktop, got, wait_timeout, CaptureError, ScreenCapture, Captured, picture, timed_out,
  released, mapped, acquire, capture_internal, after_timeouts, not_recreated, last_or,
}

-- A state whose frame was counted `n` times
abbrev counted : ScreenCapture → ℕ → ScreenCapture
counted s n = record s { unchanged_count = n }

timed_out_lem :
    (s : ScreenCapture) (frame : List ℕ) (n : ℕ)
    → s.last_frame ≡ some frame
    → n + 1 < 2 ^ 32
    → timed_out (counted s n)
      ≡ (picture s (if leb (n + 1) 10 then frame else []), counted s (n + 1))
timed_out_lem s frame n e h =
    let small : (n + 1) % 2 ^ 32 ≡ n + 1 = omega arith in rw (e, small) (ground arith)

module _ (jpg : ℕ → ℕ → List ℕ → List ℕ) where
  abbrev encode : ℕ → ℕ → List ℕ → Option (List ℕ)
  encode width height rgb = some (jpg width height rgb)

  -- The state behind a frame
  abbrev fresh : ScreenCapture → List ℕ → ScreenCapture
  fresh s jpeg = record s {
    last_frame = some jpeg;
    unchanged_count = 0;
    needs_recreate = false;
    frame_count = (s.frame_count + 1) % 2 ^ 32;
  }

  -- A call that can go on goes on with the duplication in order.
  capture_internal-acquire :
      (d : Desktop) (s : ScreenCapture)
      → (s.needs_recreate && not d.duplicates) ≡ false
      → capture_internal encode d s ≡ acquire encode d (record s { needs_recreate = false })
  unfolding capture_internal
  capture_internal-acquire d s fine = go s.needs_recreate d.duplicates fine refl refl
    where
      go :
          (stale duplicates : Bool)
          → (stale && not duplicates) ≡ false
          → s.needs_recreate ≡ stale
          → d.duplicates ≡ duplicates
          → (if s.needs_recreate
              then (if d.duplicates
                  then acquire encode d (record s { needs_recreate = false })
                  else (last_or s not_recreated, s))
              else acquire encode d s)
            ≡ acquire encode d (record s { needs_recreate = false })
      go true true h e q = rw (e, q) refl
      go true false h e q = cc
      go false b h e q =
          if-false s.needs_recreate _ _ e
          ∙ ap (λ b. acquire encode d (record s { needs_recreate = b })) e

  acquire-got :
      (d : Desktop) (s : ScreenCapture) (m : Mapped) (rgb : List ℕ)
      → d.acquired ≡ got (some m)
      → d.releases ≡ true
      → bgra_to_rgb {E = CaptureError} s.width s.height m.bytes m.row_pitch ≡ ok rgb
      → acquire encode d (record s { needs_recreate = false })
        ≡ (picture s (jpg s.width s.height rgb), fresh s (jpg s.width s.height rgb))
  acquire-got d s m rgb e r q = rw (e, acquire, mapped, q, released, r) refl

  capture_internal-wait_timeout :
      (d : Desktop) (s : ScreenCapture) (frame : List ℕ) (n : ℕ)
      → n + 1 < 2 ^ 32
      → capture_internal encode (record d { acquired = wait_timeout }) (counted (fresh s frame) n)
        ≡ (picture s (if leb (n + 1) 10 then frame else []), counted (fresh s frame) (n + 1))
  unfolding capture_internal
  capture_internal-wait_timeout d s frame n h = timed_out_lem (fresh s frame) frame n refl h

  after_timeouts_lem :
      (d : Desktop) (s : ScreenCapture) (frame : List ℕ) (n : ℕ)
      → n < 2 ^ 32
      → after_timeouts encode n d (fresh s frame) ≡ counted (fresh s frame) n
  unfolding after_timeouts
  after_timeouts_lem d s frame zero h = refl
  after_timeouts_lem d s frame (suc n) h =
      let before = after_timeouts_lem d s frame n (omega arith) in
      let next : n + 1 ≡ suc n = omega arith in
      ap (λ t. (capture_internal encode (record d { acquired = wait_timeout }) t).1) before
      ∙ (ap (λ r. r.1) (capture_internal-wait_timeout d s frame n (omega arith))
          ∙ ap (counted (fresh s frame)) next)

  -- With an encoder that never fails: when the duplication is in order or can be made anew, and the
  -- desktop gives a frame whose rows lie in its memory, at least four bytes apart for each pixel, and
  -- releases it, the call returns the encoded picture of that frame; and of the calls that time out
  -- right after it, fewer than 2 ^ 32 of them, each of the first ten returns the same picture and each
  -- later one an empty picture.
  pub capture_internal-after_timeouts :
      (d : Desktop) (s : ScreenCapture) (m : Mapped) (n : ℕ)
      → (s.needs_recreate && not d.duplicates) ≡ false
      → d.acquired ≡ got (some m)
      → d.releases ≡ true
      → s.width * 4 ≤ m.row_pitch
      → s.height * m.row_pitch ≤ length m.bytes
      → n + 1 < 2 ^ 32
      → (rgb : List ℕ) × (bgra_to_rgb {E = CaptureError} s.width s.height m.bytes m.row_pitch
          ≡ ok rgb)
        × ((capture_internal encode d s).0 ≡ picture s (jpg s.width s.height rgb))
        × ((capture_internal encode
              (record d { acquired = wait_timeout })
              (after_timeouts encode n d (capture_internal encode d s).1)).0
            ≡ picture s (if leb (n + 1) 10 then jpg s.width s.height rgb else []))
  capture_internal-after_timeouts d s m n fine e r wide high h =
      let (rgb, same, _, _) =
        bgra_to_rgb_pixels CaptureError m.bytes m.row_pitch s.width s.height wide high in
      let frame = jpg s.width s.height rgb in
      let call = capture_internal-acquire d s fine ∙ acquire-got d s m rgb e r same in
      let late : ScreenCapture → Captured = λ t.
        capture_internal encode (record d { acquired = wait_timeout })
          (after_timeouts encode n d t) in
      (
        rgb,
        same,
        ap (λ c. c.0) call,
        ap (λ c. (late c.1).0) call
            ∙ (ap (λ t. (capture_internal encode (record d { acquired = wait_timeout }) t).0)
                  (after_timeouts_lem d s frame n (omega arith))
                ∙ ap (λ c. c.0) (capture_internal-wait_timeout d s frame n h)),
      )
