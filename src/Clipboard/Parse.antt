-- ===== src/Clipboard/Parse.antt =====
-- app/src-tauri/src/clipboard.rs: `decode` on any bytes.
use secure_desk.Base.{
  ℕ, ◌+◌, ◌≤◌, List, [], ◌∷◌, arith, ltb, ◌==◌, if◌then◌else◌, length, ltb→le, get_or,
}
use secure_desk.Base.Outcome.{
  Outcome, ok, err, ◌>>=◌, slice, slice_from-le, Returns, Returns-if, Returns-slice, at-lt,
}
use secure_desk.Base.Words.{from_le32}
use secure_desk.Protocol.Clipboard.{data_type_text, data_type_image, data_type_files}
use secure_desk.Clipboard.{
  ClipboardData, Error, decode, le32_at, incomplete_text, incomplete_image, incomplete_files,
}

Returns-le32_at :
    (bytes : List ℕ) (i : ℕ) (f : ℕ → Outcome Error ClipboardData)
    → i + 4 ≤ length bytes
    → ((n : ℕ) → Returns (f n))
    → Returns (le32_at bytes i >>= f)
Returns-le32_at bytes i f h k =
    rw
      (
        at-lt {E = Error} bytes i (omega arith),
        at-lt {E = Error} bytes (i + 1) (omega arith),
        at-lt {E = Error} bytes (i + 2) (omega arith),
        at-lt {E = Error} bytes (i + 3) (omega arith),
      )
      (k (
        from_le32 (get_or bytes i 0) (get_or bytes (i + 1) 0) (get_or bytes (i + 2) 0)
          (get_or bytes (i + 3) 0)))

-- The last step of a branch: the announced length is checked before the slice.
Returns-body :
    (payload : List ℕ) (start len : ℕ) (e : Error) (f : List ℕ → ClipboardData)
    → Returns (
        if ltb (length payload) (start + len)
        then err e
        else (do part ← slice payload start (start + len); ok (f part)))
Returns-body payload start len e f =
    Returns-if (ltb (length payload) (start + len)) _ _ (λ _. tt)
      (λ h.
        Returns-slice payload start (start + len) (λ part. ok (f part)) (omega arith)
          (ltb→le (length payload) (start + len) h) (λ _. tt))

-- On any bytes decoding gives a value or an error: no index and no slice is out of range.
pub decode_clipboard-Returns : (bytes : List ℕ) → Returns (decode bytes)
unfolding decode
decode_clipboard-Returns [] = tt
decode_clipboard-Returns (b ∷ payload) =
    rw (slice_from-le {E = Error} (b ∷ payload) 1 (omega arith)) (
      Returns-if (b == data_type_text) _ _
        (λ _.
          Returns-if (ltb (length payload) 4) _ _ (λ _. tt)
            (λ h.
              Returns-le32_at payload 0 _ (omega (arith, ltb→le (length payload) 4 h))
                (λ len. Returns-body payload 4 len incomplete_text _)))
        (λ _.
          Returns-if (b == data_type_image) _ _
            (λ _.
              Returns-if (ltb (length payload) 12) _ _ (λ _. tt)
                (λ h.
                  let long = ltb→le (length payload) 12 h in
                  Returns-le32_at payload 0 _ (omega arith) (λ width.
                    Returns-le32_at payload 4 _ (omega arith) (λ height.
                      Returns-le32_at payload 8 _ (omega arith)
                        (λ len. Returns-body payload 12 len incomplete_image _)))))
            (λ _.
              Returns-if (b == data_type_files) _ _
                (λ _.
                  Returns-if (ltb (length payload) 4) _ _ (λ _. tt)
                    (λ h.
                      Returns-le32_at payload 0 _ (omega (arith, ltb→le (length payload) 4 h))
                        (λ len. Returns-body payload 4 len incomplete_files _)))
                (λ _. tt))))
