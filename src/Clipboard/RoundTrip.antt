-- ===== src/Clipboard/RoundTrip.antt =====
-- app/src-tauri/src/clipboard.rs: what `encode` writes is what `decode` reads.
use secure_desk.Base.{
  ℕ, ◌+◌, ◌<◌, ◌^◌, ◌≡◌, ◌≢◌, refl, ap, subst, ◌∙◌, false, List, [], ◌∷◌, ◌++◌, arith, length,
  is_empty, All, append-nil, append_assoc, ne→==, le→ltb,
}
use secure_desk.Base.Outcome.{ok, slice, slice_from-le, slice-append}
use secure_desk.Base.Words.{to_le32, from_le32-bytes}
use secure_desk.Base.Utf8.{IsText}
use secure_desk.Clipboard.{
  text, image, files, Error, encode, decode, join_lines, lines_from, strip_cr,
}

-- The part of a payload behind its header, of the header's length.
body :
    (head content : List ℕ) (n : ℕ)
    → n ≡ length head
    → slice {E = Error} (head ++ content) n (n + length content) ≡ ok content
body head content n h =
    subst (λ c. slice (head ++ c) n (n + length content) ≡ ok content) (append-nil content)
      (slice-append {E = Error} head content [] n (n + length content) h refl)

-- A text in UTF-8 of less than 2 ^ 32 bytes is read back.
pub decode-encode_text :
    (t : List ℕ) → IsText t → length t < 2 ^ 32 → decode (encode (text t)) ≡ ok (text t)
unfolding decode encode
decode-encode_text t valid h =
    rw
      (
        slice_from-le {E = Error} (encode (text t)) 1 (omega arith),
        le→ltb (length (to_le32 (length t) ++ t)) 4 (omega arith),
        from_le32-bytes (length t) h,
        le→ltb (length (to_le32 (length t) ++ t)) (4 + length t) (omega arith),
        body (to_le32 (length t)) t 4 refl,
        valid,
      )
      refl

-- An image, of a width, a height and less than 2 ^ 32 bytes that fit 32 bits, is read back.
pub decode-encode_image :
    (width height : ℕ) (pixels : List ℕ)
    → width < 2 ^ 32
    → height < 2 ^ 32
    → length pixels < 2 ^ 32
    → decode (encode (image width height pixels)) ≡ ok (image width height pixels)
unfolding decode encode
decode-encode_image width height pixels hw hh hp =
    let head = to_le32 width ++ (to_le32 height ++ to_le32 (length pixels)) in
    rw
      (
        slice_from-le {E = Error} (encode (image width height pixels)) 1 (omega arith),
        le→ltb (length (head ++ pixels)) 12 (omega arith),
        from_le32-bytes width hw,
        from_le32-bytes height hh,
        from_le32-bytes (length pixels) hp,
        le→ltb (length (head ++ pixels)) (12 + length pixels) (omega arith),
        body head pixels 12 refl,
      )
      refl

-- A path that a line of a list can hold: not empty, without '\n', and not ending in '\r'.
pub record IsLine (p : List ℕ) : Type 0 where
  pub one_line : All (λ b. b ≢ b'\n') p
  pub no_cr : strip_cr p ≡ p
  pub not_empty : is_empty p ≡ false

lines_from-ended :
    (line p rest : List ℕ)
    → All (λ b. b ≢ b'\n') p
    → lines_from line (p ++ (b'\n' ∷ rest)) ≡ strip_cr (line ++ p) ∷ lines_from [] rest
unfolding lines_from
lines_from-ended line [] rest h = rw (append-nil line) refl
lines_from-ended line (b ∷ p) rest h = rw (ne→== b b'\n' h.0) (
    lines_from-ended (line ++ (b ∷ [])) p rest h.1
    ∙ ap (λ l. strip_cr l ∷ lines_from [] rest) (append_assoc line (b ∷ []) p))

lines_from-last :
    (line p : List ℕ)
    → All (λ b. b ≢ b'\n') p
    → is_empty (line ++ p) ≡ false
    → lines_from line p ≡ (line ++ p) ∷ []
unfolding lines_from
lines_from-last line [] h k =
    rw (append-nil line) (rw (subst (λ l. is_empty l ≡ false) (append-nil line) k) refl)
lines_from-last line (b ∷ p) h k =
    let moved = append_assoc line (b ∷ []) p in
    rw (ne→== b b'\n' h.0)
      (lines_from-last (line ++ (b ∷ [])) p h.1 (rw moved k) ∙ ap (λ l. l ∷ []) moved)

lines_from-join_lines : (ps : List (List ℕ)) → All IsLine ps → lines_from [] (join_lines ps) ≡ ps
unfolding join_lines lines_from
lines_from-join_lines [] h = refl
lines_from-join_lines (p ∷ []) h = lines_from-last [] p h.0.one_line h.0.not_empty
lines_from-join_lines (p ∷ q ∷ ps) h =
    lines_from-ended [] p (join_lines (q ∷ ps)) h.0.one_line
    ∙ rw (h.0.no_cr, lines_from-join_lines (q ∷ ps) h.1) refl

-- A list of paths is read back where no path is empty, holds '\n' or ends in '\r', the joined text is
-- UTF-8, and it is less than 2 ^ 32 bytes long.
pub decode-encode_files :
    (ps : List (List ℕ))
    → All IsLine ps
    → IsText (join_lines ps)
    → length (join_lines ps) < 2 ^ 32
    → decode (encode (files ps)) ≡ ok (files ps)
unfolding decode encode
decode-encode_files ps lines valid h =
    let t = join_lines ps in
    rw
      (
        slice_from-le {E = Error} (encode (files ps)) 1 (omega arith),
        le→ltb (length (to_le32 (length t) ++ t)) 4 (omega arith),
        from_le32-bytes (length t) h,
        le→ltb (length (to_le32 (length t) ++ t)) (4 + length t) (omega arith),
        body (to_le32 (length t)) t 4 refl,
        valid,
        lines_from-join_lines ps lines,
      )
      refl
