-- ===== src/Clipboard/Tests.antt =====
-- Runs of app/src-tauri/src/clipboard.rs, and its theorems at concrete contents.
use secure_desk.Base.{ℕ, ◌<◌, ◌^◌, ◌≡◌, refl, List, [], ◌∷◌, arith, length}
use secure_desk.Base.Outcome.{ok, err}
use secure_desk.Base.Utf8.{from_utf8_lossy, lossy_from, next, lead}
use secure_desk.Clipboard.{
  text, files, encode, decode, join_lines, lines_from, strip_cr, incomplete_text,
}
use secure_desk.Clipboard.RoundTrip.{IsLine, decode-encode_files}

-- "hé", in UTF-8
abbrev hello : List ℕ
hello = b'h' ∷ 0xc3 ∷ 0xa9 ∷ []

text_bytes : encode (text hello) ≡ 1 ∷ 3 ∷ 0 ∷ 0 ∷ 0 ∷ hello
unfolding encode
text_bytes = refl

-- A length that the content does not have
cut_off : decode (1 ∷ 4 ∷ 0 ∷ 0 ∷ 0 ∷ hello) ≡ err incomplete_text
unfolding decode
cut_off = refl

-- A path with '\n' in it comes back as two.
newline_splits :
    decode (encode (files ((b'a' ∷ b'\n' ∷ b'b' ∷ []) ∷ [])))
    ≡ ok (files ((b'a' ∷ []) ∷ (b'b' ∷ []) ∷ []))
unfolding decode encode join_lines lines_from from_utf8_lossy lossy_from next lead strip_cr
newline_splits = refl

valid : from_utf8_lossy hello ≡ hello
unfolding from_utf8_lossy lossy_from next lead
valid = refl

abbrev path_a : List ℕ
path_a = b'/' ∷ b'a' ∷ []

abbrev path_b : List ℕ
path_b = b'/' ∷ b'b' ∷ []

joined-valid :
    from_utf8_lossy (join_lines (path_a ∷ path_b ∷ [])) ≡ join_lines (path_a ∷ path_b ∷ [])
unfolding from_utf8_lossy lossy_from next lead join_lines
joined-valid = refl

joined_small : length (join_lines (path_a ∷ path_b ∷ [])) < 2 ^ 32
unfolding join_lines
joined_small = omega arith

path_a-IsLine : IsLine path_a
unfolding strip_cr
path_a-IsLine = record {
  one_line = (omega arith, (omega arith, tt));
  no_cr = refl;
  not_empty = refl;
}

path_b-IsLine : IsLine path_b
unfolding strip_cr
path_b-IsLine = record {
  one_line = (omega arith, (omega arith, tt));
  no_cr = refl;
  not_empty = refl;
}

decode-encode_files_example :
    decode (encode (files (path_a ∷ path_b ∷ []))) ≡ ok (files (path_a ∷ path_b ∷ []))
decode-encode_files_example =
    decode-encode_files (path_a ∷ path_b ∷ []) (path_a-IsLine, (path_b-IsLine, tt)) joined-valid
      joined_small
