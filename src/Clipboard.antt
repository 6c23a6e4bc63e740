-- ===== src/Clipboard.antt =====
-- app/src-tauri/src/clipboard.rs: the coding of the clipboard's content, and its manager.
-- A text is the list of its UTF-8 bytes.
pub mod RoundTrip
pub mod Parse
mod Tests
use Prim.Native.String.{String}
use secure_desk.Base.{
  ℕ, suc, ◌+◌, ◌*◌, ◌≡◌, Bool, true, false, Option, none, some, List, [], ◌∷◌, ◌++◌, ltb, ◌==◌, map,
  if◌then◌else◌, length, is_empty,
}
use secure_desk.Base.Outcome.{Outcome, ok, err, panic, ◌>>=◌, at, slice, slice_from}
use secure_desk.Base.Words.{to_le32, from_le32}
use secure_desk.Base.Utf8.{from_utf8_lossy}
use secure_desk.Protocol.Clipboard.{data_type_text, data_type_image, data_type_files}

pub data ClipboardData : Type 0 where
  text : List ℕ → ClipboardData
  image : ℕ → ℕ → List ℕ → ClipboardData
  files : List (List ℕ) → ClipboardData

pub data Error : Type 0 where
  empty_clipboard : Error
  invalid_text incomplete_text invalid_image incomplete_image invalid_files incomplete_files : Error
  unknown_type : ℕ → Error

-- `paths.join("\n")`
unfoldable pub join_lines : List (List ℕ) → List ℕ
join_lines [] = []
join_lines (p ∷ []) = p
join_lines (p ∷ q ∷ ps) = p ++ (b'\n' ∷ join_lines (q ∷ ps))

-- `'\r'` at the end of a line belongs to its end.
unfoldable pub strip_cr : List ℕ → List ℕ
strip_cr [] = []
strip_cr (b ∷ []) = if b == b'\r' then [] else b ∷ []
strip_cr (b ∷ c ∷ bs) = b ∷ strip_cr (c ∷ bs)

-- `text.lines()`: `line` is what has been read of the current line. A last line that is empty is none, and
-- a last line with no '\n' keeps its '\r'.
unfoldable pub lines_from : List ℕ → List ℕ → List (List ℕ)
lines_from line [] = if is_empty line then [] else line ∷ []
lines_from line (b ∷ bs) =
    let ended = lines_from [] bs in
    let longer = lines_from (line ++ (b ∷ [])) bs in
    if b == b'\n' then strip_cr line ∷ ended else longer

unfoldable pub encode : ClipboardData → List ℕ
unfolding join_lines
encode (text t) = data_type_text ∷ (to_le32 (length t) ++ t)
encode (image width height pixels) =
    data_type_image ∷ (to_le32 width ++ (to_le32 height ++ (to_le32 (length pixels) ++ pixels)))
encode (files paths) =
    let joined = join_lines paths in data_type_files ∷ (to_le32 (length joined) ++ joined)

-- `u32::from_le_bytes` of the four bytes at `i`
abbrev pub le32_at : {E : Type 0} → List ℕ → ℕ → Outcome E ℕ
le32_at bytes i = do
  a ← at bytes i
  b ← at bytes (i + 1)
  c ← at bytes (i + 2)
  d ← at bytes (i + 3)
  ok (from_le32 a b c d)

unfoldable pub decode : List ℕ → Outcome Error ClipboardData
decode bytes = if is_empty bytes then err empty_clipboard else (do
  data_type ← at bytes 0
  payload ← slice_from bytes 1
  if data_type == data_type_text
      then (if ltb (length payload) 4 then err invalid_text else (do
        len ← le32_at payload 0
        if ltb (length payload) (4 + len)
            then err incomplete_text
            else (do t ← slice payload 4 (4 + len); ok (text (from_utf8_lossy t)))))
      else if data_type == data_type_image
      then (if ltb (length payload) 12 then err invalid_image else (do
        width ← le32_at payload 0
        height ← le32_at payload 4
        len ← le32_at payload 8
        if ltb (length payload) (12 + len)
            then err incomplete_image
            else (do pixels ← slice payload 12 (12 + len); ok (image width height pixels))))
      else if data_type == data_type_files
      then (if ltb (length payload) 4 then err invalid_files else (do
        len ← le32_at payload 0
        if ltb (length payload) (4 + len) then err incomplete_files else (do
          joined ← slice payload 4 (4 + len)
          ok (files (lines_from [] (from_utf8_lossy joined))))))
      else err (unknown_type data_type))

abbrev pub type_name : ClipboardData → String
type_name (text t) = "text"
type_name (image width height pixels) = "image"
type_name (files paths) = "files"

pub record ClipboardManager : Type 0 where
  pub last_content : Option ClipboardData
  pub sync_enabled : Bool
  pub last_hash : Option ℕ

unfoldable pub new_manager : ClipboardManager
new_manager = record { last_content = none; sync_enabled = true; last_hash = none }

-- The standard library's hash is an argument.
unfoldable pub update_hash :
    (ClipboardData → ℕ) → ClipboardData → ClipboardManager → ClipboardManager
update_hash hash c m = record m { last_hash = some (hash c) }

unfoldable pub matches_hash : (ClipboardData → ℕ) → ClipboardData → ClipboardManager → Bool
matches_hash hash c m = elim m.last_hash [ none ↦ false | some h ↦ h == hash c ]

unfoldable pub get_clipboard : ClipboardManager → Option ClipboardData
get_clipboard m = m.last_content

unfoldable pub set_clipboard : ClipboardData → ClipboardManager → ClipboardManager
set_clipboard c m = record m { last_content = some c }

unfoldable pub set_sync_enabled : Bool → ClipboardManager → ClipboardManager
set_sync_enabled enabled m = record m { sync_enabled = enabled }
