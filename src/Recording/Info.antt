-- ===== src/Recording/Info.antt =====
-- app/src-tauri/src/recording.rs: reading the header of a recording, the list of recordings and the removal of
-- one. A path is a text with `/` between its components.
pub mod Laws
use secure_desk.Base.{
  ℕ, ◌+◌, ◌-◌, ◌%◌, Bool, true, false, not, ◌&&◌, Option, none, some, List, [], ◌∷◌, ◌++◌, ltb, leb,
  ◌==◌, if◌then◌else◌, length, take, drop, get_or,
}
use secure_desk.Base.Outcome.{Outcome, ok, err, panic, ◌>>=◌, ◌>>◌}
use secure_desk.Base.Words.{from_le32}
use secure_desk.Base.Text.{text_eq, decimal}
use secure_desk.Recording.{
  Json, RecordingMetadata, RecordingError, invalid_file, unsupported_version, unexpected_end,
  bad_metadata, cannot_open, magic, recording_version, file_suffix, Disk,
}

pub record RecordingInfo : Type 0 where
  pub path : List ℕ
  pub filename : List ℕ
  pub created_at : ℕ
  pub duration_ms : ℕ
  pub remote_device_id : List ℕ
  pub remote_device_name : List ℕ
  pub size_bytes : ℕ
  pub frame_count : ℕ
  pub resolution : List ℕ

-- `reader.read_exact`: what is taken and what is left
abbrev pub take_exact : ℕ → List ℕ → Outcome RecordingError (List ℕ × List ℕ)
take_exact n bytes =
    if leb n (length bytes) then ok (take n bytes, drop n bytes) else err unexpected_end

abbrev check : Bool → RecordingError → Outcome RecordingError (Unit {0})
check true e = ok tt
check false e = err e

-- The name is the file's in the directory `dir`.
unfoldable pub info_of : List ℕ → List ℕ → List ℕ → RecordingMetadata → RecordingInfo
info_of dir name content m = record {
  path = dir ++ (b'/' ∷ name);
  filename = name;
  created_at = m.created_at;
  duration_ms = m.duration_ms;
  remote_device_id = m.remote_device_id;
  remote_device_name = m.remote_device_name;
  size_bytes = length content;
  frame_count = m.frame_count;
  resolution = decimal m.width ++ (b'x' ∷ decimal m.height);
}

module _ (json : Json) where
  unfoldable pub read_recording_info :
      List ℕ → List ℕ → List ℕ → Outcome RecordingError RecordingInfo
  unfolding info_of
  read_recording_info dir name content = do
    (start, behind) ← take_exact 4 content
    check (text_eq start magic) invalid_file
    (version, metadata) ← take_exact 1 behind
    check (get_or version 0 0 == recording_version) unsupported_version
    (len, rest) ← take_exact 4 metadata
    (text, frames) ←
        take_exact (from_le32 (get_or len 0 0) (get_or len 1 0) (get_or len 2 0) (get_or len 3 0))
          rest
    elim (json.from_slice text) [
      | none ↦ err bad_metadata
      | some m ↦ ok (info_of dir name content m)
    ]

-- `extension() == Some("sdrec")`: something stands before the last dot.
abbrev pub is_recording_name : List ℕ → Bool
is_recording_name name =
    ltb (length file_suffix) (length name)
    && text_eq (drop (length name - length file_suffix) name) file_suffix

-- Newest first; what is equally new stays in its order.
abbrev pub insert_by_age : RecordingInfo → List RecordingInfo → List RecordingInfo
insert_by_age r [] = r ∷ []
insert_by_age r (x ∷ xs) =
    let rest = insert_by_age r xs in if leb x.created_at r.created_at then r ∷ x ∷ xs else x ∷ rest

abbrev pub sort_by_age : List RecordingInfo → List RecordingInfo
sort_by_age [] = []
sort_by_age (r ∷ rs) = insert_by_age r (sort_by_age rs)

module _ (json : Json) where
  -- The entries of the directory, each with its content; a file that cannot be read as a recording is
  -- left out.
  unfoldable pub readable : List ℕ → List (List ℕ × List ℕ) → List RecordingInfo
  unfolding read_recording_info
  readable dir [] = []
  readable dir ((name, content) ∷ entries) =
      let rest = readable dir entries in
      if is_recording_name name
      then elim (read_recording_info json dir name content) [
        | ok info ↦ info ∷ rest
        | err e ↦ rest
        | panic ↦ rest
      ]
      else rest

  unfoldable pub list_recordings : List ℕ → List (List ℕ × List ℕ) → List RecordingInfo
  unfolding readable
  list_recordings dir entries = sort_by_age (readable dir entries)

-- What stands between `/` in a path, without what is empty and without "."
abbrev pub add_component : List ℕ → List (List ℕ) → List (List ℕ)
add_component [] cs = cs
add_component (c ∷ component) cs =
    if text_eq (c ∷ component) (b'.' ∷ []) then cs else (c ∷ component) ∷ cs

abbrev pub components_from : List ℕ → List ℕ → List (List ℕ)
components_from component [] = add_component component []
components_from component (b ∷ bs) =
    let behind = components_from [] bs in
    let longer = components_from (component ++ (b ∷ [])) bs in
    if b == b'/' then add_component component behind else longer

-- A "." at the start of a path stays.
abbrev pub current : List ℕ → List (List ℕ)
current [] = []
current (b ∷ []) = if b == b'.' then (b ∷ []) ∷ [] else []
current (b ∷ c ∷ path) = if (b == b'.') && (c == b'/') then (b ∷ []) ∷ [] else []

-- The components of a path
unfoldable pub components : List ℕ → List (List ℕ)
components path = current path ++ components_from [] path

abbrev pub is_prefix : List (List ℕ) → List (List ℕ) → Bool
is_prefix [] ys = true
is_prefix (x ∷ xs) [] = false
is_prefix (x ∷ xs) (y ∷ ys) = let rest = is_prefix xs ys in if text_eq x y then rest else false

-- Both start at the root, or neither.
abbrev pub is_absolute : List ℕ → Bool
is_absolute path = get_or path 0 0 == b'/'

unfoldable pub starts_with : List ℕ → List ℕ → Bool
unfolding components
starts_with path dir =
    (if is_absolute dir then is_absolute path else not (is_absolute path))
    && is_prefix (components dir) (components path)

pub data DeleteError : Type 0 where
  invalid_recording_path no_such_file : DeleteError

-- `fs::remove_file` as the parameter, which the operating system resolves the path for
unfoldable pub delete_recording :
    {D : Type 0} → (List ℕ → D → Option D) → List ℕ → List ℕ → D → Outcome DeleteError D
unfolding starts_with
delete_recording remove_file dir path d =
    if starts_with path dir
    then elim (remove_file path d) [ none ↦ err no_such_file | some d' ↦ ok d' ]
    else err invalid_recording_path
