-- ===== src/Recording/Info/Laws.antt =====
-- app/src-tauri/src/recording.rs: what the header tells of a recording, the order of the list, and which paths
-- can be removed.
use secure_desk.Base.{
  ℕ, ◌+◌, ◌≤◌, ◌<◌, ◌≡◌, refl, ap, ◌∙◌, Bool, true, false, Option, some, List, [], ◌∷◌, ◌++◌,
  length, if◌then◌else◌, arith, leb, get_or, append_assoc, length-append, sym, subst, if-true,
  take-length_append, drop-length_append, ◌%◌, ◌^◌,
}
use secure_desk.Base.Outcome.{ok}
use secure_desk.Base.Words.{from_le32, from_le32-bytes, to_le32}
use secure_desk.Base.Text.{text_eq_refl}
use secure_desk.Recording.{
  Json, IsJson, RecordingMetadata, file_header, magic, recording_version, sized,
}
use secure_desk.Recording.{Disk, SessionRecorder, max_recording_size, start, stop}
use secure_desk.Recording.Log.{Picture, size_of, write_pictures}
use secure_desk.Recording.Final.{stop-write_pictures}
use secure_desk.Recording.Info.{
  RecordingInfo, take_exact, info_of, read_recording_info, insert_by_age, sort_by_age, readable,
  list_recordings, add_component, components_from, current, components, is_prefix, is_absolute,
  starts_with, delete_recording,
}

take_exact-append :
    (n : ℕ) (v rest : List ℕ) → n ≡ length v → take_exact n (v ++ rest) ≡ ok (v, rest)
take_exact-append n v rest e =
    subst (λ k. take_exact k (v ++ rest) ≡ ok (v, rest)) (sym e)
      (if-true (leb (length v) (length (v ++ rest))) _ _ (ground (arith, length-append v rest))
        ∙ ap ok (pair (take-length_append v rest) (drop-length_append v rest)))
  where
    pair : {a b : List ℕ} {c d : List ℕ} → a ≡ b → c ≡ d → ◌≡◌ {A = List ℕ × List ℕ} (a, c) (b, d)
    pair e e' = cc

module _ (json : Json) (reads : IsJson json) where
  -- A file that begins with the header of some metadata, below 4 GiB of it, is read as a recording with
  -- these data.
  pub read_recording_info-file_header :
      (dir name frames : List ℕ) (m : RecordingMetadata)
      → length (json.to_vec m) < 2 ^ 32
      → read_recording_info json dir name (file_header (json.to_vec m) ++ frames)
        ≡ ok (info_of dir name (file_header (json.to_vec m) ++ frames) m)
  unfolding read_recording_info
  read_recording_info-file_header dir name frames m h =
      let text = json.to_vec m in
      let len = to_le32 (length text % 2 ^ 32) in
      let size : from_le32 (get_or len 0 0) (get_or len 1 0) (get_or len 2 0) (get_or len 3 0)
          ≡ length text =
        from_le32-bytes (length text % 2 ^ 32) (omega (arith, h)) ∙ omega (arith, h) in
      rw
        (
          take_exact-append 4 magic ((recording_version ∷ sized text) ++ frames) refl,
          take_exact-append 1 (recording_version ∷ []) (sized text ++ frames) refl,
          take_exact-append 4 len (text ++ frames) refl,
          take_exact-append _ text frames size,
          reads m,
        )
        refl

  -- The recording of a new recorder that can write its file, of pictures below the limit, tells after its
  -- end how many they were, how long it was and how long its file is, where the last metadata is not
  -- shorter than the first and below 4 GiB.
  pub read_recording_info-stop :
      (dir name : List ℕ) (ps : List Picture) (elapsed : ℕ) (r : SessionRecorder) (d : Disk)
      → r.is_recording ≡ false
      → r.frame_count ≡ 0
      → d.writable ≡ true
      → 9 + length (json.to_vec r.metadata) + size_of ps ≤ max_recording_size
      → let begun = start json r d in
        let written = write_pictures json ps begun.1 begun.2 in
        let ended = stop json elapsed written.0 written.1 in
        length (json.to_vec r.metadata) ≤ length (json.to_vec ended.1.metadata)
        → length (json.to_vec ended.1.metadata) < 2 ^ 32
        → (content : List ℕ) × (info : RecordingInfo) × (ended.2.files r.path ≡ some content)
          × (read_recording_info json dir name content ≡ ok info)
          × (info.frame_count ≡ length ps)
          × (info.duration_ms ≡ elapsed)
          × (info.size_bytes ≡ length content)
  unfolding info_of
  read_recording_info-stop dir name ps elapsed r d e e' w fits longer small =
      let h = stop-write_pictures json ps elapsed r d e e' w fits longer in
      (_, _, h.3, read_recording_info-file_header dir name _ _ small, h.1, h.2, refl)

-- Each recording is at least as new as the next.
abbrev pub IsNewestFirst : List RecordingInfo → Type 0
IsNewestFirst [] = Unit
IsNewestFirst (r ∷ []) = Unit
IsNewestFirst (r ∷ s ∷ rs) = (s.created_at ≤ r.created_at) × IsNewestFirst (s ∷ rs)

insert_by_age-IsNewestFirst :
    (r : RecordingInfo) (rs : List RecordingInfo)
    → IsNewestFirst rs
    → IsNewestFirst (insert_by_age r rs)
insert_by_age-IsNewestFirst r [] h = tt
insert_by_age-IsNewestFirst r (x ∷ []) h = ground arith
insert_by_age-IsNewestFirst r (x ∷ y ∷ ys) h =
    ground (arith, h, insert_by_age-IsNewestFirst r (y ∷ ys) h.1)

sort_by_age-IsNewestFirst : (rs : List RecordingInfo) → IsNewestFirst (sort_by_age rs)
sort_by_age-IsNewestFirst [] = tt
sort_by_age-IsNewestFirst (r ∷ rs) =
    insert_by_age-IsNewestFirst r (sort_by_age rs) (sort_by_age-IsNewestFirst rs)

-- How often something is in a list.
abbrev pub count : (RecordingInfo → Bool) → List RecordingInfo → ℕ
count is [] = 0
count is (r ∷ rs) = let rest = count is rs in if is r then 1 + rest else rest

count-insert_by_age :
    (is : RecordingInfo → Bool) (r : RecordingInfo) (rs : List RecordingInfo)
    → count is (insert_by_age r rs) ≡ count is (r ∷ rs)
count-insert_by_age is r [] = refl
count-insert_by_age is r (x ∷ xs) = ground (arith, count-insert_by_age is r xs)

count-sort_by_age :
    (is : RecordingInfo → Bool) (rs : List RecordingInfo) → count is (sort_by_age rs) ≡ count is rs
count-sort_by_age is [] = refl
count-sort_by_age is (r ∷ rs) =
    count-insert_by_age is r (sort_by_age rs) ∙ ground (arith, count-sort_by_age is rs)

-- The list has the readable recordings of the directory, each as often, and the newest first.
pub list_recordings_lem :
    (json : Json) (dir : List ℕ) (entries : List (List ℕ × List ℕ))
    → IsNewestFirst (list_recordings json dir entries)
      × ((is : RecordingInfo → Bool)
          → count is (list_recordings json dir entries) ≡ count is (readable json dir entries))
unfolding list_recordings
list_recordings_lem json dir entries = (
  sort_by_age-IsNewestFirst (readable json dir entries),
  λ is. count-sort_by_age is (readable json dir entries),
)

add_component-append :
    (c : List ℕ) (cs : List (List ℕ)) → add_component c cs ≡ add_component c [] ++ cs
add_component-append [] cs = refl
add_component-append (b ∷ bs) cs = ground arith

components_from-append :
    (c bs rest : List ℕ)
    → components_from c (bs ++ (b'/' ∷ rest)) ≡ components_from c bs ++ components_from [] rest
components_from-append c [] rest = add_component-append c (components_from [] rest)
components_from-append c (b ∷ bs) rest = ground (
  arith,
  components_from-append [] bs rest,
  components_from-append (c ++ (b ∷ [])) bs rest,
  add_component-append c (components_from [] (bs ++ (b'/' ∷ rest))),
  add_component-append c (components_from [] bs),
  append_assoc (add_component c []) (components_from [] bs) (components_from [] rest),
)

is_prefix-append : (xs ys : List (List ℕ)) → is_prefix xs (xs ++ ys) ≡ true
is_prefix-append [] ys = refl
is_prefix-append (x ∷ xs) ys = ground (arith, is_prefix-append xs ys, text_eq_refl x)

current-append : (b : ℕ) (bs rest : List ℕ) → current (b ∷ (bs ++ (b'/' ∷ rest))) ≡ current (b ∷ bs)
current-append b [] rest = ground arith
current-append b (c ∷ bs) rest = refl

components-append :
    (b : ℕ) (bs rest : List ℕ)
    → components (b ∷ (bs ++ (b'/' ∷ rest))) ≡ components (b ∷ bs) ++ components_from [] rest
unfolding components
components-append b bs rest =
    ap (λ cs. cs ++ components_from [] (b ∷ (bs ++ (b'/' ∷ rest)))) (current-append b bs rest)
    ∙ (ap (λ cs. current (b ∷ bs) ++ cs) (components_from-append [] (b ∷ bs) rest)
        ∙ sym (
            append_assoc (current (b ∷ bs)) (components_from [] (b ∷ bs))
              (components_from [] rest)))

starts_with_below :
    (dir rest : List ℕ) → is_absolute dir ≡ true → starts_with (dir ++ (b'/' ∷ rest)) dir ≡ true
unfolding starts_with
starts_with_below [] rest e = absurd (ground (arith, e))
starts_with_below (b ∷ bs) rest e = ground (
  arith,
  e,
  ap (is_prefix (components (b ∷ bs))) (components-append b bs rest),
  is_prefix-append (components (b ∷ bs)) (components_from [] rest),
)

-- A path that continues the directory of the recordings is removed wherever the operating system finds it:
-- also where its components go up with "..".
pub delete_recording_below :
    {D : Type 0} (remove_file : List ℕ → D → Option D) (dir rest : List ℕ) (d d' : D)
    → is_absolute dir ≡ true
    → remove_file (dir ++ (b'/' ∷ rest)) d ≡ some d'
    → delete_recording remove_file dir (dir ++ (b'/' ∷ rest)) d ≡ ok d'
unfolding delete_recording
delete_recording_below remove_file dir rest d d' e h =
    if-true (starts_with (dir ++ (b'/' ∷ rest)) dir) _ _ (starts_with_below dir rest e) ∙ rw h refl
