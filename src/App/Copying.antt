-- ===== src/App/Copying.antt =====
-- app/src-tauri/src/main.rs: the commands for the clipboard of this device. The standard library's hash and the coding in
-- base 64 are arguments.
pub mod Sizes
use secure_desk.Base.{ℕ, Bool, true, false, Option, none, some, List, [], ◌∷◌, if◌then◌else◌}
use secure_desk.Base.Outcome.{Outcome, ok, err, panic}
use secure_desk.Base.Text.{text_eq, ascii}
use secure_desk.Clipboard.{
  ClipboardData, text, image, files, ClipboardManager, update_hash, get_clipboard, set_clipboard,
  set_sync_enabled,
}

pub record ClipboardContent : Type 0 where
  pub data_type : List ℕ
  pub content_text : Option (List ℕ)
  pub image_data : Option (List ℕ)
  pub content_files : Option (List (List ℕ))

pub data CopyError : Type 0 where
  missing_text missing_image missing_files unknown_data_type : CopyError
  bad_base64 : CopyError

pub record Base64 : Type 0 where
  pub encode : List ℕ → List ℕ
  pub decode : List ℕ → Option (List ℕ)

abbrev pub content_of : Base64 → ClipboardData → ClipboardContent
content_of b (text t) = record {
  data_type = ascii "text";
  content_text = some t;
  image_data = none;
  content_files = none;
}
content_of b (image width height pixels) = record {
  data_type = ascii "image";
  content_text = none;
  image_data = some (b.encode pixels);
  content_files = none;
}
content_of b (files paths) = record {
  data_type = ascii "files";
  content_text = none;
  image_data = none;
  content_files = some paths;
}

unfoldable pub get_local_clipboard : Base64 → ClipboardManager → Option ClipboardContent
unfolding get_clipboard
get_local_clipboard b m = elim (get_clipboard m) [ none ↦ none | some d ↦ some (content_of b d) ]

abbrev pub given :
    {A : Type 0}
    → CopyError
    → Option A
    → (A → Outcome CopyError ClipboardData)
    → Outcome CopyError ClipboardData
given e none next = err e
given e (some a) next = next a

unfoldable pub data_of : Base64 → ClipboardContent → Outcome CopyError ClipboardData
data_of b content =
    if text_eq content.data_type (ascii "text")
    then given missing_text content.content_text (λ t. ok (text t))
    else if text_eq content.data_type (ascii "image")
    then given missing_image content.image_data
        (λ encoded. given bad_base64 (b.decode encoded) (λ pixels. ok (image 0 0 pixels)))
    else if text_eq content.data_type (ascii "files")
    then given missing_files content.content_files (λ paths. ok (files paths))
    else err unknown_data_type

abbrev pub stored :
    (ClipboardData → ℕ)
    → Outcome CopyError ClipboardData
    → ClipboardManager
    → Outcome CopyError (Unit {0}) × ClipboardManager
stored hash (ok d) m = (ok tt, set_clipboard d (update_hash hash d m))
stored hash (err e) m = (err e, m)
stored hash panic m = (panic, m)

unfoldable pub set_local_clipboard :
    Base64
    → (ClipboardData → ℕ)
    → ClipboardContent
    → ClipboardManager
    → Outcome CopyError (Unit {0}) × ClipboardManager
unfolding data_of update_hash set_clipboard
set_local_clipboard b hash content m = stored hash (data_of b content) m

unfoldable pub get_clipboard_sync_enabled : ClipboardManager → Bool
get_clipboard_sync_enabled m = m.sync_enabled

unfoldable pub set_clipboard_sync_enabled : Bool → ClipboardManager → ClipboardManager
unfolding set_sync_enabled
set_clipboard_sync_enabled enabled m = set_sync_enabled enabled m
