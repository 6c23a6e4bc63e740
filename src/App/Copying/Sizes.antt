-- ===== src/App/Copying/Sizes.antt =====
-- app/src-tauri/src/main.rs and app/src-tauri/src/clipboard.rs: what becomes of a content that is read and set again.
use secure_desk.Base.{ℕ, ◌≡◌, refl, ap, some, List}
use secure_desk.Base.Outcome.{ok}
use secure_desk.Clipboard.{ClipboardData, text, image, files, ClipboardManager, set_clipboard}
use secure_desk.App.Copying.{
  Base64, content_of, given, bad_base64, data_of, set_local_clipboard, get_local_clipboard,
}

-- An image without its size
abbrev pub unsized : ClipboardData → ClipboardData
unsized (text t) = text t
unsized (image width height pixels) = image 0 0 pixels
unsized (files paths) = files paths

abbrev pub IsBase64 : Base64 → Type 0
IsBase64 b = (pixels : List ℕ) → b.decode (b.encode pixels) ≡ some pixels

data_of-content_of :
    (b : Base64) (content : ClipboardData)
    → IsBase64 b
    → data_of b (content_of b content) ≡ ok (unsized content)
unfolding data_of
data_of-content_of b (text t) h = refl
data_of-content_of b (image width height pixels) h =
    ap (λ p. given bad_base64 p (λ bytes. ok (image 0 0 bytes))) (h pixels)
data_of-content_of b (files paths) h = refl

-- A content that the frontend was shown can be set again: the command succeeds and the frontend is shown the same
-- content afterwards, but what the clipboard then holds is an image of width 0 and height 0 where it was an image.
pub get_local_clipboard-set_local_clipboard :
    (b : Base64) (hash : ClipboardData → ℕ) (content : ClipboardData) (m : ClipboardManager)
    → IsBase64 b
    → (set_local_clipboard b hash (content_of b content) m).0 ≡ ok tt
      × (get_local_clipboard b (set_local_clipboard b hash (content_of b content) m).1
          ≡ some (content_of b content))
      × ((set_local_clipboard b hash (content_of b content) m).1.last_content
          ≡ some (unsized content))
unfolding set_local_clipboard get_local_clipboard set_clipboard
get_local_clipboard-set_local_clipboard b hash content m h =
    rw (data_of-content_of b content h) (refl, ap some (shown content), refl)
  where
    shown : (d : ClipboardData) → content_of b (unsized d) ≡ content_of b d
    shown (text t) = refl
    shown (image width height pixels) = refl
    shown (files paths) = refl
