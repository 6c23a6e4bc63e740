-- ===== src/App/Commands.antt =====
-- app/src-tauri/src/main.rs: the commands that use a client session, each on the session that is named or on
-- the active one.
use secure_desk.Base.{ℕ, Bool, Option, none, some, List, [], ◌∷◌, if◌then◌else◌}
use secure_desk.Base.Text.{text_eq}
use secure_desk.Session.{Act, done, failed, panicked, Noise}
use secure_desk.Clipboard.{ClipboardData, encode}
use secure_desk.Transport.{ConnectionType}
use secure_desk.Client.{Client, MouseEvent}
use secure_desk.Client as Client
use secure_desk.Base.Assoc.{find}
use secure_desk.Recording.{Json, Disk, SessionRecorder}
use secure_desk.Recording.Manager.{write_frame}
use secure_desk.App.Sessions.{
  Reply, Sessions, SessionMap, ClientSessionEntry, Command, replied, refused, crashed,
  session_error, session_not_found, clipboard_is_empty, or_else, with_session,
}

-- `get_mut`: the session under a key in its new state
unfoldable pub set_session : {S : Type 0} → List ℕ → Client S → SessionMap S → SessionMap S
set_session id client [] = []
set_session id client (p ∷ ps) =
    let rest = set_session id client ps in
    if text_eq id p.0 then (p.0, record p.1 { session = client }) ∷ rest else p ∷ rest

-- A step of the session, with its error as the command's.
unfoldable pub on_session :
    {A S : Type 0} → Act (Client S) A → List ℕ → ClientSessionEntry S → Command A S
unfolding set_session
on_session act target entry s = elim (act entry.session) [
  | done a c ↦ replied a (record s { client_sessions = set_session target c s.client_sessions })
  | failed e c ↦
      refused (session_error e)
        (record s { client_sessions = set_session target c s.client_sessions })
  | panicked ↦ crashed
]

module _ {N S : Type 0} (n : Noise N S) where
  unfoldable pub set_black_screen : Bool → Option (List ℕ) → Command (Unit {0}) S
  unfolding with_session on_session Client.set_black_screen
  set_black_screen enabled id =
      with_session id (λ target. replied tt) (on_session (Client.set_black_screen n enabled))

  unfoldable pub set_input_block : Bool → Option (List ℕ) → Command (Unit {0}) S
  unfolding with_session on_session Client.set_input_block
  set_input_block enabled id =
      with_session id (λ target. replied tt) (on_session (Client.set_input_block n enabled))

  unfoldable pub send_mouse : ℕ → ℕ → MouseEvent → Option ℕ → Option (List ℕ) → Command (Unit {0}) S
  unfolding with_session on_session Client.send_mouse
  send_mouse x y event_type button id =
      with_session id (λ target. replied tt)
        (on_session (Client.send_mouse n x y event_type button))

  unfoldable pub send_key : ℕ → Bool → Option (List ℕ) → Command (Unit {0}) S
  unfolding with_session on_session Client.send_key
  send_key key_code pressed id =
      with_session id (λ target. replied tt) (on_session (Client.send_key n key_code pressed))

  unfoldable pub send_resolution : ℕ → ℕ → Option (List ℕ) → Command (Unit {0}) S
  unfolding with_session on_session Client.send_resolution
  send_resolution width height id =
      with_session id (λ target. replied tt) (on_session (Client.send_resolution n width height))

  -- `content` is what the local clipboard has, if anything.
  unfoldable pub send_clipboard_to_remote :
      Option ClipboardData → Option (List ℕ) → Command (Unit {0}) S
  unfolding with_session on_session Client.send_clipboard encode
  send_clipboard_to_remote content id =
      with_session id
        (λ target. elim content [
          | none ↦ refused clipboard_is_empty
          | some content ↦ refused (session_not_found target)
        ])
        (λ target entry. elim content [
          | none ↦ refused clipboard_is_empty
          | some content ↦ on_session (Client.send_clipboard n (encode content)) target entry
        ])

  unfoldable pub request_remote_clipboard : Option (List ℕ) → Command (Unit {0}) S
  unfolding with_session on_session Client.request_clipboard
  request_remote_clipboard id =
      with_session id (λ target. refused (session_not_found target))
        (on_session (Client.request_clipboard n))

  -- The picture of the remote screen; without a session there is none.
  unfoldable pub receive_picture : Option (List ℕ) → Command (Option (ℕ × ℕ × List ℕ)) S
  unfolding find on_session Client.request_and_receive_frame
  receive_picture id s = elim (or_else id s.active_session_id) [
    | none ↦ replied none s
    | some target ↦ elim (find target s.client_sessions) [
      | none ↦ replied none s
      | some entry ↦ on_session (Client.request_and_receive_frame n) target entry s
    ]
  ]

module _ {N S : Type 0} (n : Noise N S) (json : Json) where
  -- A recording that goes on gets the picture; its error is passed over.
  unfoldable pub record_picture :
      ℕ
      → Reply (Option (ℕ × ℕ × List ℕ)) S
      → Option SessionRecorder
      → Disk
      → Option SessionRecorder × Disk
  unfolding write_frame
  record_picture elapsed (replied none s) m d = (m, d)
  record_picture elapsed (replied (some picture) s) m d =
      let written = write_frame json elapsed picture.0 picture.1 picture.2 m d in
      (written.1, written.2)
  record_picture elapsed (refused e s) m d = (m, d)
  record_picture elapsed crashed m d = (m, d)

  -- The picture is encoded in base64 for the frontend after this.
  unfoldable pub request_video_frame :
      ℕ
      → Option (List ℕ)
      → Sessions S
      → Option SessionRecorder
      → Disk
      → Reply (Option (ℕ × ℕ × List ℕ)) S × Option SessionRecorder × Disk
  unfolding receive_picture record_picture
  request_video_frame elapsed id s m d =
      let reply = receive_picture n id s in
      let recorded = record_picture elapsed reply m d in (reply, recorded.0, recorded.1)

-- The type of the session's connection, else that of the host session, if there is one.
unfoldable pub get_connection_type :
    {S : Type 0} → Option ConnectionType → Option (List ℕ) → Command (Option ConnectionType) S
unfolding find
get_connection_type host_type id s = elim (or_else id s.active_session_id) [
  | none ↦ replied host_type s
  | some target ↦ elim (find target s.client_sessions) [
    | none ↦ replied host_type s
    | some entry ↦ replied (some entry.session.connection_type) s
  ]
]
