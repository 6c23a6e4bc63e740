-- ===== src/Lib.antt =====
-- SecureDesk, a remote desktop: the Rust program of app/src-tauri/src.
--
-- A client session (client.rs) and a host session (host.rs) exchange frames (protocol.rs) over a byte stream
-- through a relay (transport.rs), and may agree on a direct connection (p2p.rs, stun.rs). The host injects
-- the client's input, sends pictures, keeps the privacy flags (privacy.rs) and takes clipboard content
-- (clipboard.rs); the frame rate follows the round-trip times (qos.rs). The application (main.rs) keeps the
-- host session behind a lock and the client sessions in a map, and passes the frontend's commands to them;
-- pictures may be recorded (recording.rs), a license names the features (license.rs), and settings and
-- trusted devices are kept in a file (config.rs), and users may log in at a provider (sso.rs).
-- The same files serve the command line (cli.rs); what the client sends is injected by input.rs.
--
-- Files, with the code they are about (under app/src-tauri/src):
--   Base            shared names; tests, lists, outcomes of calls, words and bits, UTF-8
--   Protocol        protocol.rs: `Frame::to_bytes`, `Frame::from_bytes`, the message numbers
--   Transport       transport.rs: `read_frame`, `write_frame` on a `Wire`; Transport/PeerInfo: `P2PInfo`
--   Stun            stun.rs: `parse_binding_response` and what it calls
--   Qos             qos.rs: `RttTracker`, `QosManager`
--   P2p             p2p.rs: `choose_p2p_port`, `gather_p2p_info`, `attempt_p2p_connection`
--   Clipboard       clipboard.rs: `ClipboardData::encode`, `decode`, `ClipboardManager`
--   Session         host.rs and client.rs: `read_frame`, `write_frame` on a link with an optional channel
--   Privacy         privacy.rs: `PrivacyMode`, as on every platform but Windows; Privacy/Windows: that of Windows
--                   with its overlay window and keyboard hook
--   Host            host.rs: the state; Host/Handlers and Host/Control: a function for each handler;
--                   Host/Loop: `run_once_internal`, `run`, `stop`
--                   Host/Start: the registration and the first state
--   Identity        crypto.rs: `Identity::save`, `load`, `device_id`; the keys and the hash are `Keys`
--   Client          client.rs: a function for each message that is sent, `request_and_receive_frame`;
--                   Client/Connect: `connect_with_p2p` on the stream
--   Input           input.rs: Input/Windows, Input/Macos, Input/X11: the injector of each system as the events
--                   that it posts; Input/Keys: `windows_vk_to_mac`, `windows_vk_to_x11_keysym`
--   Capture         capture.rs: `bgra_to_rgb`, `convert_to_rgb`, `ximage_to_rgb`; Capture/Duplication:
--                   `capture_internal` on Windows, with what the desktop answers as the argument `Desktop`
--   Recording       recording.rs: `SessionRecorder`; Recording/Manager: `RecordingManager`; Recording/Info:
--                   `read_recording_info`, `list_recordings`, `delete_recording`
--   License         license.rs: tiers, features, expiry; License/Manager: `LicenseManager`
--   Config          config.rs: `ConnectionConfig` and its file
--   Sso             sso.rs: providers, sessions and their file; Sso/Url: `urlencoding` and queries; Sso/Login:
--                   `wait_for_callback`, `refresh_session` and what they call; Sso/Info: `SsoInfo`
--   App             main.rs: App/Sessions: the map of client sessions and its commands; App/Commands: the
--                   commands on a session; App/Approval: the lock of `host_session` as a step relation;
--                   App/Startup: `main` up to the window; App/Relays: the addresses of relays and the task
--                   of the host; App/Login, App/Preferences, App/Copying, App/Recordings: the commands for
--                   single sign-on, for settings and identity, for the clipboard, for recordings
--   Cli             cli.rs: the arguments; Cli/Handle: `handle_cli`, `handle_subcommand`; Cli/Listen:
--                   `run_headless_listen`
--
-- Correspondence. A byte is a number below 256, a word wraps by `%`, an `i32` is its bit pattern, a text is
-- the list of its UTF-8 bytes. `Outcome` is a value, an error or a panic; a step of a session is a `Run`,
-- which keeps the state where the step fails too. A stream is the list of the bytes that still arrive. What
-- a host meets while it handles a frame (the answer of the dialog, the capture, the injector, the found
-- addresses, the branch of `select!`) is an argument, `Env`; the injector and the capture may panic there.
--
-- Parameters: snow is `Noise`, with the law `IsXk` where it is needed; `f32` is `Float`; the connection
-- attempts of p2p.rs, the hash of clipboard.rs and the JPEG encoder of capture.rs are functions; serde_json is
-- `Json` in recording.rs, part of `Crypto` in license.rs and `Text` in config.rs and sso.rs, with the law that
-- what was written is read where it is needed; reqwest is `Http`. Arithmetic wraps, as in a release build: a
-- debug build also panics where it overflows.
--
-- Fuel: the loop over a STUN response's attributes has the length of the response as fuel, and each turn
-- moves by at least four bytes. The host's loop runs once for each `Env` of a list.
--
-- A file is its bytes, if it is there, with the answer whether it can be written and what a write that fails
-- leaves of it. What the calls of Windows in privacy.rs answer are arguments.
--
-- Not modelled: TLS, sockets, timeouts, printed lines; the tray and the window of main.rs, and commands that
-- interleave with one another, but for the lock of the host session; keys and ciphers; what the overlay of
-- privacy.rs paints; the set-up of devices in capture.rs and its captures on macOS and X11, and the opening
-- of displays in input.rs.
pub mod Base
pub mod Protocol
pub mod Transport
pub mod Stun
pub mod Qos
pub mod P2p
pub mod Clipboard
pub mod Session
pub mod Privacy
pub mod Host
pub mod Identity
pub mod Client
pub mod Input
pub mod Capture
pub mod Recording
pub mod License
pub mod Config
pub mod Sso
pub mod App
pub mod Cli
