-- ===== src/Host.antt =====
-- app/src-tauri/src/host.rs: the state of a host session, and what its surroundings give it while it handles
-- a frame.
pub mod Start
pub mod Handlers
pub mod Control
pub mod Loop
pub mod Safety
pub mod Unencrypted
pub mod NoPanic
pub mod Survival
use Prim.Native.String.{String}
use secure_desk.Base.{ℕ, Bool, Option, none, some, List}
use secure_desk.Base.Outcome.{Outcome}
use secure_desk.Transport.{Wire, ConnectionType}
use secure_desk.Transport.PeerInfo.{SocketAddr}
use secure_desk.Session.{Run, done, failed, panicked, Act, Link}
use secure_desk.Privacy.{PrivacyMode}

-- A call of `InputInjector`. Coordinates are the bit patterns of `i32`.
pub data InputEvent : Type 0 where
  move_mouse : ℕ → ℕ → InputEvent
  mouse_button : ℕ → Bool → ℕ → ℕ → InputEvent
  mouse_scroll : ℕ → ℕ → InputEvent
  key_event : ℕ → Bool → InputEvent

-- An event emitted to the frontend.
pub data UiEvent : Type 0 where
  connection_request connection_accepted : List ℕ → UiEvent
  connection_ended connection_type_p2p : UiEvent
  clipboard_received : String → UiEvent

pub record Host (S : Type 0) : Type 0 where
  pub private_key : List ℕ
  pub device_id : List ℕ
  pub link : Link S
  pub p2p_stream : Option Wire
  pub injected : List InputEvent
  pub privacy : PrivacyMode
  pub running : Bool
  pub pending_connection : Option (List ℕ)
  pub connection_type : ConnectionType
  pub p2p_enabled : Bool
  pub target_resolution : Option (ℕ × ℕ)
  pub emitted : List UiEvent

-- The branch of `select!` that ends first: the listener's, with a connection or without, where the read
-- that is given up has taken some bytes, or the read of a frame from the relay.
pub data Selected : Type 0 where
  accepted : Option Wire → ℕ → Selected
  relay_frame : Selected

-- What comes of a call of the injector
pub data Injection : Type 0 where
  succeeded refused crashed : Injection

-- `answer` is what arrives from the dialog in 30 seconds, if anything does; `app_handle` says whether there
-- is a frontend; `screen` is what the capture gives, `injects` what comes of a call of the injector.
pub record Env : Type 0 where
  pub app_handle : Bool
  pub answer : Option Bool
  pub screen : Outcome (Unit {0}) (ℕ × ℕ × List ℕ)
  pub injects : InputEvent → Injection
  pub discovered : Option SocketAddr
  pub local : Option SocketAddr
  pub listener : Bool
  pub selected : Selected

-- A step of the link as a step of the host.
abbrev pub on_link : {S A : Type 0} → Act (Link S) A → Act (Host S) A
on_link m h = elim (m h.link) [
  | done a l ↦ done a (record h { link = l })
  | failed e l ↦ failed e (record h { link = l })
  | panicked ↦ panicked
]
