-- ===== src/Cli.antt =====
-- app/src-tauri/src/cli.rs: the arguments of the command line and what they do. clap parses them. What is printed is the
-- list of the lines on the standard output; what goes to the standard error is not kept.
pub mod Format
pub mod Settings
pub mod Handle
pub mod Listen
pub mod Exit
pub mod Stored
pub mod Tests
use secure_desk.Base.{ℕ, Bool, true, false, ◌||◌, Option, none, some, List}

pub data LicenseAction : Type 0 where
  info deactivate : LicenseAction
  activate : List ℕ → LicenseAction

pub data ConfigAction : Type 0 where
  show trusted_devices : ConfigAction
  get_value : List ℕ → ConfigAction
  set_value : List ℕ → List ℕ → ConfigAction
  trust : List ℕ → Option (List ℕ) → ConfigAction
  untrust : List ℕ → ConfigAction

pub data RecordingAction : Type 0 where
  list_all dir : RecordingAction
  delete : List ℕ → RecordingAction

pub data Commands : Type 0 where
  license : LicenseAction → Commands
  config : ConfigAction → Commands
  recording : RecordingAction → Commands

pub record Cli : Type 0 where
  pub get_id : Bool
  pub new_id : Bool
  pub get_alias : Bool
  pub set_alias : Option (List ℕ)
  pub service : Bool
  pub listen : Bool
  pub relay : Option (List ℕ)
  pub connect_to : Option (List ℕ)
  pub headless : Bool
  pub command : Option Commands

abbrev pub is_some {ℓ} : {A : Type ℓ} → Option A → Bool
is_some none = false
is_some (some a) = true

-- No part of the program calls it.
unfoldable pub is_headless_mode : Cli → Bool
is_headless_mode cli =
    cli.headless
    || cli.get_id
    || cli.new_id
    || cli.get_alias
    || is_some cli.set_alias
    || cli.service
    || cli.listen
    || is_some cli.command
