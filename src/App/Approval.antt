-- ===== src/App/Approval.antt =====
-- app/src-tauri/src/main.rs: the task that runs the host session under the lock of `host_session`, and
-- `respond_to_connection`, which needs the same lock to give the user's answer to the dialog.
pub mod Refused
use secure_desk.Base.{
  ◌≡◌, refl, Bool, true, false, Option, none, some, List, [], ◌∷◌, All, ℕ, ap, sym, subst, arith,
}
use secure_desk.Session.{Act, Noise}
use secure_desk.Protocol.{control_frame}
use secure_desk.Protocol.Control as Msg
use secure_desk.Session.{write_frame}
use secure_desk.Host.{Host, Env, on_link}
use secure_desk.Host.Control.{answered, respond}

-- Who has the lock: no one, the task within `run_once_with_events`, the task while it waits for the answer
-- about a remote id, or a command with the user's answer.
pub data Holder : Type 0 where
  free iterating : Holder
  dialog : List ℕ → Holder
  responding : Bool → Holder

pub data Response : Type 0 where
  response_sent no_pending_connection no_host_session : Response

-- `host_session` is the pending connection of the session, if there is a session; `channel` is what was sent
-- to the waiting dialog. `decisions` and `responses` are what dialogs and commands came to, the last one
-- first.
pub record Shared : Type 0 where
  pub holder : Holder
  pub host_session : Option (Option (List ℕ))
  pub channel : Option Bool
  pub decisions : List Bool
  pub responses : List Response

abbrev pub start : Shared
start = record {
  holder = free;
  host_session = none;
  channel = none;
  decisions = [];
  responses = [];
}

-- The command, once it has the lock.
unfoldable pub respond_to_connection : Bool → Shared → Shared
respond_to_connection accept s = elim s.host_session [
  | none ↦ record s { holder = free; responses = no_host_session ∷ s.responses }
  | some pending ↦ elim pending [
    | none ↦ record s { holder = free; responses = no_pending_connection ∷ s.responses }
    | some remote_id ↦ record s {
      holder = free;
      host_session = some none;
      channel = some accept;
      responses = response_sent ∷ s.responses;
    }
  ]
]

-- The wait ends with what the channel holds or with the timeout, and the request is no longer pending.
unfoldable pub end_dialog : Shared → Shared
end_dialog s = record s {
  holder = iterating;
  host_session = some none;
  channel = none;
  decisions = answered s.channel ∷ s.decisions;
}

infix 40 ◌⟶◌ ◌⟶*◌
pub data ◌⟶◌ : Shared → Shared → Type 0 where
  -- `host_session.lock()` of the task and of the command
  lock_loop : (s : Shared) → s.holder ≡ free → s ⟶ record s { holder = iterating }
  lock_command :
      (accept : Bool) (s : Shared) → s.holder ≡ free → s ⟶ record s { holder = responding accept }
  -- an iteration that ends well, and the test that there is no session
  unlock : (s : Shared) → s.holder ≡ iterating → s ⟶ record s { holder = free }
  -- an iteration that fails drops the session
  fail : (s : Shared) → s.holder ≡ iterating → s ⟶ record s { holder = free; host_session = none }
  -- a session that was started, first or again
  connect : (s : Shared) → s.holder ≡ free → s ⟶ record s { host_session = some none }
  ask :
      (remote_id : List ℕ) (pending : Option (List ℕ)) (s : Shared)
      → s.holder ≡ iterating
      → s.host_session ≡ some pending
      → s ⟶ record s {
        holder = dialog remote_id;
        host_session = some (some remote_id);
        channel = none;
      }
  decide : (remote_id : List ℕ) (s : Shared) → s.holder ≡ dialog remote_id → s ⟶ end_dialog s
  answer :
      (accept : Bool) (s : Shared)
      → s.holder ≡ responding accept
      → s ⟶ respond_to_connection accept s

pub data ◌⟶*◌ : Shared → Shared → Type 0 where
  here : {s : Shared} → s ⟶* s
  after : {s t u : Shared} → s ⟶ t → t ⟶* u → s ⟶* u
