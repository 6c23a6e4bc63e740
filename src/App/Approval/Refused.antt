-- ===== src/App/Approval/Refused.antt =====
-- app/src-tauri/src/main.rs and app/src-tauri/src/host.rs: what a dialog comes to, as its answer needs the
-- lock that the waiting task has.
use secure_desk.Base.{
  ◌≡◌, refl, Bool, false, Option, none, some, List, [], ◌∷◌, All, ℕ, ap, sym, subst, arith,
}
use secure_desk.Session.{Noise}
use secure_desk.Protocol.{control_frame}
use secure_desk.Protocol.Control as Msg
use secure_desk.Session.{write_frame}
use secure_desk.Host.{Host, Env, on_link}
use secure_desk.Host.Control.{answered, respond}
use secure_desk.App.Approval.{
  Holder, free, iterating, dialog, responding, Response, response_sent, no_pending_connection,
  no_host_session, Shared, start, respond_to_connection, end_dialog, ◌⟶◌, lock_loop, lock_command,
  unlock, fail, connect, ask, decide, answer, ◌⟶*◌, here, after,
}

-- No session has a request that waits.
abbrev IsIdle : Option (Option (List ℕ)) → Type 0
IsIdle none = Unit
IsIdle (some none) = Unit
IsIdle (some (some remote_id)) = ⊥

-- A request is pending only while the dialog waits.
abbrev NotPending : Holder → Option (Option (List ℕ)) → Type 0
NotPending free session = IsIdle session
NotPending iterating session = IsIdle session
NotPending (dialog remote_id) session = Unit
NotPending (responding accept) session = IsIdle session

abbrev pub IsRefusal : Bool → Type 0
IsRefusal accept = accept ≡ false

-- The command did not find a request to answer.
abbrev pub IsUnheard : Response → Type 0
IsUnheard response_sent = ⊥
IsUnheard no_pending_connection = Unit
IsUnheard no_host_session = Unit

record Unanswered (s : Shared) : Type 0 where
  not_pending : NotPending s.holder s.host_session
  empty_channel : s.channel ≡ none
  refusals : All IsRefusal s.decisions
  unheard : All IsUnheard s.responses

start-Unanswered : Unanswered start
start-Unanswered = record { not_pending = tt; empty_channel = refl; refusals = tt; unheard = tt }

-- The request that waits, at a holder that is known.
at_holder :
    (s : Shared) (holder : Holder)
    → s.holder ≡ holder
    → Unanswered s
    → NotPending holder s.host_session
at_holder s holder e h = subst (λ k. NotPending k s.host_session) e h.not_pending

-- The invariant after a step that leaves the channel, the decisions and the responses.
moved :
    (s : Shared) (holder : Holder) (session : Option (Option (List ℕ)))
    → NotPending holder session
    → Unanswered s
    → Unanswered (record s { holder = holder; host_session = session })
moved s holder session k h = record {
  not_pending = k;
  empty_channel = h.empty_channel;
  refusals = h.refusals;
  unheard = h.unheard;
}

unheard_response :
    (accept : Bool) (s : Shared)
    → IsIdle s.host_session
    → Unanswered s
    → Unanswered (respond_to_connection accept s)
unfolding respond_to_connection
unheard_response accept s k h = record {
  not_pending = ground (arith, k);
  empty_channel = ground (arith, k, h.empty_channel);
  refusals = ground (arith, k, h.refusals);
  unheard = ground (arith, k, h.unheard);
}

⟶-Unanswered : {s t : Shared} → s ⟶ t → Unanswered s → Unanswered t
unfolding end_dialog
⟶-Unanswered (lock_loop s e) h = moved s iterating s.host_session (at_holder s free e h) h
⟶-Unanswered (lock_command accept s e) h =
    moved s (responding accept) s.host_session (at_holder s free e h) h
⟶-Unanswered (unlock s e) h = moved s free s.host_session (at_holder s iterating e h) h
⟶-Unanswered (fail s e) h = moved s free none tt h
⟶-Unanswered (connect s e) h = record {
  not_pending = subst (λ k. NotPending k (some none)) (sym e) tt;
  empty_channel = h.empty_channel;
  refusals = h.refusals;
  unheard = h.unheard;
}
⟶-Unanswered (ask remote_id pending s e e') h = record {
  not_pending = tt;
  empty_channel = refl;
  refusals = h.refusals;
  unheard = h.unheard;
}
⟶-Unanswered (decide remote_id s e) h = record {
  not_pending = tt;
  empty_channel = refl;
  refusals = (ap answered h.empty_channel, h.refusals);
  unheard = h.unheard;
}
⟶-Unanswered (answer accept s e) h =
    unheard_response accept s (at_holder s (responding accept) e h) h

⟶*-Unanswered : {s t : Shared} → s ⟶* t → Unanswered s → Unanswered t
⟶*-Unanswered here h = h
⟶*-Unanswered (after step steps) h = ⟶*-Unanswered steps (⟶-Unanswered step h)

-- From the start of the application no sequence of steps of the task and of the commands brings an answer
-- of the user to a dialog: each dialog has come to a refusal, whatever the user answered, and each command
-- has reported that there is nothing to answer.
pub ⟶*-IsUnheard : (t : Shared) → start ⟶* t → All IsRefusal t.decisions × All IsUnheard t.responses
⟶*-IsUnheard t steps = let h = ⟶*-Unanswered steps start-Unanswered in (h.refusals, h.unheard)

-- In each reachable state where a dialog waits, steps lead on to a state in which the lock is free again,
-- the session is there and has no pending request, and the dialog has added one refusal to the decisions.
pub dialog-⟶* :
    (s : Shared) (remote_id : List ℕ)
    → start ⟶* s
    → s.holder ≡ dialog remote_id
    → (t : Shared) × (s ⟶* t)
      × (t.holder ≡ free)
      × (t.host_session ≡ some none)
      × (t.decisions ≡ false ∷ s.decisions)
unfolding end_dialog
dialog-⟶* s remote_id steps e =
    let h = ⟶*-Unanswered steps start-Unanswered in
    (
      record (end_dialog s) { holder = free },
      after (decide remote_id s e) (after (unlock (end_dialog s) refl) here),
      refl,
      refl,
      ap (λ c. answered c ∷ s.decisions) h.empty_channel,
    )

module _ {N S : Type 0} (n : Noise N S) where
  -- In each reachable state the host that gets its answer from the channel of that state tells the client
  -- that the session has ended and does nothing else.
  pub respond-refused :
      (t : Shared) (env : Env) (remote_id : List ℕ) (h : Host S)
      → start ⟶* t
      → env.answer ≡ t.channel
      → respond n env remote_id h
        ≡ on_link (write_frame n (control_frame Msg.session_end (0x00 ∷ []))) h
  unfolding respond
  respond-refused t env remote_id h steps e =
      let k = ⟶*-Unanswered steps start-Unanswered in rw (e, k.empty_channel) refl
