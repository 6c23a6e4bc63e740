-- ===== src/App/Relays/Failover.antt =====
-- app/src-tauri/src/main.rs: which relay a listener is at, and what its task does once no relay answers.
use secure_desk.Base.{
  ℕ, ◌+◌, ◌≡◌, refl, ap, ◌∙◌, true, Option, none, some, List, [], ◌∷◌, ◌++◌, All,
}
use secure_desk.Session.{Run, Noise, done, failed, panicked, Error}
use secure_desk.Host.{Host, Env}
use secure_desk.Host.Loop.{run_once}
use secure_desk.App.Relays.{
  Listener, ListenError, no_relay_servers, relay_failed, listening, listen_loop,
  start_host_listener, reconnect, task_step, task,
}

module _ {S : Type 0} (start : List ℕ → Option (Host S)) where
  listen_loop-first :
      (before after : List (List ℕ)) (relay : List ℕ) (session : Host S) (e : ListenError)
      (l : Listener S)
      → All (λ r. start r ≡ none) before
      → start relay ≡ some session
      → listen_loop start e (before ++ (relay ∷ after)) l
        ≡ (listening, record l { host_session = some session; tasks = l.tasks + 1 })
  listen_loop-first [] after relay session e l h found = rw found refl
  listen_loop-first (r ∷ before) after relay session e l h found =
      rw h.0 (listen_loop-first before after relay session (relay_failed r) l h.1 found)

  -- The host listens at the first of its relays that answers, whatever the relays behind it do.
  pub start_host_listener-first :
      (before after : List (List ℕ)) (relay : List ℕ) (session : Host S) (l : Listener S)
      → l.relay_addresses ≡ before ++ (relay ∷ after)
      → All (λ r. start r ≡ none) before
      → start relay ≡ some session
      → start_host_listener start l
        ≡ (listening, record l { host_session = some session; tasks = l.tasks + 1 })
  unfolding start_host_listener
  start_host_listener-first before after relay session l e h found =
      ap (λ rs. listen_loop start no_relay_servers rs l) e
      ∙ listen_loop-first before after relay session no_relay_servers l h found

  reconnect-none :
      (relays : List (List ℕ)) → All (λ r. start r ≡ none) relays → reconnect start relays ≡ none
  unfolding reconnect
  reconnect-none [] h = refl
  reconnect-none (r ∷ relays) h = rw (h.0, reconnect) (reconnect-none relays h.1)

module _ {N S : Type 0} (n : Noise N S) where
  task-none :
      (rounds : List (Env × (List ℕ → Option (Host S)))) (l : Listener S)
      → task n rounds (record l { host_session = none }) ≡ some (record l { host_session = none })
  unfolding task task_step
  task-none [] l = refl
  task-none ((env, start) ∷ rounds) l = task-none rounds l

  task_step-lost :
      (env : Env) (start : List ℕ → Option (Host S)) (session session' : Host S) (e : Error)
      (l : Listener S)
      → run_once n (record env { app_handle = true }) session ≡ failed e session'
      → All (λ r. start r ≡ none) l.relay_addresses
      → task_step n env start (record l { host_session = some session })
        ≡ some (record l { host_session = none })
  unfolding task_step
  task_step-lost env start session session' e l lost down =
      ap
        (λ (r : Run (Host S) (Unit {0})). elim r [
          | done u h ↦ some (record l { host_session = some h })
          | failed x h ↦ some (record l { host_session = reconnect start l.relay_addresses })
          | panicked ↦ none
        ])
        lost
      ∙ ap (λ h. some (record l { host_session = h })) (reconnect-none start l.relay_addresses down)

  -- When an iteration of the host session fails and no relay answers at the reconnection that follows, the host
  -- has no session from then on: the task tries no relay again, whatever the relays answer later.
  pub task-offline :
      (env : Env) (start : List ℕ → Option (Host S))
      (rounds : List (Env × (List ℕ → Option (Host S)))) (session session' : Host S) (e : Error)
      (l : Listener S)
      → run_once n (record env { app_handle = true }) session ≡ failed e session'
      → All (λ r. start r ≡ none) l.relay_addresses
      → task n ((env, start) ∷ rounds) (record l { host_session = some session })
        ≡ some (record l { host_session = none })
  unfolding task
  task-offline env start rounds session session' e l lost down =
      ap (λ (r : Option (Listener S)). elim r [ none ↦ none | some l' ↦ task n rounds l' ])
        (task_step-lost env start session session' e l lost down)
      ∙ task-none rounds l
