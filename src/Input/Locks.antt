-- ===== src/Input/Locks.antt =====
-- app/src-tauri/src/input.rs, on Windows: the synchronisation of the lock keys.
use secure_desk.Base.{
  ℕ, ◌≡◌, refl, ap, ◌∙◌, Bool, true, false, not, List, [], ◌∷◌, ◌++◌, ◌==◌, ◌&&◌, if◌then◌else◌,
  arith,
}
use secure_desk.Input.Common.{LockStates, differs}
use secure_desk.Input.Windows.{
  WindowsInput, vk_capital, vk_numlock, vk_scroll, toggle_lock_key, sync_lock_states,
}

differs-differs : (l r : Bool) → differs (differs l r) l ≡ r
differs-differs true true = refl
differs-differs true false = refl
differs-differs false true = refl
differs-differs false false = refl

differs_self : (b : Bool) → differs b b ≡ false
differs_self true = refl
differs_self false = refl

sync_lock_states_same : (l : LockStates) → sync_lock_states l l ≡ []
unfolding sync_lock_states
sync_lock_states_same l =
    rw (differs_self l.caps_lock, differs_self l.num_lock, differs_self l.scroll_lock) refl

-- The keyboard of the system: the low bit of GetKeyState, and SendInput for one input
pub record Keyboard (S : Type 0) : Type 0 where
  pub toggled : ℕ → S → Bool
  pub send : WindowsInput → S → S

module _ {S : Type 0} (keyboard : Keyboard S) where
  unfoldable pub send_all : List WindowsInput → S → S
  send_all [] s = s
  send_all (e ∷ es) s = send_all es (keyboard.send e s)

  unfoldable pub get_lock_states : S → LockStates
  get_lock_states s = record {
    caps_lock = keyboard.toggled vk_capital s;
    num_lock = keyboard.toggled vk_numlock s;
    scroll_lock = keyboard.toggled vk_scroll s;
  }

  -- A press and a release of a key change whether it is toggled, and no other key.
  abbrev pub Toggles : Type 0
  Toggles =
      (vk other : ℕ) (s : S)
      → keyboard.toggled other (send_all (toggle_lock_key vk) s)
        ≡ (if other == vk then not (keyboard.toggled other s) else keyboard.toggled other s)

  send_all-append :
      (es fs : List WindowsInput) (s : S) → send_all (es ++ fs) s ≡ send_all fs (send_all es s)
  unfolding send_all
  send_all-append [] fs s = refl
  send_all-append (e ∷ es) fs s = send_all-append es fs (keyboard.send e s)

  -- The keys after one key was toggled or left alone
  toggled-send_all :
      (toggles : Toggles) (d : Bool) (vk other : ℕ) (s : S)
      → keyboard.toggled other (send_all (if d then toggle_lock_key vk else []) s)
        ≡ (if d && other == vk then not (keyboard.toggled other s) else keyboard.toggled other s)
  unfolding send_all
  toggled-send_all toggles true vk other s = toggles vk other s
  toggled-send_all toggles false vk other s = refl

  toggled-send_all_each :
      (toggles : Toggles) (a b c : Bool) (s : S)
      → get_lock_states (
          send_all
            ((if a then toggle_lock_key vk_capital else [])
              ++ ((if b then toggle_lock_key vk_numlock else [])
                  ++ (if c then toggle_lock_key vk_scroll else [])))
            s)
        ≡ record {
          caps_lock = differs a (keyboard.toggled vk_capital s);
          num_lock = differs b (keyboard.toggled vk_numlock s);
          scroll_lock = differs c (keyboard.toggled vk_scroll s);
        }
  unfolding get_lock_states
  toggled-send_all_each toggles a b c s =
      let first = if a then toggle_lock_key vk_capital else [] in
      let second = if b then toggle_lock_key vk_numlock else [] in
      let third = if c then toggle_lock_key vk_scroll else [] in
      let s1 = send_all first s in
      let s2 = send_all second s1 in
      let parts : send_all (first ++ (second ++ third)) s ≡ send_all third s2 =
        send_all-append first (second ++ third) s ∙ send_all-append second third s1 in
      ap get_lock_states parts
      ∙ ground (
        arith,
        toggled-send_all toggles c vk_scroll vk_capital s2,
        toggled-send_all toggles c vk_scroll vk_numlock s2,
        toggled-send_all toggles c vk_scroll vk_scroll s2,
        toggled-send_all toggles b vk_numlock vk_capital s1,
        toggled-send_all toggles b vk_numlock vk_numlock s1,
        toggled-send_all toggles b vk_numlock vk_scroll s1,
        toggled-send_all toggles a vk_capital vk_capital s,
        toggled-send_all toggles a vk_capital vk_numlock s,
        toggled-send_all toggles a vk_capital vk_scroll s,
      )

  -- After a synchronisation the lock keys are as on the other side, and another one sends nothing.
  pub get_lock_states-sync_lock_states :
      (remote : LockStates) (s : S)
      → Toggles
      → let synced = send_all (sync_lock_states (get_lock_states s) remote) s in
        (get_lock_states synced ≡ remote) × (sync_lock_states (get_lock_states synced) remote ≡ [])
  unfolding sync_lock_states get_lock_states
  get_lock_states-sync_lock_states remote s toggles =
      let local = get_lock_states s in
      let alike : get_lock_states (send_all (sync_lock_states local remote) s) ≡ remote =
        toggled-send_all_each toggles (differs local.caps_lock remote.caps_lock)
          (differs local.num_lock remote.num_lock) (differs local.scroll_lock remote.scroll_lock) s
        ∙ ground (
          arith,
          differs-differs local.caps_lock remote.caps_lock,
          differs-differs local.num_lock remote.num_lock,
          differs-differs local.scroll_lock remote.scroll_lock,
        ) in
      (alike, ap (λ l. sync_lock_states l remote) alike ∙ sync_lock_states_same remote)
