-- ===== src/Config/Settings.antt =====
-- app/src-tauri/src/config.rs: the two places that keep whether P2P is enabled, and the settings that a change
-- leaves.
use secure_desk.Base.{◌≡◌, ◌≢◌, ◌∙◌, Bool, false, List, arith, ℕ, sym}
use secure_desk.Base.Text.{text_eq, ascii}
use secure_desk.Config.{
  Text, ConnectionConfig, Store, SettingValue, with_setting, update_setting, set_p2p_enabled,
}

-- The flag that connections use is the one that the settings show.
abbrev pub IsSynced : ConnectionConfig → Type 0
IsSynced c = c.p2p_enabled ≡ c.settings.p2p_enabled

module _ (t : Text) where
  -- A change of a setting keeps the two flags equal.
  pub update_setting-IsSynced :
      (key : List ℕ) (value : SettingValue) (c : ConnectionConfig) (s : Store)
      → IsSynced c
      → IsSynced (update_setting t key value c s).1
  unfolding update_setting with_setting
  update_setting-IsSynced key value c s h = ground (arith, h)

  -- The command for the connection's flag leaves the settings' flag: where it changes the one, the two
  -- differ afterwards.
  pub set_p2p_enabled_unsynced :
      (enabled : Bool) (c : ConnectionConfig) (s : Store)
      → IsSynced c
      → enabled ≢ c.p2p_enabled
      → (set_p2p_enabled t enabled c s).1.p2p_enabled
        ≢ (set_p2p_enabled t enabled c s).1.settings.p2p_enabled
  unfolding set_p2p_enabled
  set_p2p_enabled_unsynced enabled c s h k e = k (e ∙ sym h)

  -- Whether connections need approval changes by its own key only, and by a Boolean only.
  pub update_setting-require_approval :
      (key : List ℕ) (value : SettingValue) (c : ConnectionConfig) (s : Store)
      → (text_eq key (ascii "require_approval") ≡ false)
      → (update_setting t key value c s).1.settings.require_approval ≡ c.settings.require_approval
  unfolding update_setting with_setting
  update_setting-require_approval key value c s h = ground (arith, h)
