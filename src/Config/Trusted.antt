-- ===== src/Config/Trusted.antt =====
-- app/src-tauri/src/config.rs: which devices are trusted after a change, and after a restart.
use secure_desk.Base.{ℕ, ◌≡◌, refl, true, false, Option, List, if◌then◌else◌, arith}
use secure_desk.Base.Assoc.{find-remove}
use secure_desk.Base.Outcome.{ok}
use secure_desk.Base.Text.{text_eq}
use secure_desk.Client.Connect.{without_spaces}
use secure_desk.Config.{
  Text, IsRead, ConnectionConfig, Store, save, load_or_create, is_trusted, add_trusted_device,
  remove_trusted_device,
}

module _ (t : Text) where
  -- Exactly the device that was added becomes trusted, in every spelling of its id with spaces, also where
  -- the configuration cannot be saved.
  pub is_trusted-add_trusted_device :
      (now : ℕ) (device_id other : List ℕ) (name : Option (List ℕ)) (c : ConnectionConfig)
      (s : Store)
      → is_trusted other (add_trusted_device t now device_id name c s).1 ≡ (
          if text_eq (without_spaces other) (without_spaces device_id)
          then true
          else is_trusted other c)
  unfolding is_trusted add_trusted_device
  is_trusted-add_trusted_device now device_id other name c s =
      ground
        (arith, find-remove (without_spaces device_id) (without_spaces other) c.trusted_devices)

  -- Exactly the device that was removed stops being trusted, in every spelling of its id with spaces, also
  -- where the configuration cannot be saved.
  pub is_trusted-remove_trusted_device :
      (device_id other : List ℕ) (c : ConnectionConfig) (s : Store)
      → is_trusted other (remove_trusted_device t device_id c s).1 ≡ (
          if text_eq (without_spaces other) (without_spaces device_id)
          then false
          else is_trusted other c)
  unfolding is_trusted remove_trusted_device
  is_trusted-remove_trusted_device device_id other c s =
      ground
        (arith, find-remove (without_spaces device_id) (without_spaces other) c.trusted_devices)

  -- A configuration that was saved is the one that is loaded, if its text is read as it.
  pub load_or_create-save :
      (c : ConnectionConfig) (s : Store)
      → IsRead t c
      → s.writable ≡ true
      → (load_or_create t (save t c s).1).0 ≡ ok c
  unfolding load_or_create save
  load_or_create-save c s reads w = rw (w, reads) refl

  -- Where the file can be written and the text of the changed configuration is read as it, a restart finds the device that was removed no longer trusted, and every
  -- other device as it was.
  pub load_or_create-remove_trusted_device :
      (device_id : List ℕ) (c : ConnectionConfig) (s : Store)
      → IsRead t (remove_trusted_device t device_id c s).1
      → s.writable ≡ true
      → (c' : ConnectionConfig) × ((load_or_create t (remove_trusted_device t device_id c s).2).0
          ≡ ok c')
        × ((other : List ℕ)
            → is_trusted other c' ≡ (
                if text_eq (without_spaces other) (without_spaces device_id)
                then false
                else is_trusted other c))
  unfolding remove_trusted_device
  load_or_create-remove_trusted_device device_id c s reads w = (
    _,
    load_or_create-save _ s reads w,
    λ other. is_trusted-remove_trusted_device device_id other c s,
  )
