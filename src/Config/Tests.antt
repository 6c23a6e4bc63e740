-- ===== src/Config/Tests.antt =====
-- Runs of app/src-tauri/src/config.rs, and its theorems, with a toy in place of serde_json, which
-- knows the default configuration only.
use secure_desk.Base.{ℕ, ◌≡◌, refl, true, false, none, some, List, []}
use secure_desk.Base.Text.{ascii}
use secure_desk.Config.{
  Text, Store, default_config, is_trusted, add_trusted_device, remove_trusted_device,
}

abbrev toy : Text
toy = record { to_string_pretty = λ c. []; from_str = λ bytes. some default_config }

abbrev store : Store
store = record { file = none; writable = true; left = none }

-- "12 3" and "123"
abbrev spaced : List ℕ
spaced = ascii "12 3"

abbrev id : List ℕ
id = ascii "123"

-- A device that was added with a space in its id is found without.
trusts : is_trusted id (add_trusted_device toy 5 spaced none default_config store).1 ≡ true
unfolding is_trusted add_trusted_device
trusts = refl

forgets :
    is_trusted id
      (remove_trusted_device toy id
        (add_trusted_device toy 5 spaced none default_config store).1
        store).1
    ≡ false
unfolding is_trusted add_trusted_device remove_trusted_device
forgets = refl
