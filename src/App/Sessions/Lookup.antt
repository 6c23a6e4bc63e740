-- ===== src/App/Sessions/Lookup.antt =====
-- app/src-tauri/src/main.rs: what the map of sessions holds under a key after each of its operations, and
-- the keys that `connect_to_remote` makes.
use secure_desk.Base.{ℕ, ◌≡◌, refl, ap, List, [], ◌∷◌, if◌then◌else◌, arith, drop}
use secure_desk.Base.Text.{text_eq, text_eq_sound, text_eq_refl, decimal_injective}
use mathlib.Core.Option as Option
use secure_desk.Client.{Client}
use secure_desk.App.Commands.{set_session}
use secure_desk.Base.Assoc.{find}
use secure_desk.App.Sessions.{SessionMap, session_id_of}

module _ {S : Type 0} where
  pub find-set_session :
      (id k : List ℕ) (client : Client S) (m : SessionMap S)
      → find k (set_session id client m)
        ≡ Option.map
            (λ entry. if text_eq id k then record entry { session = client } else entry)
            (find k m)
  unfolding find set_session
  find-set_session id k client [] = refl
  find-set_session id k client (p ∷ ps) = ground (
    arith,
    find-set_session id k client ps,
    text_eq_sound id p.0,
    text_eq_sound k p.0,
    text_eq_sound id k,
    text_eq_refl p.0,
  )

pub session_id_of_injective : (c d : ℕ) → session_id_of c ≡ session_id_of d → c ≡ d
unfolding session_id_of
session_id_of_injective c d e = decimal_injective c d (ap (drop 8) e)
