-- ===== src/Identity/Stored.antt =====
-- app/src-tauri/src/crypto.rs: the identity of a device from its file, made anew where there is none. `fresh` is what
-- `generate` makes.
use secure_desk.Base.{ℕ, Bool, Option, none, some, List, if◌then◌else◌}
use secure_desk.Base.Outcome.{Outcome, ok, err}
use secure_desk.Identity.{Keys, Identity, Error, io, load, save}

-- The file, if there is one, and whether it can be written and removed; `left` is what a
-- write that fails leaves of it.
pub record Store : Type 0 where
  pub file : Option (List ℕ)
  pub writable : Bool
  pub left : Option (List ℕ)

abbrev pub Kept : Type 0
Kept = Outcome Error Identity × Store

abbrev pub save_to : Identity → Store → Kept
save_to i s =
    if s.writable
    then (ok i, record s { file = some (save i) })
    else (err io, record s { file = s.left })

unfoldable pub load_or_create : Keys → Identity → Store → Kept
unfolding load save
load_or_create keys fresh s = elim s.file [
  | some bytes ↦ (load keys bytes, s)
  | none ↦ save_to fresh s
]

-- What is there is removed first, also where the new file cannot be written.
unfoldable pub regenerate : Identity → Store → Kept
unfolding save
regenerate fresh s = elim s.file [
  | some bytes ↦ if s.writable then save_to fresh (record s { file = none }) else (err io, s)
  | none ↦ save_to fresh s
]
