-- ===== src/App/Startup/Headless.antt =====
-- app/src-tauri/src/main.rs with app/src-tauri/src/cli.rs: for which arguments the program opens its window.
use secure_desk.Base.{
  ℕ, ◌≡◌, refl, sym, ap, ◌∙◌, Bool, true, false, not, ◌||◌, ◌&&◌, Option, none, some, List, [],
  if◌then◌else◌,
}
use secure_desk.Base.Outcome.{Outcome, ok, err, panic}
use secure_desk.Identity.{Identity, Error}
use secure_desk.Identity.Stored
use secure_desk.Session.{Noise}
use secure_desk.Transport.{Wire}
use secure_desk.Host
use secure_desk.Sso.{Store, Text}
use secure_desk.Cli.{Cli, is_some}
use secure_desk.Cli.Handle.{Machine, Env, Ran, handle_cli}
use secure_desk.Cli.Exit.{handle_cli-Ends}
use secure_desk.Session.{Run}
use secure_desk.Host.{Host}
use secure_desk.Cli.Listen.{run_headless_listen}
use secure_desk.App.Startup.{
  Started, exits, listens, panics, window, expected, opened, open_window, ended, listen, main,
}

abbrev pub is_window : {S : Type 0} → Started S → Bool
is_window (exits code) = false
is_window (listens r) = false
is_window panics = false
is_window (window state) = true

abbrev pub is_ok : {E A : Type 0} → Outcome E A → Bool
is_ok (ok a) = true
is_ok (err e) = false
is_ok panic = false

-- An argument that asks for an answer on the terminal
abbrev pub is_immediate : Cli → Bool
is_immediate cli =
    cli.get_id || cli.new_id || cli.get_alias || is_some cli.set_alias || is_some cli.command

-- The last of the branches is taken where no test holds.
chosen-none {ℓ κ} :
    {X : Type ℓ} {Y : Type κ} {R : Type 0} (a b c : Bool) (o : Option X) (p : Option Y)
    (x y z n : R) (f : X → R) (g : Y → R)
    → (a || b || c || is_some o || is_some p) ≡ false
    → (if a
        then x
        else if b
        then y
        else if c
        then z
        else elim o [ some s ↦ f s | none ↦ elim p [ some t ↦ g t | none ↦ n ] ])
      ≡ n
chosen-none true b c o p x y z n f g h = cc
chosen-none false true c o p x y z n f g h = cc
chosen-none false false true o p x y z n f g h = cc
chosen-none false false false (some s) p x y z n f g h = cc
chosen-none false false false none (some t) x y z n f g h = cc
chosen-none false false false none none x y z n f g h = refl

handle_cli-none :
    (e : Env) (cli : Cli) (w : Machine)
    → is_immediate cli ≡ false
    → handle_cli e cli w ≡ (none, [], w)
unfolding handle_cli
handle_cli-none e cli w h =
    chosen-none cli.get_id cli.new_id cli.get_alias cli.set_alias cli.command _ _ _ _ _ _ h

is_window-ended : {S : Type 0} (r : Option (Run (Host S) (Unit {0}))) → is_window (ended r) ≡ false
is_window-ended none = refl
is_window-ended (some r) = refl

module _ {N S : Type 0} (n : Noise N S) (e : Env) (t : Text) (dial : List ℕ → Option Wire)
    (rounds : List Host.Env) (cli : Cli) (sso : Store) where
  abbrev after_arguments : Ran → Started S × Machine
  after_arguments (code, lines, w) = elim code [
    | some c ↦ (exits c, w)
    | none ↦ if cli.listen then listen n e t dial rounds cli w else open_window n e t cli sso w
  ]

  is_window-some : (r : Ran) → is_some r.0 ≡ true → is_window (after_arguments r).0 ≡ false
  is_window-some (some c, lines, w) h = refl
  is_window-some (none, lines, w) h = cc

  is_window-open_window :
      (w : Machine)
      → is_window (open_window n e t cli sso w).0
        ≡ is_ok (Stored.load_or_create e.keys e.fresh w.identity).0
  is_window-open_window w = by_identity (Stored.load_or_create e.keys e.fresh w.identity).0
    where
      w' : Machine
      w' = record w { identity = (Stored.load_or_create e.keys e.fresh w.identity).1 }

      by_identity :
          (got : Outcome Error Identity)
          → is_window (expected got (opened n e t cli sso w') w').0 ≡ is_ok got
      by_identity (ok identity) = refl
      by_identity (err x) = refl
      by_identity panic = refl

  is_window-none :
      (w : Machine)
      → is_window (after_arguments (none, [], w)).0
        ≡ (not cli.listen && is_ok (Stored.load_or_create e.keys e.fresh w.identity).0)
  is_window-none w = by_listen cli.listen
    where
      by_listen :
          (b : Bool)
          → is_window (if b then listen n e t dial rounds cli w else open_window n e t cli sso w).0
            ≡ (not b && is_ok (Stored.load_or_create e.keys e.fresh w.identity).0)
      by_listen true =
          is_window-ended (run_headless_listen n e.keys e.fresh dial cli.relay w.identity rounds)
      by_listen false = is_window-open_window w

  -- The program opens its window exactly when the identity is read or made and no argument asks for an answer on the
  -- terminal (`--id`, `--new-id`, `--get-alias`, `--set-alias` or a subcommand) or for `--listen`: neither
  -- `--headless` nor `--service` nor an address to connect to makes a difference.
  pub main-is_window :
      (w : Machine)
      → is_window (main n e t dial rounds cli sso w).0 ≡ (
          not (is_immediate cli || cli.listen)
          && is_ok (Stored.load_or_create e.keys e.fresh w.identity).0)
  unfolding main
  main-is_window w = by_immediate (is_immediate cli) refl
    where
      by_immediate :
          (b : Bool)
          → is_immediate cli ≡ b
          → is_window (after_arguments (handle_cli e cli w)).0 ≡ (
              not (is_immediate cli || cli.listen)
              && is_ok (Stored.load_or_create e.keys e.fresh w.identity).0)
      by_immediate true h =
          is_window-some (handle_cli e cli w) (handle_cli-Ends e cli w ∙ h)
          ∙ ap
              (λ b.
                not (b || cli.listen) && is_ok (Stored.load_or_create e.keys e.fresh w.identity).0)
              (sym h)
      by_immediate false h =
          ap (λ r. is_window (after_arguments r).0) (handle_cli-none e cli w h)
          ∙ (is_window-none w
              ∙ ap
                  (λ b.
                    not (b || cli.listen)
                    && is_ok (Stored.load_or_create e.keys e.fresh w.identity).0)
                  (sym h))
