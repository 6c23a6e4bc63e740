-- ===== src/Privacy/Windows/Released.antt =====
-- app/src-tauri/src/privacy.rs: what the privacy mode of Windows holds of the system, and its flags, after any sequence of calls.
use secure_desk.Base.{
  ◌∙◌, sym, subst, length, ◌≤◌, ℕ, ◌≡◌, refl, ap, Bool, true, false, Option, none, some, List, [],
  ◌∷◌, arith, ◌==◌, if◌then◌else◌,
}
use secure_desk.Base.Outcome.{ok, err}
use secure_desk.Privacy
use secure_desk.Privacy.Windows.{
  PrivacyError, no_module, no_window, PrivacyMode, System, Answers, given_back, create_overlay,
  with_overlay, enable_black_screen, disable_black_screen, block_input, unblock_input, disable_all,
  overlay_proc, Message, paint, close, key_down, other,
}
use secure_desk.Privacy.Windows.Held.{
  Call, black_on, block, black_off, unblock, all_off, message, perform, perform_all, flags_after,
  flags_after_all, flags, forgotten, lost_windows, lost_hooks, total, Held, Owns, length-given_back,
  Held-new, Held-set, Held-false, Held-given_back,
}

-- A call leaves what it should, for the flags too.
abbrev Keeps : ℕ → ℕ → Call → PrivacyMode × System → Type 0
Keeps n m c (p, s) =
    Owns (lost_windows c n) (lost_hooks c m) (perform c (p, s)).0 (perform c (p, s)).1
    × (flags (perform c (p, s)).0 ≡ flags_after c (flags p))

abbrev mode : Bool → Bool → Option ℕ → Option ℕ → PrivacyMode
mode flag input_blocked o hook = record {
  black_screen = flag;
  input_blocked = input_blocked;
  overlay_hwnd = o;
  hook = hook;
}

abbrev system : List ℕ → List ℕ → Bool → System
system ws hs blocked = record { windows = ws; hooks = hs; blocked = blocked }

enable-Keeps :
    (n l : ℕ) (has_module : Bool) (new_window new_hook : Option ℕ) (flag input_blocked : Bool)
    (o hook : Option ℕ) (ws hs : List ℕ) (blocked : Bool)
    → Owns n l (mode flag input_blocked o hook) (system ws hs blocked)
    → Keeps n l
        (black_on
          (record { has_module = has_module; new_window = new_window; new_hook = new_hook }))
        (mode flag input_blocked o hook, system ws hs blocked)
unfolding enable_black_screen create_overlay Privacy.enable_black_screen
enable-Keeps n l m w k true b o hook ws hs st h = (h, refl)
enable-Keeps n l false w k false b o hook ws hs st h = (
  record {
    window_held = Held-set n o ws h.window_held;
    hook_held = h.hook_held;
    block_held = h.block_held;
  },
  refl,
)
enable-Keeps n l true none k false b o hook ws hs st h = (
  record {
    window_held = Held-set n o ws h.window_held;
    hook_held = h.hook_held;
    block_held = h.block_held;
  },
  refl,
)
enable-Keeps n l true (some x) k false b o hook ws hs st h = (
  record {
    window_held = Held-new n o ws x h.window_held;
    hook_held = h.hook_held;
    block_held = h.block_held;
  },
  refl,
)

block-Keeps :
    (n l : ℕ) (has_module : Bool) (new_window new_hook : Option ℕ) (flag input_blocked : Bool)
    (o hook : Option ℕ) (ws hs : List ℕ) (blocked : Bool)
    → Owns n l (mode flag input_blocked o hook) (system ws hs blocked)
    → Keeps n l
        (block (record { has_module = has_module; new_window = new_window; new_hook = new_hook }))
        (mode flag input_blocked o hook, system ws hs blocked)
unfolding block_input Privacy.block_input
block-Keeps n l m w k b true o hook ws hs st h = (h, refl)
block-Keeps n l false w k b false o hook ws hs st h = (
  record {
    window_held = h.window_held;
    hook_held = Held-set l hook hs h.hook_held;
    block_held = refl;
  },
  refl,
)
block-Keeps n l true w none b false o hook ws hs st h = (
  record {
    window_held = h.window_held;
    hook_held = Held-set l hook hs h.hook_held;
    block_held = refl;
  },
  refl,
)
block-Keeps n l true w (some x) b false o hook ws hs st h = (
  record {
    window_held = h.window_held;
    hook_held = Held-new l hook hs x h.hook_held;
    block_held = refl;
  },
  refl,
)

Held-forgotten :
    (n : ℕ) (d flag : Bool) (o : Option ℕ) (xs : List ℕ)
    → Held n flag o xs
    → Held (forgotten d n) flag o xs
Held-forgotten n true flag o xs h = h
Held-forgotten n false flag none xs h = omega arith
Held-forgotten n false flag (some k) xs h = (h.0, omega (arith, h.1), omega (arith, h.2))

le_forgotten : (n : ℕ) (d : Bool) → n ≤ forgotten d n
le_forgotten n true = omega arith
le_forgotten n false = omega arith

black_off-Keeps :
    (n l : ℕ) (destroys flag input_blocked : Bool) (o hook : Option ℕ) (ws hs : List ℕ)
    (blocked : Bool)
    → Owns n l (mode flag input_blocked o hook) (system ws hs blocked)
    → Keeps n l (black_off destroys) (mode flag input_blocked o hook, system ws hs blocked)
      × (length
            (disable_black_screen destroys
              (mode flag input_blocked o hook)
              (system ws hs blocked)).1.windows
          ≤ forgotten destroys n)
unfolding disable_black_screen Privacy.disable_black_screen
black_off-Keeps n l d true b o hook ws hs st h =
    let left = length-given_back n d true o ws h.window_held in
    (
      (record { window_held = left; hook_held = h.hook_held; block_held = h.block_held }, refl),
      left,
    )
black_off-Keeps n l d false b o hook ws hs st h = (
  (
    record {
      window_held = Held-forgotten n d false o ws h.window_held;
      hook_held = h.hook_held;
      block_held = h.block_held;
    },
    refl,
  ),
  omega (arith, Held-false n o ws h.window_held, le_forgotten n d),
)

unblock-Keeps :
    (n l : ℕ) (unhooks flag input_blocked : Bool) (o hook : Option ℕ) (ws hs : List ℕ)
    (blocked : Bool)
    → Owns n l (mode flag input_blocked o hook) (system ws hs blocked)
    → Keeps n l (unblock unhooks) (mode flag input_blocked o hook, system ws hs blocked)
      × (let left =
            (unblock_input unhooks (mode flag input_blocked o hook) (system ws hs blocked)).1 in
          (left.windows ≡ ws) × (length left.hooks ≤ forgotten unhooks l) × (left.blocked ≡ false))
unfolding unblock_input Privacy.unblock_input
unblock-Keeps n l u b true o hook ws hs st h =
    let left = length-given_back l u true hook hs h.hook_held in
    (
      (record { window_held = h.window_held; hook_held = left; block_held = refl }, refl),
      (refl, left, refl),
    )
unblock-Keeps n l u b false o hook ws hs st h = (
  (
    record {
      window_held = h.window_held;
      hook_held = Held-forgotten l u false hook hs h.hook_held;
      block_held = h.block_held;
    },
    refl,
  ),
  (refl, omega (arith, Held-false l hook hs h.hook_held, le_forgotten l u), h.block_held),
)

overlay_proc-Keeps :
    (n l : ℕ) (destroys : Bool) (hwnd : ℕ) (m : Message) (ctrl shift : Bool) (p : PrivacyMode)
    (s : System)
    → Owns n l p s
    → Keeps n l (message destroys hwnd m ctrl shift) (p, s)
unfolding overlay_proc
overlay_proc-Keeps n l d hwnd paint ctrl shift p s h = (h, refl)
overlay_proc-Keeps n l d hwnd close ctrl shift p s h = (h, refl)
overlay_proc-Keeps n l d hwnd (other x) ctrl shift p s h = (h, refl)
overlay_proc-Keeps n l d hwnd (key_down vk) true true p s h = (by_key (vk == 0x1B), refl)
  where
    by_key :
        (b : Bool)
        → Owns n l p (if b then record s { windows = given_back d (some hwnd) s.windows } else s)
    by_key true = record {
      window_held = Held-given_back n p.black_screen d p.overlay_hwnd hwnd s.windows h.window_held;
      hook_held = h.hook_held;
      block_held = h.block_held;
    }
    by_key false = h
overlay_proc-Keeps n l d hwnd (key_down vk) true false p s h = (h, refl)
overlay_proc-Keeps n l d hwnd (key_down vk) false shift p s h = (h, refl)

-- What disable_all leaves
abbrev Leaves : ℕ → ℕ → System → Type 0
Leaves n l s = (length s.windows ≤ n) × (length s.hooks ≤ l) × (s.blocked ≡ false)

all_off-Leaves :
    (n l : ℕ) (destroys unhooks : Bool) (p : PrivacyMode) (s : System)
    → Owns n l p s
    → Keeps n l (all_off destroys unhooks) (p, s)
      × Leaves (forgotten destroys n) (forgotten unhooks l) (disable_all destroys unhooks p s).1
unfolding disable_all Privacy.disable_all
all_off-Leaves n l d u p s h =
    let (kept, gone) =
      black_off-Keeps n l d p.black_screen p.input_blocked p.overlay_hwnd p.hook s.windows s.hooks
        s.blocked h in
    let p' = (disable_black_screen d p s).0 in
    let s' = (disable_black_screen d p s).1 in
    let (kept', (same, hooks, unblocked)) =
      unblock-Keeps (forgotten d n) l u p'.black_screen p'.input_blocked p'.overlay_hwnd p'.hook
        s'.windows s'.hooks s'.blocked kept.0 in
    (
      (kept'.0, kept'.1 ∙ ap Privacy.unblock_input kept.1),
      (subst (λ ws. length ws ≤ forgotten d n) (sym same) gone, hooks, unblocked),
    )

perform-Keeps :
    (n l : ℕ) (c : Call) (p : PrivacyMode) (s : System) → Owns n l p s → Keeps n l c (p, s)
perform-Keeps n l (black_on a) p s h =
    enable-Keeps n l a.has_module a.new_window a.new_hook p.black_screen p.input_blocked
      p.overlay_hwnd p.hook s.windows s.hooks s.blocked h
perform-Keeps n l (block a) p s h =
    block-Keeps n l a.has_module a.new_window a.new_hook p.black_screen p.input_blocked
      p.overlay_hwnd p.hook s.windows s.hooks s.blocked h
perform-Keeps n l (black_off destroys) p s h =
    (black_off-Keeps n l destroys p.black_screen p.input_blocked p.overlay_hwnd p.hook s.windows
      s.hooks s.blocked h).0
perform-Keeps n l (unblock unhooks) p s h =
    (unblock-Keeps n l unhooks p.black_screen p.input_blocked p.overlay_hwnd p.hook s.windows
      s.hooks s.blocked h).0
perform-Keeps n l (all_off destroys unhooks) p s h = (all_off-Leaves n l destroys unhooks p s h).0
perform-Keeps n l (message destroys hwnd m ctrl shift) p s h =
    overlay_proc-Keeps n l destroys hwnd m ctrl shift p s h

-- From a state in which a handle is kept only while its flag is set, INPUT_BLOCKED is the flag of the input and at most
-- `n` windows and `l` hooks are open whose handles are forgotten: whatever the system answers to the calls of the
-- privacy mode and whatever messages the overlay window gets, after any sequence of them the two flags are those that
-- the same calls leave on the other platforms. A disable_all whose calls of the system succeed then leaves the keyboard
-- not blocked, at most `n` overlay windows and one more for each call whose DestroyWindow is to fail, and at most `l`
-- hooks and one more for each call whose UnhookWindowsHookEx is to fail: none where none is forgotten and none fails.
pub perform_all-released :
    (n l : ℕ) (cs : List Call) (p : PrivacyMode) (s : System)
    → Owns n l p s
    → let (p', s') = perform_all cs (p, s) in
      let left = (disable_all true true p' s').1 in
      (flags p' ≡ flags_after_all cs (flags p))
      × (length left.windows ≤ total lost_windows cs n)
      × (length left.hooks ≤ total lost_hooks cs l)
      × (left.blocked ≡ false)
perform_all-released n l [] p s h =
    let (windows, hooks, unblocked) = (all_off-Leaves n l true true p s h).1 in
    (refl, windows, hooks, unblocked)
perform_all-released n l (c ∷ cs) p s h =
    let (kept, same) = perform-Keeps n l c p s h in
    let (flags_same, windows, hooks, unblocked) =
      perform_all-released (lost_windows c n) (lost_hooks c l) cs (perform c (p, s)).0
        (perform c (p, s)).1 kept in
    (flags_same ∙ ap (flags_after_all cs) same, windows, hooks, unblocked)

overlay-none :
    (has_module : Bool) (new_window new_hook : Option ℕ) (p : PrivacyMode) (s : System)
    → new_window ≡ none
    → (e : PrivacyError) × (with_overlay
          (create_overlay
            (record { has_module = has_module; new_window = new_window; new_hook = new_hook })
            s)
          p
        ≡ (err e, p, s))
unfolding create_overlay
overlay-none false w k p s h = (no_module, refl)
overlay-none true none k p s h = (no_window, refl)
overlay-none true (some x) k p s h = absurd (ground (arith, h))

-- Where the overlay window cannot be made, enabling the black screen fails but sets its flag: enabling it again, whatever
-- the system then answers, succeeds without a window.
pub enable_black_screen-again :
    (a b : Answers) (p : PrivacyMode) (s : System)
    → p.black_screen ≡ false
    → a.new_window ≡ none
    → (e : PrivacyError) × (enable_black_screen a p s
        ≡ (err e, record p { black_screen = true }, s))
      × (enable_black_screen b (record p { black_screen = true }) s
          ≡ (ok tt, record p { black_screen = true }, s))
unfolding enable_black_screen
enable_black_screen-again a b p s off none_made =
    let (e, failed) =
      overlay-none a.has_module a.new_window a.new_hook (record p { black_screen = true }) s
        none_made in
    (
      e,
      ap
            (λ flag.
              if flag
              then (ok tt, p, s)
              else with_overlay (create_overlay a s) (record p { black_screen = true }))
            off
          ∙ failed,
      refl,
    )
