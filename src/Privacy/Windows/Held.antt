-- ===== src/Privacy/Windows/Held.antt =====
-- app/src-tauri/src/privacy.rs: the calls of the privacy mode of Windows, and what it holds of the system.
use secure_desk.Base.{
  length, ◌+◌, ◌≤◌, ℕ, ◌≡◌, refl, Bool, true, false, Option, none, some, List, [], ◌∷◌, arith,
}
use secure_desk.Privacy
use secure_desk.Privacy.Windows.{
  PrivacyMode, System, Answers, without_handle, given_back, enable_black_screen,
  disable_black_screen, block_input, unblock_input, disable_all, overlay_proc, Message,
}

-- The calls of the privacy mode, and the messages that the overlay window gets
pub data Call : Type 0 where
  black_on block : Answers → Call
  black_off unblock : Bool → Call
  all_off : Bool → Bool → Call
  message : Bool → ℕ → Message → Bool → Bool → Call

abbrev pub perform : Call → PrivacyMode × System → PrivacyMode × System
perform (black_on a) (p, s) = let (r, p', s') = enable_black_screen a p s in (p', s')
perform (block a) (p, s) = let (r, p', s') = block_input a p s in (p', s')
perform (black_off destroys) (p, s) = disable_black_screen destroys p s
perform (unblock unhooks) (p, s) = unblock_input unhooks p s
perform (all_off destroys unhooks) (p, s) = disable_all destroys unhooks p s
perform (message destroys hwnd m ctrl shift) (p, s) =
    (p, (overlay_proc destroys hwnd m ctrl shift s).1)

abbrev pub perform_all : List Call → PrivacyMode × System → PrivacyMode × System
perform_all [] ps = ps
perform_all (c ∷ cs) ps = perform_all cs (perform c ps)

-- The same calls on the two flags of the other platforms
abbrev pub flags_after : Call → Privacy.PrivacyMode → Privacy.PrivacyMode
flags_after (black_on a) f = Privacy.enable_black_screen f
flags_after (block a) f = Privacy.block_input f
flags_after (black_off destroys) f = Privacy.disable_black_screen f
flags_after (unblock unhooks) f = Privacy.unblock_input f
flags_after (all_off destroys unhooks) f = Privacy.disable_all f
flags_after (message destroys hwnd m ctrl shift) f = f

abbrev pub flags_after_all : List Call → Privacy.PrivacyMode → Privacy.PrivacyMode
flags_after_all [] f = f
flags_after_all (c ∷ cs) f = flags_after_all cs (flags_after c f)

abbrev pub flags : PrivacyMode → Privacy.PrivacyMode
flags p = record { black_screen = p.black_screen; input_blocked = p.input_blocked }

-- One more for a call of the system that fails
abbrev pub forgotten : Bool → ℕ → ℕ
forgotten true n = n
forgotten false n = n + 1

-- `n`, and one more where DestroyWindow, or UnhookWindowsHookEx, fails in the call
abbrev pub lost_windows : Call → ℕ → ℕ
lost_windows (black_on a) n = n
lost_windows (block a) n = n
lost_windows (black_off destroys) n = forgotten destroys n
lost_windows (unblock unhooks) n = n
lost_windows (all_off destroys unhooks) n = forgotten destroys n
lost_windows (message destroys hwnd m ctrl shift) n = n

abbrev pub lost_hooks : Call → ℕ → ℕ
lost_hooks (black_on a) n = n
lost_hooks (block a) n = n
lost_hooks (black_off destroys) n = n
lost_hooks (unblock unhooks) n = forgotten unhooks n
lost_hooks (all_off destroys unhooks) n = forgotten unhooks n
lost_hooks (message destroys hwnd m ctrl shift) n = n

abbrev pub total : (Call → ℕ → ℕ) → List Call → ℕ → ℕ
total count [] n = n
total count (c ∷ cs) n = total count cs (count c n)

-- A handle is kept only while the flag is set, and at most `n` others are held.
abbrev pub Held : ℕ → Bool → Option ℕ → List ℕ → Type 0
Held n flag none xs = length xs ≤ n
Held n flag (some h) xs = (flag ≡ true) × (length (without_handle h xs) ≤ n) × (length xs ≤ n + 1)

-- At most `n` windows and `m` hooks are held whose handles are forgotten.
pub record Owns (n m : ℕ) (p : PrivacyMode) (s : System) : Type 0 where
  pub window_held : Held n p.black_screen p.overlay_hwnd s.windows
  pub hook_held : Held m p.input_blocked p.hook s.hooks
  pub block_held : s.blocked ≡ p.input_blocked

pub length-without_handle : (h : ℕ) (xs : List ℕ) → length (without_handle h xs) ≤ length xs
unfolding without_handle
length-without_handle h [] = omega arith
length-without_handle h (x ∷ xs) = ground (arith, length-without_handle h xs)

pub length-without_handle-both :
    (h k : ℕ) (xs : List ℕ)
    → length (without_handle h (without_handle k xs)) ≤ length (without_handle h xs)
unfolding without_handle
length-without_handle-both h k [] = omega arith
length-without_handle-both h k (x ∷ xs) = ground (arith, length-without_handle-both h k xs)

pub length-given_back :
    (n : ℕ) (gives_back flag : Bool) (o : Option ℕ) (xs : List ℕ)
    → Held n flag o xs
    → length (given_back gives_back o xs) ≤ forgotten gives_back n
length-given_back n true flag none xs h = h
length-given_back n false flag none xs h = omega arith
length-given_back n true flag (some k) xs h = h.1
length-given_back n false flag (some k) xs h = omega (arith, h.2)

-- A new handle where none was kept
pub Held-new :
    (n : ℕ) (o : Option ℕ) (xs : List ℕ) (k : ℕ) → Held n false o xs → Held n true (some k) (k ∷ xs)
unfolding without_handle
Held-new n none xs k h = (refl, ground (arith, length-without_handle k xs, h), omega (arith, h))
Held-new n (some j) xs k h = absurd (ground (arith, h.0))

-- The flag alone is set.
pub Held-set : (n : ℕ) (o : Option ℕ) (xs : List ℕ) → Held n false o xs → Held n true o xs
Held-set n none xs h = h
Held-set n (some k) xs h = absurd (ground (arith, h.0))

-- Nothing is kept without the flag.
pub Held-false : (n : ℕ) (o : Option ℕ) (xs : List ℕ) → Held n false o xs → length xs ≤ n
Held-false n none xs h = h
Held-false n (some k) xs h = absurd (ground (arith, h.0))

pub Held-given_back :
    (n : ℕ) (flag gives_back : Bool) (o : Option ℕ) (k : ℕ) (xs : List ℕ)
    → Held n flag o xs
    → Held n flag o (given_back gives_back (some k) xs)
Held-given_back n flag false o k xs h = h
Held-given_back n flag true none k xs h = omega (arith, length-without_handle k xs, h)
Held-given_back n flag true (some j) k xs h = (
  h.0,
  omega (arith, length-without_handle-both j k xs, h.1),
  omega (arith, length-without_handle k xs, h.2),
)
