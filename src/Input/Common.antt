-- ===== src/Input/Common.antt =====
-- app/src-tauri/src/input.rs: what the injectors share. `Platform` is what the host uses of an injector; a call gives
-- `none` where it panics.
use secure_desk.Base.{ℕ, Bool, not, Option, none, some, List, [], ◌∷◌, ◌++◌, ◌&&◌, if◌then◌else◌}
use secure_desk.Base.Int32.{sub32, abs32, lt32}
use secure_desk.Host.{
  InputEvent, move_mouse, mouse_button, mouse_scroll, key_event, Injection, succeeded, crashed,
}

pub record LockStates : Type 0 where
  pub caps_lock : Bool
  pub num_lock : Bool
  pub scroll_lock : Bool

-- The fields that the injectors share; a coordinate is the bit pattern of an `i32`.
pub record InputInjector : Type 0 where
  pub screen_width : ℕ
  pub screen_height : ℕ
  pub last_mouse_x : ℕ
  pub last_mouse_y : ℕ

abbrev pub Posted : Type 0 → Type 0
Posted E = Option (List E × InputInjector)

pub record Platform (E : Type 0) : Type 0 where
  pub moves : ℕ → ℕ → InputInjector → Posted E
  pub clicks : ℕ → Bool → ℕ → ℕ → InputInjector → Posted E
  pub scrolls : ℕ → ℕ → InputInjector → Posted E
  pub types : ℕ → Bool → InputInjector → Posted E

-- A movement of less than 2 in both directions is passed over.
abbrev pub is_tiny : ℕ → ℕ → InputInjector → Bool
is_tiny x y i = lt32 (abs32 (sub32 x i.last_mouse_x)) 2 && lt32 (abs32 (sub32 y i.last_mouse_y)) 2

abbrev pub at_last : ℕ → ℕ → InputInjector → InputInjector
at_last x y i = record i { last_mouse_x = x; last_mouse_y = y }

-- `a != b`
abbrev pub differs : Bool → Bool → Bool
differs a b = if a then not b else b

module _ {E : Type 0} (p : Platform E) where
  -- The calls of HostSession::handle_input
  abbrev pub perform : InputEvent → InputInjector → Posted E
  perform (move_mouse x y) i = p.moves x y i
  perform (mouse_button button pressed x y) i = p.clicks button pressed x y i
  perform (mouse_scroll dx dy) i = p.scrolls dx dy i
  perform (key_event key pressed) i = p.types key pressed i

  -- What a host sees of a call
  unfoldable pub injection : InputInjector → InputEvent → Injection
  injection i e = elim (perform e i) [ none ↦ crashed | some r ↦ succeeded ]

  unfoldable pub perform_all : List InputEvent → InputInjector → Posted E
  perform_all [] i = some ([], i)
  perform_all (e ∷ es) i = elim (perform e i) [
    | none ↦ none
    | some (posted, i') ↦ elim (perform_all es i') [
      | none ↦ none
      | some (rest, last) ↦ some (posted ++ rest, last)
    ]
  ]
