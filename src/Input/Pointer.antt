-- ===== src/Input/Pointer.antt =====
-- app/src-tauri/src/input.rs, on Linux: where the pointer is after the events of a host session.
use secure_desk.Base.{
  ℕ, zero, suc, ◌+◌, ◌^◌, ◌≤◌, ◌<◌, ◌-◌, ◌%◌, ltb, leb, ◌≡◌, refl, sym, ap, ◌∙◌, Bool, true, false,
  Option, none, some, List, [], ◌∷◌, ◌++◌, All, arith, if◌then◌else◌, ◌==◌, ◌&&◌, subst, append-nil,
}
use secure_desk.Base.Int32.{near_lem}
use secure_desk.Host.{InputEvent}
use secure_desk.Input.Common.{InputInjector, Posted, perform, perform_all, is_tiny, at_last}
use secure_desk.Input.Keys.{windows_vk_to_x11_keysym}
use secure_desk.Input.X11.{
  XEvent, motion, button, key, flush, move_mouse, x_button, mouse_button, mouse_scroll, key_event,
  clicks, x11,
}

-- Where an X server puts a coordinate of a motion on a screen of `size` pixels: the request has an `INT16`, what is
-- negative is put at 0 and what is too large at the last pixel.
abbrev pub placed : ℕ → ℕ → ℕ
placed size x =
    let c = x % 2 ^ 16 in if leb (2 ^ 15) c then 0 else if ltb c size then c else size - 1

-- A screen, as an X server may have one
pub record Screen : Type 0 where
  pub width : ℕ
  pub height : ℕ
  pub narrow : width ≤ 2 ^ 15
  pub low : height ≤ 2 ^ 15

-- Where the pointer is once the events are posted
unfoldable pub pointer : Screen → List XEvent → ℕ × ℕ → ℕ × ℕ
pointer d [] p = p
pointer d (motion x y ∷ es) p = pointer d es (placed d.width x, placed d.height y)
pointer d (button n pressed ∷ es) p = pointer d es p
pointer d (key n pressed ∷ es) p = pointer d es p
pointer d (flush ∷ es) p = pointer d es p

-- The position that an event is about
unfoldable pub aim : InputEvent → Option (ℕ × ℕ)
aim (InputEvent.move_mouse x y) = some (x, y)
aim (InputEvent.mouse_button n pressed x y) = some (x, y)
aim (InputEvent.mouse_scroll dx dy) = none
aim (InputEvent.key_event n pressed) = none

-- The coordinates of the event are on the screen.
abbrev pub IsInRange : Screen → InputEvent → Type 0
IsInRange d (InputEvent.move_mouse x y) = (x < d.width) × (y < d.height)
IsInRange d (InputEvent.mouse_button n pressed x y) = (x < d.width) × (y < d.height)
IsInRange d (InputEvent.mouse_scroll dx dy) = Unit
IsInRange d (InputEvent.key_event n pressed) = Unit

abbrev pub last_of : InputInjector → ℕ × ℕ
last_of i = (i.last_mouse_x, i.last_mouse_y)

abbrev pub IsLastInRange : Screen → InputInjector → Type 0
IsLastInRange d i = (i.last_mouse_x < d.width) × (i.last_mouse_y < d.height)

-- At most 1 away
abbrev pub IsNear : ℕ × ℕ → ℕ × ℕ → Type 0
IsNear p q = (p.0 ≤ q.0 + 1) × (q.0 ≤ p.0 + 1) × (p.1 ≤ q.1 + 1) × (q.1 ≤ p.1 + 1)

&&-true : (a b : Bool) → (a && b) ≡ true → (a ≡ true) × (b ≡ true)
&&-true true true h = (refl, refl)
&&-true true false h = cc
&&-true false b h = cc

IsNear-tiny :
    (d : Screen) (x y : ℕ) (i : InputInjector)
    → x < d.width
    → y < d.height
    → IsLastInRange d i
    → is_tiny x y i ≡ true
    → IsNear (x, y) (last_of i)
IsNear-tiny d x y i hx hy k tiny =
    let both = &&-true _ _ tiny in
    let nx =
      near_lem x i.last_mouse_x (omega (arith, hx, d.narrow)) (omega (arith, k.0, d.narrow))
        both.0 in
    let ny =
      near_lem y i.last_mouse_y (omega (arith, hy, d.low)) (omega (arith, k.1, d.low)) both.1 in
    (nx.0, nx.1, ny.0, ny.1)

-- A coordinate on the screen is where the motion puts it.
placed-lt : (size x : ℕ) → size ≤ 2 ^ 15 → x < size → placed size x ≡ x
placed-lt size x h k = ground arith

module _ (d : Screen) (keysym_to_keycode : ℕ → ℕ) where
  pointer-append :
      (es fs : List XEvent) (p : ℕ × ℕ) → pointer d (es ++ fs) p ≡ pointer d fs (pointer d es p)
  unfolding pointer
  pointer-append [] fs p = refl
  pointer-append (motion x y ∷ es) fs p = pointer-append es fs (placed d.width x, placed d.height y)
  pointer-append (button n pressed ∷ es) fs p = pointer-append es fs p
  pointer-append (key n pressed ∷ es) fs p = pointer-append es fs p
  pointer-append (flush ∷ es) fs p = pointer-append es fs p

  pointer-clicks : (count n : ℕ) (p : ℕ × ℕ) → pointer d (clicks count n) p ≡ p
  unfolding pointer
  pointer-clicks zero n p = refl
  pointer-clicks (suc count) n p = pointer-clicks count n p

  pointer-clicks_unless :
      (skipped : Bool) (count n : ℕ) (p : ℕ × ℕ)
      → pointer d (if skipped then [] else clicks count n) p ≡ p
  unfolding pointer
  pointer-clicks_unless true count n p = refl
  pointer-clicks_unless false count n p = pointer-clicks count n p

  -- The pointer after the two parts of a scroll, and the flush
  pointer-scrolled :
      (es fs : List XEvent) (p : ℕ × ℕ)
      → pointer d es p ≡ p
      → pointer d fs p ≡ p
      → pointer d (es ++ (fs ++ (flush ∷ []))) p ≡ p
  unfolding pointer
  pointer-scrolled es fs p he hf =
      pointer-append es (fs ++ (flush ∷ [])) p
      ∙ (ap (pointer d (fs ++ (flush ∷ []))) he ∙ (pointer-append fs (flush ∷ []) p ∙ hf))

  -- What a call that returned has kept: the injector knows where the pointer is.
  abbrev Tracked : InputEvent → InputInjector → Posted XEvent → Type 0
  Tracked e i none = ⊥
  Tracked e i (some (posted, i')) =
      (pointer d posted (last_of i) ≡ last_of i')
      × IsLastInRange d i'
      × ((p : ℕ × ℕ) → aim e ≡ some p → IsNear p (last_of i'))

  placed-IsInRange :
      (x y : ℕ)
      → x < d.width
      → y < d.height
      → ◌≡◌ {A = ℕ × ℕ} (placed d.width x, placed d.height y) (x, y)
  placed-IsInRange x y hx hy =
      ap (λ (a : ℕ). (a, placed d.height y)) (placed-lt d.width x d.narrow hx)
      ∙ ap (λ (b : ℕ). (x, b)) (placed-lt d.height y d.low hy)

  Tracked-aim :
      (e : InputEvent) (x y : ℕ) (i : InputInjector)
      → aim e ≡ some (x, y)
      → IsNear (x, y) (last_of i)
      → (p : ℕ × ℕ) → aim e ≡ some p
      → IsNear p (last_of i)
  Tracked-aim e x y i h near p q =
      let same : (x, y) ≡ p = cc in subst (λ p. IsNear p (last_of i)) same near

  move_mouse-Tracked :
      (x y : ℕ) (i : InputInjector) (tiny : Bool)
      → x < d.width
      → y < d.height
      → IsLastInRange d i
      → is_tiny x y i ≡ tiny
      → Tracked
          (InputEvent.move_mouse x y)
          i
          (if tiny then some ([], i) else some (motion x y ∷ flush ∷ [], at_last x y i))
  unfolding pointer aim
  move_mouse-Tracked x y i true hx hy k e =
      (refl, k, Tracked-aim (InputEvent.move_mouse x y) x y i refl (IsNear-tiny d x y i hx hy k e))
  move_mouse-Tracked x y i false hx hy k e = (
    placed-IsInRange x y hx hy,
    (hx, hy),
    Tracked-aim (InputEvent.move_mouse x y) x y (at_last x y i) refl (omega arith),
  )

  mouse_button-Tracked :
      (n : ℕ) (pressed : Bool) (x y : ℕ) (i : InputInjector) (b : Option ℕ)
      → x < d.width
      → y < d.height
      → Tracked (InputEvent.mouse_button n pressed x y) i (elim b [
        | none ↦ some (motion x y ∷ [], at_last x y i)
        | some c ↦ some (motion x y ∷ button c pressed ∷ flush ∷ [], at_last x y i)
      ])
  unfolding pointer aim
  mouse_button-Tracked n pressed x y i none hx hy = (
    placed-IsInRange x y hx hy,
    (hx, hy),
    Tracked-aim (InputEvent.mouse_button n pressed x y) x y (at_last x y i) refl (omega arith),
  )
  mouse_button-Tracked n pressed x y i (some c) hx hy = (
    placed-IsInRange x y hx hy,
    (hx, hy),
    Tracked-aim (InputEvent.mouse_button n pressed x y) x y (at_last x y i) refl (omega arith),
  )

  key_event-Tracked :
      (n : ℕ) (pressed : Bool) (i : InputInjector) (code : ℕ) (missing : Bool)
      → IsLastInRange d i
      → Tracked
          (InputEvent.key_event n pressed)
          i
          (if missing then some ([], i) else some (key code pressed ∷ flush ∷ [], i))
  unfolding pointer aim
  key_event-Tracked n pressed i code true k = (refl, k, λ p e. cc)
  key_event-Tracked n pressed i code false k = (refl, k, λ p e. cc)

  perform-Tracked :
      (e : InputEvent) (i : InputInjector)
      → IsInRange d e
      → IsLastInRange d i
      → Tracked e i (perform (x11 keysym_to_keycode) e i)
  unfolding aim move_mouse mouse_button mouse_scroll key_event
  perform-Tracked (InputEvent.move_mouse x y) i h k =
      move_mouse-Tracked x y i (is_tiny x y i) h.0 h.1 k refl
  perform-Tracked (InputEvent.mouse_button n pressed x y) i h k =
      mouse_button-Tracked n pressed x y i (x_button n) h.0 h.1
  perform-Tracked (InputEvent.mouse_scroll dx dy) i h k = (
    pointer-scrolled _ _ _ (pointer-clicks_unless (dy == 0) _ _ _)
        (pointer-clicks_unless (dx == 0) _ _ _),
    k,
    λ p e. cc,
  )
  perform-Tracked (InputEvent.key_event n pressed) i h k =
      key_event-Tracked n pressed i _ (keysym_to_keycode (windows_vk_to_x11_keysym n) == 0) k

  -- What `perform_all` gives in the end for the events and one more
  abbrev AllTracked : InputEvent → InputInjector → Posted XEvent → Type 0
  AllTracked e i none = ⊥
  AllTracked e i (some (posted, i')) =
      (pointer d posted (last_of i) ≡ last_of i')
      × ((p : ℕ × ℕ) → aim e ≡ some p → IsNear p (last_of i'))

  AllTracked-cons :
      (e : InputEvent) (i i' : InputInjector) (posted : List XEvent) (rest : Posted XEvent)
      → pointer d posted (last_of i) ≡ last_of i'
      → AllTracked e i' rest
      → AllTracked e i
          (elim rest [ none ↦ none | some (later, last) ↦ some (posted ++ later, last) ])
  AllTracked-cons e i i' posted none h k = k
  AllTracked-cons e i i' posted (some (later, last)) h k =
      (pointer-append posted later (last_of i) ∙ (ap (pointer d later) h ∙ k.0), k.1)

  AllTracked-bind :
      (x e : InputEvent) (i : InputInjector) (r : Posted XEvent)
      (later : InputInjector → Posted XEvent)
      → Tracked x i r
      → ((i' : InputInjector) → IsLastInRange d i' → AllTracked e i' (later i'))
      → AllTracked e i (elim r [
        | none ↦ none
        | some (posted, i') ↦ elim (later i') [
          | none ↦ none
          | some (rest, last) ↦ some (posted ++ rest, last)
        ]
      ])
  AllTracked-bind x e i none later h k = h
  AllTracked-bind x e i (some (posted, i')) later h k =
      AllTracked-cons e i i' posted (later i') h.0 (k i' h.1)

  AllTracked-last :
      (e : InputEvent) (i : InputInjector) (r : Posted XEvent)
      → Tracked e i r
      → AllTracked e i (elim r [ none ↦ none | some (posted, i') ↦ some (posted ++ [], i') ])
  AllTracked-last e i none h = h
  AllTracked-last e i (some (posted, i')) h =
      (ap (λ es. pointer d es (last_of i)) (append-nil posted) ∙ h.0, h.2)

  perform_all-AllTracked :
      (es : List InputEvent) (e : InputEvent) (i : InputInjector)
      → All (IsInRange d) es
      → IsInRange d e
      → IsLastInRange d i
      → AllTracked e i (perform_all (x11 keysym_to_keycode) (es ++ (e ∷ [])) i)
  unfolding perform_all
  perform_all-AllTracked [] e i hs h k =
      AllTracked-last e i (perform (x11 keysym_to_keycode) e i) (perform-Tracked e i h k)
  perform_all-AllTracked (x ∷ es) e i hs h k =
      AllTracked-bind x e i (perform (x11 keysym_to_keycode) x i)
        (perform_all (x11 keysym_to_keycode) (es ++ (e ∷ []))) (perform-Tracked x i hs.0 k)
        (λ i' k'. perform_all-AllTracked es e i' hs.1 h k')

  -- On Linux, with the injector of X11 and an X server whose screen is at most 2 ^ 15 pixels wide and high: of input
  -- events whose coordinates are on that screen, with the pointer at first where the injector has it and on the screen,
  -- the calls return, and after a last event that is about a position the pointer is at most 1 away from that position
  -- in each direction, the events in front of it whatever they are.
  pub pointer-perform_all :
      (es : List InputEvent) (e : InputEvent) (i : InputInjector) (x y : ℕ)
      → All (IsInRange d) es
      → IsInRange d e
      → IsLastInRange d i
      → aim e ≡ some (x, y)
      → (posted : List XEvent) × (i' : InputInjector) × (perform_all
            (x11 keysym_to_keycode)
            (es ++ (e ∷ []))
            i
          ≡ some (posted, i'))
        × IsNear (x, y) (pointer d posted (last_of i))
  pointer-perform_all es e i x y hs h k q =
      returned (perform_all (x11 keysym_to_keycode) (es ++ (e ∷ [])) i)
        (perform_all-AllTracked es e i hs h k)
    where
      returned :
          (r : Posted XEvent)
          → AllTracked e i r
          → (posted : List XEvent) × (i' : InputInjector) × (r ≡ some (posted, i'))
            × IsNear (x, y) (pointer d posted (last_of i))
      returned none t = absurd t
      returned (some (posted, i')) t =
          (posted, i', refl, subst (IsNear (x, y)) (sym t.0) (t.1 (x, y) q))
