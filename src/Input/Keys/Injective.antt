-- ===== src/Input/Keys/Injective.antt =====
-- app/src-tauri/src/input.rs: two keys that have an arm in a table never share a code.
use secure_desk.Base.{
  ℕ, ◌+◌, ◌≡◌, ◌⊎◌, inl, inr, refl, sym, ap, ◌∙◌, Bool, true, false, Option, none, some, List, [],
  ◌∷◌, leb, ◌==◌, ◌&&◌, not, if◌then◌else◌, arith, Option-cases,
}
use secure_desk.Input.Keys.{
  find_key, mac_keys, windows_vk_to_mac, x11_keys, windows_vk_to_x11_keysym,
}

abbrev swapped : List (ℕ × ℕ) → List (ℕ × ℕ)
swapped [] = []
swapped (row ∷ rows) = (row.1, row.0) ∷ swapped rows

abbrev every : (ℕ × ℕ → Bool) → List (ℕ × ℕ) → Bool
every p [] = true
every p (row ∷ rows) = let rest = every p rows in if p row then rest else false

every-find_key :
    (p : ℕ × ℕ → Bool) (vk code : ℕ) (rows : List (ℕ × ℕ))
    → every p rows ≡ true
    → find_key vk rows ≡ some code
    → p (vk, code) ≡ true
every-find_key p vk code [] h e = cc
every-find_key p vk code ((k, c) ∷ rows) h e = ground (arith, every-find_key p vk code rows)

is_some_of : ℕ → Option ℕ → Bool
is_some_of n none = false
is_some_of n (some m) = m == n

is_some_of_sound : (n : ℕ) (o : Option ℕ) → is_some_of n o ≡ true → o ≡ some n
unfolding is_some_of
is_some_of_sound n none h = cc
is_some_of_sound n (some m) h = ground arith

-- Where the second components are distinct, a row is found by either.
find_key-swapped :
    (rows : List (ℕ × ℕ)) (vk code : ℕ)
    → every (λ row. is_some_of row.0 (find_key row.1 (swapped rows))) rows ≡ true
    → find_key vk rows ≡ some code
    → find_key code (swapped rows) ≡ some vk
find_key-swapped rows vk code h e = is_some_of_sound vk _ (every-find_key _ vk code rows h e)

find_key_injective :
    (rows : List (ℕ × ℕ)) (a b code : ℕ)
    → every (λ row. is_some_of row.0 (find_key row.1 (swapped rows))) rows ≡ true
    → find_key a rows ≡ some code
    → find_key b rows ≡ some code
    → a ≡ b
find_key_injective rows a b code h p q =
    let back = sym (find_key-swapped rows a code h p) ∙ find_key-swapped rows b code h q in cc

mac_keys_distinct :
    every (λ row. is_some_of row.0 (find_key row.1 (swapped mac_keys))) mac_keys ≡ true
unfolding is_some_of
mac_keys_distinct = refl

x11_keys_distinct :
    every (λ row. is_some_of row.0 (find_key row.1 (swapped x11_keys))) x11_keys ≡ true
unfolding is_some_of
x11_keys_distinct = refl

windows_vk_to_mac-find :
    (vk code : ℕ) → find_key vk mac_keys ≡ some code → windows_vk_to_mac vk ≡ code
unfolding windows_vk_to_mac
windows_vk_to_mac-find vk code e = rw (e, windows_vk_to_mac) refl

-- Two keys for which macOS gets the same code are one key, or one of them has no arm and is passed through.
pub windows_vk_to_mac_shared :
    (a b : ℕ)
    → windows_vk_to_mac a ≡ windows_vk_to_mac b
    → (a ≡ b) ⊎ ((find_key a mac_keys ≡ none) ⊎ (find_key b mac_keys ≡ none))
windows_vk_to_mac_shared a b e = elim (Option-cases (find_key a mac_keys)) [
  | inl no_arm ↦ inr (inl no_arm)
  | inr (k, f) ↦ elim (Option-cases (find_key b mac_keys)) [
    | inl no_arm ↦ inr (inr no_arm)
    | inr (l, g) ↦
        let fa = windows_vk_to_mac-find a k f in
        let fb = windows_vk_to_mac-find b l g in
        let same : l ≡ k = cc in
        inl (find_key_injective mac_keys a b k mac_keys_distinct f (g ∙ ap (λ n. some n) same))
  ]
]

abbrev is_letter : ℕ → Bool
is_letter vk = leb 0x41 vk && leb vk 0x5a

abbrev is_digit : ℕ → Bool
is_digit vk = leb 0x30 vk && leb vk 0x39

-- A key that has an arm in windows_vk_to_x11_keysym
abbrev pub HasArm : ℕ → Type 0
HasArm vk =
    (is_letter vk ≡ true)
    ⊎ ((is_digit vk ≡ true) ⊎ ((keysym : ℕ) × (find_key vk x11_keys ≡ some keysym)))

-- The keysyms of the table are those of no letter and of no digit.
apart : ℕ × ℕ → Bool
apart row = not (leb 0x61 row.1 && leb row.1 0x7a) && not (leb 0x30 row.1 && leb row.1 0x39)

x11_keys-apart : every apart x11_keys ≡ true
unfolding apart
x11_keys-apart = refl

-- A row of the table is found for no letter and no digit.
apart_key : ℕ × ℕ → Bool
apart_key row = not (is_letter row.0) && not (is_digit row.0)

x11_keys-apart_key : every apart_key x11_keys ≡ true
unfolding apart_key
x11_keys-apart_key = refl

windows_vk_to_x11_keysym-find :
    (vk keysym : ℕ)
    → find_key vk x11_keys ≡ some keysym
    → (windows_vk_to_x11_keysym vk ≡ keysym)
      × (not (leb 0x61 keysym && leb keysym 0x7a) ≡ true)
      × (not (leb 0x30 keysym && leb keysym 0x39) ≡ true)
unfolding windows_vk_to_x11_keysym apart apart_key
windows_vk_to_x11_keysym-find vk keysym e = ground (
  arith,
  every-find_key apart vk keysym x11_keys x11_keys-apart e,
  every-find_key apart_key vk keysym x11_keys x11_keys-apart_key e,
)

windows_vk_to_x11_keysym_letter :
    (vk : ℕ) → is_letter vk ≡ true → windows_vk_to_x11_keysym vk ≡ vk + 0x20
unfolding windows_vk_to_x11_keysym
windows_vk_to_x11_keysym_letter vk e = ground arith

windows_vk_to_x11_keysym_digit : (vk : ℕ) → is_digit vk ≡ true → windows_vk_to_x11_keysym vk ≡ vk
unfolding windows_vk_to_x11_keysym
windows_vk_to_x11_keysym_digit vk e = ground arith

-- Two different keys that have an arm never get the same keysym from X11's table.
pub windows_vk_to_x11_keysym_injective :
    (a b : ℕ)
    → HasArm a
    → HasArm b
    → windows_vk_to_x11_keysym a ≡ windows_vk_to_x11_keysym b
    → a ≡ b
windows_vk_to_x11_keysym_injective a b (inl la) (inl lb) e =
    ground (arith, windows_vk_to_x11_keysym_letter a la, windows_vk_to_x11_keysym_letter b lb)
windows_vk_to_x11_keysym_injective a b (inl la) (inr (inl db)) e =
    ground (arith, windows_vk_to_x11_keysym_letter a la, windows_vk_to_x11_keysym_digit b db)
windows_vk_to_x11_keysym_injective a b (inr (inl da)) (inl lb) e =
    ground (arith, windows_vk_to_x11_keysym_digit a da, windows_vk_to_x11_keysym_letter b lb)
windows_vk_to_x11_keysym_injective a b (inr (inl da)) (inr (inl db)) e =
    ground (arith, windows_vk_to_x11_keysym_digit a da, windows_vk_to_x11_keysym_digit b db)
windows_vk_to_x11_keysym_injective a b (inl la) (inr (inr (k, f))) e =
    ground (arith, windows_vk_to_x11_keysym_letter a la, windows_vk_to_x11_keysym-find b k f)
windows_vk_to_x11_keysym_injective a b (inr (inr (k, f))) (inl lb) e =
    ground (arith, windows_vk_to_x11_keysym_letter b lb, windows_vk_to_x11_keysym-find a k f)
windows_vk_to_x11_keysym_injective a b (inr (inl da)) (inr (inr (k, f))) e =
    ground (arith, windows_vk_to_x11_keysym_digit a da, windows_vk_to_x11_keysym-find b k f)
windows_vk_to_x11_keysym_injective a b (inr (inr (k, f))) (inr (inl db)) e =
    ground (arith, windows_vk_to_x11_keysym_digit b db, windows_vk_to_x11_keysym-find a k f)
windows_vk_to_x11_keysym_injective a b (inr (inr (k, f))) (inr (inr (l, g))) e =
    let fa = (windows_vk_to_x11_keysym-find a k f).0 in
    let fb = (windows_vk_to_x11_keysym-find b l g).0 in
    let same : l ≡ k = cc in
    find_key_injective x11_keys a b k x11_keys_distinct f (g ∙ ap (λ n. some n) same)
