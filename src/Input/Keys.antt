-- ===== src/Input/Keys.antt =====
-- app/src-tauri/src/input.rs: the tables of keys, from a virtual key of Windows to a key code of macOS and to a keysym
-- of X11. A table has a row for each arm of the match; a key that has no arm is passed through.
pub mod Injective
use secure_desk.Base.{
  ℕ, ◌+◌, Bool, Option, none, some, List, [], ◌∷◌, leb, ◌==◌, ◌&&◌, if◌then◌else◌,
}

abbrev pub find_key : ℕ → List (ℕ × ℕ) → Option ℕ
find_key vk [] = none
find_key vk (row ∷ rows) = let rest = find_key vk rows in if vk == row.0 then some row.1 else rest

abbrev pub mac_keys : List (ℕ × ℕ)
mac_keys =
    (0x41, 0x00)
    ∷ (0x42, 0x0b)
    ∷ (0x43, 0x08)
    ∷ (0x44, 0x02)
    ∷ (0x45, 0x0e)
    ∷ (0x46, 0x03)
    ∷ (0x47, 0x05)
    ∷ (0x48, 0x04)
    ∷ (0x49, 0x22)
    ∷ (0x4a, 0x26)
    ∷ (0x4b, 0x28)
    ∷ (0x4c, 0x25)
    ∷ (0x4d, 0x2e)
    ∷ (0x4e, 0x2d)
    ∷ (0x4f, 0x1f)
    ∷ (0x50, 0x23)
    ∷ (0x51, 0x0c)
    ∷ (0x52, 0x0f)
    ∷ (0x53, 0x01)
    ∷ (0x54, 0x11)
    ∷ (0x55, 0x20)
    ∷ (0x56, 0x09)
    ∷ (0x57, 0x0d)
    ∷ (0x58, 0x07)
    ∷ (0x59, 0x10)
    ∷ (0x5a, 0x06)
    ∷ (0x30, 0x1d)
    ∷ (0x31, 0x12)
    ∷ (0x32, 0x13)
    ∷ (0x33, 0x14)
    ∷ (0x34, 0x15)
    ∷ (0x35, 0x17)
    ∷ (0x36, 0x16)
    ∷ (0x37, 0x1a)
    ∷ (0x38, 0x1c)
    ∷ (0x39, 0x19)
    ∷ (0x70, 0x7a)
    ∷ (0x71, 0x78)
    ∷ (0x72, 0x63)
    ∷ (0x73, 0x76)
    ∷ (0x74, 0x60)
    ∷ (0x75, 0x61)
    ∷ (0x76, 0x62)
    ∷ (0x77, 0x64)
    ∷ (0x78, 0x65)
    ∷ (0x79, 0x6d)
    ∷ (0x7a, 0x67)
    ∷ (0x7b, 0x6f)
    ∷ (0x08, 0x33)
    ∷ (0x09, 0x30)
    ∷ (0x0d, 0x24)
    ∷ (0x10, 0x38)
    ∷ (0x11, 0x3b)
    ∷ (0x12, 0x3a)
    ∷ (0x14, 0x39)
    ∷ (0x1b, 0x35)
    ∷ (0x20, 0x31)
    ∷ (0x25, 0x7b)
    ∷ (0x26, 0x7e)
    ∷ (0x27, 0x7c)
    ∷ (0x28, 0x7d)
    ∷ (0x2e, 0x75)
    ∷ (0x24, 0x73)
    ∷ (0x23, 0x77)
    ∷ (0x21, 0x74)
    ∷ (0x22, 0x79)
    ∷ []

unfoldable pub windows_vk_to_mac : ℕ → ℕ
windows_vk_to_mac vk = elim (find_key vk mac_keys) [ none ↦ vk | some code ↦ code ]

abbrev pub x11_keys : List (ℕ × ℕ)
x11_keys =
    (0x70, 0xffbe)
    ∷ (0x71, 0xffbf)
    ∷ (0x72, 0xffc0)
    ∷ (0x73, 0xffc1)
    ∷ (0x74, 0xffc2)
    ∷ (0x75, 0xffc3)
    ∷ (0x76, 0xffc4)
    ∷ (0x77, 0xffc5)
    ∷ (0x78, 0xffc6)
    ∷ (0x79, 0xffc7)
    ∷ (0x7a, 0xffc8)
    ∷ (0x7b, 0xffc9)
    ∷ (0x08, 0xff08)
    ∷ (0x09, 0xff09)
    ∷ (0x0d, 0xff0d)
    ∷ (0x10, 0xffe1)
    ∷ (0x11, 0xffe3)
    ∷ (0x12, 0xffe9)
    ∷ (0x14, 0xffe5)
    ∷ (0x1b, 0xff1b)
    ∷ (0x20, 0x0020)
    ∷ (0x25, 0xff51)
    ∷ (0x26, 0xff52)
    ∷ (0x27, 0xff53)
    ∷ (0x28, 0xff54)
    ∷ (0x2e, 0xffff)
    ∷ (0x2d, 0xff63)
    ∷ (0x24, 0xff50)
    ∷ (0x23, 0xff57)
    ∷ (0x21, 0xff55)
    ∷ (0x22, 0xff56)
    ∷ (0x60, 0xffb0)
    ∷ (0x61, 0xffb1)
    ∷ (0x62, 0xffb2)
    ∷ (0x63, 0xffb3)
    ∷ (0x64, 0xffb4)
    ∷ (0x65, 0xffb5)
    ∷ (0x66, 0xffb6)
    ∷ (0x67, 0xffb7)
    ∷ (0x68, 0xffb8)
    ∷ (0x69, 0xffb9)
    ∷ (0x6a, 0xffaa)
    ∷ (0x6b, 0xffab)
    ∷ (0x6d, 0xffad)
    ∷ (0x6e, 0xffae)
    ∷ (0x6f, 0xffaf)
    ∷ (0x5b, 0xffeb)
    ∷ (0x5c, 0xffec)
    ∷ (0x5d, 0xff67)
    ∷ (0x90, 0xff7f)
    ∷ (0x91, 0xff14)
    ∷ (0xba, 0x003b)
    ∷ (0xbb, 0x003d)
    ∷ (0xbc, 0x002c)
    ∷ (0xbd, 0x002d)
    ∷ (0xbe, 0x002e)
    ∷ (0xbf, 0x002f)
    ∷ (0xc0, 0x0060)
    ∷ (0xdb, 0x005b)
    ∷ (0xdc, 0x005c)
    ∷ (0xdd, 0x005d)
    ∷ (0xde, 0x0027)
    ∷ (0x2c, 0xff61)
    ∷ (0x13, 0xff13)
    ∷ []

unfoldable pub windows_vk_to_x11_keysym : ℕ → ℕ
windows_vk_to_x11_keysym vk =
    if leb 0x41 vk && leb vk 0x5a
    then vk + 0x20
    else if leb 0x30 vk && leb vk 0x39
    then vk
    else elim (find_key vk x11_keys) [ none ↦ vk | some keysym ↦ keysym ]
