-- ===== src/Cli/Format.antt =====
-- app/src-tauri/src/cli.rs: the texts that are read from the arguments and printed.
use secure_desk.Base.{
  ℕ, ◌+◌, ◌-◌, ◌*◌, ◌^◌, Bool, true, false, ◌&&◌, ◌||◌, Option, none, some, List, [], ◌∷◌, ltb, leb,
  ◌==◌, if◌then◌else◌,
}
use secure_desk.Base.Text.{text_eq, ascii, decimal}
use secure_desk.License.{ℤ, pos, negsuc}

-- `to_lowercase` on ASCII. No other character has a letter of the words below as its lower case.
abbrev pub lower : ℕ → ℕ
lower b = if leb b'A' b && leb b b'Z' then b + 32 else b

abbrev pub to_lowercase : List ℕ → List ℕ
to_lowercase [] = []
to_lowercase (b ∷ bs) = lower b ∷ to_lowercase bs

unfoldable pub bool_value : List ℕ → Option Bool
bool_value value =
    let word = to_lowercase value in
    if text_eq word (ascii "true")
      || text_eq word (ascii "1")
      || text_eq word (ascii "yes")
      || text_eq word (ascii "on")
    then some true
    else if text_eq word (ascii "false")
        || text_eq word (ascii "0")
        || text_eq word (ascii "no")
        || text_eq word (ascii "off")
    then some false
    else none

-- The digits of a number below 2 ^ 32, behind `acc`
abbrev pub digits_value : ℕ → List ℕ → Option ℕ
digits_value acc [] = some acc
digits_value acc (d ∷ ds) =
    let longer = acc * 10 + (d - b'0') in
    let rest = digits_value longer ds in
    if leb b'0' d && leb d b'9' && ltb longer (2 ^ 32) then rest else none

abbrev pub unsigned : List ℕ → Option ℕ
unsigned [] = none
unsigned (d ∷ ds) = digits_value 0 (d ∷ ds)

-- `parse::<u32>`: at least one digit, behind a `+` or nothing
unfoldable pub parse_u32 : List ℕ → Option ℕ
parse_u32 [] = none
parse_u32 (b ∷ bs) = if b == b'+' then unsigned bs else unsigned (b ∷ bs)

abbrev pub bool_text : Bool → List ℕ
bool_text b = if b then ascii "true" else ascii "false"

-- `{}` of an `i64`
abbrev pub signed_text : ℤ → List ℕ
signed_text (pos n) = decimal n
signed_text (negsuc n) = b'-' ∷ decimal (n + 1)

-- `{:02}`
abbrev pub two_digits : ℕ → List ℕ
two_digits n = if ltb n 10 then b'0' ∷ decimal n else decimal n
