-- ===== src/Sso/Url.antt =====
-- app/src-tauri/src/sso.rs: the module `urlencoding`, and the parameters of a query.
use secure_desk.Base.{
  ℕ, ◌+◌, ◌-◌, ◌*◌, ◌/◌, ◌%◌, ◌<◌, ◌≡◌, refl, ap, ◌∙◌, Bool, true, false, ◌&&◌, ◌||◌, Option, none,
  some, List, [], ◌∷◌, ltb, leb, ◌==◌, if◌then◌else◌, if-true, if-false, Bool-cases, inl, inr, sym,
  arith,
}
use secure_desk.Base.Words.{IsBytes}
use secure_desk.Base.Text.{text_eq, text_eq_refl}
use secure_desk.Base.Assoc.{Assoc, insert}
use secure_desk.Base.Utf8.{IsText, from_utf8_lossy}

-- The bytes that stand for themselves
abbrev pub is_unreserved : ℕ → Bool
is_unreserved b =
    (leb b'A' b && leb b b'Z')
    || ((leb b'a' b && leb b b'z')
        || ((leb b'0' b && leb b b'9')
            || ((b == b'-') || ((b == b'_') || ((b == b'.') || (b == b'~'))))))

-- A digit of `{:02X}`
abbrev pub hex_digit : ℕ → ℕ
hex_digit d = if ltb d 10 then b'0' + d else b'A' + (d - 10)

unfoldable pub encode : List ℕ → List ℕ
encode [] = []
encode (b ∷ bs) =
    let rest = encode bs in
    if is_unreserved b then b ∷ rest else b'%' ∷ hex_digit (b / 16) ∷ hex_digit (b % 16) ∷ rest

abbrev pub hex_value : ℕ → Option ℕ
hex_value c =
    if leb b'0' c && leb c b'9'
    then some (c - b'0')
    else if leb b'A' c && leb c b'F'
    then some (c - b'A' + 10)
    else if leb b'a' c && leb c b'f'
    then some (c - b'a' + 10)
    else none

-- `u8::from_str_radix` of two characters, which also takes a sign in front of a digit.
abbrev pub hex_byte : ℕ → ℕ → ℕ
hex_byte high low = elim (hex_value low) [
  | none ↦ 0
  | some l ↦ elim (hex_value high) [ none ↦ if high == b'+' then l else 0 | some h ↦ h * 16 + l ]
]

-- A missing character after `%` counts as a zero byte.
unfoldable pub decode_bytes : List ℕ → List ℕ
decode_bytes [] = []
decode_bytes (b ∷ []) = (if b == b'%' then 0 else if b == b'+' then b' ' else b) ∷ []
decode_bytes (b ∷ c ∷ []) =
    let rest = decode_bytes (c ∷ []) in
    if b == b'%' then hex_byte c 0 ∷ [] else (if b == b'+' then b' ' else b) ∷ rest
decode_bytes (b ∷ c ∷ d ∷ bs) =
    let rest = decode_bytes (c ∷ d ∷ bs) in
    let behind = decode_bytes bs in
    if b == b'%' then hex_byte c d ∷ behind else (if b == b'+' then b' ' else b) ∷ rest

-- `String::from_utf8`
unfoldable pub decode : List ℕ → Option (List ℕ)
unfolding decode_bytes from_utf8_lossy
decode text =
    let bytes = decode_bytes text in
    if text_eq (from_utf8_lossy bytes) bytes then some bytes else none

-- `split`, the first part first
abbrev pub add_to_first : ℕ → List (List ℕ) → List (List ℕ)
add_to_first b [] = (b ∷ []) ∷ []
add_to_first b (part ∷ parts) = (b ∷ part) ∷ parts

unfoldable pub split_on : ℕ → List ℕ → List (List ℕ)
split_on c [] = [] ∷ []
split_on c (b ∷ bs) = let rest = split_on c bs in if b == c then [] ∷ rest else add_to_first b rest

-- `splitn(2, '=')`: the text before the first `=`, and the text behind it
unfoldable pub key_value : List ℕ → List ℕ × List ℕ
key_value [] = ([], [])
key_value (b ∷ bs) = let rest = key_value bs in if b == b'=' then ([], bs) else (b ∷ rest.0, rest.1)

-- The pairs whose key and value are decoded; of equal keys the last counts.
unfoldable pub add_pair : Option (List ℕ) → Option (List ℕ) → Assoc (List ℕ) → Assoc (List ℕ)
unfolding insert
add_pair none value m = m
add_pair (some key) none m = m
add_pair (some key) (some value) m = insert key value m

unfoldable pub collect : List (List ℕ) → Assoc (List ℕ) → Assoc (List ℕ)
unfolding key_value decode add_pair
collect [] m = m
collect (pair ∷ pairs) m =
    collect pairs (add_pair (decode (key_value pair).0) (decode (key_value pair).1) m)

unfoldable pub query_params : List ℕ → Assoc (List ℕ)
unfolding split_on collect
query_params query = collect (split_on b'&' query) []

hex_value-hex_digit : (d : ℕ) → d < 16 → hex_value (hex_digit d) ≡ some d
hex_value-hex_digit d h = ground (arith, h)

hex_byte-hex_digit : (b : ℕ) → b < 256 → hex_byte (hex_digit (b / 16)) (hex_digit (b % 16)) ≡ b
hex_byte-hex_digit b h = ground (
  arith,
  h,
  hex_value-hex_digit (b / 16) (omega arith),
  hex_value-hex_digit (b % 16) (omega arith),
)

decode_bytes-plain :
    (b : ℕ) (bs : List ℕ)
    → (b == b'%') ≡ false
    → (b == b'+') ≡ false
    → decode_bytes (b ∷ bs) ≡ b ∷ decode_bytes bs
unfolding decode_bytes
decode_bytes-plain b [] e e' = rw (e, e') refl
decode_bytes-plain b (c ∷ []) e e' = rw (e, e') refl
decode_bytes-plain b (c ∷ d ∷ bs) e e' = rw (e, e') refl

-- Neither of the two bytes that are decoded specially stands for itself.
unreserved_ne : (b c : ℕ) → is_unreserved c ≡ false → is_unreserved b ≡ true → (b == c) ≡ false
unreserved_ne b c reserved plain = elim (Bool-cases (b == c)) [
  | inl same ↦
      let e : b ≡ c = ground (arith, same) in
      let clash : true ≡ false = sym plain ∙ ap is_unreserved e ∙ reserved in cc
  | inr other ↦ other
]

decode_bytes-encode : (s : List ℕ) → IsBytes s → decode_bytes (encode s) ≡ s
unfolding decode_bytes encode
decode_bytes-encode [] h = refl
decode_bytes-encode (b ∷ bs) h = elim (Bool-cases (is_unreserved b)) [
  | inl e ↦
      ap decode_bytes (if-true (is_unreserved b) _ _ e)
      ∙ decode_bytes-plain b (encode bs) (unreserved_ne b b'%' refl e) (unreserved_ne b b'+' refl e)
      ∙ ap (λ r. b ∷ r) (decode_bytes-encode bs h.1)
  | inr e ↦
      ap decode_bytes (if-false (is_unreserved b) _ _ e)
      ∙ ap (λ c. c ∷ decode_bytes (encode bs)) (hex_byte-hex_digit b h.0)
      ∙ ap (λ r. b ∷ r) (decode_bytes-encode bs h.1)
]

-- A text that is encoded is decoded to itself.
pub decode-encode : (s : List ℕ) → IsBytes s → IsText s → decode (encode s) ≡ some s
unfolding decode
decode-encode s bytes text =
    let same = decode_bytes-encode s bytes in rw (same, text, text_eq_refl s) refl
