-- ===== src/Stun/Response.antt =====
-- app/src-tauri/src/stun.rs against the message format of RFC 5389: the parser finds the address.
use secure_desk.Base.{
  ℕ, zero, suc, ◌+◌, ◌/◌, ◌%◌, ◌^◌, ◌≤◌, ◌<◌, ◌≡◌, ◌≢◌, refl, sym, ap, ◌∙◌, List, [], ◌∷◌, ◌++◌,
  arith, length, length-append, append_assoc, bit_xor, All, le→ltb, le→leb, ne→==, ==_iff,
}
use secure_desk.Base.Bits.{bit_xor_twice, bit_xor-lt}
use secure_desk.Base.Outcome.{ok, slice, at-append, slice-append}
use secure_desk.Base.Words.{from_be32, to_be16, to_be32, as_u8, from_be16-bytes, from_be32-bytes}
use secure_desk.Transport.PeerInfo.{v4, IsAddr}
use secure_desk.Stun.{
  Error, parse_xor_mapped_address, attribute_header, parse_attributes, parse_binding_response,
  padded, binding_response, attr_mapped_address, attr_xor_mapped_address, port_mask, magic_cookie,
}

-- An attribute: type, length, value and the bytes up to a multiple of four.
pub record Attribute : Type 0 where
  pub kind : ℕ
  pub value : List ℕ
  pub padding : List ℕ

abbrev pub attribute_bytes : Attribute → List ℕ
attribute_bytes a = to_be16 a.kind ++ (to_be16 (length a.value) ++ (a.value ++ a.padding))

pub record IsWellFormed (a : Attribute) : Type 0 where
  pub kind_fits : a.kind < 65536
  pub value_fits : length a.value < 65536
  pub padding_short : length a.padding < 4
  pub aligned : (length a.value + length a.padding) % 4 ≡ 0

-- An attribute of a type that the parser does not know.
abbrev pub IsOther : Attribute → Type 0
IsOther a = IsWellFormed a × (a.kind ≢ attr_xor_mapped_address) × (a.kind ≢ attr_mapped_address)

abbrev pub attributes_bytes : List Attribute → List ℕ
attributes_bytes [] = []
attributes_bytes (a ∷ as_) = attribute_bytes a ++ attributes_bytes as_

-- The value of an IPv4 XOR-MAPPED-ADDRESS, with its reserved first byte.
abbrev pub xor_value : ℕ → ℕ → ℕ → ℕ → ℕ → ℕ → List ℕ
xor_value reserved a b c d port =
    reserved
    ∷ 1
    ∷ (to_be16 (bit_xor port port_mask) ++ to_be32 (bit_xor (from_be32 a b c d) magic_cookie))

v4_bytes :
    (a b c d port : ℕ)
    → IsAddr (v4 a b c d port)
    → v4
        (as_u8 (from_be32 a b c d / 16777216))
        (as_u8 (from_be32 a b c d / 65536))
        (as_u8 (from_be32 a b c d / 256))
        (as_u8 (from_be32 a b c d))
        port
      ≡ v4 a b c d port
v4_bytes a b c d port h = ground arith

parse_xor_mapped_address-xor_value :
    (reserved a b c d port : ℕ)
    → IsAddr (v4 a b c d port)
    → parse_xor_mapped_address (xor_value reserved a b c d port) ≡ ok (v4 a b c d port)
unfolding parse_xor_mapped_address
parse_xor_mapped_address-xor_value reserved a b c d port h =
    let ip = from_be32 a b c d in
    let mapped : bit_xor ip magic_cookie < 2 ^ 32 =
      bit_xor-lt 32 ip magic_cookie (omega arith) (omega arith) in
    let masked : bit_xor port port_mask < 2 ^ 16 =
      bit_xor-lt 16 port port_mask (omega arith) (omega arith) in
    rw
      (
        from_be32-bytes (bit_xor ip magic_cookie) mapped,
        bit_xor_twice 32 ip magic_cookie (omega arith) (omega arith),
        from_be16-bytes (bit_xor port port_mask) (omega arith),
        bit_xor_twice 16 port port_mask (omega arith) (omega arith),
      )
      (ap ok (v4_bytes a b c d port h))

length-attribute_bytes :
    (a : Attribute) → IsWellFormed a → length (attribute_bytes a) ≡ 4 + padded (length a.value)
length-attribute_bytes a h =
    omega (arith, length-append a.value a.padding, h.aligned, h.padding_short)

attribute_header-attribute_bytes :
    (pos : ℕ) (pre rest : List ℕ) (a : Attribute)
    → IsWellFormed a
    → pos ≡ length pre
    → attribute_header (pre ++ (attribute_bytes a ++ rest)) pos ≡ ok (a.kind, length a.value)
unfolding attribute_header
attribute_header-attribute_bytes pos pre rest a h hp = rw (
  at-append pre (attribute_bytes a ++ rest) pos 0 (omega arith),
  at-append pre (attribute_bytes a ++ rest) (pos + 1) 1 (omega arith),
  at-append pre (attribute_bytes a ++ rest) (pos + 2) 2 (omega arith),
  at-append pre (attribute_bytes a ++ rest) (pos + 3) 3 (omega arith),
  from_be16-bytes a.kind h.kind_fits,
  from_be16-bytes (length a.value) h.value_fits,
)

-- The bytes of an attribute end inside the data.
value-le :
    (pos : ℕ) (pre rest : List ℕ) (a : Attribute)
    → pos ≡ length pre
    → pos + 4 + length a.value ≤ length (pre ++ (attribute_bytes a ++ rest))
value-le pos pre rest a hp = omega (
  arith,
  length-append pre (attribute_bytes a ++ rest),
  length-append (a.value ++ a.padding) rest,
  length-append a.value a.padding,
)

-- The loop steps over an attribute of another type.
parse_attributes-other :
    (fuel end pos : ℕ) (pre rest : List ℕ) (a : Attribute)
    → IsOther a
    → pos ≡ length pre
    → pos + 4 ≤ end
    → parse_attributes (suc fuel) (pre ++ (attribute_bytes a ++ rest)) end pos
      ≡ parse_attributes fuel
          (pre ++ (attribute_bytes a ++ rest))
          end
          (pos + length (attribute_bytes a))
unfolding parse_attributes
parse_attributes-other fuel end pos pre rest a h hp hend =
    rw
      (
        le→leb (pos + 4) end hend,
        attribute_header-attribute_bytes pos pre rest a h.0 hp,
        le→ltb (length (pre ++ (attribute_bytes a ++ rest))) (pos + 4 + length a.value)
            (value-le pos pre rest a hp),
        ne→== a.kind attr_xor_mapped_address h.1,
        ne→== a.kind attr_mapped_address h.2,
      )
      (ap (parse_attributes fuel (pre ++ (attribute_bytes a ++ rest)) end)
        (omega (arith, length-attribute_bytes a h.0)))

-- Its value is the slice that the loop takes.
slice-value :
    (pos : ℕ) (pre rest : List ℕ) (a : Attribute)
    → pos ≡ length pre
    → slice {E = Error} (pre ++ (attribute_bytes a ++ rest)) (pos + 4) (pos + 4 + length a.value)
      ≡ ok a.value
slice-value pos pre rest a hp =
    let heads = to_be16 a.kind ++ to_be16 (length a.value) in
    let regroup : pre ++ (attribute_bytes a ++ rest)
        ≡ (pre ++ heads) ++ (a.value ++ (a.padding ++ rest)) =
      ap (λ t. pre ++ (heads ++ t)) (append_assoc a.value a.padding rest)
      ∙ sym (append_assoc pre heads (a.value ++ (a.padding ++ rest))) in
    ap (λ bytes. slice {E = Error} bytes (pos + 4) (pos + 4 + length a.value)) regroup
    ∙ slice-append (pre ++ heads) a.value (a.padding ++ rest) (pos + 4) (pos + 4 + length a.value)
        (omega (arith, length-append pre heads)) refl

-- The loop stops at the attribute that holds the address.
parse_attributes-xor :
    (fuel end pos : ℕ) (pre rest : List ℕ) (a : Attribute)
    → IsWellFormed a
    → a.kind ≡ attr_xor_mapped_address
    → pos ≡ length pre
    → pos + 4 ≤ end
    → parse_attributes (suc fuel) (pre ++ (attribute_bytes a ++ rest)) end pos
      ≡ parse_xor_mapped_address a.value
unfolding parse_attributes
parse_attributes-xor fuel end pos pre rest a h hk hp hend = rw (
  le→leb (pos + 4) end hend,
  attribute_header-attribute_bytes pos pre rest a h hp,
  le→ltb (length (pre ++ (attribute_bytes a ++ rest))) (pos + 4 + length a.value)
      (value-le pos pre rest a hp),
  (==_iff a.kind attr_xor_mapped_address).1 hk,
  slice-value pos pre rest a hp,
)

-- It steps over any number of others on the way.
parse_attributes-others :
    (others : List Attribute) (fuel end pos : ℕ) (pre rest : List ℕ) (a : Attribute)
    → All IsOther others
    → IsWellFormed a
    → a.kind ≡ attr_xor_mapped_address
    → length others < fuel
    → pos ≡ length pre
    → pos + length (attributes_bytes others) + 4 ≤ end
    → parse_attributes fuel
        (pre ++ (attributes_bytes others ++ (attribute_bytes a ++ rest)))
        end
        pos
      ≡ parse_xor_mapped_address a.value
parse_attributes-others others zero end pos pre rest a ho h hk hf hp hend = absurd (omega arith)
parse_attributes-others [] (suc fuel) end pos pre rest a ho h hk hf hp hend =
    parse_attributes-xor fuel end pos pre rest a h hk hp (omega arith)
parse_attributes-others (o ∷ os) (suc fuel) end pos pre rest a ho h hk hf hp hend =
    let tail = attributes_bytes os ++ (attribute_bytes a ++ rest) in
    let size = length-append (attribute_bytes o) (attributes_bytes os) in
    let next = pos + length (attribute_bytes o) in
    ap (λ t. parse_attributes (suc fuel) (pre ++ t) end pos)
      (append_assoc (attribute_bytes o) (attributes_bytes os) (attribute_bytes a ++ rest))
    ∙ parse_attributes-other fuel end pos pre tail o ho.0 hp (omega (arith, size))
    ∙ ap (λ t. parse_attributes fuel t end next) (sym (append_assoc pre (attribute_bytes o) tail))
    ∙ parse_attributes-others os fuel end next (pre ++ attribute_bytes o) rest a ho.1 h hk
        (omega arith) (omega (arith, length-append pre (attribute_bytes o))) (omega (arith, size))

length-others : (others : List Attribute) → length others ≤ length (attributes_bytes others)
length-others [] = omega arith
length-others (o ∷ os) =
    omega (arith, length-others os, length-append (attribute_bytes o) (attributes_bytes os))

-- A response in the format of RFC 5389: the type, the length of the attributes, the cookie and the
-- transaction id (16 bytes), the attributes, and whatever the datagram holds behind them.
abbrev pub response : List ℕ → List ℕ → List ℕ
response cookie_and_id attributes =
    to_be16 binding_response ++ (to_be16 (length attributes) ++ (cookie_and_id ++ attributes))

parse_binding_response-attributes :
    (id attributes : List ℕ)
    → length id ≡ 16
    → length attributes < 65536
    → parse_binding_response (response id attributes)
      ≡ parse_attributes
          (length (response id attributes))
          (response id attributes)
          (20 + length attributes)
          20
unfolding parse_binding_response
parse_binding_response-attributes id attributes h small =
    let total : length (response id attributes) ≡ 20 + length attributes =
      omega (arith, length-append id attributes) in
    rw (
      le→ltb (length (response id attributes)) 20 (omega (arith, total)),
      from_be16-bytes (length attributes) small,
      le→ltb (length (response id attributes)) (20 + length attributes) (omega (arith, total)),
    )

-- The XOR-MAPPED-ADDRESS attribute of an IPv4 address.
abbrev pub xor_attribute : ℕ → ℕ → ℕ → ℕ → ℕ → ℕ → Attribute
xor_attribute reserved a b c d port = record {
  kind = attr_xor_mapped_address;
  value = xor_value reserved a b c d port;
  padding = [];
}

-- The attributes of a response that holds an address, behind others and before further bytes.
abbrev pub with_address : List Attribute → Attribute → List ℕ → List ℕ
with_address others a rest = attributes_bytes others ++ (attribute_bytes a ++ rest)

-- From a response in the format of RFC 5389 the parser gives the IPv4 address of the first
-- XOR-MAPPED-ADDRESS attribute, behind any well-formed attributes of types other than that and
-- MAPPED-ADDRESS, and before any further attributes; whatever the 16 bytes of cookie and transaction id.
pub parse_binding_response-response :
    (id : List ℕ) (others : List Attribute) (rest : List ℕ) (reserved a b c d port : ℕ)
    → length id ≡ 16
    → All IsOther others
    → IsAddr (v4 a b c d port)
    → length (with_address others (xor_attribute reserved a b c d port) rest) < 65536
    → parse_binding_response
        (response id (with_address others (xor_attribute reserved a b c d port) rest))
      ≡ ok (v4 a b c d port)
parse_binding_response-response id others rest reserved a b c d port hid ho h small =
    let x = xor_attribute reserved a b c d port in
    let attributes = with_address others x rest in
    let head = to_be16 binding_response ++ to_be16 (length attributes) in
    let bytes = response id attributes in
    let sizes = length-append (attributes_bytes others) (attribute_bytes x ++ rest) in
    parse_binding_response-attributes id attributes hid small
    ∙ ap (λ t. parse_attributes (length bytes) t (20 + length attributes) 20)
        (sym (append_assoc head id attributes))
    ∙ parse_attributes-others others (length bytes) (20 + length attributes) 20 (head ++ id) rest x
        ho (omega arith) refl
        (omega (arith, length-append id attributes, sizes, length-others others))
        (omega (arith, hid)) (omega (arith, sizes))
    ∙ parse_xor_mapped_address-xor_value reserved a b c d port h
