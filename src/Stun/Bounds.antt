-- ===== src/Stun/Bounds.antt =====
-- app/src-tauri/src/stun.rs: no response makes the parser panic, and its loop ends.
use secure_desk.Base.{
  ℕ, zero, suc, ◌+◌, ◌≤◌, ◌<◌, ◌≢◌, List, arith, leb, ltb, ◌==◌, not, length, leb→le, ltb→le,
}
use secure_desk.Base.Outcome.{
  Outcome, err, ◌>>=◌, at, slice, Returns, Returns-bind, Returns-if, Returns-at, Returns-slice,
  bind-ne-err, if-ne-err,
}
use secure_desk.Base.Words.{from_be16}
use secure_desk.Transport.PeerInfo.{SocketAddr}
use secure_desk.Stun.{
  Error, out_of_fuel, parse_xor_mapped_address, parse_mapped_address, attribute_header,
  parse_attributes, parse_binding_response, padded, binding_response, attr_mapped_address,
  attr_xor_mapped_address,
}

parse_xor_mapped_address-Returns : (bytes : List ℕ) → Returns (parse_xor_mapped_address bytes)
unfolding parse_xor_mapped_address
parse_xor_mapped_address-Returns bytes =
    Returns-if (ltb (length bytes) 8) _ _ (λ _. tt)
      λ fits.
        let room : 8 ≤ length bytes = ltb→le _ _ fits in
        Returns-at bytes 1 _ (omega arith) λ family. Returns-at bytes 2 _ (omega arith) λ high.
          Returns-at bytes 3 _ (omega arith) λ low.
            Returns-if (family == 0x01) _ _
              (λ _. Returns-at bytes 4 _ (omega arith) λ a. Returns-at bytes 5 _ (omega arith) λ b.
                Returns-at bytes 6 _ (omega arith) λ c. Returns-at bytes 7 _ (omega arith) λ d. tt)
              (λ _.
                Returns-if (family == 0x02) _ _
                  (λ _. Returns-if (ltb (length bytes) 20) _ _ (λ _. tt) (λ _. tt)) (λ _. tt))

parse_mapped_address-Returns : (bytes : List ℕ) → Returns (parse_mapped_address bytes)
unfolding parse_mapped_address
parse_mapped_address-Returns bytes =
    Returns-if (ltb (length bytes) 8) _ _ (λ _. tt)
      λ fits.
        let room : 8 ≤ length bytes = ltb→le _ _ fits in
        Returns-at bytes 1 _ (omega arith) λ family. Returns-at bytes 2 _ (omega arith) λ high.
          Returns-at bytes 3 _ (omega arith) λ low.
            Returns-if (family == 0x01) _ _
              (λ _. Returns-at bytes 4 _ (omega arith) λ a. Returns-at bytes 5 _ (omega arith) λ b.
                Returns-at bytes 6 _ (omega arith) λ c. Returns-at bytes 7 _ (omega arith) λ d. tt)
              (λ _.
                Returns-if (family == 0x02) _ _
                  (λ _.
                    Returns-if (ltb (length bytes) 20) _ _ (λ _. tt)
                      λ long.
                        Returns-slice bytes 4 20 _ (omega arith) (ltb→le _ _ long) λ octets. tt)
                  (λ _. tt))

attribute_header-Returns :
    (bytes : List ℕ) (pos : ℕ) → pos + 4 ≤ length bytes → Returns (attribute_header bytes pos)
unfolding attribute_header
attribute_header-Returns bytes pos h = Returns-at bytes pos _ (omega arith) λ t.
    Returns-at bytes (pos + 1) _ (omega arith) λ u.
      Returns-at bytes (pos + 2) _ (omega arith)
        λ v. Returns-at bytes (pos + 3) _ (omega arith) λ w. tt

parse_attributes-Returns :
    (fuel : ℕ) (bytes : List ℕ) (end pos : ℕ)
    → end ≤ length bytes
    → Returns (parse_attributes fuel bytes end pos)
unfolding parse_attributes
parse_attributes-Returns zero bytes end pos h = tt
parse_attributes-Returns (suc fuel) bytes end pos h =
    Returns-if (leb (pos + 4) end) _ _
      (λ more.
        let room : pos + 4 ≤ end = leb→le _ _ more in
        Returns-bind (attribute_header bytes pos) _
          (attribute_header-Returns bytes pos (omega arith))
          λ head.
            Returns-if (ltb (length bytes) (pos + 4 + head.1)) _ _ (λ _. tt)
              λ fits.
                let inside : pos + 4 + head.1 ≤ length bytes = ltb→le _ _ fits in
                Returns-if (head.0 == attr_xor_mapped_address) _ _
                  (λ _.
                    Returns-slice bytes (pos + 4) (pos + 4 + head.1) _ (omega arith) inside
                      parse_xor_mapped_address-Returns)
                  (λ _.
                    Returns-if (head.0 == attr_mapped_address) _ _
                      (λ _.
                        Returns-slice bytes (pos + 4) (pos + 4 + head.1) _ (omega arith) inside
                          parse_mapped_address-Returns)
                      (λ _. parse_attributes-Returns fuel bytes end (pos + 4 + padded head.1) h)))
      (λ _. tt)

-- No bytes from the network make the parser panic: every index and slice is in range.
pub parse_binding_response-Returns : (bytes : List ℕ) → Returns (parse_binding_response bytes)
unfolding parse_binding_response
parse_binding_response-Returns bytes =
    Returns-if (ltb (length bytes) 20) _ _ (λ _. tt)
      λ long.
        let room : 20 ≤ length bytes = ltb→le _ _ long in
        Returns-at bytes 0 _ (omega arith) λ t. Returns-at bytes 1 _ (omega arith) λ u.
          Returns-if (not (from_be16 t u == binding_response)) _ _ (λ _. tt)
            λ _. Returns-at bytes 2 _ (omega arith) λ v. Returns-at bytes 3 _ (omega arith) λ w.
              Returns-if (ltb (length bytes) (20 + from_be16 v w)) _ _ (λ _. tt)
                λ fits.
                  parse_attributes-Returns (length bytes) bytes (20 + from_be16 v w) 20
                    (ltb→le _ _ fits)

xor_value-ne : (v : List ℕ) → parse_xor_mapped_address v ≢ err out_of_fuel
unfolding parse_xor_mapped_address
xor_value-ne v = ground arith

mapped_value-ne : (v : List ℕ) → parse_mapped_address v ≢ err out_of_fuel
unfolding parse_mapped_address
mapped_value-ne v = ground arith

attribute_header-ne-out_of_fuel :
    (bytes : List ℕ) (pos : ℕ) → attribute_header bytes pos ≢ err out_of_fuel
unfolding attribute_header
attribute_header-ne-out_of_fuel bytes pos = ground arith

value-ne-out_of_fuel :
    (parse : List ℕ → Outcome Error SocketAddr)
    → ((v : List ℕ) → parse v ≢ err out_of_fuel)
    → (bytes : List ℕ) (i j : ℕ) → (slice bytes i j >>= parse) ≢ err out_of_fuel
value-ne-out_of_fuel parse h bytes i j =
    bind-ne-err out_of_fuel (slice bytes i j) parse (ground arith) h

parse_attributes-ne-out_of_fuel :
    (fuel : ℕ) (bytes : List ℕ) (end pos : ℕ)
    → 0 < fuel
    → end < pos + fuel
    → parse_attributes fuel bytes end pos ≢ err out_of_fuel
unfolding parse_attributes
parse_attributes-ne-out_of_fuel zero bytes end pos h k = absurd (omega arith)
parse_attributes-ne-out_of_fuel (suc fuel) bytes end pos h k =
    if-ne-err out_of_fuel (leb (pos + 4) end) _ _
      (λ more.
        let room : pos + 4 ≤ end = leb→le _ _ more in
        bind-ne-err out_of_fuel (attribute_header bytes pos) _
          (attribute_header-ne-out_of_fuel bytes pos)
          λ head.
            if-ne-err out_of_fuel (ltb (length bytes) (pos + 4 + head.1)) _ _ (λ _ p. cc)
              λ _.
                if-ne-err out_of_fuel (head.0 == attr_xor_mapped_address) _ _
                  (λ _. value-ne-out_of_fuel parse_xor_mapped_address xor_value-ne bytes _ _)
                  (λ _.
                    if-ne-err out_of_fuel (head.0 == attr_mapped_address) _ _
                      (λ _. value-ne-out_of_fuel parse_mapped_address mapped_value-ne bytes _ _)
                      (λ _.
                        parse_attributes-ne-out_of_fuel fuel bytes end (pos + 4 + padded head.1)
                          (omega arith) (omega arith))))
      (λ _ p. cc)

-- The rounds given to the attribute loop are enough: it ends by one of its own conditions.
pub parse_binding_response-ne-out_of_fuel :
    (bytes : List ℕ) → parse_binding_response bytes ≢ err out_of_fuel
unfolding parse_binding_response
parse_binding_response-ne-out_of_fuel bytes =
    if-ne-err out_of_fuel (ltb (length bytes) 20) _ _ (λ _ p. cc)
      λ long. bind-ne-err out_of_fuel (at bytes 0) _ (ground arith) λ t.
        bind-ne-err out_of_fuel (at bytes 1) _ (ground arith) λ u.
          if-ne-err out_of_fuel (not (from_be16 t u == binding_response)) _ _ (λ _ p. cc)
            λ _. bind-ne-err out_of_fuel (at bytes 2) _ (ground arith) λ v.
              bind-ne-err out_of_fuel (at bytes 3) _ (ground arith) λ w.
                if-ne-err out_of_fuel (ltb (length bytes) (20 + from_be16 v w)) _ _ (λ _ p. cc)
                  λ fits.
                    parse_attributes-ne-out_of_fuel (length bytes) bytes (20 + from_be16 v w) 20
                      (omega (arith, ltb→le _ _ long)) (omega (arith, ltb→le _ _ fits))
