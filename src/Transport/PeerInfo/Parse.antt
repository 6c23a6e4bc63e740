-- ===== src/Transport/PeerInfo/Parse.antt =====
-- app/src-tauri/src/transport.rs: `P2PInfo::decode` on data from anywhere.
use secure_desk.Base.{
  ℕ, zero, suc, ltb→le, ◌+◌, ◌<◌, ◌≤◌, ◌≡◌, true, List, [], ◌∷◌, ltb, ◌==◌, length, arith,
}
use secure_desk.Base.Outcome.{
  Returns, Returns-bind, Returns-if, Returns-at, Returns-slice, Returns-slice_from,
}
use secure_desk.Transport.PeerInfo.{decode_addr, addr_at, has_addr, local_pos, decode}

decode_addr-Returns : (bytes : List ℕ) → Returns (decode_addr bytes)
unfolding decode_addr
decode_addr-Returns [] = tt
decode_addr-Returns (version ∷ rest) =
    let bytes = version ∷ rest in
    Returns-if (version == 4) _ _
      (λ _.
        Returns-if (ltb (length bytes) 7) _ _ (λ _. tt)
          λ fits.
            let room : 7 ≤ length bytes = ltb→le _ _ fits in
            Returns-at bytes 1 _ (omega arith) λ a. Returns-at bytes 2 _ (omega arith) λ b.
              Returns-at bytes 3 _ (omega arith) λ c. Returns-at bytes 4 _ (omega arith) λ d.
                Returns-at bytes 5 _ (omega arith)
                  λ high. Returns-at bytes 6 _ (omega arith) λ low. tt)
      (λ _.
        Returns-if (version == 6) _ _
          (λ _.
            Returns-if (ltb (length bytes) 19) _ _ (λ _. tt)
              λ fits.
                let room : 19 ≤ length bytes = ltb→le _ _ fits in
                Returns-slice bytes 1 17 _ (omega arith) (omega arith) λ octets.
                  Returns-at bytes 17 _ (omega arith)
                    λ high. Returns-at bytes 18 _ (omega arith) λ low. tt)
          (λ _. tt))

has_addr-lt : (bytes : List ℕ) (pos : ℕ) → has_addr bytes pos ≡ true → pos < length bytes
unfolding has_addr
has_addr-lt [] pos h = cc
has_addr-lt (x ∷ xs) zero h = omega arith
has_addr-lt (x ∷ xs) (suc pos) h = omega (arith, has_addr-lt xs pos h)

addr_at-Returns : (bytes : List ℕ) (pos : ℕ) → Returns (addr_at bytes pos)
unfolding addr_at
addr_at-Returns bytes pos =
    Returns-if (has_addr bytes pos) _ _
      (λ flagged.
        Returns-slice_from bytes (pos + 1) _ (omega (arith, has_addr-lt bytes pos flagged))
          λ rest. Returns-bind (decode_addr rest) _ (decode_addr-Returns rest) λ addr. tt)
      (λ _. tt)

-- No data makes `decode` panic: it gives an information or an error.
pub decode-Returns : (bytes : List ℕ) → Returns (decode bytes)
unfolding decode
decode-Returns [] = tt
decode-Returns (flag ∷ rest) =
    Returns-bind (addr_at (flag ∷ rest) 1) _ (addr_at-Returns (flag ∷ rest) 1) λ p.
      Returns-bind (addr_at (flag ∷ rest) (local_pos (flag ∷ rest) p)) _ (addr_at-Returns _ _)
        λ l. tt
