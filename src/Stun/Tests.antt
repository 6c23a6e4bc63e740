-- ===== src/Stun/Tests.antt =====
-- Runs of app/src-tauri/src/stun.rs, and its theorems at a concrete response.
use secure_desk.Base.{ℕ, ◌≡◌, ◌≢◌, refl, List, [], ◌∷◌, arith, length}
use secure_desk.Base.Outcome.{ok, err, Returns}
use secure_desk.Transport.PeerInfo.{v4}
use secure_desk.Stun.{
  build_binding_request, parse_binding_response, attribute_header, parse_attributes,
  parse_xor_mapped_address, xor_v6_not_implemented, out_of_fuel, no_mapped_address,
}
use secure_desk.Stun.Bounds.{parse_binding_response-Returns, parse_binding_response-ne-out_of_fuel}
use secure_desk.Stun.Response.{
  Attribute, response, with_address, xor_attribute, parse_binding_response-response,
}

abbrev id : List ℕ
id = 33 ∷ 18 ∷ 164 ∷ 66 ∷ 1 ∷ 2 ∷ 3 ∷ 4 ∷ 5 ∷ 6 ∷ 7 ∷ 8 ∷ 9 ∷ 10 ∷ 11 ∷ 12 ∷ []

-- SOFTWARE, of five bytes and three of padding
abbrev software : Attribute
software = record { kind = 0x8022; value = 97 ∷ 98 ∷ 99 ∷ 100 ∷ 101 ∷ []; padding = 0 ∷ 0 ∷ 0 ∷ [] }

request_length : length (build_binding_request (3 ∷ 4 ∷ [])) ≡ 10
unfolding build_binding_request
request_length = refl

no_attributes : parse_binding_response (response id []) ≡ err no_mapped_address
unfolding parse_binding_response parse_attributes attribute_header
no_attributes = refl

-- An IPv6 XOR-MAPPED-ADDRESS ends the search, also in front of a MAPPED-ADDRESS.
no_fallback :
    parse_binding_response (
      response id (
        0 ∷ 32 ∷ 0 ∷ 20 ∷ 0 ∷ 2 ∷ 1 ∷ 1 ∷ 1 ∷ 1 ∷ 1 ∷ 1 ∷ 1 ∷ 1 ∷ 1 ∷ 1 ∷ 1 ∷ 1 ∷ 1 ∷ 1 ∷ 1 ∷ 1 ∷ 1
        ∷ 1 ∷ 0 ∷ 1 ∷ 0 ∷ 8 ∷ 0 ∷ 1 ∷ 0 ∷ 80 ∷ 1 ∷ 2 ∷ 3 ∷ 4 ∷ []))
    ≡ err xor_v6_not_implemented
unfolding parse_binding_response parse_attributes attribute_header parse_xor_mapped_address
no_fallback = refl

parse_binding_response-Returns_example :
    Returns (parse_binding_response (response id (0 ∷ 32 ∷ 0 ∷ 9 ∷ [])))
parse_binding_response-Returns_example =
    parse_binding_response-Returns (response id (0 ∷ 32 ∷ 0 ∷ 9 ∷ []))

parse_binding_response-ne-out_of_fuel_example :
    parse_binding_response (response id (0 ∷ 9 ∷ 0 ∷ 0 ∷ [])) ≢ err out_of_fuel
parse_binding_response-ne-out_of_fuel_example =
    parse_binding_response-ne-out_of_fuel (response id (0 ∷ 9 ∷ 0 ∷ 0 ∷ []))

parse_binding_response-response_example :
    parse_binding_response
      (response id (with_address (software ∷ []) (xor_attribute 0 203 0 113 5 50000) (1 ∷ 2 ∷ [])))
    ≡ ok (v4 203 0 113 5 50000)
parse_binding_response-response_example =
    parse_binding_response-response id (software ∷ []) (1 ∷ 2 ∷ []) 0 203 0 113 5 50000 refl
      ((omega arith, omega arith, omega arith), tt) (omega arith) (omega arith)
