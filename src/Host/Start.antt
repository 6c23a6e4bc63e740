-- ===== src/Host/Start.antt =====
-- app/src-tauri/src/host.rs: the session that is started on a stream to the relay, once TLS stands.
use secure_desk.Base.{ℕ, ◌%◌, ◌^◌, Bool, true, none, List, [], ◌∷◌, length}
use secure_desk.Base.Words.{to_be16}
use secure_desk.Transport.{ConnectionType, relay}
use secure_desk.Privacy.{new_privacy}
use secure_desk.Session.{Act, done, Noise, Link, ◌>>◌, write_bytes}
use secure_desk.Host.{Host}

module _ {N S : Type 0} (n : Noise N S) where
  -- As an endpoint with its identifier
  unfoldable pub register_endpoint : List ℕ → Act (Link S) (Unit {0})
  unfolding write_bytes
  register_endpoint id = do
    write_bytes n (0x01 ∷ [])
    write_bytes n (to_be16 (length id % 2 ^ 16))
    write_bytes n id

  unfoldable pub start_with_p2p : List ℕ → List ℕ → Bool → Act (Link S) (Host S)
  unfolding register_endpoint
  start_with_p2p private_key id p2p_enabled = do
    register_endpoint id
    λ l.
        done
          (record {
            private_key = private_key;
            device_id = id;
            link = record l { channel = none };
            p2p_stream = none;
            injected = [];
            privacy = new_privacy;
            running = true;
            pending_connection = none;
            connection_type = relay;
            p2p_enabled = p2p_enabled;
            target_resolution = none;
            emitted = [];
          })
          l

module _ {S : Type 0} where
  unfoldable pub connection_type_of : Host S → ConnectionType
  connection_type_of h = h.connection_type

  unfoldable pub set_p2p_enabled : Bool → Host S → Host S
  set_p2p_enabled enabled h = record h { p2p_enabled = enabled }
