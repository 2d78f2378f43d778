-- ===== src/Sensor/Locks/Messages.antt =====
-- A descriptor that the collector serves, and a message up to the lock and from it on.
use communicate_core.Common.{
  ℕ, ◌+◌, ◌≤◌, ◌≡◌, refl, List, [], ◌∷◌, true, false, Option, none, some, ◌==◌, arith, length,
}
use communicate_core.Memory.{byte_at, IsBytes, copy_in_range, load_in_range, peek-one}
use communicate_core.Frame.Acceptance.{check_packet_format_lem}
use communicate_core.Handler.Effect.{reach}
use communicate_core.Handler.Stores.{
  Store, AllWithin, run_stores-stores, stores-AllWithin, length-stores,
}
use communicate_core.Sensor.Collector.{
  Collector, Outside, serve_fd, accept_connection, drop_connection, receive_from, collector_msg_id,
}
use communicate_core.Sensor.Collector.Frames.{
  receive_size, IsWell, collected, command_of, received as receive_buffer, length-received,
  received-IsBytes, reach-le, shared_of, payload_of,
}
use communicate_core.Sensor.Collector.Rounds.{IsSane}
use communicate_core.Sensor.Locks.Defs.{received, dispatching, receive_frame, stores_of}
use communicate_core.Sensor.Locks.Relation.{CollectorMatches}

-- What `select` and the calls give for one descriptor.
abbrev pub one_call : Option ℕ → Option (List ℕ) → Outside
one_call accepted message = record { accepted = accepted; receives = λ fd. message }

pub one_call-IsSane :
    (accepted : Option ℕ) (message : Option (List ℕ))
    → ((bytes : List ℕ) → message ≡ some bytes → IsBytes bytes × (length bytes ≤ receive_size))
    → IsSane (one_call accepted message)
one_call-IsSane accepted message h = record { messages = λ fd bytes e. h bytes e }

pub serve_accept :
    (c : Collector) (accepted : Option ℕ)
    → serve_fd c (λ fd. true) (one_call accepted none) c.server_sock
      ≡ some (accept_connection c accepted)
unfolding serve_fd
serve_accept c accepted = ground arith

pub serve_message :
    (c : Collector) (fd : ℕ) (message : Option (List ℕ))
    → (fd == c.server_sock) ≡ false
    → serve_fd c (λ fd. true) (one_call none message) fd ≡ receive_from c fd message
unfolding serve_fd
serve_message c fd message other = rw other refl

AllWithin-mono : (m n : ℕ) (ss : List Store) → m ≤ n → AllWithin m ss → AllWithin n ss
AllWithin-mono m n [] h w = tt
AllWithin-mono m n (s ∷ ss) h w = (omega arith, AllWithin-mono m n ss h w.1)

pub accept_connection-shared :
    (c : Collector) (accepted : Option ℕ)
    → (accept_connection c accepted).sensor_data ≡ c.sensor_data
unfolding accept_connection
accept_connection-shared c none = refl
accept_connection-shared c (some sock) = refl

pub drop_connection-shared :
    (c : Collector) (fd : ℕ) → (drop_connection c fd).sensor_data ≡ c.sensor_data
unfolding drop_connection
drop_connection-shared c fd = refl

-- From the lock on the collector of the system has the message.
pub locked_matches :
    (w : List (List ℕ)) (c u : Collector) (bytes : List ℕ) (cmd src : ℕ)
    → IsWell c
    → u ≡ record c { buffer = receive_buffer c bytes }
    → cmd ≡ command_of c bytes
    → src ≡ byte_at (receive_buffer c bytes) 6
    → CollectorMatches w (collected c bytes) u (dispatching cmd src (stores_of u cmd))
locked_matches w c u bytes cmd src well same of from =
    rw (same, of, from)
      (
        AllWithin-mono (0 + reach (command_of c bytes)) (length c.sensor_data) _
            (omega (arith, well.sensor_size, reach-le (command_of c bytes)))
            (stores-AllWithin (command_of c bytes) (payload_of c bytes) 0),
        length-stores (command_of c bytes) (payload_of c bytes) 0,
        rw (run_stores-stores (command_of c bytes) (payload_of c bytes) (shared_of c)) refl,
      )

-- The state behind a message's receive is the one that the relation names.
pub receive_frame_lem :
    (c : Collector) (bytes : List ℕ)
    → IsWell c
    → IsBytes bytes
    → length bytes ≤ receive_size
    → receive_frame c bytes
      ≡ some (
        record c { buffer = receive_buffer c bytes },
        received (command_of c bytes) (byte_at (receive_buffer c bytes) 6),
      )
unfolding receive_frame
receive_frame_lem c bytes well are_bytes fits =
    rw
      (
        copy_in_range (length bytes) c.buffer bytes (omega (arith, well.buffer_size)) (omega arith),
        check_packet_format_lem (receive_buffer c bytes) collector_msg_id (length bytes)
            (received-IsBytes c bytes well are_bytes fits)
            (omega (arith, length-received c bytes well are_bytes fits))
            (omega (arith, length-received c bytes well are_bytes fits)) (omega arith),
        load_in_range 1 (receive_buffer c bytes) 6
            (omega (arith, length-received c bytes well are_bytes fits)),
        load_in_range 2 (receive_buffer c bytes) 9
            (omega (arith, length-received c bytes well are_bytes fits)),
        peek-one (receive_buffer c bytes) 6,
      )
      refl
