-- ===== src/App/Runs.antt =====
-- A connection: a handshake that is cut in its header, a heartbeat, and a session request that the
-- transformation masks.
use army.Common.{false, refl, arith, true, none, List, [], ◌∷◌}
use army.Common.Int.{pos}
use army.Framing.{client_to_server, frame_stream_decoder}
use army.Session.{login_session}
use army.Session.Steps.{revision_fits}
use army.Exec.{ok}
use army.Common.{◌≡◌, ◌++◌, some, ℕ}
use army.Framing.{Packet, server_to_client, uses_length32, feed}
use army.Framing.Cursor.{HasCursor}
use army.Framing.Stream.{Fits}
use army.App.Connection.Heard.{Heard, serve-Heard}
use army.App.{write_packets}
use army.App.{on_data}
use army.App.Valid.{is_open, IsClient}
use army.App.Pieces.Joined.{settle, on_data-append}
use army.Exec.{◌>>◌}
use army.App.Peer.{feed-write_packets}
use army.App.{Client, new_client, serve, Event, data_read, timed_out}
use army.App.Valid.{Ends}
use army.App.Valid.Runs.{AreBytes, serve-Ends}

abbrev connected : Client
connected = record {
  decoder = record {
    direction = client_to_server;
    cursor = none;
    max_payload_bytes = 0xffff;
    buffer = [];
  };
  outbound_cursor = none;
  session = login_session none true;
  written = [];
}

abbrev events : List Event
events = data_read (0xe5 ∷ 0 ∷ []) ∷ timed_out ∷ data_read (0 ∷ 0xbb ∷ []) ∷ timed_out ∷ []

serve-Ends_example : Ends (serve events connected)
unfolding revision_fits new_client frame_stream_decoder AreBytes
serve-Ends_example =
    serve-Ends (pos 0xffff) none true events connected refl refl
      ((omega arith, (omega arith, tt)), (tt, ((omega arith, (omega arith, tt)), (tt, tt))))

abbrev masked : Client
masked = record {
  decoder = connected.decoder;
  outbound_cursor =
      some (record { transform = record { key = 10 ∷ 30 ∷ 0 ∷ []; shift = 7 }; index = 1 });
  session = connected.session;
  written = 0xe5 ∷ [];
}

masked-HasCursor : HasCursor masked.outbound_cursor
masked-HasCursor = record {
  transform_valid = record {
    bytes = (omega arith, (omega arith, (omega arith, tt)));
    nonempty = omega arith;
    short = omega arith;
    shift_byte = omega arith;
  };
  in_key = omega arith;
}

abbrev versions_packet : Packet
versions_packet = record { command = 0xe2; payload = 2 ∷ 2 ∷ 2 ∷ [] }

versions_packet-Fits : Fits server_to_client 3 versions_packet
unfolding uses_length32
versions_packet-Fits = record {
  byte = omega arith;
  bytes = (omega arith, (omega arith, (omega arith, tt)));
  sendable = omega arith;
  within = omega arith;
}

feed-write_packets_example :
    (bs : List ℕ) × (c' : Client) × (write_packets (versions_packet ∷ versions_packet ∷ []) masked
      ≡ (ok tt, c'))
    × (c'.written ≡ masked.written ++ bs)
    × (feed bs none (record {
      direction = server_to_client;
      cursor = masked.outbound_cursor;
      max_payload_bytes = 3;
      buffer = [];
    })
        ≡ (
          ok (versions_packet ∷ versions_packet ∷ []),
          record {
            direction = server_to_client;
            cursor = c'.outbound_cursor;
            max_payload_bytes = 3;
            buffer = [];
          },
        ))
feed-write_packets_example =
    feed-write_packets (versions_packet ∷ versions_packet ∷ []) masked 3
      (versions_packet-Fits, (versions_packet-Fits, tt)) masked-HasCursor

connected-IsClient : IsClient connected
unfolding is_open login_session revision_fits
connected-IsClient = record {
  decoder_valid = record { has_cursor = tt; bytes = tt };
  outbound_valid = tt;
  outbound_open = refl;
  inbound_open = refl;
  fits = refl;
}

-- The handshake and the first byte of a masked request, cut inside the header.
on_data-append_example :
    settle (on_data (0xe5 ∷ 0 ∷ 0 ∷ 0xbb ∷ []) connected)
    ≡ settle ((on_data (0xe5 ∷ 0 ∷ []) >> on_data (0 ∷ 0xbb ∷ [])) connected)
on_data-append_example =
    on_data-append (0xe5 ∷ 0 ∷ []) (0 ∷ 0xbb ∷ []) connected connected-IsClient
      (omega arith, (omega arith, tt)) (omega arith, (omega arith, tt))

serve-Heard_example :
    (is_open (serve events connected).1.session.state ≡ false
      → (serve events connected).1.written ≡ [])
    × (is_open (serve events connected).1.session.state ≡ true
        → Heard (serve events connected).1.written (serve events connected).1.outbound_cursor)
unfolding revision_fits new_client frame_stream_decoder AreBytes
serve-Heard_example =
    serve-Heard (pos 0xffff) none true events connected refl refl
      ((omega arith, (omega arith, tt)), (tt, ((omega arith, (omega arith, tt)), (tt, tt))))
