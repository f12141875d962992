-- ===== src/Framing/Runs.antt =====
-- The theorems of the frames at concrete streams.
use army.Common.{Option, ℕ, ◌≡◌, ◌≢◌, refl, arith, none, some, List, [], ◌∷◌, ◌++◌}
use army.Bytes.{to_bytes}
use army.Exec.{ok, err, out_of_fuel}
use army.Transform.{TransformCursor, encode_command, encode_data, xor_next, take_key}
use army.Transform.Valid.{IsCursor}
use army.Framing.{
  Packet, client_to_server, server_to_client, encode_frame, uses_length32, encode_with,
  encode_transformed, encode_each, FrameStreamDecoder, decode_one, feed,
}
use army.Framing.Parse.{IsDecoder, answer, parsed, decode_one-eq}
use army.Framing.RoundTrip.{decode_one-encode_frame}
use army.Framing.Stream.{Fits, encode_frames, feed-encode_frames}
use army.Framing.Chunks.{feed_each, settled, feed-Ends, feed_each-joined}

abbrev key_cursor : ℕ → TransformCursor
key_cursor n = record { transform = record { key = 10 ∷ 30 ∷ 0 ∷ []; shift = 7 }; index = n }

key_cursor-IsCursor : IsCursor (key_cursor 2)
key_cursor-IsCursor = record {
  transform_valid = record {
    bytes = (omega arith, (omega arith, (omega arith, tt)));
    nonempty = omega arith;
    short = omega arith;
    shift_byte = omega arith;
  };
  in_key = omega arith;
}

abbrev server_stream : List ℕ → FrameStreamDecoder
server_stream buffer = record {
  direction = server_to_client;
  cursor = some (key_cursor 2);
  max_payload_bytes = 10;
  buffer = buffer;
}

abbrev status_packet : Packet
status_packet = record { command = 0xfd; payload = 1 ∷ [] }

-- A masked frame behind which another begins.
decode_one-encode_frame_example : decode_one (server_stream ((4 ∷ 10 ∷ 31 ∷ 1 ∷ []) ++ 9 ∷ [])) ≡ (
  ok (some status_packet),
  record {
    direction = server_to_client;
    cursor = some (key_cursor 0);
    max_payload_bytes = 10;
    buffer = 9 ∷ [];
  },
)
unfolding encode_frame uses_length32 encode_with encode_transformed encode_each encode_command
    encode_data xor_next take_key to_bytes
decode_one-encode_frame_example =
    decode_one-encode_frame status_packet (server_stream []) (some (key_cursor 0))
      (4 ∷ 10 ∷ 31 ∷ 1 ∷ []) (9 ∷ []) (omega arith) (omega arith, tt) key_cursor-IsCursor
      (omega arith, tt) (omega arith) refl

abbrev client_stream : List ℕ → FrameStreamDecoder
client_stream buffer = record {
  direction = client_to_server;
  cursor = none;
  max_payload_bytes = 10;
  buffer = buffer;
}

-- Half a header.
decode_one-eq_example :
    decode_one (server_stream (4 ∷ 10 ∷ []))
    ≡ answer (server_stream (4 ∷ 10 ∷ [])) (parsed (server_stream (4 ∷ 10 ∷ [])))
decode_one-eq_example =
    decode_one-eq (server_stream (4 ∷ 10 ∷ []))
      (record { has_cursor = key_cursor-IsCursor; bytes = (omega arith, (omega arith, tt)) })

client_stream-IsDecoder : IsDecoder (client_stream [])
client_stream-IsDecoder = record { has_cursor = tt; bytes = tt }

feed-Ends_example :
    ((feed (0xe5 ∷ 0 ∷ 0 ∷ 0xbb ∷ []) none (client_stream [])).0 ≢ err out_of_fuel)
    × IsDecoder (feed (0xe5 ∷ 0 ∷ 0 ∷ 0xbb ∷ []) none (client_stream [])).1
feed-Ends_example =
    feed-Ends (0xe5 ∷ 0 ∷ 0 ∷ 0xbb ∷ []) none (client_stream []) client_stream-IsDecoder
      (omega arith, (omega arith, (omega arith, (omega arith, tt))))

-- A frame that is cut inside its header.
feed_each-joined_example :
    settled (feed_each ((0xe5 ∷ 0 ∷ []) ∷ (0 ∷ 0xbb ∷ []) ∷ []) (client_stream []))
    ≡ settled (feed (0xe5 ∷ 0 ∷ 0 ∷ 0xbb ∷ []) none (client_stream []))
feed_each-joined_example =
    feed_each-joined (0xe5 ∷ 0 ∷ []) ((0 ∷ 0xbb ∷ []) ∷ []) (client_stream [])
      client_stream-IsDecoder (omega arith, (omega arith, tt))
      ((omega arith, (omega arith, tt)), tt)

abbrev e1_packet : Packet
e1_packet = record { command = 0xe1; payload = 1 ∷ 2 ∷ [] }

status_packet-Fits : Fits server_to_client 10 status_packet
unfolding uses_length32
status_packet-Fits = record {
  byte = omega arith;
  bytes = (omega arith, tt);
  sendable = omega arith;
  within = omega arith;
}

e1_packet-Fits : Fits server_to_client 10 e1_packet
unfolding uses_length32
e1_packet-Fits = record {
  byte = omega arith;
  bytes = (omega arith, (omega arith, tt));
  sendable = omega arith;
  within = omega arith;
}

-- A length-32 frame between two others.
feed-encode_frames_example :
    (bs : List ℕ) × (after : Option TransformCursor) × (encode_frames
        (status_packet ∷ e1_packet ∷ status_packet ∷ [])
        server_to_client
        (some (key_cursor 2))
      ≡ (ok bs, after))
    × (feed bs none (server_stream []) ≡ (
      ok (status_packet ∷ e1_packet ∷ status_packet ∷ []),
      record { direction = server_to_client; cursor = after; max_payload_bytes = 10; buffer = [] },
    ))
unfolding uses_length32
feed-encode_frames_example =
    feed-encode_frames (status_packet ∷ e1_packet ∷ status_packet ∷ []) (server_stream [])
      (status_packet-Fits, (e1_packet-Fits, (status_packet-Fits, tt))) key_cursor-IsCursor
