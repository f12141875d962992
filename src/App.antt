-- ===== src/App.antt =====
-- server/app.py: `_handle_client`, the loop of one connection, on the state of its local variables.
-- What `reader.read` and its timeout deliver is an explicit sequence of events, so the read size and
-- the clock are not modelled; `writer.drain` and the log are left out. The bytes given to
-- `writer.write` are kept in order. `finally` only closes the writer.
pub mod Valid
mod Runs
pub mod Writes
pub mod Peer
pub mod Connection
pub mod Pieces
use army.Common.{
  ℕ, zero, suc, Bool, true, false, ◌||◌, Option, none, some, List, [], ◌∷◌, ◌++◌, length,
  if◌then◌else◌,
}
use army.Common.Int.{ℤ}
use army.Exec.{
  Error, Result, ok, err, runtime_error, out_of_fuel, bind_result, is_protocol_error, Exec, pure,
  raise, gets, ◌>>=◌, ◌>>◌,
}
use army.Transform.{ByteTransform, TransformCursor, cursor}
use army.Framing.{
  Packet, FrameDirection, client_to_server, server_to_client, FrameStreamDecoder,
  frame_stream_decoder, encode_frame, feed,
}
use army.Messages.Command.{number, heartbeat}
use army.Session.{LoginSession, SessionOutcome, login_session}
use army.Session.Handlers.{handle}

pub record Client : Type 0 where
  pub decoder : FrameStreamDecoder
  pub outbound_cursor : Option TransformCursor
  pub session : LoginSession
  pub written : List ℕ

abbrev pub App : Type 0 → Type 0
App A = Exec Client A

-- The variables as they are before the loop; the arguments are fields of `ServerConfig`.
unfoldable pub new_client : ℤ → Option ℤ → Bool → Result Client
new_client max_payload_bytes revision area_push =
    bind_result (frame_stream_decoder client_to_server none max_payload_bytes) (λ decoder.
      ok (record {
        decoder = decoder;
        outbound_cursor = none;
        session = login_session revision area_push;
        written = [];
      }))

abbrev pub write_frame : Result (List ℕ) × Option TransformCursor → App (Unit {0})
write_frame (ok bytes, cursor) c =
    (ok tt, record c { outbound_cursor = cursor; written = c.written ++ bytes })
write_frame (err e, cursor) c = (err e, record c { outbound_cursor = cursor })

-- `writer.write(encode_frame(response, SERVER_TO_CLIENT, outbound_cursor))`
unfoldable pub write_packet : Packet → App (Unit {0})
write_packet p c = write_frame (encode_frame p server_to_client c.outbound_cursor) c

unfoldable pub write_packets : List Packet → App (Unit {0})
write_packets [] = pure tt
write_packets (p ∷ ps) = write_packet p >> write_packets ps

abbrev pub is_some : Option TransformCursor → Bool
is_some none = false
is_some (some c) = true

unfoldable pub set_transform : ByteTransform → App (Unit {0})
set_transform t c =
    if is_some c.decoder.cursor || is_some c.outbound_cursor then (err runtime_error, c) else (
      ok tt,
      record c {
        decoder = record c.decoder { cursor = some (cursor t) };
        outbound_cursor = some (cursor t);
      },
    )

unfoldable pub enable_transform : Option ByteTransform → App (Unit {0})
enable_transform none = pure tt
enable_transform (some t) = set_transform t

unfoldable pub feed_client : List ℕ → App (List Packet)
feed_client pending c =
    let (r, d) = feed pending (some 1) c.decoder in (r, record c { decoder = d })

unfoldable pub handle_session : Packet → App SessionOutcome
handle_session p c = let (r, s) = handle p c.session in (r, record c { session = s })

-- What is done with one packet.
unfoldable pub handle_packet : Packet → App (Unit {0})
handle_packet p = do
  outcome ← handle_session p
  write_packets outcome.outbound
  enable_transform outcome.enable_transform

-- The inner `while True`.
unfoldable pub process : ℕ → List ℕ → App (Unit {0})
process zero pending = raise out_of_fuel
process (suc fuel) pending = do
  packets ← feed_client pending
  elim packets [ [] ↦ pure tt | p ∷ ps ↦ do handle_packet p; process fuel [] ]

pub data Event : Type 0 where
  data_read : List ℕ → Event
  timed_out : Event

-- Each packet takes bytes off the buffer, so one round more than it has bytes is enough.
unfoldable pub on_data : List ℕ → App (Unit {0})
on_data bytes c = process (suc (length (c.decoder.buffer ++ bytes))) bytes c

abbrev pub heartbeat_packet : Packet
heartbeat_packet = record { command = 0x9a; payload = [] }

unfoldable pub beat : Option TransformCursor → App (Unit {0})
beat none = pure tt
beat (some cursor) = write_packet heartbeat_packet

unfoldable pub on_timeout : App (Unit {0})
on_timeout c = beat c.outbound_cursor c

unfoldable pub on_event : Event → App (Unit {0})
on_event (data_read bytes) = on_data bytes
on_event timed_out = on_timeout

-- `if not data`: the client has closed.
unfoldable pub is_closed : Event → Bool
is_closed (data_read []) = true
is_closed _ = false

-- The outer `while True`, as far as the events go; it returns when the client has closed.
unfoldable pub serve : List Event → App (Unit {0})
serve [] = pure tt
serve (e ∷ events) = let rest = on_event e >> serve events in if is_closed e then pure tt else rest
