-- ===== src/App/Connection.antt =====
-- server/app.py: what has been written to the client, over a whole connection.
pub mod Packets
pub mod Loops
pub mod Heard
use army.Common.{
  ℕ, ◌≤◌, ◌≡◌, refl, arith, Bool, true, false, Option, none, some, List, [], ◌∷◌, ◌++◌, length, leb,
  All,
}
use army.Common.Int.{ℤ}
use army.Bytes.{IsBytes}
use army.Exec.{ok}
use army.Transform.{TransformCursor, cursor}
use army.Framing.{Packet, server_to_client, uses_length32}
use army.Framing.RoundTrip.{wire}
use army.Framing.Sendable.{IsSendable, is_sendable, is_sendable-IsSendable}
use army.Framing.Stream.{Fits, encode_frames}
use army.Session.Replies.{
  Reply, areas, reply_packet, reply_facts, handshake_packet, handshake_facts, local_transform,
  splash_packet, splash-is_sendable,
}
use army.Session.Steps.{revision_fits, splash, push}
use army.App.{Client}
use army.App.Valid.{is_open}

-- The largest payload that the decoder of the client must take.
abbrev pub Short : Packet → Type 0
Short = Fits server_to_client 65535

abbrev pub first_cursor : Option TransformCursor
first_cursor = some (cursor local_transform)

-- The frame of the answer to the handshake, in the clear.
unfoldable pub handshake_bytes : List ℕ
handshake_bytes =
    wire (uses_length32 handshake_packet.command server_to_client) handshake_packet none

-- Behind the handshake: its answer, and the frames of the packets sent since then, under the mask.
pub record HasSent (c : Client) : Type 0 where
  pub packets : List Packet
  pub bytes : List ℕ
  pub short : All Short packets
  pub encoded : encode_frames packets server_to_client first_cursor ≡ (ok bytes, c.outbound_cursor)
  pub written : c.written ≡ handshake_bytes ++ bytes

-- Before it, nothing has been sent.
pub record Sent (c : Client) : Type 0 where
  pub waiting : is_open c.session.state ≡ false → c.written ≡ []
  pub opened : is_open c.session.state ≡ true → HasSent c

pub sendable-Short : (p : Packet) → is_sendable p ≡ true → Short p
unfolding is_sendable
sendable-Short p h =
    let s : IsSendable p = is_sendable-IsSendable p h in
    record { byte = s.byte; bytes = s.bytes; sendable = s.fits; within = ground arith }

pub reply-Short : (r : Reply) → Short (reply_packet r)
reply-Short r = sendable-Short (reply_packet r) (reply_facts r).0

pub handshake-Short : Short handshake_packet
handshake-Short = sendable-Short handshake_packet handshake_facts.0

pub splash-Short :
    (revision : Option ℤ) (sent : Bool)
    → revision_fits revision ≡ true
    → All Short (splash revision sent)
unfolding splash revision_fits
splash-Short none sent h = tt
splash-Short (some v) true h = tt
splash-Short (some v) false h = (sendable-Short (splash_packet v) (splash-is_sendable v h), tt)

pub push-Short : (enabled sent : Bool) → All Short (push enabled sent)
unfolding push
push-Short true false = (reply-Short areas, tt)
push-Short true true = tt
push-Short false sent = tt
