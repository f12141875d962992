-- ===== src/Framing/Sendable.antt =====
-- server/army3_protocol/framing.py: the packets that the server can send.
use army.Common.{ℕ, ◌≤◌, ◌<◌, ◌≡◌, arith, Bool, true, false, ◌&&◌, List, [], ◌∷◌, length, leb}
use army.Bytes.{IsBytes}
use army.Framing.{Packet, uses_length32, maximum, server_to_client}

-- A packet that has a frame.
pub record IsSendable (p : Packet) : Type 0 where
  pub byte : p.command < 256
  pub bytes : IsBytes p.payload
  pub fits : length p.payload ≤ maximum (uses_length32 p.command server_to_client)

abbrev all_bytes : List ℕ → Bool
all_bytes [] = true
all_bytes (b ∷ bs) = leb b 255 && all_bytes bs

-- The test of it.
unfoldable pub is_sendable : Packet → Bool
is_sendable p = leb p.command 255 && (all_bytes p.payload && leb (length p.payload) 65535)

all_bytes-IsBytes : (bs : List ℕ) → all_bytes bs ≡ true → IsBytes bs
all_bytes-IsBytes [] h = tt
all_bytes-IsBytes (b ∷ bs) h = (ground arith, all_bytes-IsBytes bs (ground arith))

small : (b : Bool) (n : ℕ) → n ≤ 65535 → n ≤ maximum b
small true n h = omega arith
small false n h = omega arith

pub is_sendable-IsSendable : (p : Packet) → is_sendable p ≡ true → IsSendable p
unfolding is_sendable
is_sendable-IsSendable p h = record {
  byte = ground arith;
  bytes = all_bytes-IsBytes p.payload (ground arith);
  fits = small (uses_length32 p.command server_to_client) (length p.payload) (ground arith);
}
