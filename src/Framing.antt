-- ===== src/Framing.antt =====
-- server/army3_protocol/framing.py: packets, `encode_frame` and the incremental decoder.
pub mod Cursor
pub mod Parse
pub mod RoundTrip
pub mod Sendable
pub mod Chunks
pub mod Stream
mod Runs
use army.Common.{
  ℕ, zero, suc, ◌+◌, Bool, true, false, ◌||◌, Option, none, some, List, [], ◌∷◌, ◌++◌,
}
use army.Common.{length, take, drop, ltb, leb, ◌==◌, if◌then◌else◌}
use army.Common.Int.{ℤ, pos, negsuc}
use army.Exec.{Result, ok, err, frame_error, value_error, out_of_fuel}
use army.Exec.{Exec, pure, raise, gets, ◌>>=◌, ◌>>◌}
use army.Bytes.{to_bytes, from_bytes}
use army.Transform.{TransformCursor, encode_command, decode_command, encode_data, decode_data}
use army.Transform.{checkpoint, restore}

pub data FrameDirection : Type 0 where
  client_to_server server_to_client : FrameDirection

pub record Packet : Type 0 where
  pub command : ℕ
  pub payload : List ℕ

-- `Packet(command, payload)`
unfoldable pub packet : ℕ → List ℕ → Result Packet
packet command payload =
    if leb command 255
    then ok (record { command = command; payload = payload })
    else err frame_error

unfoldable pub is_length32_server_command : ℕ → Bool
is_length32_server_command c = c == 0x88 || c == 0xa4 || c == 0xc4 || c == 0xd7 || c == 0xe1

unfoldable pub uses_length32 : ℕ → FrameDirection → Bool
unfolding is_length32_server_command
uses_length32 command client_to_server = false
uses_length32 command server_to_client = is_length32_server_command command

abbrev pub length_width : Bool → ℕ
length_width true = 4
length_width false = 2

abbrev pub maximum : Bool → ℕ
maximum true = 0xffff_ffff
maximum false = 0xffff

-- `for value in values: output.append(cursor.encode_data(value))`
unfoldable pub encode_each : List ℕ → Exec TransformCursor (List ℕ)
encode_each [] = pure []
encode_each (value ∷ values) = do b ← encode_data value; bs ← encode_each values; pure (b ∷ bs)

unfoldable pub decode_each : List ℕ → Exec TransformCursor (List ℕ)
decode_each [] = pure []
decode_each (value ∷ values) = do b ← decode_data value; bs ← decode_each values; pure (b ∷ bs)

unfoldable pub encode_transformed : Packet → Bool → List ℕ → Exec TransformCursor (List ℕ)
encode_transformed p true length_bytes = do
  head ← encode_command p.command
  pure (head ∷ length_bytes ++ p.payload)
encode_transformed p false length_bytes = do
  head ← encode_command p.command
  size ← encode_each length_bytes
  body ← encode_each p.payload
  pure (head ∷ size ++ body)

unfoldable pub encode_with : Packet → Bool → List ℕ → Exec (Option TransformCursor) (List ℕ)
unfolding encode_transformed
encode_with p length32 length_bytes none = (ok (p.command ∷ length_bytes ++ p.payload), none)
encode_with p length32 length_bytes (some c) =
    let (r, c') = encode_transformed p length32 length_bytes c in (r, some c')

-- The state is the `cursor` argument, which the call may move.
unfoldable pub encode_frame : Packet → FrameDirection → Exec (Option TransformCursor) (List ℕ)
unfolding encode_with
encode_frame p direction cursor =
    let length32 = uses_length32 p.command direction in
    if ltb (maximum length32) (length p.payload)
    then (err frame_error, cursor)
    else encode_with p length32 (to_bytes (length_width length32) (length p.payload)) cursor

pub record FrameStreamDecoder : Type 0 where
  pub direction : FrameDirection
  pub cursor : Option TransformCursor
  pub max_payload_bytes : ℕ
  pub buffer : List ℕ

unfoldable pub frame_stream_decoder :
    FrameDirection → Option TransformCursor → ℤ → Result FrameStreamDecoder
frame_stream_decoder direction cursor (negsuc n) = err value_error
frame_stream_decoder direction cursor (pos n) =
    ok (record { direction = direction; cursor = cursor; max_payload_bytes = n; buffer = [] })

-- `self.cursor.m(…) if self.cursor is not None else plain`
unfoldable pub cursor_or {ℓ} :
    {A : Type ℓ} → A → Exec TransformCursor A → Option TransformCursor → Exec FrameStreamDecoder A
cursor_or plain m none d = (ok plain, d)
cursor_or plain m (some c) d = let (r, c') = m c in (r, record d { cursor = some c' })

unfoldable pub with_cursor {ℓ} :
    {A : Type ℓ} → A → Exec TransformCursor A → Exec FrameStreamDecoder A
unfolding cursor_or
with_cursor plain m d = cursor_or plain m d.cursor d

unfoldable pub saved_index : Option TransformCursor → Option ℕ
saved_index none = none
saved_index (some c) = some (checkpoint c)

-- `_restore`
unfoldable pub restore_cursor : Option ℕ → Exec FrameStreamDecoder (Unit {0})
unfolding with_cursor
restore_cursor none = pure tt
restore_cursor (some saved) = with_cursor tt (restore saved)

unfoldable pub decode_bytes : Bool → List ℕ → Exec FrameStreamDecoder (List ℕ)
unfolding with_cursor
decode_bytes length32 raw = if length32 then pure raw else with_cursor raw (decode_each raw)

-- `del self._buffer[:frame_size]; return Packet(command, payload)`
unfoldable pub finish_frame : ℕ → ℕ → List ℕ → Exec FrameStreamDecoder (Option Packet)
unfolding packet
finish_frame frame_size command payload = do
  λ d. (ok (tt {0}), record d { buffer = drop frame_size d.buffer })
  p ← λ d. (packet command payload, d)
  pure (some p)

unfoldable pub give_up : Option ℕ → Exec FrameStreamDecoder (Option Packet)
give_up saved = restore_cursor saved >> pure none

unfoldable pub decode_body : Option ℕ → ℕ → Bool → ℕ → ℕ → Exec FrameStreamDecoder (Option Packet)
decode_body saved command length32 header_size payload_size d =
    if ltb d.max_payload_bytes payload_size
    then (restore_cursor saved >> raise frame_error) d
    else if ltb (length d.buffer) (header_size + payload_size)
    then give_up saved d
    else (do
      payload ← decode_bytes length32 (take payload_size (drop header_size d.buffer))
      finish_frame (header_size + payload_size) command payload)
        d

unfoldable pub decode_length : Option ℕ → ℕ → Exec FrameStreamDecoder (Option Packet)
decode_length saved command d =
    let length32 = uses_length32 command d.direction in
    let header_size = 1 + length_width length32 in
    if ltb (length d.buffer) header_size
    then give_up saved d
    else (do
      length_bytes ← decode_bytes length32 (take (length_width length32) (drop 1 d.buffer))
      decode_body saved command length32 header_size (from_bytes length_bytes))
        d

unfoldable pub decode_buffered : List ℕ → Exec FrameStreamDecoder (Option Packet)
decode_buffered [] = pure none
decode_buffered (raw_command ∷ rest) = do
  saved ← gets (λ d. saved_index d.cursor)
  command ← with_cursor raw_command (decode_command raw_command)
  decode_length saved command

-- `_decode_one`
unfoldable pub decode_one : Exec FrameStreamDecoder (Option Packet)
decode_one d = decode_buffered d.buffer d

-- `max_packets is not None and len(packets) >= max_packets`
abbrev pub reached : Option ℕ → List Packet → Bool
reached none packets = false
reached (some n) packets = leb n (length packets)

-- The `while True` of `feed`; what `decode_one` returns decides whether it goes on.
unfoldable pub feed_loop : ℕ → Option ℕ → List Packet → Exec FrameStreamDecoder (List Packet)
feed_loop zero max_packets packets d = (err out_of_fuel, d)
feed_loop (suc fuel) max_packets packets d =
    let more =
      (do
        p ← decode_one
        elim p [ none ↦ pure packets | some p ↦ feed_loop fuel max_packets (packets ++ p ∷ []) ])
        d in
    if reached max_packets packets then (ok packets, d) else more

abbrev extend : List ℕ → FrameStreamDecoder → FrameStreamDecoder
extend bytes d = record d { buffer = d.buffer ++ bytes }

abbrev start_loop : Option ℕ → Exec FrameStreamDecoder (List Packet)
start_loop max_packets d = feed_loop (suc (length d.buffer)) max_packets [] d

-- A frame takes at least three bytes, so one round more than the buffer has bytes is enough.
unfoldable pub feed : List ℕ → Option ℕ → Exec FrameStreamDecoder (List Packet)
feed bytes (some zero) d = (err value_error, d)
feed bytes (some (suc n)) d = start_loop (some (suc n)) (extend bytes d)
feed bytes none d = start_loop none (extend bytes d)
