-- ===== src/Messages/ScreenResourceManifestResponse.antt =====
-- `ScreenResourceManifestResponse` of messages.py: 0xC4, selector 1: a resource version and a count of items.
use army.Messages.Rules.{ByteReader, ByteWriter, Codec-u16, Codec-u8, Exec, List, Message-check}
use army.Messages.Rules.{Message-last, Message-then, Packet, Result, Whole-ensure, Whole-pure}
use army.Messages.Rules.{bind_result, decode_error, ensure_finished, eq_ℤ, false, not, number, ok}
use army.Messages.Rules.{packet, pos, pure, raise_if, read_payload, read_payload-written}
use army.Messages.Rules.{read_u16, read_u8, refl, write_u16, write_u8, written, ℕ, ℤ, ◌>>=◌, ◌>>◌}
use army.Messages.Rules.{◌≡◌}
use army.Messages.Command.{screen_bootstrap}

pub record ScreenResourceManifestResponse : Type 0 where
  pub resource_version : ℤ
  pub item_count : ℤ

abbrev fields : ScreenResourceManifestResponse → Exec ByteWriter (Unit {0})
fields m = do write_u8 (pos 1); write_u8 m.resource_version; write_u16 m.item_count

unfoldable pub encode_payload : ScreenResourceManifestResponse → Result (List ℕ)
encode_payload m = written (fields m)

unfoldable pub to_packet : ScreenResourceManifestResponse → Result Packet
unfolding encode_payload
to_packet m = bind_result (encode_payload m) (packet (number screen_bootstrap))

abbrev body : Exec ByteReader ScreenResourceManifestResponse
body = do
  selector ← read_u8
  raise_if (not (eq_ℤ selector (pos 1))) decode_error
  resource_version ← read_u8
  item_count ← read_u16
  ensure_finished
  pure (record { resource_version = resource_version; item_count = item_count })

unfoldable pub decode_payload : List ℕ → Result ScreenResourceManifestResponse
decode_payload = read_payload body

-- A manifest that encodes is what its payload decodes to.
pub decode-encode_manifest :
    (m : ScreenResourceManifestResponse) (bs : List ℕ)
    → encode_payload m ≡ ok bs
    → decode_payload bs ≡ ok m
unfolding encode_payload decode_payload
decode-encode_manifest m bs e =
    read_payload-written (fields m) body bs
      (Message-then _ _ _ _ (Codec-u8 _) (
        Message-check false decode_error _ _ refl (
          Message-then _ _ _ _ (Codec-u8 _)
            (Message-last _ _ _ (Codec-u16 _) (Whole-ensure _ (Whole-pure m))))))
      e
