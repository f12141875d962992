-- ===== src/Messages/Rules.antt =====
-- What the modules of the messages share: the primitives, and the rules for their codecs.
pub use army.Common.{ℕ, ◌≡◌, refl, arith, Bool, true, false, not, ◌&&◌, ◌||◌, List, [], ◌∷◌, length}
pub use army.Common.Int.{ℤ, pos, negsuc, eq_ℤ, leb_ℤ, within}
pub use army.Exec.{Result, ok, err, Exec, bind_result, pure, raise_if, ◌>>=◌, ◌>>◌}
pub use army.Exec.{encode_error, decode_error}
pub use army.Framing.{Packet, packet}
pub use army.Primitives.{ByteReader, ByteWriter, written, read_payload}
unfoldable pub use army.Primitives.{ensure_finished}
unfoldable pub use army.Primitives.{write_bytes, write_u8, write_u16, write_u32, write_string16}
unfoldable pub use army.Primitives.{read_exact, read_u8, read_u16, read_u32, read_string16}
pub use army.Primitives.Codec.{read_payload-written, Message, Message-then, Message-last}
pub use army.Primitives.Codec.{Message-check, Codec-bytes, Codec-u8, Codec-u16, Codec-u32}
pub use army.Primitives.Codec.{Codec-string16}
pub use army.Primitives.Reads.{Reads, Whole, Whole-ensure, Whole-pure, Whole-raise_if}
pub use army.Primitives.Writes.{Writes, Writes-raise_if}
pub use army.Messages.Command.{Command}
unfoldable pub use army.Messages.Command.{number}
