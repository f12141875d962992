-- ===== src/Transform/Runs.antt =====
-- The key of the test vector of docs/protocol.md's scheme, and the theorems at it.
use army.Common.{ℕ, ◌≡◌, ◌<◌, refl, arith, List, [], ◌∷◌}
use army.Common.Int.{pos}
use army.Exec.{ok}
use army.Transform.{
  ByteTransform, TransformCursor, from_seed, encode_command, decode_command, encode_data,
  decode_data,
}
use army.Transform.Valid.{IsTransform, IsCursor}
use army.Transform.Key.{seed_of, from_seed_lem, from_seed-ok}
use army.Transform.Inverse.{decode-encode_byte}

abbrev test_seed : List ℕ
test_seed = 10 ∷ 20 ∷ 30 ∷ []

abbrev test_transform : ByteTransform
test_transform = record { key = 10 ∷ 30 ∷ 0 ∷ []; shift = 7 }

from_seed_run : from_seed test_seed (pos 7) ≡ ok test_transform
unfolding from_seed
from_seed_run = refl

from_seed_lem_example :
    (seed_of test_transform.key ≡ test_seed)
    × (pos 7 ≡ pos test_transform.shift)
    × IsTransform test_transform
from_seed_lem_example =
    from_seed_lem test_seed (pos 7) test_transform (omega arith, (omega arith, (omega arith, tt)))
      from_seed_run

from_seed-ok_example : (t : ByteTransform) × (from_seed test_seed (pos 7) ≡ ok t)
from_seed-ok_example = from_seed-ok test_seed 7 (omega arith) (omega arith) (omega arith)

abbrev last_byte : TransformCursor
last_byte = record { transform = test_transform; index = 2 }

last_byte-IsCursor : IsCursor last_byte
last_byte-IsCursor = record {
  transform_valid = record {
    bytes = (omega arith, (omega arith, (omega arith, tt)));
    nonempty = omega arith;
    short = omega arith;
    shift_byte = omega arith;
  };
  in_key = omega arith;
}

decode-encode_byte_example :
    (raw : ℕ) × (coded : ℕ) × (after : TransformCursor) × IsCursor after
    × (raw < 256)
    × (coded < 256)
    × (encode_command 250 last_byte ≡ (ok raw, after))
    × (decode_command raw last_byte ≡ (ok 250, after))
    × (encode_data 250 last_byte ≡ (ok coded, after))
    × (decode_data coded last_byte ≡ (ok 250, after))
decode-encode_byte_example = decode-encode_byte last_byte 250 last_byte-IsCursor (omega arith)
