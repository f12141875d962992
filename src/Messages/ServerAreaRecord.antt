-- ===== src/Messages/ServerAreaRecord.antt =====
-- `ServerAreaRecord` of messages.py: one record of the 0xE4 list. The id -1 goes out as 0xFF, and with
-- it only the name.
use army.Common.{ap, zero, suc, if◌then◌else◌, ◌%◌}
use army.Common.Int.{negsuc, low_byte}
use army.Primitives.{reader, read_exact}
use army.Primitives.Codec.{Codec, Codec-then, Codec-last}
use army.Primitives.Reads.{Reads-pure, reader-At}
use army.Primitives.Writes.{Writes-assoc}
use army.Messages.Rules.{
  ℕ, ℤ, pos, ◌≡◌, arith, false, not, ◌&&◌, List, [], ◌∷◌, eq_ℤ, within, Result, Exec, pure,
  raise_if, ◌>>=◌, ◌>>◌, encode_error, ByteReader, ByteWriter, write_u8, write_u32, write_string16,
  read_u8, read_u32, read_string16, Codec-u8, Codec-u32, Codec-string16, Reads, Writes-raise_if,
}

pub record ServerAreaRecord : Type 0 where
  pub area_id : ℤ
  pub flag_0x11 : ℤ
  pub flag_0x13 : ℤ
  pub occupancy : ℤ
  pub capacity : ℤ
  pub money : ℤ
  pub name : List ℕ

-- "Khu vực Local"
abbrev pub local_name : List ℕ
local_name =
    0x4b ∷ 0x68 ∷ 0x75 ∷ 0x20 ∷ 0x76 ∷ 0x1ef1 ∷ 0x63 ∷ 0x20 ∷ 0x4c ∷ 0x6f ∷ 0x63 ∷ 0x61 ∷ 0x6c ∷ []

-- The defaults of the fields behind the id.
unfoldable pub with_defaults : ℤ → List ℕ → ServerAreaRecord
with_defaults area_id name = record {
  area_id = area_id;
  flag_0x11 = pos 0;
  flag_0x13 = pos 0;
  occupancy = pos 0;
  capacity = pos 8;
  money = pos 0;
  name = name;
}

unfoldable pub encode_details : ServerAreaRecord → Exec ByteWriter (Unit {0})
encode_details r = do
  write_u8 r.flag_0x11
  write_u8 r.flag_0x13
  write_u8 r.occupancy
  write_u8 r.capacity
  write_u32 r.money

unfoldable pub encode_into : ServerAreaRecord → Exec ByteWriter (Unit {0})
encode_into r = do
  raise_if (not (eq_ℤ r.area_id (negsuc 0)) && not (within (pos 0) (pos 127) r.area_id))
      encode_error
  write_u8 (pos (low_byte r.area_id))
  if eq_ℤ r.area_id (negsuc 0) then pure tt else encode_details r
  write_string16 r.name

unfoldable pub decode_name : Exec ByteReader ServerAreaRecord
unfolding with_defaults
decode_name = do name ← read_string16; pure (with_defaults (negsuc 0) name)

unfoldable pub decode_details : ℤ → Exec ByteReader ServerAreaRecord
decode_details area_id = do
  flag_0x11 ← read_u8
  flag_0x13 ← read_u8
  occupancy ← read_u8
  capacity ← read_u8
  money ← read_u32
  name ← read_string16
  pure (record {
    area_id = area_id;
    flag_0x11 = flag_0x11;
    flag_0x13 = flag_0x13;
    occupancy = occupancy;
    capacity = capacity;
    money = money;
    name = name;
  })

unfoldable pub decode_from : Exec ByteReader ServerAreaRecord
unfolding decode_name
decode_from = do
  raw_id ← read_u8
  if eq_ℤ raw_id (pos 0xff) then decode_name else decode_details raw_id

-- What is left of a record on the wire: of the one with id -1, its name.
unfoldable pub kept : ServerAreaRecord → ServerAreaRecord
unfolding with_defaults
kept r = if eq_ℤ r.area_id (negsuc 0) then with_defaults (negsuc 0) r.name else r

module _ (flag_0x11 flag_0x13 occupancy capacity money : ℤ) (name : List ℕ) where
  abbrev with_id : ℤ → ServerAreaRecord
  with_id area_id = record {
    area_id = area_id;
    flag_0x11 = flag_0x11;
    flag_0x13 = flag_0x13;
    occupancy = occupancy;
    capacity = capacity;
    money = money;
    name = name;
  }

  -- The fields behind a real id.
  Codec-details :
      (area_id : ℤ)
      → Codec
          (encode_details (with_id area_id) >> write_string16 name)
          (decode_details area_id)
          (with_id area_id)
  unfolding encode_details decode_details
  Codec-details area_id = Writes-assoc _ (write_u8 flag_0x11) _ _ (
      Codec-then _ _ _ _ (Codec-u8 flag_0x11) (
        Writes-assoc _ (write_u8 flag_0x13) _ _ (
          Codec-then _ _ _ _ (Codec-u8 flag_0x13) (
            Writes-assoc _ (write_u8 occupancy) _ _ (
              Codec-then _ _ _ _ (Codec-u8 occupancy) (
                Writes-assoc _ (write_u8 capacity) _ _ (
                  Codec-then _ _ _ _ (Codec-u8 capacity) (
                    Codec-then _ _ _ _ (Codec-u32 money) (
                      Codec-last _ _ _ (Codec-string16 name) (Reads-pure (with_id area_id)))))))))))

  by_id :
      (area_id : ℤ)
      → not (eq_ℤ area_id (negsuc 0)) && not (within (pos 0) (pos 127) area_id) ≡ false
      → Codec
          (do
            write_u8 (pos (low_byte area_id))
            if eq_ℤ area_id (negsuc 0) then pure tt else encode_details (with_id area_id)
            write_string16 name)
          decode_from
          (kept (with_id area_id))
  unfolding decode_from kept
  by_id (negsuc zero) h =
      Codec-then _ _ _ _ (Codec-u8 (pos 255))
        (Codec-last _ _ _ (Codec-string16 name) (Reads-pure (with_defaults (negsuc 0) name)))
  by_id (negsuc (suc n)) h = absurd (ground arith)
  by_id (pos n) h =
      let small : n % 256 ≡ n = ground arith in
      let real : eq_ℤ (pos n) (pos 0xff) ≡ false = ground arith in
      rw small (Codec-then _ _ _ _ (Codec-u8 (pos n)) (rw real (Codec-details (pos n))))

-- What `encode_into` writes, `decode_from` reads back, up to what is kept.
pub Codec-record : (r : ServerAreaRecord) → Codec (encode_into r) decode_from (kept r)
unfolding encode_into
Codec-record r =
    Writes-raise_if (Reads decode_from (kept r))
      (not (eq_ℤ r.area_id (negsuc 0)) && not (within (pos 0) (pos 127) r.area_id)) encode_error _
      (by_id r.flag_0x11 r.flag_0x13 r.occupancy r.capacity r.money r.name r.area_id)

-- A record takes a byte at least.
pub not-Reads-nil : (r : ServerAreaRecord) → ¬ Reads decode_from r []
unfolding decode_from read_u8 read_exact
not-Reads-nil r h =
    cc
      (ap (λ (t : Result ServerAreaRecord × ByteReader). t.0) (h.run (reader []) [] (reader-At [])))
