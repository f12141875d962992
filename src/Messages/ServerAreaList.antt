-- ===== src/Messages/ServerAreaList.antt =====
-- `ServerAreaList` of messages.py: the record-list branch of command 0xE4.
use army.Common.{zero, suc, ◌<◌, ◌++◌, append-nil, append_assoc, length-append}
use army.Common.{◌==◌, if◌then◌else◌, ◌||◌}
use army.Exec.{out_of_fuel}
use army.Primitives.{remaining}
use army.Primitives.Reads.{At-advance, advance, At-remaining}
use army.Primitives.Writes.{Writes-pure, Writes-then, Writes-mono}
use army.Messages.ServerAreaRecord.{ServerAreaRecord, with_defaults, local_name, encode_into}
use army.Messages.ServerAreaRecord.{decode_from, kept, Codec-record, not-Reads-nil}
use army.Messages.Rules.{
  ℕ, ℤ, pos, ◌≡◌, refl, arith, Bool, true, false, not, List, [], ◌∷◌, length, eq_ℤ, within, Result,
  ok, err, Exec, bind_result, pure, raise_if, ◌>>=◌, ◌>>◌, encode_error, decode_error, Packet,
  packet, ByteReader, ByteWriter, written, read_payload, write_u8, read_u8, read_payload-written,
  Message-then, Message-check, Codec-u8, Reads, Whole, Writes, Writes-raise_if, number,
}
use army.Messages.Command.{area}

pub record ServerAreaList : Type 0 where
  pub records : List ServerAreaRecord
  pub selector : ℤ

-- `ServerAreaList()`
unfoldable pub default_list : ServerAreaList
default_list = record { records = with_defaults (pos 0) local_name ∷ []; selector = pos 0 }

unfoldable pub is_empty : List ServerAreaRecord → Bool
is_empty [] = true
is_empty (r ∷ rs) = false

unfoldable pub encode_records : List ServerAreaRecord → Exec ByteWriter (Unit {0})
encode_records [] = pure tt
encode_records (r ∷ rs) = encode_into r >> encode_records rs

abbrev fields : ServerAreaList → Exec ByteWriter (Unit {0})
fields m = do
  raise_if (eq_ℤ m.selector (pos 1) || not (within (pos 0) (pos 0xff) m.selector)) encode_error
  raise_if (is_empty m.records) encode_error
  write_u8 m.selector
  encode_records m.records

unfoldable pub encode_payload : ServerAreaList → Result (List ℕ)
encode_payload m = written (fields m)

unfoldable pub to_packet : ServerAreaList → Result Packet
unfolding encode_payload
to_packet m = bind_result (encode_payload m) (packet (number area))

-- `while reader.remaining`
unfoldable pub decode_loop : ℕ → List ServerAreaRecord → Exec ByteReader (List ServerAreaRecord)
decode_loop zero records r = (err out_of_fuel, r)
decode_loop (suc fuel) records r =
    let more = (do record' ← decode_from; decode_loop fuel (records ++ record' ∷ [])) r in
    if remaining r == 0 then (ok records, r) else more

-- Each record takes a byte at least.
unfoldable pub decode_records : Exec ByteReader (List ServerAreaRecord)
decode_records r = decode_loop (suc (remaining r)) [] r

abbrev body : Exec ByteReader ServerAreaList
body = do
  selector ← read_u8
  raise_if (eq_ℤ selector (pos 1)) decode_error
  records ← decode_records
  raise_if (is_empty records) decode_error
  pure (record { records = records; selector = selector })

unfoldable pub decode_payload : List ℕ → Result ServerAreaList
decode_payload = read_payload body

abbrev all_kept : List ServerAreaRecord → List ServerAreaRecord
all_kept [] = []
all_kept (r ∷ rs) = kept r ∷ all_kept rs

-- Bytes that the loop reads as the records, to the end of the payload.
record ReadsAll (rs : List ServerAreaRecord) (bs : List ℕ) : Type 0 where
  loop :
      (fuel : ℕ) (records : List ServerAreaRecord)
      → length bs < fuel
      → Whole (decode_loop fuel records) (records ++ all_kept rs) bs

no_bytes :
    (fuel : ℕ) (records : List ServerAreaRecord)
    → 0 < fuel
    → Whole (decode_loop fuel records) (records ++ []) []
unfolding decode_loop
no_bytes zero records h = absurd (omega arith)
no_bytes (suc fuel) records h = record { run = λ r at. rw (At-remaining r [] at, append-nil) }

ReadsAll-nil : ReadsAll [] []
ReadsAll-nil = record { loop = no_bytes }

-- One round of the loop.
one_record :
    (r : ServerAreaRecord) (rs : List ServerAreaRecord) (xs ys : List ℕ) (fuel : ℕ)
    (records : List ServerAreaRecord)
    → Reads decode_from (kept r) xs
    → ReadsAll rs ys
    → length (xs ++ ys) < fuel
    → Whole (decode_loop fuel records) (records ++ all_kept (r ∷ rs)) (xs ++ ys)
unfolding decode_loop
one_record r rs [] ys fuel records h hs lt = absurd (not-Reads-nil (kept r) h)
one_record r rs (x ∷ xs) ys zero records h hs lt = absurd (omega arith)
one_record r rs (x ∷ xs) ys (suc fuel) records h hs lt = record {
  run = λ rd at.
      let more : (remaining rd == 0) ≡ false = ground (arith, At-remaining rd (x ∷ xs ++ ys) at) in
      let rest =
        (hs.loop fuel (records ++ kept r ∷ []) (omega (arith, length-append (x ∷ xs) ys))).run
          (advance (length (x ∷ xs)) rd) (At-advance rd (x ∷ xs) ys at) in
      rw (more, h.run rd ys at, rest, append_assoc records (kept r ∷ []) (all_kept rs));
}

ReadsAll-cons :
    (r : ServerAreaRecord) (rs : List ServerAreaRecord) (xs ys : List ℕ)
    → Reads decode_from (kept r) xs
    → ReadsAll rs ys
    → ReadsAll (r ∷ rs) (xs ++ ys)
ReadsAll-cons r rs xs ys h hs = record {
  loop = λ fuel records lt. one_record r rs xs ys fuel records h hs lt;
}

encode_records-ReadsAll : (rs : List ServerAreaRecord) → Writes (encode_records rs) (ReadsAll rs)
unfolding encode_records
encode_records-ReadsAll [] = Writes-pure (ReadsAll []) ReadsAll-nil
encode_records-ReadsAll (r ∷ rs) =
    Writes-then (Reads decode_from (kept r)) (ReadsAll rs) (ReadsAll (r ∷ rs)) (ReadsAll-cons r rs)
      (encode_into r) (encode_records rs) (Codec-record r) (encode_records-ReadsAll rs)

ReadsAll-Whole :
    (rs : List ServerAreaRecord) (k : List ServerAreaRecord → Exec ByteReader ServerAreaList)
    {m : ServerAreaList} (bs : List ℕ)
    → ReadsAll rs bs
    → ((r : ByteReader) → (k (all_kept rs) r).0 ≡ ok m)
    → Whole (decode_records >>= k) m bs
unfolding decode_records
ReadsAll-Whole rs k bs h e = record {
  run = λ r at.
      rw ((h.loop (suc (remaining r)) [] (omega (arith, At-remaining r bs at))).run r at)
        (e (decode_loop (suc (remaining r)) [] r).1);
}

kept_some : (rs : List ServerAreaRecord) → is_empty rs ≡ false → is_empty (all_kept rs) ≡ false
unfolding is_empty
kept_some [] h = cc
kept_some (r ∷ rs) h = refl

left_false : (a b : Bool) → a || b ≡ false → a ≡ false
left_false true b h = h
left_false false b h = refl

-- A list that encodes is what its payload decodes to, up to what is kept of each record.
pub decode-encode_areas :
    (m : ServerAreaList) (bs : List ℕ)
    → encode_payload m ≡ ok bs
    → decode_payload bs ≡ ok (record m { records = all_kept m.records })
unfolding encode_payload decode_payload
decode-encode_areas m bs e =
    read_payload-written (fields m) body bs
      (Writes-raise_if _ (eq_ℤ m.selector (pos 1) || not (within (pos 0) (pos 0xff) m.selector))
        encode_error _
        (λ ranged. Writes-raise_if _ (is_empty m.records) encode_error _ (λ some_record.
          Message-then _ _ _ _ (Codec-u8 m.selector) (
            Message-check (eq_ℤ m.selector (pos 1)) decode_error _ _ (left_false _ _ ranged) (
              Writes-mono (ReadsAll m.records) _ (encode_records m.records)
                (encode_records-ReadsAll m.records)
                (λ bs h.
                  ReadsAll-Whole m.records _ bs h (λ r. rw (kept_some m.records some_record))))))))
      e
