-- ===== src/Redirect/Patch/Bytes.antt =====
-- tools/redirect_client.py: `stream.write` at an offset, as `_patch_metadata` uses it.
use army.Common.{
  ℕ, zero, suc, ◌+◌, ◌≤◌, ◌<◌, ◌≡◌, refl, sym, ap, ◌∙◌, arith, List, [], ◌∷◌, ◌++◌, length, take,
  drop, length-take, length-drop, length-append, drop-append_length,
}
use native.Mathlib.Nat.{zero-add, suc-add}
use army.Common.Equality.{list_eq, nat_eq}
use army.Redirect.Verify.{slice}
use army.Redirect.Patch.{write_at}

take-drop : (n : ℕ) (xs : List ℕ) → take n xs ++ drop n xs ≡ xs
take-drop zero xs = refl
take-drop (suc n) [] = refl
take-drop (suc n) (x ∷ xs) = ap (λ t. x ∷ t) (take-drop n xs)

module _ (bytes : List ℕ) where
  pub write_at-splice :
      (offset : ℕ) (old : List ℕ)
      → offset ≤ length old
      → write_at offset bytes old ≡ take offset old ++ bytes ++ drop (offset + length bytes) old
  unfolding write_at
  write_at-splice zero old h = rw zero-add refl
  write_at-splice (suc offset) [] h = absurd (omega arith)
  write_at-splice (suc offset) (b ∷ old) h =
      rw suc-add (ap (λ t. b ∷ t) (write_at-splice offset old (omega arith)))

  -- The bytes in front of the offset and behind what is written stay.
  pub length-write_at :
      (offset : ℕ) (old : List ℕ)
      → offset + length bytes ≤ length old
      → length (write_at offset bytes old) ≡ length old
  unfolding write_at
  length-write_at zero old h =
      omega (arith, length-append bytes (drop (length bytes) old), length-drop (length bytes) old)
  length-write_at (suc offset) [] h = absurd (omega arith)
  length-write_at (suc offset) (b ∷ old) h = ap suc (length-write_at offset old (omega arith))

pub slice-room :
    (offset : ℕ) (part old : List ℕ)
    → slice offset (length part) old ≡ part
    → 0 < length part
    → offset + length part ≤ length old
slice-room offset part old h positive =
    let cut : length (slice offset (length part) old) ≡ length part = ap length h in
    omega (arith, length-take (length part) (drop offset old), length-drop offset old)

-- Writing back what stood there restores the bytes.
pub write_at-write_at :
    (offset : ℕ) (part bytes old : List ℕ)
    → length part ≡ length bytes
    → slice offset (length part) old ≡ part
    → offset ≤ length old
    → write_at offset part (write_at offset bytes old) ≡ old
unfolding write_at
write_at-write_at zero part bytes old same h room =
    let behind : drop (length part) (bytes ++ drop (length bytes) old) ≡ drop (length part) old =
      rw same (drop-append_length bytes (drop (length bytes) old)) in
    let front : part ++ drop (length part) old ≡ take (length part) old ++ drop (length part) old =
      ap (λ t. t ++ drop (length part) old) (sym h) in
    rw behind (front ∙ take-drop (length part) old)
write_at-write_at (suc offset) part bytes [] same h room = absurd (omega arith)
write_at-write_at (suc offset) part bytes (b ∷ old) same h room =
    ap (λ t. b ∷ t) (write_at-write_at offset part bytes old same h (omega arith))
