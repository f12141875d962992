-- ===== src/Redirect/Patch/Splice.antt =====
-- tools/redirect_client.py: the bytes that `_patch_metadata` leaves.
use army.Common.{
  ℕ, ◌+◌, ◌≤◌, ◌≡◌, refl, sym, ap, ◌∙◌, arith, Bool, true, false, not, some, List, [], ◌∷◌, ◌++◌,
  length, take, drop, append-nil,
}
use mathlib.Core.Path.{subst}
use army.Common.Equality.{◌=?◌, lookup, Eq, list_eq, nat_eq}
use army.Exec.{Result, ok, redirect_error, raise_if, ◌>>=◌, ◌>>◌}
use army.Redirect.{PatchPlan}
use army.Redirect.Paths.{Text, FilePath}
use army.Redirect.Files.{
  file, Tree, World, Disk, Fault, works, fails, read_bytes, write_bytes, write_with,
}
use army.Redirect.Files.Frame.{Reads}
use army.Redirect.Verify.{slice, original_problem, patched_problem, verify_metadata_bytes}
use army.Redirect.Verify.Reads.{verify_metadata-Reads}
use army.Redirect.Verify.Sound.{>>=-ok, >>=-run, read_bytes-ok, verify_metadata-ok}
use army.Redirect.Plan.{IsPlan}
use army.Redirect.Patch.Bytes.{write_at-splice, length-write_at, slice-room, write_at-write_at}
use army.Redirect.Patch.{write_at, patched, patch_metadata}

write_bytes-ok :
    (path : FilePath) (bytes : List ℕ) (w : World)
    → (write_bytes path bytes w).0 ≡ ok tt
    → lookup path (write_bytes path bytes w).1.files ≡ some (file bytes)
unfolding write_bytes
write_bytes-ok path bytes w h = by_faults w.faults h
  where
    stored : (w : World) → lookup path (write_with path bytes works w).1.files ≡ some (file bytes)
    stored w = let e : Eq FilePath = list_eq in rw (append-nil, e.reflexive path) refl

    by_faults :
        (faults : List Fault)
        → (write_bytes path bytes (record w { faults = faults })).0 ≡ ok tt
        → lookup path (write_bytes path bytes (record w { faults = faults })).1.files
          ≡ some (file bytes)
    by_faults [] h = stored w
    by_faults (works ∷ faults) h = stored w
    by_faults (fails left ∷ faults) h = absurd (cc h)

-- The file at the path has been patched.
pub record IsSpliced (sha256 : List ℕ → Text) (path : FilePath) (plan : PatchPlan)
    (files files' : Tree) : Type 0 where
  pub old : List ℕ
  pub before : lookup path files ≡ some (file old)
  pub was_original : original_problem sha256 plan old ≡ false
  pub after :
      lookup path files'
      ≡ some (
          file (
            take plan.expected_offset old
            ++ plan.target_endpoint
            ++ drop (plan.expected_offset + length plan.target_endpoint) old))
  pub same_size : length (patched plan old) ≡ length old
  pub reversible : write_at plan.expected_offset plan.source_endpoint (patched plan old) ≡ old
  pub is_patched : patched_problem sha256 plan (patched plan old) ≡ false

file_injective : (a b : List ℕ) → some (file a) ≡ some (file b) → a ≡ b
file_injective a b h = cc h

module _ (sha256 : List ℕ → Text) (path : FilePath) (plan : PatchPlan) where
  abbrev check_patched : Disk (Unit {0})
  check_patched = verify_metadata_bytes path (patched_problem sha256 plan)

  abbrev write_checked : List ℕ → Disk (Unit {0})
  write_checked current = write_bytes path (patched plan current) >> check_patched

  abbrev guard_write : List ℕ → Disk (Unit {0})
  guard_write current =
      raise_if
        (not (
          slice plan.expected_offset (length plan.source_endpoint) current =? plan.source_endpoint))
        redirect_error
      >> write_checked current

  write_checked-IsSpliced :
      (old : List ℕ) (w : World) (files : Tree)
      → IsPlan plan
      → lookup path files ≡ some (file old)
      → original_problem sha256 plan old ≡ false
      → slice plan.expected_offset (length plan.source_endpoint) old ≡ plan.source_endpoint
      → (write_checked old w).0 ≡ ok tt
      → IsSpliced sha256 path plan files (write_checked old w).1.files
  unfolding Reads
  write_checked-IsSpliced old w files v before original endpoint h =
      let new : List ℕ = patched plan old in
      let room : plan.expected_offset + length plan.source_endpoint ≤ length old =
        slice-room plan.expected_offset plan.source_endpoint old endpoint v.nonempty in
      let (x, e, h') = >>=-ok (write_bytes path new) (λ x. check_patched) w tt h in
      let w' : World = (write_bytes path new w).1 in
      let stored : lookup path w'.files ≡ some (file new) = write_bytes-ok path new w e in
      let (bytes, found, good) = verify_metadata-ok path (patched_problem sha256 plan) w' h' in
      let same_bytes : bytes ≡ new = file_injective bytes new (sym found ∙ stored) in
      let kept : (write_checked old w).1.files ≡ w'.files =
        ap (λ (t : Result (Unit {0}) × World). t.1.files)
          (>>=-run (write_bytes path new) (λ x. check_patched) w tt e)
        ∙ verify_metadata-Reads path (patched_problem sha256 plan) w' in
      record {
        old = old;
        before = before;
        was_original = original;
        after =
            ap (lookup path) kept
            ∙ stored
            ∙ ap (λ t. some (file t))
                (write_at-splice plan.target_endpoint plan.expected_offset old (omega arith));
        same_size =
            length-write_at plan.target_endpoint plan.expected_offset old
              (omega (arith, v.same_length));
        reversible =
            write_at-write_at plan.expected_offset plan.source_endpoint plan.target_endpoint old
              v.same_length endpoint (omega arith);
        is_patched = rw (sym same_bytes) good;
      }

  guard_write-IsSpliced :
      (old : List ℕ) (w : World) (files : Tree)
      → IsPlan plan
      → lookup path files ≡ some (file old)
      → original_problem sha256 plan old ≡ false
      → (guard_write old w).0 ≡ ok tt
      → IsSpliced sha256 path plan files (guard_write old w).1.files
  guard_write-IsSpliced old w files v before original h =
      by_test (slice plan.expected_offset (length plan.source_endpoint) old =? plan.source_endpoint)
        refl h
    where
      eq : Eq (List ℕ)
      eq = list_eq

      by_test :
          (b : Bool)
          → (slice plan.expected_offset (length plan.source_endpoint) old =? plan.source_endpoint)
            ≡ b
          → ((raise_if (not b) redirect_error >> write_checked old) w).0 ≡ ok tt
          → IsSpliced sha256 path plan files
              ((raise_if (not b) redirect_error >> write_checked old) w).1.files
      by_test true same h =
          write_checked-IsSpliced old w files v before original
            (eq.sound (slice plan.expected_offset (length plan.source_endpoint) old)
              plan.source_endpoint same)
            h
      by_test false same h = absurd (cc h)

  -- When the patch of the metadata file returns, the file was the original one, with the source endpoint
  -- at the offset; of its bytes, exactly those have given way to the target endpoint, the others and the
  -- size have stayed; writing the source endpoint back gives the original bytes; and the file is the
  -- patched one of the plan. The plan is one that its own checks accept.
  pub patch_metadata-IsSpliced :
      (w : World)
      → IsPlan plan
      → (patch_metadata sha256 path plan w).0 ≡ ok tt
      → IsSpliced sha256 path plan w.files (patch_metadata sha256 path plan w).1.files
  unfolding patch_metadata Reads
  patch_metadata-IsSpliced w v h =
      let verify : Disk (Unit {0}) = verify_metadata_bytes path (original_problem sha256 plan) in
      let (x, e1, h1) = >>=-ok verify (λ x. read_bytes path >>= guard_write) w tt h in
      let w1 : World = (verify w).1 in
      let same1 : w1.files ≡ w.files =
        verify_metadata-Reads path (original_problem sha256 plan) w in
      let (bytes, found, original) = verify_metadata-ok path (original_problem sha256 plan) w e1 in
      let (old, e2, h2) = >>=-ok (read_bytes path) guard_write w1 tt h1 in
      let w2 : World = (read_bytes path w1).1 in
      let here : lookup path w.files ≡ some (file old) =
        subst (λ (t : Tree). lookup path t ≡ some (file old)) same1
          (read_bytes-ok path w1 old e2) in
      let same_bytes : bytes ≡ old = file_injective bytes old (sym found ∙ here) in
      let run : patch_metadata sha256 path plan w ≡ guard_write old w2 =
        >>=-run verify (λ x. read_bytes path >>= guard_write) w tt e1
        ∙ >>=-run (read_bytes path) guard_write w1 old e2 in
      subst (λ (t : Result (Unit {0}) × World). IsSpliced sha256 path plan w.files t.1.files)
        (sym run) (guard_write-IsSpliced old w2 w.files v here (rw (sym same_bytes) original) h2)
