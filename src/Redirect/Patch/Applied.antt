-- ===== src/Redirect/Patch/Applied.antt =====
-- tools/redirect_client.py: when `_patch_metadata` returns.
use army.Common.{
  ℕ, zero, suc, ◌+◌, ◌≤◌, ◌≡◌, refl, arith, Bool, true, false, not, ◌||◌, some, List, [], ◌∷◌, ◌++◌,
  length, take, drop, append-nil, ◌==◌, take-append_length,
}
use army.Common.Equality.{◌=?◌, lookup, Eq, list_eq, nat_eq}
use army.Exec.{Result, ok}
use army.Redirect.{PatchPlan}
use army.Redirect.Paths.{Text, FilePath, is_under}
use army.Redirect.Plan.{IsPlan}
use army.Redirect.Patch.Bytes.{write_at-splice, slice-room}
use army.Redirect.Files.Frame.{Same, Keeps}
use army.Redirect.Files.Frame.Calls.{write_bytes-Keeps}
use army.Redirect.Files.{file, Tree, World, read_bytes, write_bytes, graft}
use army.Redirect.Verify.{count, slice, metadata_problem, original_problem, patched_problem}
use army.Redirect.Verify.Complete.{calm, verify_metadata-calm}
use army.Redirect.Patch.{patched, patch_metadata}

last_test : (a b c d : Bool) → (a || b || c || not d) ≡ false → d ≡ true
last_test false false false true h = refl
last_test false false false false h = absurd (cc h)
last_test false false true d h = absurd (cc h)
last_test false true c d h = absurd (cc h)
last_test true b c d h = absurd (cc h)

endpoint_there :
    (sha256 : List ℕ → Text) (plan : PatchPlan) (old : List ℕ)
    → original_problem sha256 plan old ≡ false
    → (slice plan.expected_offset (length plan.source_endpoint) old =? plan.source_endpoint) ≡ true
unfolding original_problem metadata_problem
endpoint_there sha256 plan old h =
    last_test (not (sha256 old =? plan.expected_original_sha256))
      (not (count plan.source_endpoint old == 1)) (not (count plan.target_endpoint old == 0))
      (slice plan.expected_offset (length plan.source_endpoint) old =? plan.source_endpoint) h

read_calm :
    (path : FilePath) (bytes : List ℕ) (files : Tree)
    → lookup path files ≡ some (file bytes)
    → read_bytes path (calm files) ≡ (ok bytes, calm files)
unfolding read_bytes
read_calm path bytes files found = rw found refl

write_calm :
    (path : FilePath) (bytes : List ℕ) (files : Tree)
    → write_bytes path bytes (calm files) ≡ (ok tt, calm (graft path (([], file bytes) ∷ []) files))
unfolding write_bytes
write_calm path bytes files = refl

-- The run, with the tests of the code on what it writes.
patch_metadata-calm :
    (sha256 : List ℕ → Text) (path : FilePath) (plan : PatchPlan) (old : List ℕ) (files : Tree)
    → lookup path files ≡ some (file old)
    → original_problem sha256 plan old ≡ false
    → patched_problem sha256 plan (patched plan old) ≡ false
    → patch_metadata sha256 path plan (calm files)
      ≡ (ok tt, calm (graft path (([], file (patched plan old)) ∷ []) files))
unfolding patch_metadata
patch_metadata-calm sha256 path plan old files found original good =
    let e : Eq FilePath = list_eq in
    let after : Tree = graft path (([], file (patched plan old)) ∷ []) files in
    let stored : lookup path after ≡ some (file (patched plan old)) =
      rw (append-nil, e.reflexive path) refl in
    rw
      (
        verify_metadata-calm path (original_problem sha256 plan) files (old, found, original),
        read_calm path old files found,
        endpoint_there sha256 plan old original,
        write_calm path (patched plan old) files,
        verify_metadata-calm path (patched_problem sha256 plan) after
            (patched plan old, stored, good),
      )
      refl

-- The bytes with the target endpoint in place of those at the offset.
abbrev pub spliced : PatchPlan → List ℕ → List ℕ
spliced plan old =
    take plan.expected_offset old
    ++ plan.target_endpoint
    ++ drop (plan.expected_offset + length plan.target_endpoint) old

-- The metadata file that the plan is made for, and that becomes the patched one of the plan.
pub record IsPatchable (sha256 : List ℕ → Text) (plan : PatchPlan) (old : List ℕ) : Type 0 where
  pub original_hash : sha256 old ≡ plan.expected_original_sha256
  pub source_once : count plan.source_endpoint old ≡ 1
  pub no_target : count plan.target_endpoint old ≡ 0
  pub at_offset :
      take (length plan.source_endpoint) (drop plan.expected_offset old) ≡ plan.source_endpoint
  pub patched_hash : sha256 (spliced plan old) ≡ plan.expected_patched_sha256
  pub no_source : count plan.source_endpoint (spliced plan old) ≡ 0
  pub target_once : count plan.target_endpoint (spliced plan old) ≡ 1

-- The target endpoint stands at the offset of the spliced bytes.
slice-spliced :
    (offset : ℕ) (part old behind : List ℕ)
    → offset ≤ length old
    → slice offset (length part) (take offset old ++ part ++ behind) ≡ part
slice-spliced zero part old behind h = take-append_length part behind
slice-spliced (suc offset) part [] behind h = absurd (omega arith)
slice-spliced (suc offset) part (b ∷ old) behind h =
    slice-spliced offset part old behind (omega arith)

module _ (sha256 : List ℕ → Text) (plan : PatchPlan) (old : List ℕ) (v : IsPlan plan)
    (good : IsPatchable sha256 plan old) where
  room : plan.expected_offset ≤ length old
  room =
      omega
        (arith, slice-room plan.expected_offset plan.source_endpoint old good.at_offset v.nonempty)

  passes_original : original_problem sha256 plan old ≡ false
  unfolding original_problem metadata_problem
  passes_original =
      let e : Eq Text = list_eq in
      let f : Eq (List ℕ) = list_eq in
      rw
        (
          good.original_hash,
          e.reflexive plan.expected_original_sha256,
          good.source_once,
          good.no_target,
          good.at_offset,
          f.reflexive plan.source_endpoint,
        )
        refl

  passes_patched : patched_problem sha256 plan (spliced plan old) ≡ false
  unfolding patched_problem metadata_problem
  passes_patched =
      let e : Eq Text = list_eq in
      let f : Eq (List ℕ) = list_eq in
      rw
        (
          good.patched_hash,
          e.reflexive plan.expected_patched_sha256,
          good.no_source,
          good.target_once,
          slice-spliced plan.expected_offset plan.target_endpoint old
              (drop (plan.expected_offset + length plan.target_endpoint) old) room,
          f.reflexive plan.target_endpoint,
        )
        refl

  same_bytes : patched plan old ≡ spliced plan old
  same_bytes = write_at-splice plan.target_endpoint plan.expected_offset old room

-- What a patch makes of the files.
pub record IsApplied (path : FilePath) (plan : PatchPlan) (old : List ℕ) (files : Tree)
    (run : Result (Unit {0}) × World) : Type 0 where
  pub returns : run.0 ≡ ok tt
  pub after : lookup path run.1.files ≡ some (file (spliced plan old))
  pub others : Same (is_under path) files run.1.files

-- When no call of the operating system fails, the metadata file that a valid plan is made for is
-- patched: if its bytes have the original hash and the endpoints as the plan says, and with the target
-- endpoint put at the offset they have the patched hash, only the target endpoint, and that once, then
-- the call returns, the file has these bytes, and no path outside it has changed.
pub patch_metadata-IsApplied :
    (sha256 : List ℕ → Text) (path : FilePath) (plan : PatchPlan) (old : List ℕ) (files : Tree)
    → IsPlan plan
    → lookup path files ≡ some (file old)
    → IsPatchable sha256 plan old
    → IsApplied path plan old files (patch_metadata sha256 path plan (calm files))
unfolding Keeps
patch_metadata-IsApplied sha256 path plan old files v found good =
    let e : Eq FilePath = list_eq in
    let same : patched plan old ≡ spliced plan old = same_bytes sha256 plan old v good in
    let run =
      patch_metadata-calm sha256 path plan old files found (passes_original sha256 plan old v good)
        (rw same (passes_patched sha256 plan old v good)) in
    rw run (record {
      returns = refl;
      after = rw (append-nil, e.reflexive path, same) refl;
      others = λ q out.
          rw (write_calm path (patched plan old) files) at
            (write_bytes-Keeps path (patched plan old) (calm files) q out);
    })
