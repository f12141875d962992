-- ===== src/Redirect/Patch.antt =====
-- tools/redirect_client.py: `_patch_metadata`.
pub mod Bytes
pub mod Splice
pub mod Applied
use army.Common.{ℕ, zero, suc, ◌+◌, Bool, not, List, [], ◌∷◌, ◌++◌, length, take, drop}
use army.Common.Equality.{◌=?◌, list_eq, nat_eq}
use army.Exec.{ok, redirect_error, Exec, raise_if, ◌>>=◌, ◌>>◌}
use army.Redirect.{PatchPlan}
use army.Redirect.Paths.{Text, FilePath}
use army.Redirect.Files.{Disk, World, read_bytes, write_bytes}
use army.Redirect.Verify.{slice, original_problem, patched_problem, verify_metadata_bytes}

-- The bytes of a file after `stream.seek(offset)` and `stream.write(bytes)`: what it has in front and
-- behind stays, and a gap at its end is filled with zeros.
unfoldable pub write_at : ℕ → List ℕ → List ℕ → List ℕ
write_at zero bytes old = bytes ++ drop (length bytes) old
write_at (suc offset) bytes [] = 0 ∷ write_at offset bytes []
write_at (suc offset) bytes (b ∷ old) = b ∷ write_at offset bytes old

-- The bytes that the patched file has.
abbrev pub patched : PatchPlan → List ℕ → List ℕ
patched plan bytes = write_at plan.expected_offset plan.target_endpoint bytes

module _ (sha256 : List ℕ → Text) where
  unfoldable pub patch_metadata : FilePath → PatchPlan → Disk (Unit {0})
  patch_metadata path plan = do
    verify_metadata_bytes path (original_problem sha256 plan)
    current ← read_bytes path
    raise_if
        (not (
          slice plan.expected_offset (length plan.source_endpoint) current =? plan.source_endpoint))
        redirect_error
    write_bytes path (patched plan current)
    verify_metadata_bytes path (patched_problem sha256 plan)
