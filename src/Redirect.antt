-- ===== src/Redirect.antt =====
-- tools/redirect_client.py: the plan of the patch, and the library calls whose functions are arguments
-- of the model. Paths are taken as `Path.resolve` returns them: from the root, without links and dots.
pub mod Paths
pub mod Files
pub mod Manifest
pub mod Verify
pub mod Patch
pub mod Create
pub mod Plan
mod Runs
use army.Common.{
  ℕ, Bool, true, false, not, ◌&&◌, ◌||◌, List, [], ◌∷◌, ◌++◌, length, leb, if◌then◌else◌, ◌==◌,
  Option,
}
use army.Common.Int.{ℤ, pos, negsuc}
use army.Common.Equality.{◌=?◌, list_eq, nat_eq}
use army.Exec.{Result, ok, err, value_error, unicode_decode_error, bind_result}
use army.Redirect.Paths.{Text, RelativePath, PosixPath, is_safe, joined}

-- `char in "0123456789abcdef"`
unfoldable pub is_hex : ℕ → Bool
is_hex c = (leb 48 c && leb c 57) || (leb 97 c && leb c 102)

unfoldable pub all_hex : Text → Bool
all_hex [] = true
all_hex (c ∷ cs) = is_hex c && all_hex cs

-- The negation of the test `len(value) != 64 or any(...)`.
unfoldable pub is_digest : Text → Bool
is_digest value = (length value == 64) && all_hex value

pub record PatchPlan : Type 0 where
  pub metadata_path : RelativePath
  pub source_endpoint : List ℕ
  pub target_endpoint : List ℕ
  pub expected_offset : ℕ
  pub expected_original_sha256 : Text
  pub expected_patched_sha256 : Text

-- `PatchPlan(...)`, with the checks of `__post_init__` in their order.
unfoldable pub patch_plan : PosixPath → List ℕ → List ℕ → ℤ → Text → Text → Result PatchPlan
patch_plan path source target (negsuc n) original patched = err value_error
patch_plan path source target (pos offset) original patched =
    if not (is_safe path)
    then err value_error
    else if not (length source == length target)
    then err value_error
    else if length source == 0
    then err value_error
    else if not (is_digest original)
    then err value_error
    else if not (is_digest patched)
    then err value_error
    else ok (record {
      metadata_path = path.parts;
      source_endpoint = source;
      target_endpoint = target;
      expected_offset = offset;
      expected_original_sha256 = original;
      expected_patched_sha256 = patched;
    })

-- The object of the marker file; `schema` and `server_port` are constants.
pub record Marker : Type 0 where
  pub manifest_sha256 : Text
  pub metadata_path : Text
  pub offset : ℕ
  pub source_endpoint : Text
  pub target_endpoint : Text
  pub original_metadata_sha256 : Text
  pub patched_metadata_sha256 : Text

abbrev pub same_marker : Marker → Marker → Bool
same_marker a b =
    a.manifest_sha256 =? b.manifest_sha256
    && a.metadata_path =? b.metadata_path
    && a.offset == b.offset
    && a.source_endpoint =? b.source_endpoint
    && a.target_endpoint =? b.target_endpoint
    && a.original_metadata_sha256 =? b.original_metadata_sha256
    && a.patched_metadata_sha256 =? b.patched_metadata_sha256

-- `hashlib.sha256(...).hexdigest()`, `json.dumps(..., indent=2, sort_keys=True)` and `json.loads`,
-- which has none for a text that is no JSON and for a value that is no object with these members.
pub record Library : Type 0 where
  pub sha256 : List ℕ → Text
  pub dumps : Marker → Text
  pub loads : Text → Option Marker

-- `bytes.decode("ascii")`
unfoldable pub ascii_decode : List ℕ → Result Text
ascii_decode [] = ok []
ascii_decode (b ∷ bs) =
    let rest = ascii_decode bs in
    if leb 128 b then err unicode_decode_error else bind_result rest (λ cs. ok (b ∷ cs))

-- `_marker_payload`, with the hash of the manifest file.
unfoldable pub marker_payload : Text → PatchPlan → Result Marker
marker_payload digest plan = bind_result (ascii_decode plan.source_endpoint) (λ source.
    bind_result (ascii_decode plan.target_endpoint) (λ target. ok (record {
      manifest_sha256 = digest;
      metadata_path = joined plan.metadata_path;
      offset = plan.expected_offset;
      source_endpoint = source;
      target_endpoint = target;
      original_metadata_sha256 = plan.expected_original_sha256;
      patched_metadata_sha256 = plan.expected_patched_sha256;
    })))
