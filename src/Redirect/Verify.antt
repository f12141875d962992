-- ===== src/Redirect/Verify.antt =====
-- tools/redirect_client.py: the verification of a client's files.
pub mod Reads
pub mod Sound
pub mod Complete
use army.Common.{
  ℕ, zero, suc, Bool, true, false, not, ◌&&◌, ◌||◌, Option, none, some, List, [], ◌∷◌, ◌++◌, ◌+◌,
  ◌-◌, length, take, drop, if◌then◌else◌, leb, ◌==◌,
}
use army.Common.Equality.{◌=?◌, contains, lookup, list_eq, nat_eq}
use army.Exec.{
  Result, ok, err, redirect_error, Exec, pure, raise, raise_if, lift, gets, ◌>>=◌, ◌>>◌,
}
use army.Redirect.{PatchPlan, Marker, same_marker, Library, marker_payload}
use army.Redirect.Paths.{Text, RelativePath, FilePath, is_under}
use army.Redirect.Files.{
  Node, Disk, World, node_at, is_link_node, is_file_node, is_directory_node, read_bytes,
  found_files,
}
use army.Redirect.Manifest.{Manifest, Entry, keys, load_manifest, os_errors_redirected}
use army.Utf8.{utf8_decode}

-- `data.startswith(part)`
abbrev pub begins_with : List ℕ → List ℕ → Bool
begins_with [] bytes = true
begins_with (b ∷ part) [] = false
begins_with (b ∷ part) (c ∷ bytes) = b == c && begins_with part bytes

-- The occurrences of a part that is not empty, the first `skipped` bytes being within the last one.
unfoldable pub count_from : ℕ → List ℕ → List ℕ → ℕ
count_from skipped part [] = 0
count_from (suc skipped) part (b ∷ bytes) = count_from skipped part bytes
count_from zero part (b ∷ bytes) =
    let found = count_from (length part - 1) part bytes in
    let behind = count_from 0 part bytes in
    if begins_with part (b ∷ bytes) then suc found else behind

-- `data.count(part)`
unfoldable pub count : List ℕ → List ℕ → ℕ
unfolding count_from
count part bytes = count_from 0 part bytes

-- `data[offset : offset + size]`
abbrev pub slice : ℕ → ℕ → List ℕ → List ℕ
slice offset size bytes = take size (drop offset bytes)

-- `_verify_metadata_bytes`: its tests on the bytes of the file.
unfoldable pub metadata_problem : (List ℕ → Text) → PatchPlan → Text → ℕ → ℕ → List ℕ → Bool
metadata_problem sha256 plan expected_hash source_count target_count bytes =
    let expected = if source_count == 1 then plan.source_endpoint else plan.target_endpoint in
    not (sha256 bytes =? expected_hash)
    || not (count plan.source_endpoint bytes == source_count)
    || not (count plan.target_endpoint bytes == target_count)
    || not (slice plan.expected_offset (length expected) bytes =? expected)

-- The arguments that the unpatched and the patched file are verified with.
unfoldable pub original_problem : (List ℕ → Text) → PatchPlan → List ℕ → Bool
original_problem sha256 plan = metadata_problem sha256 plan plan.expected_original_sha256 1 0

unfoldable pub patched_problem : (List ℕ → Text) → PatchPlan → List ℕ → Bool
patched_problem sha256 plan = metadata_problem sha256 plan plan.expected_patched_sha256 0 1

unfoldable pub verify_metadata_bytes : FilePath → (List ℕ → Bool) → Disk (Unit {0})
verify_metadata_bytes path problem = do
  bytes ← read_bytes path
  raise_if (problem bytes) redirect_error

-- `_ensure_output_is_safe`
unfoldable pub ensure_output_is_safe : FilePath → FilePath → Disk (Unit {0})
ensure_output_is_safe output allowed_root =
    raise_if (output =? allowed_root || not (is_under allowed_root output)) redirect_error

-- The hash that a copy must have where the client has `original`.
unfoldable pub patched_hash : PatchPlan → RelativePath → Text → Text
patched_hash plan relative original =
    if relative =? plan.metadata_path then plan.expected_patched_sha256 else original

-- `_find_unexpected_files`, in the order of the file system: the result is sorted for a message only.
abbrev pub unexpected : List RelativePath → List RelativePath → List RelativePath
unexpected expected [] = []
unexpected expected (path ∷ paths) =
    let rest = unexpected expected paths in if contains path expected then rest else path ∷ rest

unfoldable pub find_unexpected_files : FilePath → List RelativePath → Disk (List RelativePath)
find_unexpected_files root expected = do found ← found_files root; pure (unexpected expected found)

abbrev pub has_some : List RelativePath → Bool
has_some [] = false
has_some (path ∷ paths) = true

-- The digest of "hash mismatch", the links and the missing files: whether an entry is a failure.
module _ (sha256 : List ℕ → Text) where
  unfoldable pub sha256_file : FilePath → Disk Text
  sha256_file path = do bytes ← read_bytes path; pure (sha256 bytes)

  abbrev check_node : FilePath → Text → Option Node → Disk Bool
  check_node path expected node =
      if is_link_node node || not (is_file_node node)
      then pure true
      else do actual ← sha256_file path; pure (not (actual =? expected))

  unfoldable pub check_entry : FilePath → RelativePath → Text → Disk Bool
  check_entry root relative expected = do
    node ← node_at (root ++ relative)
    check_node (root ++ relative) expected node

  abbrev counted : Bool → ℕ → ℕ
  counted true failures = suc failures
  counted false failures = failures

  -- The loop over the manifest, which ends at the tenth failure.
  unfoldable pub verify_entries : (RelativePath → Text → Text) → FilePath → Manifest → ℕ → Disk ℕ
  verify_entries expected root [] failures = pure failures
  verify_entries expected root (entry ∷ entries) failures = do
    failed ← check_entry root entry.0 (expected entry.0 entry.1)
    let rest = verify_entries expected root entries (counted failed failures)
    if leb 10 (counted failed failures) then pure (counted failed failures) else rest

  -- The part that both verifications share: the entries, and nothing else but `extra`.
  unfoldable pub verify_files :
      (RelativePath → Text → Text) → FilePath → Manifest → List RelativePath → Disk (Unit {0})
  verify_files expected root manifest extra = do
    failures ← verify_entries expected root manifest 0
    raise_if (leb 1 failures) redirect_error
    left ← find_unexpected_files root (keys manifest ++ extra)
    raise_if (has_some left) redirect_error

abbrev pub has_hash : PatchPlan → Option Text → Bool
has_hash plan none = false
has_hash plan (some digest) = digest =? plan.expected_original_sha256

-- ".army3-local-copy.json"
abbrev pub marker_name : Text
marker_name =
    46 ∷ 97 ∷ 114 ∷ 109 ∷ 121 ∷ 51 ∷ 45 ∷ 108 ∷ 111 ∷ 99 ∷ 97 ∷ 108 ∷ 45 ∷ 99 ∷ 111 ∷ 112 ∷ 121 ∷ 46
    ∷ 106 ∷ 115 ∷ 111 ∷ 110 ∷ []

module _ (lib : Library) where
  unfoldable pub verify_original_client : FilePath → Manifest → PatchPlan → Disk (Unit {0})
  verify_original_client source manifest plan = do
    node ← node_at source
    raise_if (not (is_directory_node node)) redirect_error
    raise_if (not (has_hash plan (lookup plan.metadata_path manifest))) redirect_error
    verify_files lib.sha256 (λ relative digest. digest) source manifest []
    verify_metadata_bytes (source ++ plan.metadata_path) (original_problem lib.sha256 plan)

  -- `_marker_payload(manifest_path, plan)`
  unfoldable pub read_payload : FilePath → PatchPlan → Disk Marker
  read_payload manifest_path plan = do
    digest ← sha256_file lib.sha256 manifest_path
    lift (marker_payload digest plan)

  abbrev loaded : Option Marker → Disk Marker
  loaded none = raise redirect_error
  loaded (some marker) = pure marker

  -- The marker file; a UnicodeDecodeError is not caught.
  unfoldable pub read_marker : FilePath → Disk Marker
  read_marker output = do
    text ←
        os_errors_redirected
          (read_bytes (output ++ marker_name ∷ []) >>= λ bytes. lift (utf8_decode bytes))
    loaded (lib.loads text)

  unfoldable pub verify_patched_copy : FilePath → FilePath → PatchPlan → FilePath → Disk (Unit {0})
  verify_patched_copy output manifest_path plan allowed_root = do
    ensure_output_is_safe output allowed_root
    node ← node_at output
    raise_if (not (is_directory_node node)) redirect_error
    manifest ← load_manifest manifest_path
    marker ← read_marker output
    payload ← read_payload manifest_path plan
    raise_if (not (same_marker marker payload)) redirect_error
    verify_files lib.sha256 (patched_hash plan) output manifest ((marker_name ∷ []) ∷ [])
    verify_metadata_bytes (output ++ plan.metadata_path) (patched_problem lib.sha256 plan)
