-- ===== src/Redirect/Create.antt =====
-- tools/redirect_client.py: `create_patched_copy`.
pub mod Build
pub mod Publish
pub mod Confined
pub mod Created
use army.Common.{ℕ, Bool, true, false, ◌||◌, List, [], ◌∷◌, ◌++◌, if◌then◌else◌}
use army.Exec.{
  Result, ok, err, redirect_error, os_error, bind_result, Exec, pure, raise, raise_if, lift, ◌>>=◌,
  ◌>>◌,
}
use army.Utf8.{utf8_encode}
use army.Redirect.{PatchPlan, Library}
use army.Redirect.Paths.{Text, FilePath, is_under, last_name}
use army.Redirect.Files.{
  Disk, World, path_exists, copytree, write_bytes, rename, rmtree, mkdir_parents,
}
use army.Redirect.Manifest.{Manifest, load_manifest}
use army.Redirect.Verify.{
  ensure_output_is_safe, verify_original_client, verify_patched_copy, read_payload, marker_name,
}
use army.Redirect.Patch.{patch_metadata}

abbrev pub raising_again : {A : Type 0} → Disk (Unit {0}) → Result A → Disk A
raising_again clean (ok a) w = (ok a, w)
raising_again clean (err e) w = (err e, (clean w).1)

-- `except Exception: ...; raise`, for a cleaning that does not raise.
abbrev pub on_error : {A : Type 0} → Disk A → Disk (Unit {0}) → Disk A
on_error m clean w = let (r, w') = m w in raising_again clean r w'

-- `if path.exists(): shutil.rmtree(path)`
unfoldable pub clean_up : FilePath → Disk (Unit {0})
clean_up path = do present ← path_exists path; if present then rmtree path else pure tt

-- `allowed_output_root / f".{output.name}.tmp-{token}"`
unfoldable pub temporary_path : FilePath → FilePath → Text → FilePath
temporary_path allowed_root output token =
    allowed_root ++ (46 ∷ last_name output ++ 46 ∷ 116 ∷ 109 ∷ 112 ∷ 45 ∷ token) ∷ []

module _ (lib : Library) where
  -- The `try` block up to `published = True`.
  unfoldable pub build :
      FilePath → FilePath → FilePath → PatchPlan → FilePath → FilePath → Disk (Unit {0})
  build source output manifest_path plan allowed_root temporary = do
    copytree source temporary
    patch_metadata lib.sha256 (temporary ++ plan.metadata_path) plan
    payload ← read_payload lib manifest_path plan
    bytes ← lift (utf8_encode (lib.dumps payload ++ 10 ∷ []))
    write_bytes (temporary ++ marker_name ∷ []) bytes
    verify_patched_copy lib temporary manifest_path plan allowed_root
    rename temporary output

  -- The `try` block behind it.
  unfoldable pub check_published :
      FilePath → FilePath → FilePath → PatchPlan → FilePath → Manifest → Disk (Unit {0})
  check_published source output manifest_path plan allowed_root manifest = do
    verify_patched_copy lib output manifest_path plan allowed_root
    verify_original_client lib source manifest plan

  -- The `try` statement.
  unfoldable pub publish :
      FilePath → FilePath → FilePath → PatchPlan → FilePath → FilePath → Manifest → Disk (Unit {0})
  publish source output manifest_path plan allowed_root temporary manifest = do
    on_error (build source output manifest_path plan allowed_root temporary) (clean_up temporary)
    on_error (check_published source output manifest_path plan allowed_root manifest)
        (clean_up temporary >> clean_up output)

  -- `create_patched_copy`; `token` is `uuid4().hex`.
  unfoldable pub create_patched_copy :
      FilePath → FilePath → FilePath → PatchPlan → FilePath → Text → Disk (Unit {0})
  create_patched_copy source output manifest_path plan allowed_root token = do
    ensure_output_is_safe output allowed_root
    raise_if (is_under source output) redirect_error
    present ← path_exists output
    raise_if present redirect_error
    manifest ← load_manifest manifest_path
    verify_original_client lib source manifest plan
    mkdir_parents allowed_root
    taken ← path_exists (temporary_path allowed_root output token)
    raise_if taken redirect_error
    publish source output manifest_path plan allowed_root (temporary_path allowed_root output token)
        manifest
