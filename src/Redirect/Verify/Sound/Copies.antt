-- ===== src/Redirect/Verify/Sound/Copies.antt =====
-- tools/redirect_client.py: what `verify_original_client` and `verify_patched_copy` have found out when
-- they return, and what a copy is when it has been created.
use army.Common.{◌≡◌, refl, ◌∙◌, false, not, ◌||◌, Option, none, some, [], ◌∷◌, ◌++◌, arith}
use mathlib.Core.Path.{subst}
use army.Common.Equality.{◌=?◌, lookup, Eq, list_eq, nat_eq}
use army.Exec.{ok, redirect_error, raise_if, ◌>>=◌, ◌>>◌}
use army.Redirect.{PatchPlan, Library, Marker, same_marker}
use army.Redirect.Paths.{Text, FilePath, is_under}
use army.Redirect.Files.{Node, file, directory, link, Tree, World, Disk, node_at, is_directory_node}
use army.Redirect.Manifest.{Manifest, load_manifest}
use army.Redirect.Verify.{
  has_hash, original_problem, patched_problem, verify_files, verify_metadata_bytes,
  verify_original_client, verify_patched_copy, ensure_output_is_safe, patched_hash, read_marker,
  read_payload, marker_name,
}
use army.Redirect.Verify.Reads.{
  verify_files-Reads, load_manifest-Reads, read_marker-Reads, read_payload-Reads,
}
use army.Redirect.Verify.Sound.{Reads-ok, guard-ok, Passes, verify_metadata-ok}
use army.Redirect.Verify.Sound.Entries.{HasFiles, verify_files-HasFiles}

directory_found :
    (node : Option Node) → not (is_directory_node node) ≡ false → node ≡ some directory
directory_found none h = absurd (cc h)
directory_found (some (file bytes)) h = absurd (cc h)
directory_found (some directory) h = refl
directory_found (some link) h = absurd (cc h)

hash_found :
    (plan : PatchPlan) (digest : Option Text)
    → not (has_hash plan digest) ≡ false
    → digest ≡ some plan.expected_original_sha256
hash_found plan none h = absurd (cc h)
hash_found plan (some digest) h =
    let e : Eq Text = list_eq in
    let same : digest ≡ plan.expected_original_sha256 =
      e.sound digest plan.expected_original_sha256 (ground arith) in
    rw same refl

module _ (lib : Library) (plan : PatchPlan) where
  -- The client below `source` is the original one.
  pub record IsOriginal (source : FilePath) (manifest : Manifest) (files : Tree) : Type 0 where
    pub is_directory : lookup source files ≡ some directory
    pub metadata_hash : lookup plan.metadata_path manifest ≡ some plan.expected_original_sha256
    pub has_files : HasFiles lib.sha256 (λ relative digest. digest) source manifest [] files
    pub metadata : Passes (source ++ plan.metadata_path) (original_problem lib.sha256 plan) files

  abbrev original_files : FilePath → Manifest → Disk (Unit {0})
  original_files source manifest =
      verify_files lib.sha256 (λ relative digest. digest) source manifest []
      >> verify_metadata_bytes (source ++ plan.metadata_path) (original_problem lib.sha256 plan)

  -- When the verification of a client returns, its directory is there, with every file of the manifest
  -- under its hash and without a link or any other file, and the metadata file has the hash of the plan,
  -- the source endpoint once, at the offset, and the target endpoint nowhere.
  pub verify_original_client-IsOriginal :
      (source : FilePath) (manifest : Manifest) (w : World)
      → (verify_original_client lib source manifest plan w).0 ≡ ok tt
      → IsOriginal source manifest w.files
  unfolding verify_original_client
  verify_original_client-IsOriginal source manifest w h =
      let (present, h1) =
        guard-ok (not (is_directory_node (lookup source w.files))) redirect_error
          (raise_if (not (has_hash plan (lookup plan.metadata_path manifest))) redirect_error
            >> original_files source manifest)
          w tt h in
      let (hash, h2) =
        guard-ok (not (has_hash plan (lookup plan.metadata_path manifest))) redirect_error
          (original_files source manifest) w tt h1 in
      let (x, w', same, verified, h3) =
        Reads-ok (verify_files lib.sha256 (λ relative digest. digest) source manifest [])
          (λ x.
            verify_metadata_bytes (source ++ plan.metadata_path) (original_problem lib.sha256 plan))
          w tt (verify_files-Reads lib.sha256 (λ relative digest. digest) source manifest []) h2 in
      record {
        is_directory = directory_found (lookup source w.files) present;
        metadata_hash = hash_found plan (lookup plan.metadata_path manifest) hash;
        has_files =
            verify_files-HasFiles lib.sha256 (λ relative digest. digest) source manifest [] w
              verified;
        metadata =
            subst
              (λ (t : Tree).
                Passes (source ++ plan.metadata_path) (original_problem lib.sha256 plan) t)
              same
              (verify_metadata-ok (source ++ plan.metadata_path) (original_problem lib.sha256 plan)
                w' h3);
      }

  -- The directory `output` is a patched copy, by the manifest.
  pub record IsPatched (output : FilePath) (manifest : Manifest) (files : Tree) : Type 0 where
    pub is_directory : lookup output files ≡ some directory
    pub has_files :
        HasFiles lib.sha256 (patched_hash plan) output manifest ((marker_name ∷ []) ∷ []) files
    pub metadata : Passes (output ++ plan.metadata_path) (patched_problem lib.sha256 plan) files

  -- The last steps of the verification of a copy.
  abbrev copied_files : FilePath → Manifest → Disk (Unit {0})
  copied_files output manifest =
      verify_files lib.sha256 (patched_hash plan) output manifest ((marker_name ∷ []) ∷ [])
      >> verify_metadata_bytes (output ++ plan.metadata_path) (patched_problem lib.sha256 plan)

  abbrev payload_checked : FilePath → Manifest → Marker → Marker → Disk (Unit {0})
  payload_checked output manifest marker payload =
      raise_if (not (same_marker marker payload)) redirect_error >> copied_files output manifest

  abbrev marker_checked : FilePath → FilePath → Manifest → Disk (Unit {0})
  marker_checked output manifest_path manifest = read_marker lib output >>= λ marker.
      read_payload lib manifest_path plan >>= λ payload.
      payload_checked output manifest marker payload

  copied_files-IsPatched :
      (output : FilePath) (manifest : Manifest) (w : World)
      → lookup output w.files ≡ some directory
      → (copied_files output manifest w).0 ≡ ok tt
      → IsPatched output manifest w.files
  copied_files-IsPatched output manifest w present h =
      let (x, w', same, verified, h') =
        Reads-ok
          (verify_files lib.sha256 (patched_hash plan) output manifest ((marker_name ∷ []) ∷ []))
          (λ x.
            verify_metadata_bytes (output ++ plan.metadata_path) (patched_problem lib.sha256 plan))
          w tt
          (verify_files-Reads lib.sha256 (patched_hash plan) output manifest
            ((marker_name ∷ []) ∷ []))
          h in
      record {
        is_directory = present;
        has_files =
            verify_files-HasFiles lib.sha256 (patched_hash plan) output manifest
              ((marker_name ∷ []) ∷ []) w verified;
        metadata =
            subst
              (λ (t : Tree).
                Passes (output ++ plan.metadata_path) (patched_problem lib.sha256 plan) t)
              same
              (verify_metadata-ok (output ++ plan.metadata_path) (patched_problem lib.sha256 plan)
                w' h');
      }

  marker_checked-IsPatched :
      (output manifest_path : FilePath) (manifest : Manifest) (w : World)
      → lookup output w.files ≡ some directory
      → (marker_checked output manifest_path manifest w).0 ≡ ok tt
      → IsPatched output manifest w.files
  marker_checked-IsPatched output manifest_path manifest w present h =
      let (marker, w1, same1, e1, h1) =
        Reads-ok (read_marker lib output)
          (λ marker. read_payload lib manifest_path plan >>= λ payload.
            payload_checked output manifest marker payload)
          w tt (read_marker-Reads lib output) h in
      let (payload, w2, same2, e2, h2) =
        Reads-ok (read_payload lib manifest_path plan) (payload_checked output manifest marker) w1
          tt (read_payload-Reads lib manifest_path plan) h1 in
      let (matches, h3) =
        guard-ok (not (same_marker marker payload)) redirect_error (copied_files output manifest) w2
          tt h2 in
      let same : w2.files ≡ w.files = same2 ∙ same1 in
      subst (λ (t : Tree). IsPatched output manifest t) same
        (copied_files-IsPatched output manifest w2 (rw same present) h3)

  -- When the verification of a copy returns, the manifest file is a manifest, by which the directory
  -- is there, with every file of the manifest under its hash, the metadata file under the patched one,
  -- and without a link or any other file than the marker; and the metadata file has the target endpoint
  -- once, at the offset, and the source endpoint nowhere.
  pub verify_patched_copy-IsPatched :
      (output manifest_path allowed_root : FilePath) (w : World)
      → (verify_patched_copy lib output manifest_path plan allowed_root w).0 ≡ ok tt
      → (manifest : Manifest) × ((load_manifest manifest_path w).0 ≡ ok manifest)
        × IsPatched output manifest w.files
  unfolding verify_patched_copy ensure_output_is_safe
  verify_patched_copy-IsPatched output manifest_path allowed_root w h =
      let (safe, h1) =
        guard-ok (output =? allowed_root || not (is_under allowed_root output)) redirect_error
          (node_at output >>= λ node.
            raise_if (not (is_directory_node node)) redirect_error
            >> (load_manifest manifest_path >>= marker_checked output manifest_path))
          w tt h in
      let (present, h2) =
        guard-ok (not (is_directory_node (lookup output w.files))) redirect_error
          (load_manifest manifest_path >>= marker_checked output manifest_path) w tt h1 in
      let (manifest, w', same, e, h3) =
        Reads-ok (load_manifest manifest_path) (marker_checked output manifest_path) w tt
          (load_manifest-Reads manifest_path) h2 in
      let found : lookup output w.files ≡ some directory =
        directory_found (lookup output w.files) present in
      (
        manifest,
        e,
        subst (λ (t : Tree). IsPatched output manifest t) same
            (marker_checked-IsPatched output manifest_path manifest w' (rw same found) h3),
      )
