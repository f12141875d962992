-- ===== src/Redirect/Verify/Reads.antt =====
-- The verification of tools/redirect_client.py changes no file.
use army.Common.{
  ℕ, refl, Bool, true, false, not, ◌||◌, Option, none, some, List, [], ◌∷◌, if◌then◌else◌,
  Bool-cases, inl, inr, leb,
}
use army.Common.Equality.{list_eq, nat_eq}
use army.Exec.{Result, pure, lift}
use army.Redirect.{PatchPlan, Marker, Library}
use army.Redirect.Paths.{Text, RelativePath, FilePath}
use army.Redirect.Files.{Node, Disk, node_at, is_link_node, is_file_node, found_files}
use army.Redirect.Files.Frame.{Reads, >>=-Reads}
use army.Redirect.Files.Frame.Calls.{read_bytes-Reads, raise_if-Reads}
use army.Redirect.Manifest.{Manifest, load_manifest, os_errors_redirected}
use army.Redirect.Verify.{
  verify_metadata_bytes, ensure_output_is_safe, find_unexpected_files, sha256_file, check_node,
  check_entry, counted, verify_entries, verify_files, verify_original_client, read_payload, loaded,
  read_marker, verify_patched_copy,
}

pub lift-Reads : {A : Type 0} (r : Result A) → Reads (lift r)
unfolding Reads
lift-Reads r w = refl

pub verify_metadata-Reads :
    (path : FilePath) (problem : List ℕ → Bool) → Reads (verify_metadata_bytes path problem)
unfolding verify_metadata_bytes
verify_metadata-Reads path problem = search (>>=-Reads, read_bytes-Reads, raise_if-Reads)

pure-Reads : {A : Type 0} (a : A) → Reads (pure a)
unfolding Reads
pure-Reads a w = refl

pub node_at-Reads : (path : FilePath) → Reads (node_at path)
unfolding Reads
node_at-Reads path w = refl

redirected-Reads : {A : Type 0} (m : Disk A) → Reads m → Reads (os_errors_redirected m)
unfolding Reads
redirected-Reads m h w = h w

found_files-Reads : (root : FilePath) → Reads (found_files root)
unfolding Reads found_files
found_files-Reads root w = refl

ruleset reads = (
  >>=-Reads, read_bytes-Reads, raise_if-Reads, lift-Reads, pure-Reads, node_at-Reads,
  redirected-Reads, found_files-Reads,
)

pub load_manifest-Reads : (path : FilePath) → Reads (load_manifest path)
unfolding load_manifest
load_manifest-Reads path = search reads

find_unexpected-Reads :
    (root : FilePath) (expected : List RelativePath) → Reads (find_unexpected_files root expected)
unfolding find_unexpected_files
find_unexpected-Reads root expected = search reads

pub ensure-Reads :
    (output allowed_root : FilePath) → Reads (ensure_output_is_safe output allowed_root)
unfolding ensure_output_is_safe
ensure-Reads output allowed_root = search reads

module _ (sha256 : List ℕ → Text) where
  sha256_file-Reads : (path : FilePath) → Reads (sha256_file sha256 path)
  unfolding sha256_file
  sha256_file-Reads path = search reads

  check_node-Reads :
      (path : FilePath) (expected : Text) (node : Option Node)
      → Reads (check_node sha256 path expected node)
  check_node-Reads path expected node =
      elim (Bool-cases (is_link_node node || not (is_file_node node))) [
        | inl bad ↦ rw bad (pure-Reads true)
        | inr good ↦ rw good (search (reads, sha256_file-Reads))
      ]

  pub check_entry-Reads :
      (root relative : FilePath) (expected : Text)
      → Reads (check_entry sha256 root relative expected)
  unfolding check_entry
  check_entry-Reads root relative expected = search (>>=-Reads, node_at-Reads, check_node-Reads)

  pub verify_entries-Reads :
      (expected : RelativePath → Text → Text) (root : FilePath) (entries : Manifest) (n : ℕ)
      → Reads (verify_entries sha256 expected root entries n)
  unfolding verify_entries
  verify_entries-Reads expected root [] n = pure-Reads n
  verify_entries-Reads expected root (entry ∷ entries) n =
      >>=-Reads _
        (λ failed.
          let rest = verify_entries sha256 expected root entries (counted sha256 failed n) in
          if leb 10 (counted sha256 failed n) then pure (counted sha256 failed n) else rest)
        (check_entry-Reads root entry.0 (expected entry.0 entry.1))
        (λ failed.
          either_way (leb 10 (counted sha256 failed n)) _ _ (pure-Reads _)
            (verify_entries-Reads expected root entries (counted sha256 failed n)))
    where
      either_way : (b : Bool) (m n : Disk ℕ) → Reads m → Reads n → Reads (if b then m else n)
      either_way true m n hm hn = hm
      either_way false m n hm hn = hn

  pub verify_files-Reads :
      (expected : RelativePath → Text → Text) (root : FilePath) (manifest : Manifest)
      (extra : List RelativePath)
      → Reads (verify_files sha256 expected root manifest extra)
  unfolding verify_files
  verify_files-Reads expected root manifest extra =
      search (reads, verify_entries-Reads, find_unexpected-Reads)

module _ (lib : Library) where
  pub verify_original-Reads :
      (source : FilePath) (manifest : Manifest) (plan : PatchPlan)
      → Reads (verify_original_client lib source manifest plan)
  unfolding verify_original_client
  verify_original-Reads source manifest plan =
      search (reads, verify_files-Reads, verify_metadata-Reads)

  pub read_payload-Reads : (path : FilePath) (plan : PatchPlan) → Reads (read_payload lib path plan)
  unfolding read_payload
  read_payload-Reads path plan = search (reads, sha256_file-Reads)

  loaded-Reads : (marker : Option Marker) → Reads (loaded lib marker)
  unfolding Reads
  loaded-Reads none w = refl
  loaded-Reads (some marker) w = refl

  pub read_marker-Reads : (output : FilePath) → Reads (read_marker lib output)
  unfolding read_marker
  read_marker-Reads output = search (reads, loaded-Reads)

  pub verify_patched-Reads :
      (output manifest_path : FilePath) (plan : PatchPlan) (allowed_root : FilePath)
      → Reads (verify_patched_copy lib output manifest_path plan allowed_root)
  unfolding verify_patched_copy
  verify_patched-Reads output manifest_path plan allowed_root =
      search
        (
          reads, ensure-Reads, load_manifest-Reads, read_marker-Reads, read_payload-Reads,
          verify_files-Reads, verify_metadata-Reads,
        )
        depth 12
