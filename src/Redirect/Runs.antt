-- ===== src/Redirect/Runs.antt =====
-- A client of one file that is patched, in a file system of a few entries, with a short sum in place of
-- the hash.
use army.Common.{ℕ, zero, suc, ◌+◌, ◌%◌, ◌≡◌, refl, some, List, [], ◌∷◌, ◌++◌}
use army.Common.Int.{pos}
use army.Common.Equality.{list_eq, nat_eq}
use army.Exec.{ok, err, os_error}
use army.Utf8.{
  utf8_decode, utf8_encode, is_scalar, encode_char, utf8_step, lead_byte, next_byte, decode_from,
}
use army.Redirect.{
  PatchPlan, Marker, Library, patch_plan, is_hex, all_hex, is_digest, marker_payload, ascii_decode,
}
use army.Redirect.Paths.{Text, FilePath, posix_path, split_names, starts_with, is_safe, joined}
use army.Redirect.Files.{
  World, Tree, file, directory, works, fails, read_bytes, write_bytes, path_exists, copytree,
  rmtree, rename, mkdir_parents, found_files,
}
use army.Redirect.Manifest.{
  load_manifest, parse_manifest, read_lines, split_lines, lines_from, is_line_end, is_space,
  drop_spaces, first_word, behind_word, lower, parse_entry,
}
use army.Redirect.Verify.{
  count, count_from, metadata_problem, original_problem, patched_problem, verify_metadata_bytes,
  ensure_output_is_safe, patched_hash, find_unexpected_files, sha256_file, check_entry,
  verify_entries, verify_files, verify_original_client, read_payload, read_marker,
  verify_patched_copy,
}
use army.Redirect.Patch.{write_at, patch_metadata}
use army.Redirect.Manifest.{Manifest}
use army.Redirect.Manifest.Valid.{IsManifest, parse_manifest-IsManifest}
use army.Redirect.Plan.{IsPlan, is_digest-IsDigest, Decided, patch_plan-Decided}
use army.Redirect.Patch.Splice.{IsSpliced, patch_metadata-IsSpliced}
use army.Redirect.Verify.{marker_name}
use army.Redirect.Verify.Sound.Copies.{
  IsOriginal, IsPatched, verify_original_client-IsOriginal, verify_patched_copy-IsPatched,
}
use army.Redirect.Verify.Complete.{calm, verify_original_client_iff}
use army.Redirect.Patch.Applied.{IsPatchable, IsApplied, patch_metadata-IsApplied}
use army.Common.{◌↔◌}
use army.Redirect.Create.Created.{Loaded, IsCreated, create-IsCreated}
use army.Redirect.Create.Confined.{Outcome, create-Outcome}
use army.Common.{arith}
use army.Redirect.Create.{
  clean_up, temporary_path, build, check_published, publish, create_patched_copy,
}

abbrev sum : List ℕ → ℕ
sum [] = 0
sum (b ∷ bs) = b + sum bs

abbrev repeated : ℕ → ℕ → Text
repeated zero c = []
repeated (suc n) c = c ∷ repeated n c

abbrev short_hash : List ℕ → Text
short_hash bytes = repeated 63 48 ++ (48 + sum bytes % 10) ∷ []

abbrev plan : PatchPlan
plan = record {
  metadata_path = (109 ∷ []) ∷ [];
  source_endpoint = 9 ∷ 9 ∷ [];
  target_endpoint = 7 ∷ 8 ∷ [];
  expected_offset = 1;
  expected_original_sha256 = repeated 63 48 ++ 49 ∷ [];
  expected_patched_sha256 = repeated 63 48 ++ 56 ∷ [];
}

-- The hash, two blanks and the path.
abbrev manifest_bytes : List ℕ
manifest_bytes = repeated 63 48 ++ 49 ∷ 32 ∷ 32 ∷ 109 ∷ 10 ∷ []

abbrev marker : Marker
marker = record {
  manifest_sha256 = short_hash manifest_bytes;
  metadata_path = 109 ∷ [];
  offset = 1;
  source_endpoint = 9 ∷ 9 ∷ [];
  target_endpoint = 7 ∷ 8 ∷ [];
  original_metadata_sha256 = plan.expected_original_sha256;
  patched_metadata_sha256 = plan.expected_patched_sha256;
}

abbrev library : Library
library = record { sha256 = short_hash; dumps = λ m. 123 ∷ 125 ∷ []; loads = λ text. some marker }

abbrev source : FilePath
source = (99 ∷ []) ∷ []

abbrev manifest_path : FilePath
manifest_path = (104 ∷ []) ∷ []

abbrev allowed_root : FilePath
allowed_root = (98 ∷ []) ∷ []

abbrev output : FilePath
output = (98 ∷ []) ∷ (111 ∷ []) ∷ []

abbrev files : Tree
files =
    (source, directory)
    ∷ ((99 ∷ []) ∷ (109 ∷ []) ∷ [], file (1 ∷ 9 ∷ 9 ∷ 2 ∷ []))
    ∷ (manifest_path, file manifest_bytes)
    ∷ []

abbrev world : World
world = record { files = files; faults = [] }

-- The copy stops in the middle.
abbrev full_disk : World
full_disk = record {
  files = files;
  faults = works ∷ works ∷ works ∷ works ∷ fails (([], directory) ∷ []) ∷ [];
}

abbrev metadata_file : FilePath
metadata_file = (99 ∷ []) ∷ (109 ∷ []) ∷ []

abbrev manifest : Manifest
manifest = ((109 ∷ []) ∷ [], repeated 63 48 ++ 49 ∷ []) ∷ []

-- The files behind the first run.
abbrev copied_world : World
copied_world = record {
  files =
      (output, directory)
      ∷ ((98 ∷ []) ∷ (111 ∷ []) ∷ (109 ∷ []) ∷ [], file (1 ∷ 7 ∷ 8 ∷ 2 ∷ []))
      ∷ ((98 ∷ []) ∷ (111 ∷ []) ∷ marker_name ∷ [], file (123 ∷ 125 ∷ []))
      ∷ files;
  faults = [];
}

-- What the code gives at these inputs.
runs :
    ((create_patched_copy library source output manifest_path plan allowed_root [] world).0 ≡ ok tt)
    × ((create_patched_copy library source output manifest_path plan allowed_root [] full_disk).0
        ≡ err os_error)
    × ((patch_metadata short_hash metadata_file plan world).0 ≡ ok tt)
    × (parse_manifest manifest_bytes ≡ ok manifest)
    × ((verify_original_client library source manifest plan world).0 ≡ ok tt)
    × ((verify_patched_copy library output manifest_path plan allowed_root copied_world).0 ≡ ok tt)
    × (patch_plan
          (posix_path (109 ∷ []))
          (9 ∷ 9 ∷ [])
          (7 ∷ 8 ∷ [])
          (pos 1)
          plan.expected_original_sha256
          plan.expected_patched_sha256
        ≡ ok plan)
unfolding all_hex ascii_decode behind_word build check_entry check_published clean_up copytree count
    count_from create_patched_copy decode_from drop_spaces encode_char ensure_output_is_safe
    find_unexpected_files first_word found_files is_digest is_hex is_line_end is_safe is_scalar
    is_space joined lead_byte lines_from load_manifest lower marker_payload metadata_problem
    mkdir_parents next_byte original_problem parse_entry parse_manifest patch_metadata patch_plan
    patched_hash patched_problem path_exists posix_path publish read_bytes read_lines read_marker
    read_payload rename rmtree sha256_file split_lines split_names starts_with temporary_path
    utf8_decode utf8_encode utf8_step verify_entries verify_files verify_metadata_bytes
    verify_original_client verify_patched_copy write_at write_bytes
runs = (refl, refl, refl, refl, refl, refl, refl)

made :
    (create_patched_copy library source output manifest_path plan allowed_root [] world).0 ≡ ok tt
made = runs.0

create-IsCreated_example :
    (manifest : Manifest) × Loaded manifest_path manifest files
    × IsCreated library plan source output manifest_path manifest
        (create_patched_copy library source output manifest_path plan allowed_root [] world).1.files
create-IsCreated_example =
    create-IsCreated library source output manifest_path plan allowed_root [] world made

failed :
    (create_patched_copy library source output manifest_path plan allowed_root [] full_disk).0
    ≡ err os_error
failed = runs.1

create-Outcome_example :
    Outcome output allowed_root files
      (create_patched_copy library source output manifest_path plan allowed_root [] full_disk)
create-Outcome_example =
    create-Outcome library source output manifest_path plan allowed_root [] full_disk

plan-IsPlan : IsPlan plan
unfolding is_digest all_hex is_hex
plan-IsPlan = record {
  same_length = refl;
  nonempty = omega arith;
  original_digest = is_digest-IsDigest plan.expected_original_sha256 refl;
  patched_digest = is_digest-IsDigest plan.expected_patched_sha256 refl;
}

patched_once : (patch_metadata short_hash metadata_file plan world).0 ≡ ok tt
patched_once = runs.2

patch_metadata-IsSpliced_example :
    IsSpliced short_hash metadata_file plan files
      (patch_metadata short_hash metadata_file plan world).1.files
patch_metadata-IsSpliced_example =
    patch_metadata-IsSpliced short_hash metadata_file plan world plan-IsPlan patched_once

read_back : parse_manifest manifest_bytes ≡ ok manifest
read_back = runs.3

parse_manifest-IsManifest_example : IsManifest manifest
parse_manifest-IsManifest_example = parse_manifest-IsManifest manifest_bytes manifest read_back

verified : (verify_original_client library source manifest plan world).0 ≡ ok tt
verified = runs.4

verify_original_client-IsOriginal_example : IsOriginal library plan source manifest files
verify_original_client-IsOriginal_example =
    verify_original_client-IsOriginal library plan source manifest world verified

verified_copy :
    (verify_patched_copy library output manifest_path plan allowed_root copied_world).0 ≡ ok tt
verified_copy = runs.5

verify_patched_copy-IsPatched_example :
    (manifest : Manifest) × ((load_manifest manifest_path copied_world).0 ≡ ok manifest)
    × IsPatched library plan output manifest copied_world.files
verify_patched_copy-IsPatched_example =
    verify_patched_copy-IsPatched library plan output manifest_path allowed_root copied_world
      verified_copy

patch_plan-Decided_example :
    Decided
      (posix_path (109 ∷ []))
      (9 ∷ 9 ∷ [])
      (7 ∷ 8 ∷ [])
      plan.expected_original_sha256
      plan.expected_patched_sha256
      (pos 1)
      (patch_plan
        (posix_path (109 ∷ []))
        (9 ∷ 9 ∷ [])
        (7 ∷ 8 ∷ [])
        (pos 1)
        plan.expected_original_sha256
        plan.expected_patched_sha256)
patch_plan-Decided_example =
    patch_plan-Decided (posix_path (109 ∷ [])) (9 ∷ 9 ∷ []) (7 ∷ 8 ∷ [])
      plan.expected_original_sha256 plan.expected_patched_sha256 (pos 1)

verify_original_client_iff_example :
    (verify_original_client library source manifest plan (calm files) ≡ (ok tt, calm files))
    ↔ IsOriginal library plan source manifest files
verify_original_client_iff_example =
    verify_original_client_iff library plan source manifest files (refl, (refl, (refl, tt)))

can_be_patched : IsPatchable short_hash plan (1 ∷ 9 ∷ 9 ∷ 2 ∷ [])
unfolding count count_from
can_be_patched = record {
  original_hash = refl;
  source_once = refl;
  no_target = refl;
  at_offset = refl;
  patched_hash = refl;
  no_source = refl;
  target_once = refl;
}

patch_metadata-IsApplied_example :
    IsApplied metadata_file plan
      (1 ∷ 9 ∷ 9 ∷ 2 ∷ [])
      files
      (patch_metadata short_hash metadata_file plan (calm files))
patch_metadata-IsApplied_example =
    patch_metadata-IsApplied short_hash metadata_file plan (1 ∷ 9 ∷ 9 ∷ 2 ∷ []) files plan-IsPlan
      refl can_be_patched
