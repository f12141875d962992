-- ===== src/Redirect/Verify/Complete.antt =====
-- tools/redirect_client.py: the clients that `verify_original_client` accepts.
use army.Common.{
  ℕ, ◌≡◌, refl, sym, ap, Bool, true, false, none, some, List, [], ◌∷◌, ◌++◌, length, drop,
  if◌then◌else◌, All, Bool-cases, inl, inr, ◌↔◌,
}
use mathlib.Core.Path.{subst}
use army.Common.Equality.{◌=?◌, lookup, contains, Eq, list_eq, nat_eq}
use army.Exec.{Result, ok}
use army.Redirect.{PatchPlan, Library}
use army.Redirect.Paths.{Text, RelativePath, FilePath, is_under, under-split}
use army.Redirect.Files.{
  Node, file, directory, link, Tree, World, read_bytes, found_files, files_below, is_directory_node,
}
use army.Redirect.Manifest.{Manifest, Entry, keys}
use army.Redirect.Verify.{
  original_problem, verify_metadata_bytes, unexpected, has_some, find_unexpected_files, sha256_file,
  check_entry, verify_entries, verify_files, verify_original_client,
}
use army.Redirect.Verify.Sound.{Passes}
use army.Redirect.Verify.Sound.Entries.{HasEntry, OnlyExpected, HasFiles}
use army.Redirect.Verify.Sound.Copies.{IsOriginal, verify_original_client-IsOriginal}

-- Every path stands once in the list.
abbrev paths : Tree → List FilePath
paths [] = []
paths ((path, node) ∷ tree) = path ∷ paths tree

abbrev pub Once : Tree → Type 0
Once [] = Unit {0}
Once ((path, node) ∷ tree) = (contains path (paths tree) ≡ false) × Once tree

-- No call fails.
abbrev pub calm : Tree → World
calm files = record { files = files; faults = [] }

missing :
    (path : FilePath) (tree : Tree) → contains path (paths tree) ≡ false → lookup path tree ≡ none
missing path [] h = refl
missing path ((other, node) ∷ tree) h = elim (Bool-cases (path =? other)) [
  | inl same ↦ absurd (cc (rw same at h))
  | inr differ ↦ rw differ (missing path tree (rw differ at h))
]

module _ (root : FilePath) (expected : List RelativePath) where
  tail-OnlyExpected :
      (other : FilePath) (node : Node) (tree : Tree)
      → contains other (paths tree) ≡ false
      → OnlyExpected root expected ((other, node) ∷ tree)
      → OnlyExpected root expected tree
  tail-OnlyExpected other node tree once only path found here leaf =
      elim (Bool-cases ((root ++ path) =? other)) [
        | inl same ↦
            let e : Eq FilePath = list_eq in
            let place : root ++ path ≡ other = e.sound (root ++ path) other same in
            let gone : lookup (root ++ path) tree ≡ none =
              subst (λ (t : FilePath). lookup t tree ≡ none) (sym place)
                (missing other tree once) in
            absurd (cc (gone, here))
        | inr differ ↦ only path found (rw differ here) leaf
      ]

  front_leaf :
      (other : FilePath) (node : Node) (tree : Tree)
      → is_directory_node (some node) ≡ false
      → OnlyExpected root expected ((other, node) ∷ tree)
      → has_some (unexpected expected (files_below root tree)) ≡ false
      → has_some (
          unexpected expected (
            if is_under root other
            then drop (length root) other ∷ files_below root tree
            else files_below root tree))
        ≡ false
  front_leaf other node tree leaf only rest = elim (Bool-cases (is_under root other)) [
    | inl inside ↦
        let e : Eq FilePath = list_eq in
        let place : other ≡ root ++ drop (length root) other = under-split root other inside in
        let first : lookup other ((other, node) ∷ tree) ≡ some node = rw (e.reflexive other) refl in
        let here : lookup (root ++ drop (length root) other) ((other, node) ∷ tree) ≡ some node =
          subst (λ (t : FilePath). lookup t ((other, node) ∷ tree) ≡ some node) place first in
        let known : contains (drop (length root) other) expected ≡ true =
          only (drop (length root) other) node here leaf in
        rw (inside, known) rest
    | inr outside ↦ rw outside rest
  ]

  nothing_left :
      (tree : Tree)
      → Once tree
      → OnlyExpected root expected tree
      → has_some (unexpected expected (files_below root tree)) ≡ false
  nothing_left [] once only = refl
  nothing_left ((other, directory) ∷ tree) once only =
      nothing_left tree once.1 (tail-OnlyExpected other directory tree once.0 only)
  nothing_left ((other, file bytes) ∷ tree) once only =
      front_leaf other (file bytes) tree refl only
        (nothing_left tree once.1 (tail-OnlyExpected other (file bytes) tree once.0 only))
  nothing_left ((other, link) ∷ tree) once only =
      front_leaf other link tree refl only
        (nothing_left tree once.1 (tail-OnlyExpected other link tree once.0 only))

module _ (sha256 : List ℕ → Text) (expected : RelativePath → Text → Text) (root : FilePath)
    (files : Tree) where
  hash_of :
      (path : FilePath) (bytes : List ℕ)
      → lookup path files ≡ some (file bytes)
      → sha256_file sha256 path (calm files) ≡ (ok (sha256 bytes), calm files)
  unfolding sha256_file read_bytes
  hash_of path bytes found = rw found refl

  good_entry :
      (entry : Entry)
      → HasEntry sha256 expected root files entry
      → check_entry sha256 root entry.0 (expected entry.0 entry.1) (calm files)
        ≡ (ok false, calm files)
  unfolding check_entry
  good_entry entry (bytes, found, hash) =
      let e : Eq Text = list_eq in
      rw
        (found, hash_of (root ++ entry.0) bytes found, hash, e.reflexive (expected entry.0 entry.1))
        refl

  good_entries :
      (entries : Manifest)
      → All (HasEntry sha256 expected root files) entries
      → verify_entries sha256 expected root entries 0 (calm files) ≡ (ok 0, calm files)
  unfolding verify_entries
  good_entries [] h = refl
  good_entries (entry ∷ entries) h = rw (good_entry entry h.0) (good_entries entries h.1)

  verify_files-calm :
      (manifest : Manifest) (extra : List RelativePath)
      → Once files
      → HasFiles sha256 expected root manifest extra files
      → verify_files sha256 expected root manifest extra (calm files) ≡ (ok tt, calm files)
  unfolding verify_files find_unexpected_files found_files
  verify_files-calm manifest extra once h =
      rw
        (
          good_entries manifest h.entries,
          nothing_left root (keys manifest ++ extra) files once h.only,
        )
        refl

pub verify_metadata-calm :
    (path : FilePath) (problem : List ℕ → Bool) (files : Tree)
    → Passes path problem files
    → verify_metadata_bytes path problem (calm files) ≡ (ok tt, calm files)
unfolding verify_metadata_bytes read_bytes
verify_metadata-calm path problem files (bytes, found, good) = rw (found, good) refl

-- When no call of the operating system fails and every path stands once in the file system, the
-- verification of a client returns exactly for the original client of the manifest and the plan, and
-- then it has changed nothing.
pub verify_original_client_iff :
    (lib : Library) (plan : PatchPlan) (source : FilePath) (manifest : Manifest) (files : Tree)
    → Once files
    → (verify_original_client lib source manifest plan (calm files) ≡ (ok tt, calm files))
      ↔ IsOriginal lib plan source manifest files
unfolding verify_original_client
verify_original_client_iff lib plan source manifest files once = (
  λ returned.
      verify_original_client-IsOriginal lib plan source manifest (calm files)
        (ap (λ (t : Result (Unit {0}) × World). t.0) returned),
  λ original.
      let e : Eq Text = list_eq in
      rw
        (
          original.is_directory,
          original.metadata_hash,
          e.reflexive plan.expected_original_sha256,
          verify_files-calm lib.sha256 (λ relative digest. digest) source files manifest [] once
              original.has_files,
          verify_metadata-calm (source ++ plan.metadata_path) (original_problem lib.sha256 plan)
              files original.metadata,
        )
        refl,
)
