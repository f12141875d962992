-- ===== src/Redirect/Verify/Sound/Entries.antt =====
-- The files of a client, as tools/redirect_client.py verifies them against the manifest.
use army.Common.{
  ℕ, suc, ◌≡◌, refl, sym, ◌∙◌, arith, Bool, true, false, not, Option, none, some, List, [], ◌∷◌,
  ◌++◌, All, if◌then◌else◌, Bool-cases, inl, inr, leb, drop, length, drop-append_length, ◌⊎◌,
}
use army.Common.Equality.{◌=?◌, lookup, contains, Eq, list_eq, nat_eq}
use mathlib.Core.Path.{subst}
use army.Exec.{ok, redirect_error, pure, raise_if, ◌>>=◌, ◌>>◌}
use army.Redirect.Paths.{Text, RelativePath, FilePath, is_under, under_append}
use army.Redirect.Files.{
  Node, file, directory, link, Tree, World, Disk, read_bytes, is_directory_node, files_below,
  found_files,
}
use army.Redirect.Files.Frame.{Reads}
use army.Redirect.Manifest.{Manifest, Entry, keys}
use army.Redirect.Verify.{
  sha256_file, check_node, check_entry, counted, verify_entries, verify_files,
  find_unexpected_files, unexpected, has_some,
}
use army.Redirect.Verify.Reads.{check_entry-Reads, verify_entries-Reads}
use army.Redirect.Verify.Sound.{>>=-ok, Reads-ok, guard-ok, raise_if-ok, read_bytes-ok}

module _ (sha256 : List ℕ → Text) (expected : RelativePath → Text → Text) (root : FilePath) where
  -- The entry's file is there, with its hash.
  abbrev pub HasEntry : Tree → Entry → Type 0
  HasEntry files entry =
      (bytes : List ℕ) × (lookup (root ++ entry.0) files ≡ some (file bytes))
      × (sha256 bytes ≡ expected entry.0 entry.1)

  good_node :
      (path : FilePath) (digest : Text) (node : Option Node) (w : World)
      → lookup path w.files ≡ node
      → (check_node sha256 path digest node w).0 ≡ ok false
      → (bytes : List ℕ) × (lookup path w.files ≡ some (file bytes)) × (sha256 bytes ≡ digest)
  unfolding sha256_file
  good_node path digest none w e h = absurd (cc h)
  good_node path digest (some directory) w e h = absurd (cc h)
  good_node path digest (some link) w e h = absurd (cc h)
  good_node path digest (some (file found)) w e h =
      let (actual, read, behind) =
        >>=-ok (sha256_file sha256 path) (λ actual. pure (not (actual =? digest))) w false h in
      let (bytes, read', behind') =
        >>=-ok (read_bytes path) (λ bytes. pure (sha256 bytes)) w actual read in
      let eq : Eq Text = list_eq in
      let hash : sha256 bytes ≡ actual = cc behind' in
      let test : not (actual =? digest) ≡ false = cc behind in
      (
        bytes,
        read_bytes-ok path w bytes read',
        hash ∙ eq.sound actual digest (ground (arith, test)),
      )

  either_way :
      (b : Bool) (m : ℕ) (rest : Disk ℕ) (w : World)
      → ((if b then pure m else rest) w).0 ≡ ok 0
      → (m ≡ 0) × (b ≡ true) ⊎ ((rest w).0 ≡ ok 0)
  either_way true m rest w h = inl (cc h, refl)
  either_way false m rest w h = inr h

  -- The loop finds no failure only if every entry is good.
  no_failure :
      (entries : Manifest) (n : ℕ) (w : World)
      → (verify_entries sha256 expected root entries n w).0 ≡ ok 0
      → (n ≡ 0) × All (HasEntry w.files) entries
  unfolding verify_entries check_entry Reads
  no_failure [] n w h = (cc h, tt)
  no_failure (entry ∷ entries) n w h =
      let path : FilePath = root ++ entry.0 in
      let digest : Text = expected entry.0 entry.1 in
      let (failed, checked, behind) =
        >>=-ok (check_entry sha256 root entry.0 digest)
          (λ failed.
            let rest = verify_entries sha256 expected root entries (counted sha256 failed n) in
            if leb 10 (counted sha256 failed n) then pure (counted sha256 failed n) else rest)
          w 0 h in
      by_failed failed (check_entry sha256 root entry.0 digest w).1
        (check_entry-Reads sha256 root entry.0 digest w) (no_failure entries) checked behind
    where
      by_failed :
          (failed : Bool) (w' : World)
          → w'.files ≡ w.files
          → ((n : ℕ) (w : World)
              → (verify_entries sha256 expected root entries n w).0 ≡ ok 0
              → (n ≡ 0) × All (HasEntry w.files) entries)
          → (check_entry sha256 root entry.0 (expected entry.0 entry.1) w).0 ≡ ok failed
          → ((if leb 10 (counted sha256 failed n)
                then pure (counted sha256 failed n)
                else verify_entries sha256 expected root entries (counted sha256 failed n))
              w').0
            ≡ ok 0
          → (n ≡ 0) × (HasEntry w.files entry × All (HasEntry w.files) entries)
      by_failed true w' same again checked behind =
          elim (either_way (leb 10 (suc n)) (suc n) _ w' behind) [
            | inl stopped ↦ absurd (omega (arith, stopped.0))
            | inr on ↦ absurd (omega (arith, (again (suc n) w' on).0))
          ]
      by_failed false w' same again checked behind = elim (either_way (leb 10 n) n _ w' behind) [
        | inl stopped ↦ absurd (ground (arith, stopped.0, stopped.1))
        | inr on ↦
            let (zero_left, good) = again n w' on in
            (
              zero_left,
              (
                good_node (root ++ entry.0) (expected entry.0 entry.1)
                    (lookup (root ++ entry.0) w.files) w refl checked,
                subst (λ (t : Tree). All (HasEntry t) entries) same good,
              ),
            )
      ]

front_expected :
    (expected paths : List RelativePath) (path : RelativePath)
    → has_some (unexpected expected (path ∷ paths)) ≡ false
    → (contains path expected ≡ true) × (has_some (unexpected expected paths) ≡ false)
front_expected expected paths path h = elim (Bool-cases (contains path expected)) [
  | inl known ↦ (known, rw (sym (cut known)) h)
  | inr other ↦ absurd (cc (clash other, h))
]
  where
    cut :
        contains path expected ≡ true
        → has_some (unexpected expected (path ∷ paths)) ≡ has_some (unexpected expected paths)
    cut known = rw known refl

    clash : contains path expected ≡ false → has_some (unexpected expected (path ∷ paths)) ≡ true
    clash other = rw other refl

module _ (root : FilePath) (expected : List RelativePath) where
  -- Every file and every link below the root is expected.
  abbrev pub OnlyExpected : Tree → Type 0
  OnlyExpected files =
      (path : RelativePath) (node : Node)
      → lookup (root ++ path) files ≡ some node
      → is_directory_node (some node) ≡ false
      → contains path expected ≡ true

  behind_leaf :
      (other : FilePath) (here : Node) (files : Tree)
      → has_some (
          unexpected expected (
            if is_under root other
            then drop (length root) other ∷ files_below root files
            else files_below root files))
        ≡ false
      → (path : RelativePath) (node : Node)
      → lookup (root ++ path) ((other, here) ∷ files) ≡ some node
      → (has_some (unexpected expected (files_below root files)) ≡ false
          → lookup (root ++ path) files ≡ some node
          → contains path expected ≡ true)
      → contains path expected ≡ true
  behind_leaf other here files h path node found again =
      elim (Bool-cases ((root ++ path) =? other)) [
        | inl same ↦
            let e : Eq FilePath = list_eq in
            let place : root ++ path ≡ other = e.sound (root ++ path) other same in
            let inside : is_under root other ≡ true = rw (sym place) (under_append root path) in
            let cut : drop (length root) other ≡ path =
              rw (sym place) (drop-append_length root path) in
            let first : has_some
                  (unexpected expected (drop (length root) other ∷ files_below root files))
                ≡ false =
              rw inside at h in
            rw (sym cut) (front_expected expected _ (drop (length root) other) first).0
        | inr differ ↦ again (behind (is_under root other) h) (rw differ at found)
      ]
    where
      behind :
          (b : Bool)
          → has_some (
              unexpected expected (
                if b
                then drop (length root) other ∷ files_below root files
                else files_below root files))
            ≡ false
          → has_some (unexpected expected (files_below root files)) ≡ false
      behind true h = (front_expected expected _ (drop (length root) other) h).1
      behind false h = h

  only_expected :
      (files : Tree)
      → has_some (unexpected expected (files_below root files)) ≡ false
      → OnlyExpected files
  only_expected [] h path node found leaf = absurd (cc found)
  only_expected ((other, directory) ∷ files) h path node found leaf =
      elim (Bool-cases ((root ++ path) =? other)) [
        | inl same ↦ absurd (cc (rw same at found, leaf))
        | inr differ ↦ only_expected files h path node (rw differ at found) leaf
      ]
  only_expected ((other, file bytes) ∷ files) h path node found leaf =
      behind_leaf other (file bytes) files h path node found
        (λ h' found'. only_expected files h' path node found' leaf)
  only_expected ((other, link) ∷ files) h path node found leaf =
      behind_leaf other link files h path node found
        (λ h' found'. only_expected files h' path node found' leaf)

-- The client below the root is what the manifest says, with nothing else but the extra files.
pub record HasFiles (sha256 : List ℕ → Text) (expected : RelativePath → Text → Text)
    (root : FilePath) (manifest : Manifest) (extra : List RelativePath) (files : Tree)
    : Type 0 where
  pub entries : All (HasEntry sha256 expected root files) manifest
  pub only : OnlyExpected root (keys manifest ++ extra) files

none_failed : (failures : ℕ) → leb 1 failures ≡ false → failures ≡ 0
none_failed failures h = ground arith

pub verify_files-HasFiles :
    (sha256 : List ℕ → Text) (expected : RelativePath → Text → Text) (root : FilePath)
    (manifest : Manifest) (extra : List RelativePath) (w : World)
    → (verify_files sha256 expected root manifest extra w).0 ≡ ok tt
    → HasFiles sha256 expected root manifest extra w.files
unfolding verify_files find_unexpected_files found_files
verify_files-HasFiles sha256 expected root manifest extra w h =
    let (failures, w', same, counted', behind) =
      Reads-ok (verify_entries sha256 expected root manifest 0)
        (λ failures.
          raise_if (leb 1 failures) redirect_error
          >> (find_unexpected_files root (keys manifest ++ extra) >>= λ left.
              raise_if (has_some left) redirect_error))
        w tt (verify_entries-Reads sha256 expected root manifest 0) h in
    let (passed, behind') =
      guard-ok (leb 1 failures) redirect_error
        (find_unexpected_files root (keys manifest ++ extra) >>= λ left.
          raise_if (has_some left) redirect_error)
        w' tt behind in
    let all_found : (verify_entries sha256 expected root manifest 0 w).0 ≡ ok 0 =
      subst (λ (n : ℕ). (verify_entries sha256 expected root manifest 0 w).0 ≡ ok n)
        (none_failed failures passed) counted' in
    record {
      entries = (no_failure sha256 expected root manifest 0 w all_found).1;
      only =
          subst (λ (t : Tree). OnlyExpected root (keys manifest ++ extra) t) same
            (only_expected root (keys manifest ++ extra) w'.files
              (raise_if-ok _ redirect_error w' behind'));
    }
