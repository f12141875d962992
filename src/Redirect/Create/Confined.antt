-- ===== src/Redirect/Create/Confined.antt =====
-- tools/redirect_client.py: what `create_patched_copy` does to the file system, however it ends.
use army.Common.{◌≡◌, refl, arith, ◌∙◌, Bool, true, false, not, ◌||◌, Bool-cases, inl, inr}
use army.Common.Equality.{◌=?◌, Eq, list_eq, nat_eq}
use mathlib.Core.Path.{subst}
use army.Exec.{Error, Result, ok, err, redirect_error, raise_if, continue, ◌>>=◌, ◌>>◌}
use army.Redirect.{PatchPlan, Library}
use army.Redirect.Paths.{Text, FilePath, is_under, under_trans, under_antisym}
use army.Redirect.Files.{Tree, World, Disk, below, is_empty, path_exists, mkdir_parents}
use army.Redirect.Files.Frame.{Same, Keeps, Reads, lookup-below}
use army.Redirect.Files.Frame.Calls.{is_above, mkdir_parents-Keeps, out_left, out_right}
use army.Redirect.Verify.Reads.{load_manifest-Reads, verify_original-Reads}
use army.Redirect.Manifest.{Manifest, load_manifest}
use army.Redirect.Verify.{ensure_output_is_safe, verify_original_client}
use army.Redirect.Create.Publish.{Absent, Published, created, undone_all, publish-Published}
use army.Redirect.Create.{create_patched_copy, temporary_path, publish}

-- How a call ends: with new files below the output only, or with the files as they were. The
-- directories on the way to the allowed root may have been made.
pub data Outcome (output allowed_root : FilePath) (files : Tree) (run : Result (Unit {0}) × World)
    : Type 0 where
  made :
      run.0 ≡ ok tt
      → Same (λ path. is_above allowed_root path || is_under output path) files run.1.files
      → Outcome output allowed_root files run
  undone :
      (e : Error)
      → run.0 ≡ err e
      → Same (is_above allowed_root) files run.1.files
      → Outcome output allowed_root files run

module _ (output allowed_root : FilePath) (files : Tree) where
  unfoldable Starts : Disk (Unit {0}) → Type 0
  Starts m = (w : World) → w.files ≡ files → Outcome output allowed_root files (m w)

  after-Reads :
      {A : Type 0} (m : Disk A) (f : A → Disk (Unit {0}))
      → Reads m
      → ((a : A) → Starts (f a))
      → Starts (m >>= f)
  unfolding Starts Reads
  after-Reads {A} m f hm hf w here = by_result (m w).0 (m w).1 (hm w)
    where
      by_result :
          (r : Result A) (w' : World)
          → w'.files ≡ w.files
          → Outcome output allowed_root files (continue r f w')
      by_result (ok a) w' same = hf a w' (same ∙ here)
      by_result (err e) w' same = undone e refl (λ path out. rw (same, here) refl)

  after_guard :
      (b : Bool) (e : Error) (m : Disk (Unit {0}))
      → ((b ≡ false) → Starts m)
      → Starts (raise_if b e >> m)
  unfolding Starts
  after_guard true e m h w here = undone e refl (λ path out. rw here refl)
  after_guard false e m h w here = h refl w here

  Absent-below :
      (root : FilePath) (tree : Tree) → not (is_empty (below root tree)) ≡ false → Absent root tree
  Absent-below root tree h path inside = lookup-below root path tree inside (ground arith)

  after-Absent :
      (root : FilePath) (e : Error) (m : Disk (Unit {0}))
      → (Absent root files → Starts m)
      → Starts (path_exists root >>= λ present. raise_if present e >> m)
  unfolding Starts path_exists
  after-Absent root e m h w here =
      after_guard (not (is_empty (below root w.files))) e m
        (λ empty. h (subst (Absent root) here (Absent-below root w.files empty))) w here

  -- The output is below the allowed root, so no directory on the way there is below the output.
  above_apart :
      (output =? allowed_root) ≡ false
      → is_under allowed_root output ≡ true
      → (path : FilePath) → is_under output path ≡ true
      → is_above allowed_root path ≡ false
  above_apart differ below_root path inside = elim (Bool-cases (is_above allowed_root path)) [
    | inr apart ↦ apart
    | inl above ↦
        let e : Eq FilePath = list_eq in
        let around : is_under output allowed_root ≡ true =
          under_trans output path allowed_root inside above in
        let same : output ≡ allowed_root = under_antisym output allowed_root around below_root in
        let clash : (allowed_root =? allowed_root) ≡ false = rw same at differ in
        absurd (cc (clash, e.reflexive allowed_root))
  ]

  from_publish :
      (files' : Tree) (run : Result (Unit {0}) × World)
      → Same (is_above allowed_root) files files'
      → Published output files' run
      → Outcome output allowed_root files run
  from_publish files' run same (created e outside) = made e (λ path out.
      outside path (out_right (is_above allowed_root path) _ out)
      ∙ same path (out_left (is_above allowed_root path) _ out))
  from_publish files' run same (undone_all x e restored) =
      undone x e (λ path out. restored path ∙ same path out)

  -- Behind `allowed_output_root.mkdir(...)`.
  module _ (lib : Library) (source manifest_path : FilePath) (plan : PatchPlan) (token : Text)
      (manifest : Manifest) where
    abbrev temporary : FilePath
    temporary = temporary_path allowed_root output token

    abbrev rest : Disk (Unit {0})
    rest = path_exists temporary >>= λ taken.
        raise_if taken redirect_error
        >> publish lib source output manifest_path plan allowed_root temporary manifest

    checked_temporary :
        (b : Bool) (w : World)
        → Same (is_above allowed_root) files w.files
        → Absent output w.files
        → (b ≡ false → Absent temporary w.files)
        → Outcome output allowed_root files (
            (raise_if b redirect_error
                >> publish lib source output manifest_path plan allowed_root temporary manifest)
              w)
    checked_temporary true w same no_output free = undone redirect_error refl same
    checked_temporary false w same no_output free = from_publish w.files _ same (
        publish-Published temporary output w.files (free refl) no_output lib source manifest_path
          plan allowed_root manifest w refl)

    rest-Outcome :
        (w : World)
        → Same (is_above allowed_root) files w.files
        → Absent output w.files
        → Outcome output allowed_root files (rest w)
    unfolding path_exists
    rest-Outcome w same no_output =
        checked_temporary (not (is_empty (below temporary w.files))) w same no_output
          (Absent-below temporary w.files)

    mkdir-Starts :
        (output =? allowed_root) ≡ false
        → is_under allowed_root output ≡ true
        → Absent output files
        → Starts (mkdir_parents allowed_root >> rest)
    unfolding Starts Keeps
    mkdir-Starts differ below_root no_output w here =
        by_result (mkdir_parents allowed_root w).0 (mkdir_parents allowed_root w).1
          (λ path out. mkdir_parents-Keeps allowed_root w path out)
      where
        by_result :
            (r : Result (Unit {0})) (w' : World)
            → Same (is_above allowed_root) w.files w'.files
            → Outcome output allowed_root files (continue r (λ x. rest) w')
        by_result (err e) w' same = undone e refl (λ path out. rw (same path out, here) refl)
        by_result (ok x) w' same =
            rest-Outcome w' (λ path out. rw (same path out, here) refl)
              (λ path inside.
                same path (above_apart differ below_root path inside)
                ∙ rw here (no_output path inside))

create-Starts :
    (lib : Library) (source output manifest_path : FilePath) (plan : PatchPlan)
    (allowed_root : FilePath) (token : Text) (files : Tree)
    → Starts output allowed_root files
        (create_patched_copy lib source output manifest_path plan allowed_root token)
unfolding create_patched_copy ensure_output_is_safe
create-Starts lib source output manifest_path plan allowed_root token files =
    after_guard output allowed_root files _ redirect_error _ (λ safe.
      after_guard output allowed_root files (is_under source output) redirect_error _ (λ outside.
        after-Absent output allowed_root files output redirect_error _ (λ no_output.
          after-Reads output allowed_root files (load_manifest manifest_path) _
            (load_manifest-Reads manifest_path)
            (λ manifest.
              after-Reads output allowed_root files
                (verify_original_client lib source manifest plan)
                (λ x.
                  mkdir_parents allowed_root
                  >> rest output allowed_root files lib source manifest_path plan token manifest)
                (verify_original-Reads lib source manifest plan)
                (λ x.
                  mkdir-Starts output allowed_root files lib source manifest_path plan token
                    manifest (out_left (output =? allowed_root) _ safe)
                    (ground (arith, out_right (output =? allowed_root) _ safe)) no_output)))))

-- However a call ends, and whichever calls of the operating system fail on the way and whatever they
-- leave, if the removal of a directory works: when it returns, nothing outside the output has changed,
-- and when it raises, nothing at all has. In both cases the directories on the way to the allowed root
-- are excepted, which may have been made.
pub create-Outcome :
    (lib : Library) (source output manifest_path : FilePath) (plan : PatchPlan)
    (allowed_root : FilePath) (token : Text) (w : World)
    → Outcome output allowed_root w.files
        (create_patched_copy lib source output manifest_path plan allowed_root token w)
unfolding Starts
create-Outcome lib source output manifest_path plan allowed_root token w =
    create-Starts lib source output manifest_path plan allowed_root token w.files w refl
