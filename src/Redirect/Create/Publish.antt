-- ===== src/Redirect/Create/Publish.antt =====
-- tools/redirect_client.py: how the `try` statement of `create_patched_copy` ends.
use army.Common.{◌≡◌, refl, sym, ◌∙◌, true, none, Bool-cases, inl, inr}
use army.Common.Equality.{lookup, list_eq, nat_eq}
use mathlib.Core.Path.{subst}
use army.Exec.{Error, Result, ok, err, continue, ◌>>◌}
use army.Redirect.{PatchPlan, Library}
use army.Redirect.Paths.{FilePath, is_under}
use army.Redirect.Files.{Tree, World, Disk, below, is_empty, without, rmtree, path_exists, moved}
use army.Redirect.Files.Frame.{
  Same, Reads, >>=-Reads, lookup-without, lookup-without_under, lookup-below, lookup-hung,
}
use army.Redirect.Verify.Reads.{verify_patched-Reads, verify_original-Reads}
use army.Redirect.Manifest.{Manifest}
use army.Redirect.Create.Build.{Built, published, given_up, Builds, build-Builds}
use army.Redirect.Create.{on_error, raising_again, clean_up, build, check_published, publish}

-- Nothing is at or below a path.
abbrev pub Absent : FilePath → Tree → Type 0
Absent root files = (path : FilePath) → is_under root path ≡ true → lookup path files ≡ none

pub path_exists-Reads : (path : FilePath) → Reads (path_exists path)
unfolding Reads path_exists
path_exists-Reads path w = refl

-- What `clean_up` leaves.
record Cleaned (root : FilePath) (files files' : Tree) : Type 0 where
  absent : Absent root files'
  same : Same (is_under root) files files'

clean_up-Cleaned : (root : FilePath) (w : World) → Cleaned root w.files (clean_up root w).1.files
unfolding clean_up path_exists rmtree
clean_up-Cleaned root w = elim (Bool-cases (is_empty (below root w.files))) [
  | inl empty ↦ rw empty (record {
    absent = λ path inside. lookup-below root path w.files inside empty;
    same = λ path out. refl;
  })
  | inr full ↦ rw full (record {
    absent = λ path inside. lookup-without_under root path w.files inside;
    same = λ path out. lookup-without root path w.files out;
  })
]

clean_up-ok : (root : FilePath) (w : World) → (clean_up root w).0 ≡ ok tt
unfolding clean_up path_exists rmtree
clean_up-ok root w = elim (Bool-cases (is_empty (below root w.files))) [
  | inl empty ↦ rw empty refl
  | inr full ↦ rw full refl
]

module _ (lib : Library) (source output manifest_path : FilePath) (plan : PatchPlan)
    (allowed_root : FilePath) (manifest : Manifest) where
  check-Reads : Reads (check_published lib source output manifest_path plan allowed_root manifest)
  unfolding check_published
  check-Reads = search (>>=-Reads, verify_patched-Reads, verify_original-Reads)

-- A tree below `root` that was not there, and whose rest is as it was, is undone by the cleaning.
undone :
    (root : FilePath) (files files' cleaned : Tree)
    → Absent root files
    → Same (is_under root) files files'
    → Cleaned root files' cleaned
    → (path : FilePath) → lookup path cleaned ≡ lookup path files
undone root files files' cleaned none_before same clean path =
    elim (Bool-cases (is_under root path)) [
      | inl inside ↦ clean.absent path inside ∙ sym (none_before path inside)
      | inr outside ↦ clean.same path outside ∙ same path outside
    ]

-- How the `try` statement ends: with new files below the output only, or with the files as they were.
pub data Published (output : FilePath) (files : Tree) (run : Result (Unit {0}) × World)
    : Type 0 where
  created : run.0 ≡ ok tt → Same (is_under output) files run.1.files → Published output files run
  undone_all :
      (e : Error)
      → run.0 ≡ err e
      → ((path : FilePath) → lookup path run.1.files ≡ lookup path files)
      → Published output files run

module _ (temporary output : FilePath) (files : Tree) (no_temporary : Absent temporary files)
    (no_output : Absent output files) where
  -- The files behind the renaming.
  moved-outside :
      (full : Tree)
      → Same (is_under temporary) files full
      → Same (is_under output) files (moved temporary output full)
  moved-outside full same path out = elim (Bool-cases (is_under temporary path)) [
    | inl inside ↦
        lookup-hung output path _ (without temporary full) out
        ∙ lookup-without_under temporary path full inside
        ∙ sym (no_temporary path inside)
    | inr outside ↦
        lookup-hung output path _ (without temporary full) out
        ∙ lookup-without temporary path full outside
        ∙ same path outside
  ]

  after_first :
      (w : World)
      → Same (is_under output) files w.files
      → Same (is_under output) files (clean_up temporary w).1.files
  after_first w same path out =
      let clean = clean_up-Cleaned temporary w in
      elim (Bool-cases (is_under temporary path)) [
        | inl inside ↦ clean.absent path inside ∙ sym (no_temporary path inside)
        | inr outside ↦ clean.same path outside ∙ same path out
      ]

  -- The cleaning behind a failure of the last verification.
  clean_both :
      (w : World)
      → Same (is_under output) files w.files
      → (path : FilePath)
      → lookup path ((clean_up temporary >> clean_up output) w).1.files ≡ lookup path files
  clean_both w same path =
      let w' : World = (clean_up temporary w).1 in
      let kept_outside : Same (is_under output) files w'.files = after_first w same in
      rw (clean_up-ok temporary w) (
        undone output files w'.files (clean_up output w').1.files no_output kept_outside
          (clean_up-Cleaned output w') path)

  module _ (lib : Library) (source manifest_path : FilePath) (plan : PatchPlan)
      (allowed_root : FilePath) (manifest : Manifest) where
    -- The second part of the `try` block.
    checked :
        (w : World)
        → Same (is_under output) files w.files
        → Published output files (
            on_error
              (check_published lib source output manifest_path plan allowed_root manifest)
              (clean_up temporary >> clean_up output)
              w)
    unfolding Reads
    checked w same =
        by_result (check w).0 (check w).1
          (check-Reads lib source output manifest_path plan allowed_root manifest w)
      where
        check : Disk (Unit {0})
        check = check_published lib source output manifest_path plan allowed_root manifest

        by_result :
            (r : Result (Unit {0})) (w' : World)
            → w'.files ≡ w.files
            → Published output files (raising_again (clean_up temporary >> clean_up output) r w')
        by_result (ok x) w' reads = created refl (rw reads same)
        by_result (err e) w' reads = undone_all e refl (clean_both w' (rw reads same))

    after_build :
        (r : Result (Unit {0})) (w : World)
        → Built temporary output files (r, w)
        → Published output files (
            continue
              (raising_again (clean_up temporary) r w).0
              (λ x.
                on_error
                  (check_published lib source output manifest_path plan allowed_root manifest)
                  (clean_up temporary >> clean_up output))
              (raising_again (clean_up temporary) r w).1)
    after_build (ok x) w (published full same e f) = checked w (rw f (moved-outside full same))
    after_build (ok x) w (given_up e refused same) = absurd (cc refused)
    after_build (err e) w (published full same e' f) = absurd (cc e')
    after_build (err e) w (given_up e' refused same) = undone_all e refl (
        undone temporary files w.files (clean_up temporary w).1.files no_temporary same
          (clean_up-Cleaned temporary w))

    pub publish-Published :
        (w : World)
        → w.files ≡ files
        → Published output files
            (publish lib source output manifest_path plan allowed_root temporary manifest w)
    unfolding publish Builds
    publish-Published w here =
        let b = build lib source output manifest_path plan allowed_root temporary w in
        after_build b.0 b.1 (
          subst (λ (t : Tree). Built temporary output t b) here
            (build-Builds temporary lib source output manifest_path plan allowed_root w))
