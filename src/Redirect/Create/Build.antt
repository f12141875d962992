-- ===== src/Redirect/Create/Build.antt =====
-- tools/redirect_client.py: the first part of the `try` block of `create_patched_copy`.
use army.Common.{ℕ, ◌≡◌, refl, sym, ◌∙◌, true, false, List, [], ◌∷◌, ◌++◌, Bool-cases, inl, inr}
use army.Common.Equality.{◌=?◌, list_eq, nat_eq}
use army.Exec.{Error, Result, ok, err, lift, continue, ◌>>=◌}
use army.Redirect.{PatchPlan, Library}
use army.Redirect.Paths.{Text, FilePath, is_under}
use army.Redirect.Files.{Tree, World, Disk, write_bytes, rename, moved}
use army.Redirect.Files.Frame.{Same, Keeps, Reads, Reads-Keeps, Keeps-Keeps, >>=-Keeps}
use army.Redirect.Files.Frame.Calls.{
  read_bytes-Reads, raise_if-Reads, write_bytes-Keeps, copytree-Keeps, renamed, kept,
  rename-Renamed,
}
use army.Redirect.Verify.Reads.{verify_metadata-Reads, verify_patched-Reads, read_payload-Reads}
use army.Redirect.Patch.{patch_metadata}
use army.Redirect.Create.{build}

-- A path below a path below `root` is below `root`.
under_longer :
    (root more path : FilePath) → is_under root path ≡ false → is_under (root ++ more) path ≡ false
under_longer [] more path out = absurd (cc out)
under_longer (name ∷ root) more [] out = refl
under_longer (name ∷ root) more (other ∷ path) out = elim (Bool-cases (name =? other)) [
  | inl same ↦
      let behind : is_under root path ≡ false = rw (sym (cut same)) out in
      rw (same, under_longer root more path behind) refl
  | inr differ ↦ rw differ refl
]
  where
    cut : (name =? other) ≡ true → is_under (name ∷ root) (other ∷ path) ≡ is_under root path
    cut same = rw same refl

module _ (temporary : FilePath) where
  write_below :
      (more : FilePath) (bytes : List ℕ)
      → Keeps (is_under temporary) (write_bytes (temporary ++ more) bytes)
  write_below more bytes =
      Keeps-Keeps (is_under (temporary ++ more)) (is_under temporary) _
        (under_longer temporary more) (write_bytes-Keeps (temporary ++ more) bytes)

  patch_below :
      (sha256 : List ℕ → Text) (more : FilePath) (plan : PatchPlan)
      → Keeps (is_under temporary) (patch_metadata sha256 (temporary ++ more) plan)
  unfolding patch_metadata
  patch_below sha256 more plan =
      search
        (
          >>=-Keeps, Reads-Keeps, verify_metadata-Reads, read_bytes-Reads, raise_if-Reads,
          write_below,
        )
        depth 12

  -- What the first part of the `try` block makes of the files.
  pub data Built (output : FilePath) (files : Tree) (run : Result (Unit {0}) × World) : Type 0 where
    published :
        (full : Tree)
        → Same (is_under temporary) files full
        → run.0 ≡ ok tt
        → run.1.files ≡ moved temporary output full
        → Built output files run
    given_up :
        (e : Error)
        → run.0 ≡ err e
        → Same (is_under temporary) files run.1.files
        → Built output files run

  unfoldable pub Builds : FilePath → Disk (Unit {0}) → Type 0
  Builds output m = (w : World) → Built output w.files (m w)

  Built-trans :
      (output : FilePath) (files files' : Tree) (run : Result (Unit {0}) × World)
      → Same (is_under temporary) files files'
      → Built output files' run
      → Built output files run
  Built-trans output files files' run same (published full h e f) =
      published full (λ path out. h path out ∙ same path out) e f
  Built-trans output files files' run same (given_up x e h) =
      given_up x e (λ path out. h path out ∙ same path out)

  >>=-Builds :
      {A : Type 0} (output : FilePath) (m : Disk A) (f : A → Disk (Unit {0}))
      → Keeps (is_under temporary) m
      → ((a : A) → Builds output (f a))
      → Builds output (m >>= f)
  unfolding Builds Keeps
  >>=-Builds {A} output m f hm hf w = by_result (m w).0 (m w).1 (λ path out. hm w path out)
    where
      by_result :
          (r : Result A) (w' : World)
          → Same (is_under temporary) w.files w'.files
          → Built output w.files (continue r f w')
      by_result (ok a) w' same = Built-trans output w.files w'.files _ same (hf a w')
      by_result (err e) w' same = given_up e refl same

  rename-Builds : (output : FilePath) → Builds output (rename temporary output)
  unfolding Builds
  rename-Builds output w = elim (rename-Renamed temporary output w) [
    | renamed e f ↦ published w.files (λ path out. refl) e f
    | kept x e f ↦ given_up x e (λ path out. rw f refl)
  ]

  lift-Reads : {A : Type 0} (r : Result A) → Reads (lift r)
  unfolding Reads
  lift-Reads r w = refl

  pub build-Builds :
      (lib : Library) (source output manifest_path : FilePath) (plan : PatchPlan)
      (allowed_root : FilePath)
      → Builds output (build lib source output manifest_path plan allowed_root temporary)
  unfolding build
  build-Builds lib source output manifest_path plan allowed_root =
      search
        (
          >>=-Builds, rename-Builds, Reads-Keeps, copytree-Keeps, patch_below, write_below,
          read_payload-Reads, lift-Reads, verify_patched-Reads,
        )
        depth 20
