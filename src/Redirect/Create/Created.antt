-- ===== src/Redirect/Create/Created.antt =====
-- tools/redirect_client.py: what holds when `create_patched_copy` returns.
use army.Common.{ℕ, some, ◌≡◌, refl, sym, ◌∙◌, List}
use mathlib.Core.Path.{subst}
use army.Common.Equality.{lookup, list_eq, nat_eq}
use army.Exec.{Result, os_error, lift, ok, err, redirect_error, raise_if, continue, ◌>>=◌, ◌>>◌}
use army.Utf8.{utf8_decode}
use army.Redirect.{PatchPlan, Library}
use army.Redirect.Paths.{Text, FilePath}
use army.Redirect.Files.{file, Tree, World, Disk, path_exists, mkdir_parents, read_bytes}
use army.Redirect.Files.Frame.{Reads, >>=-Reads}
use army.Redirect.Manifest.{
  Manifest, load_manifest, parse_manifest, os_errors_redirected, redirected,
}
use army.Redirect.Verify.{verify_original_client, verify_patched_copy}
use army.Redirect.Verify.Reads.{ensure-Reads, verify_patched-Reads, verify_original-Reads}
use army.Redirect.Verify.Sound.{>>=-ok, read_bytes-ok, Reads-ok}
use army.Redirect.Verify.Sound.Copies.{
  IsOriginal, IsPatched, verify_original_client-IsOriginal, verify_patched_copy-IsPatched,
}
use army.Redirect.Files.Frame.Calls.{raise_if-Reads}
use army.Redirect.Create.Publish.{path_exists-Reads}
use army.Redirect.Create.{
  on_error, raising_again, clean_up, temporary_path, build, check_published, publish,
  create_patched_copy,
}

-- The file at a path is this manifest.
pub record Loaded (path : FilePath) (manifest : Manifest) (files : Tree) : Type 0 where
  pub bytes : List ℕ
  pub text : Text
  pub stored : lookup path files ≡ some (file bytes)
  pub decoded : utf8_decode bytes ≡ ok text
  pub parsed : parse_manifest text ≡ ok manifest

redirected-ok : {A : Type 0} (r : Result A) (a : A) → redirected r ≡ ok a → r ≡ ok a
redirected-ok (ok b) a h = h
redirected-ok (err os_error) a h = absurd (cc h)
redirected-ok (err _) a h = absurd (cc h)

pub load_manifest-Loaded :
    (path : FilePath) (w : World) (manifest : Manifest)
    → (load_manifest path w).0 ≡ ok manifest
    → Loaded path manifest w.files
unfolding load_manifest
load_manifest-Loaded path w manifest h =
    let read : Disk Text = read_bytes path >>= λ bytes. lift (utf8_decode bytes) in
    let (text, e, parsed) =
      >>=-ok (os_errors_redirected read) (λ text. lift (parse_manifest text)) w manifest h in
    let (bytes, e', decoded) =
      >>=-ok (read_bytes path) (λ bytes. lift (utf8_decode bytes)) w text
        (redirected-ok (read w).0 text e) in
    record {
      bytes = bytes;
      text = text;
      stored = read_bytes-ok path w bytes e';
      decoded = decoded;
      parsed = parsed;
    }

-- An action that returns in a state with a property.
unfoldable pub Ensures : (World → Type 0) → Disk (Unit {0}) → Type 0
Ensures P m = (w : World) → (m w).0 ≡ ok tt → P (m w).1

module _ (P : World → Type 0) where
  >>=-Ensures :
      {A : Type 0} (m : Disk A) (f : A → Disk (Unit {0}))
      → ((a : A) → Ensures P (f a))
      → Ensures P (m >>= f)
  unfolding Ensures
  >>=-Ensures {A} m f hf w h = by_result (m w).0 (m w).1 h
    where
      by_result : (r : Result A) (w' : World) → (continue r f w').0 ≡ ok tt → P (continue r f w').1
      by_result (ok a) w' h = hf a w' h
      by_result (err e) w' h = absurd (cc h)

  on_error-Ensures : (m clean : Disk (Unit {0})) → Ensures P m → Ensures P (on_error m clean)
  unfolding Ensures
  on_error-Ensures m clean hm w h = by_result (m w).0 (m w).1 (hm w) h
    where
      by_result :
          (r : Result (Unit {0})) (w' : World)
          → (r ≡ ok tt → P w')
          → (raising_again clean r w').0 ≡ ok tt
          → P (raising_again clean r w').1
      by_result (ok a) w' hr h = hr refl
      by_result (err e) w' hr h = absurd (cc h)

-- What the last verifications have found out.
pub record IsCreated (lib : Library) (plan : PatchPlan) (source output manifest_path : FilePath)
    (manifest : Manifest) (files : Tree) : Type 0 where
  pub original : IsOriginal lib plan source manifest files
  pub copy_manifest : Manifest
  pub loaded : Loaded manifest_path copy_manifest files
  pub patched_copy : IsPatched lib plan output copy_manifest files

module _ (lib : Library) (source output manifest_path : FilePath) (plan : PatchPlan)
    (allowed_root : FilePath) (token : Text) where
  check-Ensures :
      (manifest : Manifest)
      → Ensures
          (λ w. IsCreated lib plan source output manifest_path manifest w.files)
          (check_published lib source output manifest_path plan allowed_root manifest)
  unfolding Ensures check_published Reads
  check-Ensures manifest w h =
      let (x, w', same, e, h') =
        Reads-ok (verify_patched_copy lib output manifest_path plan allowed_root)
          (λ x. verify_original_client lib source manifest plan) w tt
          (verify_patched-Reads lib output manifest_path plan allowed_root) h in
      let (copy, loaded, patched) =
        verify_patched_copy-IsPatched lib plan output manifest_path allowed_root w e in
      let all_reads : Reads
          (check_published lib source output manifest_path plan allowed_root manifest) =
        search (>>=-Reads, verify_patched-Reads, verify_original-Reads) in
      subst (λ (t : Tree). IsCreated lib plan source output manifest_path manifest t)
        (sym (all_reads w))
        (record {
          original =
              subst (λ (t : Tree). IsOriginal lib plan source manifest t) same
                (verify_original_client-IsOriginal lib plan source manifest w' h');
          copy_manifest = copy;
          loaded = load_manifest-Loaded manifest_path w copy loaded;
          patched_copy = patched;
        })

  publish-Ensures :
      (manifest : Manifest) (temporary : FilePath)
      → Ensures
          (λ w. IsCreated lib plan source output manifest_path manifest w.files)
          (publish lib source output manifest_path plan allowed_root temporary manifest)
  unfolding publish
  publish-Ensures manifest temporary =
      >>=-Ensures _
        (on_error (build lib source output manifest_path plan allowed_root temporary)
          (clean_up temporary))
        (λ x.
          on_error (check_published lib source output manifest_path plan allowed_root manifest)
            (clean_up temporary >> clean_up output))
        (λ x.
          on_error-Ensures _
            (check_published lib source output manifest_path plan allowed_root manifest)
            (clean_up temporary >> clean_up output) (check-Ensures manifest))

  -- Behind the loading of the manifest.
  abbrev behind_loading : Manifest → Disk (Unit {0})
  behind_loading manifest =
      verify_original_client lib source manifest plan
      >> (mkdir_parents allowed_root
          >> (path_exists (temporary_path allowed_root output token) >>= λ taken.
              raise_if taken redirect_error
              >> publish lib source output manifest_path plan allowed_root
                  (temporary_path allowed_root output token) manifest))

  behind_loading-Ensures :
      (manifest : Manifest)
      → Ensures
          (λ w. IsCreated lib plan source output manifest_path manifest w.files)
          (behind_loading manifest)
  behind_loading-Ensures manifest = search (>>=-Ensures, publish-Ensures) depth 12

  module _ (files : Tree) where
    abbrev Finished : World → Type 0
    Finished w =
        (manifest : Manifest) × Loaded manifest_path manifest files
        × IsCreated lib plan source output manifest_path manifest w.files

    unfoldable From : Disk (Unit {0}) → Type 0
    From m = (w : World) → w.files ≡ files → (m w).0 ≡ ok tt → Finished (m w).1

    >>=-From :
        {A : Type 0} (m : Disk A) (f : A → Disk (Unit {0}))
        → Reads m
        → ((a : A) → From (f a))
        → From (m >>= f)
    unfolding From Reads
    >>=-From {A} m f hm hf w here h = by_result (m w).0 (m w).1 (hm w) h
      where
        by_result :
            (r : Result A) (w' : World)
            → w'.files ≡ w.files
            → (continue r f w').0 ≡ ok tt
            → Finished (continue r f w').1
        by_result (ok a) w' same h = hf a w' (same ∙ here) h
        by_result (err e) w' same h = absurd (cc h)

    loading-From : From (load_manifest manifest_path >>= behind_loading)
    unfolding From Ensures
    loading-From w here h =
        by_result (load_manifest manifest_path w).0 (load_manifest manifest_path w).1
          (λ manifest e.
            subst (Loaded manifest_path manifest) here
              (load_manifest-Loaded manifest_path w manifest e))
          h
      where
        by_result :
            (r : Result Manifest) (w' : World)
            → ((manifest : Manifest) → r ≡ ok manifest → Loaded manifest_path manifest files)
            → (continue r behind_loading w').0 ≡ ok tt
            → Finished (continue r behind_loading w').1
        by_result (ok manifest) w' loaded h =
            (manifest, loaded manifest refl, behind_loading-Ensures manifest w' h)
        by_result (err e) w' loaded h = absurd (cc h)

    create-From : From (create_patched_copy lib source output manifest_path plan allowed_root token)
    unfolding create_patched_copy
    create-From =
        search (>>=-From, loading-From, ensure-Reads, raise_if-Reads, path_exists-Reads) depth 12

  -- When the call returns, the manifest file was a manifest, by which the client below the source is
  -- the original one, still at the end, and the output is a patched copy by the manifest that the file
  -- then has.
  pub create-IsCreated :
      (w : World)
      → (create_patched_copy lib source output manifest_path plan allowed_root token w).0 ≡ ok tt
      → (manifest : Manifest) × Loaded manifest_path manifest w.files
        × IsCreated lib plan source output manifest_path manifest
            (create_patched_copy lib source output manifest_path plan allowed_root token w).1.files
  unfolding From
  create-IsCreated w h = create-From w.files w refl h
