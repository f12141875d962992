-- ===== src/Redirect/Verify/Sound.antt =====
-- The verification of tools/redirect_client.py: what it has found out when it returns.
pub mod Entries
pub mod Copies
use army.Common.{
  ℕ, zero, suc, ◌≡◌, refl, sym, ap, ◌∙◌, arith, Bool, true, false, not, ◌||◌, Option, none, some,
  List, [], ◌∷◌, ◌++◌, All, if◌then◌else◌, Bool-cases, inl, inr,
}
use army.Common.Equality.{◌=?◌, lookup, contains, Eq, list_eq, nat_eq}
use army.Exec.{Error, Result, ok, err, redirect_error, Exec, pure, raise_if, continue, ◌>>=◌, ◌>>◌}
use army.Redirect.{PatchPlan, Library, Marker, same_marker}
use army.Redirect.Paths.{Text, RelativePath, FilePath}
use army.Redirect.Files.{
  Node, file, directory, link, Tree, World, Disk, node_at, read_bytes, is_directory_node, content,
  Fault, works, fails, next_fault, read_with,
}
use army.Redirect.Files.Frame.{Reads}
use army.Redirect.Manifest.{Manifest, Entry, keys, load_manifest}
use army.Redirect.Verify.{verify_metadata_bytes}

module _ {A B : Type 0} where
  -- An action that returns has returned from its first part.
  pub >>=-ok :
      (m : Disk A) (f : A → Disk B) (w : World) (b : B)
      → ((m >>= f) w).0 ≡ ok b
      → (a : A) × ((m w).0 ≡ ok a) × ((f a (m w).1).0 ≡ ok b)
  >>=-ok m f w b h = by_result (m w).0 refl h
    where
      by_result :
          (r : Result A)
          → (m w).0 ≡ r
          → (continue r f (m w).1).0 ≡ ok b
          → (a : A) × ((m w).0 ≡ ok a) × ((f a (m w).1).0 ≡ ok b)
      by_result (ok a) e h = (a, e, h)
      by_result (err x) e h = absurd (cc h)

module _ {A B : Type 0} where
  -- An action that returns is what its second part is.
  pub >>=-run :
      (m : Disk A) (f : A → Disk B) (w : World) (a : A) → (m w).0 ≡ ok a → (m >>= f) w ≡ f a (m w).1
  >>=-run m f w a e = rw e refl

  -- An action that only reads in front of another.
  pub Reads-ok :
      (m : Disk A) (f : A → Disk B) (w : World) (b : B)
      → Reads m
      → ((m >>= f) w).0 ≡ ok b
      → (a : A) × (w' : World) × (w'.files ≡ w.files) × ((m w).0 ≡ ok a) × ((f a w').0 ≡ ok b)
  unfolding Reads
  Reads-ok m f w b hm h = let (a, e, behind) = >>=-ok m f w b h in (a, (m w).1, hm w, e, behind)

module _ {B : Type 0} where
  -- A check in front of an action.
  pub guard-ok :
      (test : Bool) (e : Error) (m : Disk B) (w : World) (b : B)
      → ((raise_if test e >> m) w).0 ≡ ok b
      → (test ≡ false) × ((m w).0 ≡ ok b)
  guard-ok true e m w b h = absurd (cc h)
  guard-ok false e m w b h = (refl, h)

pub raise_if-ok : (b : Bool) (e : Error) (w : World) → (raise_if b e w).0 ≡ ok tt → b ≡ false
raise_if-ok true e w h = absurd (cc h)
raise_if-ok false e w h = refl

content-ok :
    (node : Option Node) (w : World) (bytes : List ℕ)
    → (content node w).0 ≡ ok bytes
    → node ≡ some (file bytes)
content-ok none w bytes h = absurd (cc h)
content-ok (some (file found)) w bytes h = let same : found ≡ bytes = cc h in rw same refl
content-ok (some directory) w bytes h = absurd (cc h)
content-ok (some link) w bytes h = absurd (cc h)

pub read_bytes-ok :
    (path : FilePath) (w : World) (bytes : List ℕ)
    → (read_bytes path w).0 ≡ ok bytes
    → lookup path w.files ≡ some (file bytes)
unfolding read_bytes
read_bytes-ok path w bytes h = by_faults w.faults h
  where
    by_fault :
        (fault : Fault) (w' : World)
        → w'.files ≡ w.files
        → (read_with path fault w').0 ≡ ok bytes
        → lookup path w.files ≡ some (file bytes)
    by_fault works w' same h = rw (sym same) (content-ok (lookup path w'.files) w' bytes h)
    by_fault (fails left) w' same h = absurd (cc h)

    by_faults :
        (faults : List Fault)
        → (read_bytes path (record w { faults = faults })).0 ≡ ok bytes
        → lookup path w.files ≡ some (file bytes)
    by_faults [] h = by_fault works (record w { faults = [] }) refl h
    by_faults (fault ∷ faults) h = by_fault fault (record w { faults = faults }) refl h

-- The file at a path passes a test of its bytes.
abbrev pub Passes : FilePath → (List ℕ → Bool) → Tree → Type 0
Passes path problem files =
    (bytes : List ℕ) × (lookup path files ≡ some (file bytes)) × (problem bytes ≡ false)

pub verify_metadata-ok :
    (path : FilePath) (problem : List ℕ → Bool) (w : World)
    → (verify_metadata_bytes path problem w).0 ≡ ok tt
    → Passes path problem w.files
unfolding verify_metadata_bytes
verify_metadata-ok path problem w h =
    let (bytes, read, behind) =
      >>=-ok (read_bytes path) (λ bytes. raise_if (problem bytes) redirect_error) w tt h in
    (bytes, read_bytes-ok path w bytes read, raise_if-ok (problem bytes) redirect_error _ behind)
