-- ===== src/Redirect/Files/Frame.antt =====
-- The file system of tools/redirect_client.py: what an action leaves as it is.
pub mod Calls
use army.Common.{
  ◌≡◌, refl, sym, ◌∙◌, Bool, true, false, Option, none, some, List, [], ◌∷◌, ◌++◌, if◌then◌else◌,
  Bool-cases, inl, inr,
}
use army.Common.Equality.{◌=?◌, lookup, Eq, list_eq, nat_eq}
use army.Exec.{Error, Result, ok, err, continue, ◌>>=◌}
use army.Redirect.Paths.{FilePath, is_under, under_append}
use army.Redirect.Files.{Node, Tree, World, Disk, below, without, hung, graft, is_empty}

-- Every path outside has what it had.
abbrev pub Same : (FilePath → Bool) → Tree → Tree → Type 0
Same inside files files' =
    (path : FilePath) → inside path ≡ false → lookup path files' ≡ lookup path files

-- An action that changes nothing outside.
unfoldable pub Keeps : {A : Type 0} → (FilePath → Bool) → Disk A → Type 0
Keeps inside m = (w : World) → Same inside w.files (m w).1.files

-- An action that changes nothing.
unfoldable pub Reads : {A : Type 0} → Disk A → Type 0
Reads m = (w : World) → (m w).1.files ≡ w.files

module _ {A : Type 0} where
  pub Reads-Keeps : (inside : FilePath → Bool) (m : Disk A) → Reads m → Keeps inside m
  unfolding Reads Keeps
  Reads-Keeps inside m h w path out = rw (h w) refl

  pub Keeps-Keeps :
      (inside more : FilePath → Bool) (m : Disk A)
      → ((path : FilePath) → more path ≡ false → inside path ≡ false)
      → Keeps inside m
      → Keeps more m
  unfolding Keeps
  Keeps-Keeps inside more m within h w path out = h w path (within path out)

module _ {A B : Type 0} where
  continue-Same :
      (inside : FilePath → Bool) (f : A → Disk B) (r : Result A) (w : World) (files : Tree)
      → ((a : A) → Keeps inside (f a))
      → Same inside files w.files
      → Same inside files (continue r f w).1.files
  unfolding Keeps
  continue-Same inside f (ok a) w files h same path out = h a w path out ∙ same path out
  continue-Same inside f (err e) w files h same path out = same path out

  pub >>=-Keeps :
      (inside : FilePath → Bool) (m : Disk A) (f : A → Disk B)
      → Keeps inside m
      → ((a : A) → Keeps inside (f a))
      → Keeps inside (m >>= f)
  unfolding Keeps
  >>=-Keeps inside m f hm hf w =
      continue-Same inside f (m w).0 (m w).1 w.files hf (λ path out. hm w path out)

  continue-files :
      (f : A → Disk B) (r : Result A) (w : World) (files : Tree)
      → ((a : A) → Reads (f a))
      → w.files ≡ files
      → (continue r f w).1.files ≡ files
  unfolding Reads
  continue-files f (ok a) w files h same = h a w ∙ same
  continue-files f (err e) w files h same = same

  pub >>=-Reads :
      (m : Disk A) (f : A → Disk B) → Reads m → ((a : A) → Reads (f a)) → Reads (m >>= f)
  unfolding Reads
  >>=-Reads m f hm hf w = continue-files f (m w).0 (m w).1 w.files hf (hm w)

empty_front :
    (b : Bool) (entry : FilePath × Node) (tree : Tree)
    → is_empty (if b then entry ∷ tree else tree) ≡ true
    → (b ≡ false) × (is_empty tree ≡ true)
empty_front true entry tree h = absurd (cc h)
empty_front false entry tree h = (refl, h)

module _ (root : FilePath) where
  pub lookup-without :
      (path : FilePath) (files : Tree)
      → is_under root path ≡ false
      → lookup path (without root files) ≡ lookup path files
  lookup-without path [] out = refl
  lookup-without path ((other, node) ∷ files) out = elim (Bool-cases (path =? other)) [
    | inl same ↦
        let e : Eq FilePath = list_eq in
        let here : path ≡ other = e.sound path other same in
        let other_out : is_under root other ≡ false = rw (sym here) out in rw (other_out, same) refl
    | inr differ ↦ elim (Bool-cases (is_under root other)) [
      | inl inside ↦ rw (inside, differ, lookup-without path files out) refl
      | inr outside ↦ rw (outside, differ, lookup-without path files out) refl
    ]
  ]

  pub lookup-without_under :
      (path : FilePath) (files : Tree)
      → is_under root path ≡ true
      → lookup path (without root files) ≡ none
  lookup-without_under path [] h = refl
  lookup-without_under path ((other, node) ∷ files) h = elim (Bool-cases (is_under root other)) [
    | inl inside ↦ rw (inside, lookup-without_under path files h) refl
    | inr outside ↦ elim (Bool-cases (path =? other)) [
      | inl same ↦
          let e : Eq FilePath = list_eq in
          let here : path ≡ other = e.sound path other same in
          let clash : is_under root other ≡ true = rw (sym here) h in absurd (cc (outside, clash))
      | inr differ ↦ rw (outside, differ, lookup-without_under path files h) refl
    ]
  ]

  pub lookup-hung :
      (path : FilePath) (tree files : Tree)
      → is_under root path ≡ false
      → lookup path (hung root tree ++ files) ≡ lookup path files
  lookup-hung path [] files out = refl
  lookup-hung path ((other, node) ∷ tree) files out = elim (Bool-cases (path =? (root ++ other))) [
    | inl same ↦
        let e : Eq FilePath = list_eq in
        let here : path ≡ root ++ other = e.sound path (root ++ other) same in
        let clash : is_under root path ≡ true = rw here (under_append root other) in
        absurd (cc (out, clash))
    | inr differ ↦ rw (differ, lookup-hung path tree files out) refl
  ]

  pub graft-Same : (tree files : Tree) → Same (is_under root) files (graft root tree files)
  graft-Same tree files path out =
      lookup-hung path tree (without root files) out ∙ lookup-without path files out

  -- Nothing is at or below a path that does not exist.
  pub lookup-below :
      (path : FilePath) (files : Tree)
      → is_under root path ≡ true
      → is_empty (below root files) ≡ true
      → lookup path files ≡ none
  lookup-below path [] h e = refl
  lookup-below path ((other, node) ∷ files) h e =
      let (outside, behind) =
        empty_front (is_under root other) (other, node) (below root files) e in
      elim (Bool-cases (path =? other)) [
        | inl same ↦
            let eq : Eq FilePath = list_eq in
            let here : path ≡ other = eq.sound path other same in
            let clash : is_under root other ≡ true = rw (sym here) h in absurd (cc (outside, clash))
        | inr differ ↦ rw (differ, lookup-below path files h behind) refl
      ]
