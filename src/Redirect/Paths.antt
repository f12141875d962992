-- ===== src/Redirect/Paths.antt =====
-- Paths, as tools/redirect_client.py uses `PurePosixPath` and `Path`. A text is its code points.
use army.Common.{
  ℕ, Bool, true, false, not, ◌&&◌, List, [], ◌∷◌, ◌++◌, if◌then◌else◌, ◌==◌, ◌≡◌, refl, sym, length,
  drop,
}
use army.Common.Equality.{contains, ◌=?◌, Eq, list_eq, nat_eq, and_left, and_right}

abbrev pub Text : Type 0
Text = List ℕ

-- The names of a path below a directory.
abbrev pub RelativePath : Type 0
RelativePath = List Text

-- The names of a path from the root of the file system.
abbrev pub FilePath : Type 0
FilePath = List Text

pub record PosixPath : Type 0 where
  pub absolute : Bool
  pub parts : RelativePath

abbrev pub slash : ℕ
slash = 47

abbrev pub dot : ℕ
dot = 46

-- A name in front of others; `PurePosixPath` drops empty names and ".".
abbrev named : Text → RelativePath → RelativePath
named [] names = names
named (c ∷ []) names = if c == dot then names else (c ∷ []) ∷ names
named (c ∷ d ∷ cs) names = (c ∷ d ∷ cs) ∷ names

-- The names of a text, `name` being what is read of the first.
unfoldable pub split_names : Text → Text → RelativePath
split_names name [] = named name []
split_names name (c ∷ cs) =
    let behind = split_names [] cs in
    let longer = split_names (name ++ c ∷ []) cs in if c == slash then named name behind else longer

unfoldable pub starts_with : ℕ → Text → Bool
starts_with c [] = false
starts_with c (d ∷ ds) = c == d

-- `PurePosixPath(text)`
unfoldable pub posix_path : Text → PosixPath
unfolding split_names starts_with
posix_path text = record { absolute = starts_with slash text; parts = split_names [] text }

abbrev pub parent_name : Text
parent_name = dot ∷ dot ∷ []

-- The negation of `is_absolute() or ".." in parts`.
unfoldable pub is_safe : PosixPath → Bool
is_safe path = not path.absolute && not (contains parent_name path.parts)

abbrev joined_behind : RelativePath → Text
joined_behind [] = []
joined_behind (name ∷ names) = slash ∷ name ++ joined_behind names

-- `as_posix()` of a relative path.
unfoldable pub joined : RelativePath → Text
joined [] = dot ∷ []
joined (name ∷ names) = name ++ joined_behind names

-- `path == root or root in path.parents`
abbrev pub is_under : FilePath → FilePath → Bool
is_under [] path = true
is_under (name ∷ root) [] = false
is_under (name ∷ root) (other ∷ path) = name =? other && is_under root path

-- `path.name`
abbrev pub last_name : FilePath → Text
last_name [] = []
last_name (name ∷ []) = name
last_name (name ∷ other ∷ path) = last_name (other ∷ path)

pub under-split :
    (root path : FilePath) → is_under root path ≡ true → path ≡ root ++ drop (length root) path
under-split [] path h = refl
under-split (name ∷ root) [] h = absurd (cc h)
under-split (name ∷ root) (other ∷ path) h =
    let e : Eq Text = list_eq in
    let front : name ≡ other = e.sound name other (and_left _ _ h) in
    let behind = under-split root path (and_right (name =? other) _ h) in
    rw (front, sym behind) refl

pub under_append : (root path : FilePath) → is_under root (root ++ path) ≡ true
under_append [] path = refl
under_append (name ∷ root) path =
    let e : Eq Text = list_eq in rw (e.reflexive name, under_append root path) refl

pub under_trans :
    (a b c : FilePath) → is_under a b ≡ true → is_under b c ≡ true → is_under a c ≡ true
under_trans [] b c h k = refl
under_trans (x ∷ a) [] c h k = absurd (cc h)
under_trans (x ∷ a) (y ∷ b) [] h k = absurd (cc k)
under_trans (x ∷ a) (y ∷ b) (z ∷ c) h k =
    let e : Eq Text = list_eq in
    let xy : x ≡ y = e.sound x y (and_left _ _ h) in
    let yz : (y =? z) ≡ true = and_left _ _ k in
    let behind = under_trans a b c (and_right (x =? y) _ h) (and_right (y =? z) _ k) in
    rw (xy, yz) behind

pub under_antisym : (a b : FilePath) → is_under a b ≡ true → is_under b a ≡ true → a ≡ b
under_antisym [] [] h k = refl
under_antisym [] (y ∷ b) h k = absurd (cc k)
under_antisym (x ∷ a) [] h k = absurd (cc h)
under_antisym (x ∷ a) (y ∷ b) h k =
    let e : Eq Text = list_eq in
    let xy : x ≡ y = e.sound x y (and_left _ _ h) in
    let behind = under_antisym a b (and_right (x =? y) _ h) (and_right (y =? x) _ k) in
    rw (xy, behind) refl
