-- ===== src/Redirect/Files/Frame/Calls.antt =====
-- The calls of the file system of tools/redirect_client.py: what each leaves as it is.
use army.Common.{
  ℕ, ◌≡◌, refl, ◌∙◌, Bool, true, false, not, ◌||◌, Option, none, some, List, [], ◌∷◌, ◌++◌,
  Bool-cases, inl, inr, append_assoc,
}
use army.Common.Equality.{◌=?◌, lookup, Eq, list_eq, nat_eq}
use army.Exec.{Error, Result, ok, err, raise_if, ◌>>=◌}
use army.Redirect.Paths.{Text, FilePath, is_under, under_append}
use army.Redirect.Files.{
  Node, file, directory, link, Tree, Fault, works, fails, World, Disk, next_fault, read_bytes,
  read_with, content, node_at, write_bytes, write_with, copytree, copy_with, copied,
  is_directory_node, has_link, below, rmtree, rename, rename_with, has_parent, is_empty, moved,
  without, make_directory, make_directories, mkdir_parents, mkdir_with,
}
use army.Redirect.Files.Frame.{
  Same, Keeps, Reads, Reads-Keeps, Keeps-Keeps, >>=-Keeps, >>=-Reads, graft-Same, lookup-without,
  lookup-hung,
}

pub next_fault-Reads : Reads next_fault
unfolding Reads
next_fault-Reads w = by_faults w.faults
  where
    by_faults :
        (faults : List Fault) → (next_fault (record w { faults = faults })).1.files ≡ w.files
    by_faults [] = refl
    by_faults (fault ∷ faults) = refl

pub raise_if-Reads : (test : Bool) (e : Error) → Reads (raise_if test e)
unfolding Reads
raise_if-Reads true e w = refl
raise_if-Reads false e w = refl

content-Reads : (node : Option Node) → Reads (content node)
unfolding Reads
content-Reads none w = refl
content-Reads (some (file bytes)) w = refl
content-Reads (some directory) w = refl
content-Reads (some link) w = refl

pub read_bytes-Reads : (path : FilePath) → Reads (read_bytes path)
unfolding read_bytes Reads
read_bytes-Reads path = >>=-Reads next_fault (read_with path) next_fault-Reads with_fault
  where
    with_fault : (fault : Fault) → Reads (read_with path fault)
    with_fault works = λ w. content-Reads (lookup path w.files) w
    with_fault (fails left) = λ w. refl

-- A call that a fault stands in front of.
faulty :
    {A : Type 0} (inside : FilePath → Bool) (m : Fault → Disk A)
    → ((fault : Fault) → Keeps inside (m fault))
    → Keeps inside (next_fault >>= m)
faulty inside m h = >>=-Keeps inside next_fault m (Reads-Keeps inside next_fault next_fault-Reads) h

pub write_bytes-Keeps :
    (path : FilePath) (bytes : List ℕ) → Keeps (is_under path) (write_bytes path bytes)
unfolding write_bytes Keeps
write_bytes-Keeps path bytes = faulty (is_under path) (write_with path bytes) with_fault
  where
    with_fault : (fault : Fault) → Keeps (is_under path) (write_with path bytes fault)
    with_fault works = λ w. graft-Same path (([], file bytes) ∷ []) w.files
    with_fault (fails left) = λ w. graft-Same path left w.files

pub copytree-Keeps : (source target : FilePath) → Keeps (is_under target) (copytree source target)
unfolding copytree Keeps
copytree-Keeps source target = faulty (is_under target) (copy_with source target) with_fault
  where
    copies : (w : World) → Same (is_under target) w.files (copy_with source target works w).1.files
    copies w path out = elim (Bool-cases (is_directory_node (lookup source w.files))) [
      | inl found ↦ elim (Bool-cases (has_link (below source w.files))) [
        | inl linked ↦
            rw (found, linked) (graft-Same target (copied source target w.files) w.files path out)
        | inr plain ↦
            rw (found, plain) (graft-Same target (copied source target w.files) w.files path out)
      ]
      | inr missing ↦ rw missing refl
    ]

    with_fault : (fault : Fault) → Keeps (is_under target) (copy_with source target fault)
    with_fault works = copies
    with_fault (fails left) = λ w. graft-Same target left w.files

pub rmtree-Keeps : (path : FilePath) → Keeps (is_under path) (rmtree path)
unfolding rmtree Keeps
rmtree-Keeps path w other out = lookup-without path other w.files out

abbrev pub in_either : FilePath → FilePath → FilePath → Bool
in_either a b path = is_under a path || is_under b path

pub out_left : (a b : Bool) → (a || b) ≡ false → a ≡ false
out_left true b h = absurd (cc h)
out_left false b h = refl

pub out_right : (a b : Bool) → (a || b) ≡ false → b ≡ false
out_right true b h = absurd (cc h)
out_right false b h = h

pub moved-Same :
    (source target : FilePath) (files : Tree)
    → Same (in_either source target) files (moved source target files)
moved-Same source target files path out =
    lookup-hung target path _ (without source files) (out_right (is_under source path) _ out)
    ∙ lookup-without source path files (out_left (is_under source path) _ out)

-- What `rename` makes of the files: it moves them, or it raises and changes nothing.
pub data Renamed (source target : FilePath) (files : Tree) (run : Result (Unit {0}) × World)
    : Type 0 where
  renamed :
      run.0 ≡ ok tt → run.1.files ≡ moved source target files → Renamed source target files run
  kept : (e : Error) → run.0 ≡ err e → run.1.files ≡ files → Renamed source target files run

rename_with-Renamed :
    (source target : FilePath) (fault : Fault) (w : World)
    → Renamed source target w.files (rename_with source target fault w)
rename_with-Renamed source target (fails left) w = kept _ refl refl
rename_with-Renamed source target works w =
    elim (Bool-cases (
      is_empty (below source w.files)
      || is_under source target
      || not (is_empty (below target w.files))
      || not (has_parent target w.files))) [
        | inl refused ↦ rw refused (kept _ refl refl)
        | inr allowed ↦ rw allowed (renamed refl refl)
      ]

pub rename-Renamed :
    (source target : FilePath) (w : World) → Renamed source target w.files (rename source target w)
unfolding rename
rename-Renamed source target w = by_faults w.faults
  where
    by_faults :
        (faults : List Fault)
        → Renamed source target w.files (rename source target (record w { faults = faults }))
    by_faults [] = rename_with-Renamed source target works (record w { faults = [] })
    by_faults (fault ∷ faults) =
        rename_with-Renamed source target fault (record w { faults = faults })

pub rename-Keeps :
    (source target : FilePath) → Keeps (in_either source target) (rename source target)
unfolding Keeps
rename-Keeps source target w path out = elim (rename-Renamed source target w) [
  | renamed e files ↦ rw files (moved-Same source target w.files path out)
  | kept x e files ↦ rw files refl
]

mkdir_with-Keeps :
    (path : FilePath) (node : Option Node) (fault : Fault)
    → Keeps (λ other. other =? path) (mkdir_with path node fault)
unfolding Keeps
mkdir_with-Keeps path (some (file bytes)) fault w other out = refl
mkdir_with-Keeps path (some directory) fault w other out = refl
mkdir_with-Keeps path (some link) fault w other out = refl
mkdir_with-Keeps path none works w other out = rw out refl
mkdir_with-Keeps path none (fails left) w other out = refl

make_directory-Keeps : (path : FilePath) → Keeps (λ other. other =? path) (make_directory path)
unfolding Keeps
make_directory-Keeps path =
    >>=-Keeps (λ other. other =? path) (node_at path) (λ node. next_fault >>= mkdir_with path node)
      (λ w other out. refl)
      (λ node. faulty (λ other. other =? path) (mkdir_with path node) (mkdir_with-Keeps path node))

-- A path on the way to `path`, or `path`.
abbrev pub is_above : FilePath → FilePath → Bool
is_above path other = is_under other path

above_only :
    (root : FilePath) (names : List Text) (other : FilePath)
    → is_above (root ++ names) other ≡ false
    → (other =? root) ≡ false
above_only root names other out = elim (Bool-cases (other =? root)) [
  | inr differ ↦ differ
  | inl same ↦
      let e : Eq FilePath = list_eq in
      let here : other ≡ root = e.sound other root same in
      let clash : is_under other (root ++ names) ≡ true = rw here (under_append root names) in
      absurd (cc (out, clash))
]

make_directories-Keeps :
    (root : FilePath) (names : List Text)
    → Keeps (is_above (root ++ names)) (make_directories root names)
unfolding Keeps
make_directories-Keeps root [] w path out = refl
make_directories-Keeps root (name ∷ names) w path out =
    let whole : (root ++ name ∷ []) ++ names ≡ root ++ name ∷ names =
      append_assoc root (name ∷ []) names in
    >>=-Keeps (is_above ((root ++ name ∷ []) ++ names)) (make_directory (root ++ name ∷ []))
      (λ x. make_directories (root ++ name ∷ []) names)
      (Keeps-Keeps (λ other. other =? (root ++ name ∷ [])) (is_above ((root ++ name ∷ []) ++ names))
        (make_directory (root ++ name ∷ [])) (above_only (root ++ name ∷ []) names)
        (make_directory-Keeps (root ++ name ∷ [])))
      (λ x. make_directories-Keeps (root ++ name ∷ []) names) w path (rw whole out)

pub mkdir_parents-Keeps : (path : FilePath) → Keeps (is_above path) (mkdir_parents path)
unfolding mkdir_parents
mkdir_parents-Keeps path = make_directories-Keeps [] path
