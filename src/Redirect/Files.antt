-- ===== src/Redirect/Files.antt =====
-- The file system, as tools/redirect_client.py uses it through `pathlib`, `os` and `shutil`.
pub mod Frame
use army.Common.{
  ℕ, Bool, true, false, not, ◌||◌, Option, none, some, List, [], ◌∷◌, ◌++◌, length, drop,
  if◌then◌else◌, ◌==◌,
}
use army.Common.Equality.{lookup, map, list_eq, nat_eq}
use army.Exec.{ok, err, os_error, Exec, pure, raise, gets, ◌>>=◌, ◌>>◌}
use army.Redirect.Paths.{Text, RelativePath, FilePath, is_under}

-- What stands at a path. A link is taken to lead to a file that may not be opened: it is there, it is
-- no directory, and to read or to copy through it raises OSError.
pub data Node : Type 0 where
  file : List ℕ → Node
  directory link : Node

abbrev pub Tree : Type 0
Tree = List (FilePath × Node)

-- How a call of the operating system ends: as it should, or with an OSError. One that changes files
-- may then leave anything at and below the path that it is about.
pub data Fault : Type 0 where
  works : Fault
  fails : Tree → Fault

-- The files, and how the next calls end; those behind the last entry work.
pub record World : Type 0 where
  pub files : Tree
  pub faults : List Fault

abbrev pub Disk : Type 0 → Type 0
Disk A = Exec World A

abbrev pub next_fault : Disk Fault
next_fault w = elim w.faults [
  | [] ↦ (ok works, w)
  | fault ∷ faults ↦ (ok fault, record w { faults = faults })
]

abbrev pub set_files : Tree → Disk (Unit {0})
set_files files w = (ok tt, record w { files = files })

abbrev pub node_at : FilePath → Disk (Option Node)
node_at path = gets (λ w. lookup path w.files)

abbrev pub is_link_node : Option Node → Bool
is_link_node (some link) = true
is_link_node _ = false

abbrev pub is_file_node : Option Node → Bool
is_file_node (some (file bytes)) = true
is_file_node _ = false

abbrev pub is_directory_node : Option Node → Bool
is_directory_node (some directory) = true
is_directory_node _ = false

abbrev pub is_present : Option Node → Bool
is_present (some node) = true
is_present none = false

abbrev pub below : FilePath → Tree → Tree
below root [] = []
below root ((path, node) ∷ tree) =
    if is_under root path then (path, node) ∷ below root tree else below root tree

abbrev pub without : FilePath → Tree → Tree
without root [] = []
without root ((path, node) ∷ tree) =
    if is_under root path then without root tree else (path, node) ∷ without root tree

-- A tree that hangs from a path.
abbrev pub hung : FilePath → Tree → Tree
hung root [] = []
hung root ((path, node) ∷ tree) = (root ++ path, node) ∷ hung root tree

abbrev pub graft : FilePath → Tree → Tree → Tree
graft root tree files = hung root tree ++ without root files

abbrev pub is_empty : Tree → Bool
is_empty [] = true
is_empty (entry ∷ tree) = false

-- `path.exists()`: every directory on the way to an entry is there, and so is what a link leads to.
unfoldable pub path_exists : FilePath → Disk Bool
path_exists path = gets (λ w. not (is_empty (below path w.files)))

abbrev pub content : Option Node → Disk (List ℕ)
content (some (file bytes)) = pure bytes
content _ = raise os_error

abbrev pub read_with : FilePath → Fault → Disk (List ℕ)
read_with path works = node_at path >>= content
read_with path (fails left) = raise os_error

-- `path.read_bytes()`; the chunks of `sha256_file` are one read.
unfoldable pub read_bytes : FilePath → Disk (List ℕ)
read_bytes path = next_fault >>= read_with path

-- An error that leaves `left` at and below the path.
abbrev pub fail_leaving : {A : Type 0} → FilePath → Tree → Disk A
fail_leaving path left w = (err os_error, record w { files = graft path left w.files })

abbrev pub write_with : FilePath → List ℕ → Fault → Disk (Unit {0})
write_with path bytes works w =
    (ok tt, record w { files = graft path (([], file bytes) ∷ []) w.files })
write_with path bytes (fails left) w = fail_leaving path left w

-- The bytes of a file that is open for writing, or of a new file in a directory that is there.
unfoldable pub write_bytes : FilePath → List ℕ → Disk (Unit {0})
write_bytes path bytes = next_fault >>= write_with path bytes

-- The entries that `copytree` makes, and whether it meets a link, through which it cannot copy.
abbrev copied : FilePath → FilePath → Tree → Tree
copied source target [] = []
copied source target ((path, link) ∷ tree) = copied source target tree
copied source target ((path, node) ∷ tree) =
    let rest = copied source target tree in
    if is_under source path then (drop (length source) path, node) ∷ rest else rest

abbrev has_link : Tree → Bool
has_link [] = false
has_link ((path, link) ∷ tree) = true
has_link ((path, node) ∷ tree) = has_link tree

abbrev copy_with : FilePath → FilePath → Fault → Disk (Unit {0})
copy_with source target works w =
    if is_directory_node (lookup source w.files)
    then (if has_link (below source w.files)
        then fail_leaving target (copied source target w.files) w
        else (ok tt, record w { files = graft target (copied source target w.files) w.files }))
    else (err os_error, w)
copy_with source target (fails left) w = fail_leaving target left w

-- `shutil.copytree(source, target)`, for a target that is not there.
unfoldable pub copytree : FilePath → FilePath → Disk (Unit {0})
copytree source target = next_fault >>= copy_with source target

-- `shutil.rmtree(path)`, which is taken to work.
unfoldable pub rmtree : FilePath → Disk (Unit {0})
rmtree path w = (ok tt, record w { files = without path w.files })

abbrev pub moved : FilePath → FilePath → Tree → Tree
moved source target files =
    hung target (map (λ entry. (drop (length source) entry.0, entry.1)) (below source files))
    ++ without source files

-- The directory that a path lies in; that of the root is the root.
abbrev pub parent_of : FilePath → FilePath
parent_of [] = []
parent_of (name ∷ []) = []
parent_of (name ∷ other ∷ path) = name ∷ parent_of (other ∷ path)

-- The root itself is always there.
abbrev pub has_parent : FilePath → Tree → Bool
has_parent path files =
    let parent = parent_of path in (length parent == 0) || is_directory_node (lookup parent files)

abbrev rename_with : FilePath → FilePath → Fault → Disk (Unit {0})
rename_with source target works w =
    if is_empty (below source w.files)
      || is_under source target
      || not (is_empty (below target w.files))
      || not (has_parent target w.files)
    then (err os_error, w)
    else (ok tt, record w { files = moved source target w.files })
rename_with source target (fails left) w = (err os_error, w)

-- `source.rename(target)`: the source must be there, and so must the directory that the target is in;
-- the target may neither be there nor lie in the source.
unfoldable pub rename : FilePath → FilePath → Disk (Unit {0})
rename source target = next_fault >>= rename_with source target

abbrev mkdir_with : FilePath → Option Node → Fault → Disk (Unit {0})
mkdir_with path (some directory) fault w = (ok tt, w)
mkdir_with path (some node) fault w = (err os_error, w)
mkdir_with path none works w = (ok tt, record w { files = (path, directory) ∷ w.files })
mkdir_with path none (fails left) w = (err os_error, w)

abbrev make_directory : FilePath → Disk (Unit {0})
make_directory path = do node ← node_at path; fault ← next_fault; mkdir_with path node fault

-- The directories of a path below `root`, from the top.
abbrev make_directories : FilePath → List Text → Disk (Unit {0})
make_directories root [] = pure tt
make_directories root (name ∷ names) = do
  make_directory (root ++ name ∷ [])
  make_directories (root ++ name ∷ []) names

-- `path.mkdir(parents=True, exist_ok=True)`
unfoldable pub mkdir_parents : FilePath → Disk (Unit {0})
mkdir_parents path = make_directories [] path

-- The relative paths of the files and links below `root`.
abbrev pub files_below : FilePath → Tree → List RelativePath
files_below root [] = []
files_below root ((path, directory) ∷ tree) = files_below root tree
files_below root ((path, node) ∷ tree) =
    let rest = files_below root tree in
    if is_under root path then drop (length root) path ∷ rest else rest

unfoldable pub found_files : FilePath → Disk (List RelativePath)
found_files root = gets (λ w. files_below root w.files)
