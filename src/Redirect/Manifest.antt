-- ===== src/Redirect/Manifest.antt =====
-- tools/redirect_client.py: `load_manifest`, from the bytes of the file to the entries.
pub mod Valid
use army.Common.{
  ℕ, Bool, true, false, not, ◌&&◌, ◌||◌, List, [], ◌∷◌, ◌++◌, if◌then◌else◌, leb, ◌+◌, ◌==◌,
}
use army.Common.Equality.{contains, list_eq, nat_eq, map}
use army.Exec.{
  Error, Result, ok, err, os_error, redirect_error, bind_result, Exec, pure, raise, lift, ◌>>=◌,
}
use army.Utf8.{utf8_decode}
use army.Redirect.{is_digest}
use army.Redirect.Paths.{Text, RelativePath, FilePath, PosixPath, posix_path, is_safe}
use army.Redirect.Files.{Disk, World, read_bytes}

abbrev pub Entry : Type 0
Entry = RelativePath × Text

-- A `dict` from relative paths to hashes, in the order of insertion.
abbrev pub Manifest : Type 0
Manifest = List Entry

-- `str.isspace` of a character.
unfoldable pub is_space : ℕ → Bool
is_space c =
    (leb 9 c && leb c 13)
    || (leb 28 c && leb c 32)
    || c == 0x85
    || c == 0xa0
    || c == 0x1680
    || (leb 0x2000 c && leb c 0x200a)
    || c == 0x2028
    || c == 0x2029
    || c == 0x202f
    || c == 0x205f
    || c == 0x3000

-- The characters that end a line for `str.splitlines`, "\r\n" being one end.
unfoldable pub is_line_end : ℕ → Bool
is_line_end c =
    (leb 10 c && leb c 13) || (leb 28 c && leb c 30) || c == 0x85 || c == 0x2028 || c == 0x2029

abbrev last_line : Text → List Text
last_line [] = []
last_line (c ∷ cs) = (c ∷ cs) ∷ []

-- The lines of a text, `line` being what is read of the first, behind a "\r" or not.
unfoldable pub lines_from : Bool → Text → Text → List Text
lines_from after_return line [] = last_line line
lines_from after_return line (c ∷ cs) =
    let same = lines_from false line cs in
    let next = lines_from (c == 13) [] cs in
    let longer = lines_from false (line ++ c ∷ []) cs in
    if after_return && c == 10 then same else if is_line_end c then line ∷ next else longer

-- `text.splitlines()`
unfoldable pub split_lines : Text → List Text
unfolding lines_from
split_lines text = lines_from false [] text

unfoldable pub drop_spaces : Text → Text
drop_spaces [] = []
drop_spaces (c ∷ cs) = let rest = drop_spaces cs in if is_space c then rest else c ∷ cs

-- The word in front of a text, and what is behind it.
unfoldable pub first_word : Text → Text
first_word [] = []
first_word (c ∷ cs) = let rest = first_word cs in if is_space c then [] else c ∷ rest

unfoldable pub behind_word : Text → Text
behind_word [] = []
behind_word (c ∷ cs) = let rest = behind_word cs in if is_space c then c ∷ cs else rest

-- `str.lower`, of ASCII letters; any other letter stays one that is no hexadecimal digit.
unfoldable pub lower : ℕ → ℕ
lower c = if leb 65 c && leb c 90 then c + 32 else c

abbrev pub without_star : Text → Text
without_star [] = []
without_star (c ∷ cs) = if c == 42 then cs else c ∷ cs

abbrev pub checked : PosixPath → Text → Result Entry
checked relative digest =
    if not (is_safe relative)
    then err redirect_error
    else if not (is_digest digest)
    then err redirect_error
    else ok (relative.parts, digest)

abbrev pub entry_of : Text → Text → Result Entry
entry_of digest [] = err redirect_error
entry_of digest (c ∷ cs) = checked (posix_path (without_star (c ∷ cs))) (map lower digest)

-- The entry of a line that is not blank: `line.split(maxsplit=1)`, and the checks but the last.
unfoldable pub parse_entry : Text → Result Entry
parse_entry line =
    let text = drop_spaces line in entry_of (first_word text) (drop_spaces (behind_word text))

abbrev pub keys : Manifest → List RelativePath
keys [] = []
keys (entry ∷ entries) = entry.0 ∷ keys entries

abbrev pub add_entry : Manifest → Entry → Result Manifest
add_entry entries entry =
    if contains entry.0 (keys entries) then err redirect_error else ok (entries ++ entry ∷ [])

abbrev pub is_blank : Text → Bool
is_blank [] = true
is_blank (c ∷ cs) = false

-- The loop over the lines.
unfoldable pub read_lines : List Text → Manifest → Result Manifest
read_lines [] entries = ok entries
read_lines (line ∷ lines) entries =
    let skipped = read_lines lines entries in
    let read =
      bind_result (parse_entry line)
        (λ entry. bind_result (add_entry entries entry) (λ entries. read_lines lines entries)) in
    if is_blank (drop_spaces line) then skipped else read

abbrev pub not_empty : Manifest → Result Manifest
not_empty [] = err redirect_error
not_empty (entry ∷ entries) = ok (entry ∷ entries)

unfoldable pub parse_manifest : Text → Result Manifest
parse_manifest text = bind_result (read_lines (split_lines text) []) not_empty

-- `except OSError as exc: raise RedirectError(...) from exc`
abbrev pub redirected : {A : Type 0} → Result A → Result A
redirected (ok a) = ok a
redirected (err os_error) = err redirect_error
redirected (err e) = err e

abbrev pub os_errors_redirected : {A : Type 0} → Disk A → Disk A
os_errors_redirected m w = let (r, w') = m w in (redirected r, w')

-- `load_manifest`; the UnicodeDecodeError of a file that is no UTF-8 is not caught.
unfoldable pub load_manifest : FilePath → Disk Manifest
load_manifest path = do
  text ← os_errors_redirected (read_bytes path >>= λ bytes. lift (utf8_decode bytes))
  lift (parse_manifest text)
