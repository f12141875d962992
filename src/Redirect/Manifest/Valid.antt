-- ===== src/Redirect/Manifest/Valid.antt =====
-- tools/redirect_client.py: the manifests that `load_manifest` returns.
use army.Common.{
  ◌<◌, ◌≡◌, refl, sym, arith, Bool, true, false, not, ◌&&◌, ◌||◌, List, [], ◌∷◌, ◌++◌, length, All,
  All-append, Bool-cases, inl, inr, if◌then◌else◌,
}
use mathlib.Core.Path.{subst}
use army.Common.Equality.{◌=?◌, contains, Eq, list_eq, nat_eq, map}
use army.Exec.{Result, ok, err, redirect_error, bind_result, check-ok, ok-injective}
use army.Redirect.{is_digest}
use army.Redirect.Plan.{IsDigest, is_digest-IsDigest}
use army.Redirect.Paths.{Text, RelativePath, PosixPath, posix_path, is_safe, parent_name}
use army.Redirect.Manifest.{
  Entry, Manifest, keys, drop_spaces, first_word, behind_word, lower, checked, entry_of,
  parse_entry, add_entry, is_blank, read_lines, not_empty, parse_manifest, split_lines,
  without_star,
}

pub bind_result-ok :
    {A B : Type 0} (r : Result A) (f : A → Result B) (b : B)
    → bind_result r f ≡ ok b
    → (a : A) × (r ≡ ok a) × (f a ≡ ok b)
bind_result-ok (ok a) f b h = (a, refl, h)
bind_result-ok (err e) f b h = absurd (cc h)

-- The path of an entry does not lead out of its directory, and its hash has the form of one.
pub record IsEntry (entry : Entry) : Type 0 where
  pub inside : contains parent_name entry.0 ≡ false
  pub digest : IsDigest entry.1

abbrev pub Distinct : List RelativePath → Type 0
Distinct [] = Unit {0}
Distinct (path ∷ paths) = (contains path paths ≡ false) × Distinct paths

pub record IsManifest (manifest : Manifest) : Type 0 where
  pub nonempty : 0 < length manifest
  pub entries : All IsEntry manifest
  pub distinct : Distinct (keys manifest)

safe_parts : (a b : Bool) → not (not a && not b) ≡ false → b ≡ false
safe_parts true b h = absurd (cc h)
safe_parts false true h = absurd (cc h)
safe_parts false false h = refl

checked-IsEntry :
    (path : PosixPath) (digest : Text) (entry : Entry)
    → checked path digest ≡ ok entry
    → IsEntry entry
unfolding is_safe
checked-IsEntry path digest entry h =
    let (safe, h1) = check-ok (not (is_safe path)) redirect_error _ entry h in
    let (hex, h2) = check-ok (not (is_digest digest)) redirect_error _ entry h1 in
    subst IsEntry (ok-injective _ entry h2) (record {
      inside = safe_parts path.absolute (contains parent_name path.parts) safe;
      digest = is_digest-IsDigest digest (ground (arith, hex));
    })

parse_entry-IsEntry : (line : Text) (entry : Entry) → parse_entry line ≡ ok entry → IsEntry entry
unfolding parse_entry
parse_entry-IsEntry line entry h =
    by_rest (first_word (drop_spaces line)) (drop_spaces (behind_word (drop_spaces line))) h
  where
    by_rest : (digest rest : Text) → entry_of digest rest ≡ ok entry → IsEntry entry
    by_rest digest [] h = absurd (cc h)
    by_rest digest (c ∷ cs) h =
        checked-IsEntry (posix_path (without_star (c ∷ cs))) (map lower digest) entry h

other_first : (a b : RelativePath) → (a =? b) ≡ false → (b =? a) ≡ false
other_first a b h = elim (Bool-cases (b =? a)) [
  | inr differ ↦ differ
  | inl same ↦
      let e : Eq RelativePath = list_eq in
      let here : b ≡ a = e.sound b a same in
      let clash : (a =? b) ≡ true = rw here (e.reflexive a) in absurd (cc (h, clash))
]

not_either : (a b : Bool) → (a || b) ≡ false → (a ≡ false) × (b ≡ false)
not_either true b h = absurd (cc h)
not_either false b h = (refl, h)

-- An entry whose path is new goes to the end.
added-Distinct :
    (entries : Manifest) (entry : Entry)
    → Distinct (keys entries)
    → contains entry.0 (keys entries) ≡ false
    → Distinct (keys (entries ++ entry ∷ []))
added-Distinct [] entry d new = (refl, tt)
added-Distinct (other ∷ entries) entry d new =
    let (differ, new') = not_either (entry.0 =? other.0) (contains entry.0 (keys entries)) new in
    (
      still_out entries d.0 (other_first entry.0 other.0 differ),
      added-Distinct entries entry d.1 new',
    )
  where
    still_out :
        (entries : Manifest)
        → contains other.0 (keys entries) ≡ false
        → (other.0 =? entry.0) ≡ false
        → contains other.0 (keys (entries ++ entry ∷ [])) ≡ false
    still_out [] out differ = rw differ refl
    still_out (x ∷ xs) out differ =
        let (front, behind) = not_either (other.0 =? x.0) (contains other.0 (keys xs)) out in
        rw front (still_out xs behind differ)

-- What holds of the entries that the loop has read.
record AreEntries (entries : Manifest) : Type 0 where
  valid : All IsEntry entries
  distinct : Distinct (keys entries)

add-AreEntries :
    (entries : Manifest) (entry : Entry) (more : Manifest)
    → AreEntries entries
    → IsEntry entry
    → add_entry entries entry ≡ ok more
    → AreEntries more
add-AreEntries entries entry more v ve h =
    let (new, h') = check-ok (contains entry.0 (keys entries)) redirect_error _ more h in
    subst AreEntries (ok-injective _ more h') (record {
      valid = All-append IsEntry entries (entry ∷ []) v.valid (ve, tt);
      distinct = added-Distinct entries entry v.distinct new;
    })

read_lines-AreEntries :
    (lines : List Text) (entries more : Manifest)
    → AreEntries entries
    → read_lines lines entries ≡ ok more
    → AreEntries more
unfolding read_lines
read_lines-AreEntries [] entries more v h = subst AreEntries (ok-injective entries more h) v
read_lines-AreEntries (line ∷ lines) entries more v h =
    by_blank (is_blank (drop_spaces line)) (read_lines-AreEntries lines) h
  where
    by_blank :
        (b : Bool)
        → ((entries more : Manifest)
            → AreEntries entries
            → read_lines lines entries ≡ ok more
            → AreEntries more)
        → (if b
            then read_lines lines entries
            else bind_result (parse_entry line) (λ entry.
              bind_result (add_entry entries entry) (λ entries. read_lines lines entries)))
          ≡ ok more
        → AreEntries more
    by_blank true again h = again entries more v h
    by_blank false again h =
        let (entry, parsed, h1) =
          bind_result-ok (parse_entry line)
            (λ entry. bind_result (add_entry entries entry) (λ entries. read_lines lines entries))
            more h in
        let (longer, added, h2) =
          bind_result-ok (add_entry entries entry) (λ entries. read_lines lines entries) more h1 in
        again longer more
          (add-AreEntries entries entry longer v (parse_entry-IsEntry line entry parsed) added) h2

not_empty-ok :
    (read manifest : Manifest)
    → not_empty read ≡ ok manifest
    → (read ≡ manifest) × (0 < length manifest)
not_empty-ok [] manifest h = absurd (cc h)
not_empty-ok (entry ∷ entries) manifest h =
    let same : entry ∷ entries ≡ manifest = ok-injective _ manifest h in
    (same, rw (sym same) (omega arith))

-- A text that is read as a manifest has an entry at least; no path of it leads out of the client's
-- directory by "..", no two paths are the same, and every hash has 64 digits, all of them from "0" to
-- "9" or "a" to "f".
pub parse_manifest-IsManifest :
    (text : Text) (manifest : Manifest) → parse_manifest text ≡ ok manifest → IsManifest manifest
unfolding parse_manifest
parse_manifest-IsManifest text manifest h =
    let (read, e, h') = bind_result-ok (read_lines (split_lines text) []) not_empty manifest h in
    let (same, nonempty) = not_empty-ok read manifest h' in
    let v : AreEntries manifest =
      subst AreEntries same (
        read_lines-AreEntries (split_lines text) [] read (record { valid = tt; distinct = tt })
          e) in
    record { nonempty = nonempty; entries = v.valid; distinct = v.distinct }
