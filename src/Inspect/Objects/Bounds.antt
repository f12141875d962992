-- ===== src/Inspect/Objects/Bounds.antt =====
-- tools/inspect_runtime_state.py and tools/inspect_runtime_vtable.py: what the readers of arrays return.
use army.Common.{
  ℕ, zero, suc, ◌+◌, ◌-◌, ◌*◌, ◌/◌, ◌≤◌, ◌<◌, ◌≡◌, refl, sym, ap, arith, none, some, List, [], ◌∷◌,
  length, if◌then◌else◌, ltb, leb, All, Bool-cases, inl, inr,
}
use mathlib.Core.Path.{subst}
use army.Common.Int.{ℤ, pos, negsuc}
use army.Exec.{Result, ok, err, ok-injective}
use army.Redirect.Manifest.Valid.{bind_result-ok}
use army.Inspect.Sequence.{◌>>=◌}
use army.Inspect.{Windows, pointer, read_i32}
use army.Inspect.Objects.{
  Control, controls, read_control, read_controls, counted, in_array, screen_controls, MethodEntry,
  method_entry, read_methods, inspect_vtable,
}

>>=-ok :
    {A B : Type 0} (r : Result A) (f : A → Result B) (b : B)
    → (r >>= f) ≡ ok b
    → (a : A) × (r ≡ ok a) × (f a ≡ ok b)
>>=-ok (ok a) f b h = (a, refl, h)
>>=-ok (err e) f b h = absurd (cc h)

length-read_controls :
    (w : Windows) (array index left : ℕ) (found : List Control)
    → read_controls w array index left ≡ ok found
    → length found ≡ left
unfolding read_controls
length-read_controls w array index zero found h = ap length (sym (ok-injective [] found h))
length-read_controls w array index (suc left) found h =
    let (control, e, h1) =
      >>=-ok (read_control w array index)
        (λ control. read_controls w array (suc index) left >>= λ rest. ok (control ∷ rest)) found
        h in
    let (rest, e', h2) =
      >>=-ok (read_controls w array (suc index) left) (λ rest. ok (control ∷ rest)) found h1 in
    let same : control ∷ rest ≡ found = ok-injective _ found h2 in
    rw (sym same) (ap suc (length-read_controls w array (suc index) left rest e'))

counted-controls :
    (w : Windows) (array limit : ℕ) (count : ℤ) (found : List Control)
    → counted w array limit count ≡ ok (controls found)
    → length found ≤ limit
counted-controls w array limit (negsuc n) found h = absurd (cc h)
counted-controls w array limit (pos count) found h = elim (Bool-cases (ltb limit count)) [
  | inl above ↦ absurd (cc (rw above at h))
  | inr within ↦
      let (read, e, h') =
        bind_result-ok (read_controls w array 0 count) (λ found. ok (controls found))
          (controls found) (rw within at h) in
      let same : read ≡ found = controls-injective read found (ok-injective _ _ h') in
      let size : length found ≡ count =
        rw (sym same) (length-read_controls w array 0 count read e) in
      ground (arith, size)
]
  where
    controls-injective : (a b : List Control) → controls a ≡ controls b → a ≡ b
    controls-injective a b h = cc h

in_array-controls :
    (w : Windows) (limit array : ℕ) (found : List Control)
    → in_array w limit array ≡ ok (controls found)
    → length found ≤ limit
in_array-controls w limit zero found h = let same : [] ≡ found = cc h in rw (sym same) (omega arith)
in_array-controls w limit (suc n) found h =
    let (count, e, h') =
      bind_result-ok (read_i32 w (suc n + 0x18)) (counted w (suc n) limit) (controls found) h in
    counted-controls w (suc n) limit count found h'

-- Whatever the memory holds, no more controls are read than the limit.
pub screen_controls-limit :
    (w : Windows) (screen limit : ℕ) (found : List Control)
    → screen_controls w screen limit ≡ ok (controls found)
    → length found ≤ limit
unfolding screen_controls
screen_controls-limit w screen limit found h =
    let (array, e, h') =
      bind_result-ok (pointer w (screen + 0x30)) (in_array w limit) (controls found) h in
    in_array-controls w limit array found h'

-- An entry of the table between two offsets, with a method, and its place in the module.
pub record IsMethodEntry (module_base low high : ℕ) (entry : MethodEntry) : Type 0 where
  pub from : low ≤ entry.slot_offset
  pub below : entry.slot_offset < high
  pub method : 0 < entry.method
  pub rva : (n : ℕ) → entry.rva ≡ some n → module_base + n ≡ entry.method

place :
    (module_base n m : ℕ)
    → (if leb module_base (suc n) then some (suc n - module_base) else none) ≡ some m
    → module_base + m ≡ suc n
place module_base n m found = elim (Bool-cases (leb module_base (suc n))) [
  | inl inside ↦
      let here : suc n - module_base ≡ m =
        some-injective (suc n - module_base) m (rw inside at found) in
      ground arith
  | inr outside ↦ absurd (cc (rw outside at found))
]
  where
    some-injective : (a b : ℕ) → some a ≡ some b → a ≡ b
    some-injective a b h = cc h

module _ (w : Windows) (module_base klass high : ℕ) where
  read_methods-entries :
      (low offset left : ℕ) (entries : List MethodEntry)
      → low ≤ offset
      → ((k : ℕ) → k < left → offset + 16 * k < high)
      → read_methods w module_base klass offset left ≡ ok entries
      → All (IsMethodEntry module_base low high) entries
  unfolding read_methods
  read_methods-entries low offset zero entries from bound h =
      subst (All (IsMethodEntry module_base low high)) (ok-injective [] entries h) tt
  read_methods-entries low offset (suc left) entries from bound h =
      let (method, e, h1) =
        >>=-ok (pointer w (klass + offset))
          (λ method. read_methods w module_base klass (offset + 0x10) left >>= λ rest.
            ok (method_entry module_base offset method rest))
          entries h in
      let (rest, e', h2) =
        >>=-ok (read_methods w module_base klass (offset + 0x10) left)
          (λ rest. ok (method_entry module_base offset method rest)) entries h1 in
      subst (All (IsMethodEntry module_base low high)) (ok-injective _ entries h2) (
        with_method method rest (
          read_methods-entries low (offset + 0x10) left rest (omega arith)
            (λ k small. omega (arith, bound (suc k) (omega arith))) e'))
    where
      with_method :
          (method : ℕ) (rest : List MethodEntry)
          → All (IsMethodEntry module_base low high) rest
          → All (IsMethodEntry module_base low high) (method_entry module_base offset method rest)
      with_method zero rest hr = hr
      with_method (suc n) rest hr = (
        record {
          from = from;
          below = omega (arith, bound 0 (omega arith));
          method = omega arith;
          rva = λ m found. place module_base n m found;
        },
        hr,
      )

-- Whatever the memory holds, every entry that is read lies at an offset of the range, has a method, and
-- its place, where it has one, is that of the method behind the base of the module.
pub inspect_vtable-entries :
    (w : Windows) (module_base object low high : ℕ) (entries : List MethodEntry)
    → inspect_vtable w module_base object low high ≡ ok entries
    → All (IsMethodEntry module_base low high) entries
unfolding inspect_vtable
inspect_vtable-entries w module_base object low high entries h =
    let (klass, e, h') =
      >>=-ok (pointer w object)
        (λ klass. read_methods w module_base klass low ((high + 0xf - low) / 0x10)) entries h in
    read_methods-entries w module_base klass high low low ((high + 0xf - low) / 0x10) entries
      (omega arith) (λ k small. omega arith) h'
