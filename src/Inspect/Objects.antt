-- ===== src/Inspect/Objects.antt =====
-- tools/inspect_runtime_state.py and tools/inspect_runtime_vtable.py: the objects, arrays and tables of
-- the process. Addresses are numbers; their hexadecimal form is not modelled.
pub mod Bounds
use army.Common.{
  ℕ, zero, suc, ◌+◌, ◌-◌, ◌*◌, ◌/◌, Bool, Option, none, some, List, [], ◌∷◌, if◌then◌else◌, ltb,
  leb,
}
use army.Common.Int.{ℤ, pos, negsuc}
use army.Exec.{Result, ok, err, read_error, bind_result}
use army.Redirect.Paths.{Text}
use army.Inspect.Sequence.{◌>>=◌, ◌>>◌, check}
use army.Inspect.{Windows, pointer, read_i32, c_string, managed_string}

pub record ObjectType : Type 0 where
  pub name : Text
  pub namespace : Text

-- `_object_type`
unfoldable pub object_type : Windows → ℕ → Result ObjectType
object_type w zero = ok (record { name = []; namespace = [] })
object_type w (suc n) = do
  klass ← pointer w (suc n)
  name ← pointer w (klass + 0x10)
  namespace ← pointer w (klass + 0x18)
  class ← c_string w name 256
  space ← c_string w namespace 256
  ok (record { name = class; namespace = space })

-- `_virtual_method`
unfoldable pub virtual_method : Windows → ℕ → ℕ → Result ℕ
virtual_method w zero slot_offset = ok 0
virtual_method w (suc n) slot_offset = do klass ← pointer w (suc n); pointer w (klass + slot_offset)

pub record Control : Type 0 where
  pub index : ℕ
  pub address : ℕ
  pub label : Text
  pub x : ℤ
  pub y : ℤ
  pub width : ℤ
  pub height : ℤ

-- What `_screen_controls` returns: the controls, or the one entry of an array it does not know.
pub data Controls : Type 0 where
  controls : List Control → Controls
  unconfirmed : ℕ → ℤ → Controls

unfoldable pub read_control : Windows → ℕ → ℕ → Result Control
read_control w array index = do
  control ← pointer w (array + 0x20 + index * 8)
  text ← pointer w (control + 0x18)
  label ← managed_string w text 4096
  x ← read_i32 w (control + 0x40)
  y ← read_i32 w (control + 0x44)
  width ← read_i32 w (control + 0x48)
  height ← read_i32 w (control + 0x50)
  ok (record {
    index = index;
    address = control;
    label = label;
    x = x;
    y = y;
    width = width;
    height = height;
  })

-- The loop, with the number of the controls that are left.
unfoldable pub read_controls : Windows → ℕ → ℕ → ℕ → Result (List Control)
read_controls w array index zero = ok []
read_controls w array index (suc left) = do
  control ← read_control w array index
  rest ← read_controls w array (suc index) left
  ok (control ∷ rest)

abbrev counted : Windows → ℕ → ℕ → ℤ → Result Controls
counted w array limit (negsuc n) = ok (unconfirmed array (negsuc n))
counted w array limit (pos count) =
    if ltb limit count
    then ok (unconfirmed array (pos count))
    else bind_result (read_controls w array 0 count) (λ found. ok (controls found))

abbrev in_array : Windows → ℕ → ℕ → Result Controls
in_array w limit zero = ok (controls [])
in_array w limit (suc n) = bind_result (read_i32 w (suc n + 0x18)) (counted w (suc n) limit)

-- `_screen_controls`
unfoldable pub screen_controls : Windows → ℕ → ℕ → Result Controls
screen_controls w screen limit = bind_result (pointer w (screen + 0x30)) (in_array w limit)

abbrev not_null : ℕ → Result ℕ
not_null zero = err read_error
not_null (suc n) = ok (suc n)

-- `_static_fields`; the constant is `IL2CPP_STATIC_FIELDS_OFFSET`.
unfoldable pub static_fields : Windows → ℕ → ℕ → Result ℕ
static_fields w module_base typeinfo_rva = do
  found ← pointer w (module_base + typeinfo_rva)
  typeinfo ← not_null found
  fields ← pointer w (typeinfo + 0xa0)
  not_null fields

abbrev not_negative : ℤ → Result ℕ
not_negative (pos n) = ok n
not_negative (negsuc n) = err read_error

-- `_array_length`
unfoldable pub array_length : Windows → ℕ → Result ℕ
array_length w zero = err read_error
array_length w (suc n) = bind_result (read_i32 w (suc n + 0x18)) not_negative

-- An entry of a table of methods; `rva` is empty for a method outside the module.
pub record MethodEntry : Type 0 where
  pub slot_offset : ℕ
  pub method : ℕ
  pub rva : Option ℕ

abbrev method_entry : ℕ → ℕ → ℕ → List MethodEntry → List MethodEntry
method_entry module_base offset zero rest = rest
method_entry module_base offset (suc n) rest =
    record {
      slot_offset = offset;
      method = suc n;
      rva = if leb module_base (suc n) then some (suc n - module_base) else none;
    }
    ∷ rest

-- The loop over `range(start, end, 0x10)`, with the number of the offsets that are left.
unfoldable pub read_methods : Windows → ℕ → ℕ → ℕ → ℕ → Result (List MethodEntry)
read_methods w module_base klass offset zero = ok []
read_methods w module_base klass offset (suc left) = do
  method ← pointer w (klass + offset)
  rest ← read_methods w module_base klass (offset + 0x10) left
  ok (method_entry module_base offset method rest)

-- `inspect_vtable`
unfoldable pub inspect_vtable : Windows → ℕ → ℕ → ℕ → ℕ → Result (List MethodEntry)
inspect_vtable w module_base object first_offset last_offset = do
  klass ← pointer w object
  read_methods w module_base klass first_offset ((last_offset + 0xf - first_offset) / 0x10)
