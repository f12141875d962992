-- ===== src/Inspect.antt =====
-- tools/inspect_runtime_state.py: `ProcessReader`, which reads the memory of a process. The functions
-- of kernel32 are an argument of the model.
pub mod Sequence
pub mod Decoding
pub mod Objects
pub mod Localization
pub mod Opening
pub mod Strings
mod Runs
use army.Common.{
  ℕ, zero, suc, ◌+◌, ◌-◌, ◌*◌, ◌%◌, ◌^◌, Bool, true, false, not, ◌||◌, Option, none, some, List, [],
  ◌∷◌, length, if◌then◌else◌, ltb, ◌==◌,
}
use army.Common.Int.{ℤ, pos, negsuc, within}
use army.Common.Equality.{◌=?◌, list_eq, nat_eq}
use army.Exec.{Error, Result, ok, err, read_error, bind_result, Exec, lift}
use army.Inspect.Sequence.{◌>>=◌, ◌>>◌, check}
use army.Inspect.Decoding.{utf8_replacing, utf16_replacing, before_zero}
use army.Redirect.Paths.{Text, FilePath, is_under}

-- What the functions of kernel32 give for one process: the handle, the path of its executable, its
-- modules with their bases, and memory at a 64-bit address, as many bytes as could be read. None is a
-- function that fails.
pub record Windows : Type 0 where
  pub open_process : Option ℕ
  pub image_name : Option FilePath
  pub modules : Option (List (Text × ℕ))
  pub memory : ℕ → ℕ → Option (List ℕ)
  pub casefold : Text → Text

abbrev pub some_or_error {ℓ} : {A : Type ℓ} → Option A → Result A
some_or_error none = err read_error
some_or_error (some a) = ok a

-- `executable_path`
unfoldable pub executable_path : Windows → Result FilePath
executable_path w = some_or_error w.image_name

-- The handles that are open.
abbrev pub Handles : Type 0
Handles = List ℕ

abbrev pub without_handle : ℕ → Handles → Handles
without_handle handle [] = []
without_handle handle (other ∷ handles) =
    if handle == other then handles else other ∷ without_handle handle handles

-- `close`
unfoldable pub close : ℕ → Handles → Handles
close handle handles = without_handle handle handles

abbrev pub checked_root : FilePath → FilePath → Result (Unit {0})
checked_root allowed_root executable = check (not (is_under allowed_root executable)) read_error

abbrev pub close_on_error : ℕ → Result (Unit {0}) → Exec Handles ℕ
close_on_error handle (ok x) handles = (ok handle, handles)
close_on_error handle (err e) handles = (err e, close handle handles)

abbrev pub opened : Windows → FilePath → Option ℕ → Exec Handles ℕ
opened w allowed_root none handles = (err read_error, handles)
opened w allowed_root (some handle) handles =
    close_on_error handle (bind_result (executable_path w) (checked_root allowed_root))
      (handle ∷ handles)

-- `ProcessReader(pid, allowed_root)`, with the handles that are open: the handle is closed when the
-- executable is refused.
unfoldable pub process_reader : Windows → FilePath → Exec Handles ℕ
process_reader w allowed_root = opened w allowed_root w.open_process

abbrev base_or_error : ℕ → Result ℕ
base_or_error zero = err read_error
base_or_error (suc base) = ok (suc base)

abbrev find_module : (Text → Text) → Text → List (Text × ℕ) → Result ℕ
find_module casefold name [] = err read_error
find_module casefold name ((other, base) ∷ modules) =
    let rest = find_module casefold name modules in
    if casefold other =? casefold name then base_or_error base else rest

-- `module_base`; the loop ends with the first module of the name.
unfoldable pub module_base : Windows → Text → Result ℕ
module_base w name = bind_result (some_or_error w.modules) (find_module w.casefold name)

abbrev exact : ℕ → List ℕ → Result (List ℕ)
exact size bytes = if length bytes == size then ok bytes else err read_error

-- `read`; `c_void_p` keeps 64 bits of the address.
unfoldable pub read : Windows → ℕ → ℕ → Result (List ℕ)
read w address size = bind_result (some_or_error (w.memory (address % 2 ^ 64) size)) (exact size)

-- `int.from_bytes(bytes, "little")`
unfoldable pub from_little : List ℕ → ℕ
from_little [] = 0
from_little (b ∷ bytes) = b + 256 * from_little bytes

-- An unsigned number of `bits` bits as a signed one.
unfoldable pub signed : ℕ → ℕ → ℤ
signed bits n = if ltb n (2 ^ (bits - 1)) then pos n else negsuc (2 ^ bits - 1 - n)

-- `struct.unpack("<I", read(address, 4))[0]`
unfoldable pub read_u32 : Windows → ℕ → Result ℕ
read_u32 w address = bind_result (read w address 4) (λ bytes. ok (from_little bytes))

-- `struct.unpack("<i", read(address, 4))[0]`
unfoldable pub read_i32 : Windows → ℕ → Result ℤ
read_i32 w address = bind_result (read_u32 w address) (λ n. ok (signed 32 n))

-- `pointer`
unfoldable pub pointer : Windows → ℕ → Result ℕ
pointer w address = bind_result (read w address 8) (λ bytes. ok (from_little bytes))

-- `c_string`
unfoldable pub c_string : Windows → ℕ → ℕ → Result Text
c_string w zero limit = ok []
c_string w (suc n) limit =
    bind_result (read w (suc n) limit) (λ bytes. ok (utf8_replacing (before_zero bytes)))

abbrev string_behind : Windows → ℕ → ℕ → ℤ → Result Text
string_behind w address limit (negsuc n) = err read_error
string_behind w address limit (pos units) =
    if ltb limit units
    then err read_error
    else bind_result (read w (address + 0x14) (units * 2)) (λ bytes. ok (utf16_replacing bytes))

-- `managed_string`
unfoldable pub managed_string : Windows → ℕ → ℕ → Result Text
managed_string w zero limit = ok []
managed_string w (suc n) limit =
    bind_result (read_i32 w (suc n + 0x10)) (string_behind w (suc n) limit)
