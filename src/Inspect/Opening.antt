-- ===== src/Inspect/Opening.antt =====
-- tools/inspect_runtime_state.py: how the constructor of `ProcessReader` ends.
use army.Common.{ℕ, ◌≡◌, refl, true, Option, none, some, ◌∷◌, Bool-cases, inl, inr, ==_refl}
use army.Exec.{Result, ok, err, read_error, bind_result}
use army.Redirect.Paths.{FilePath, is_under}
use army.Inspect.{
  Windows, executable_path, Handles, close, checked_root, close_on_error, opened, some_or_error,
  process_reader,
}

-- The reader holds a new handle of a process whose executable is below the allowed root, or the
-- constructor has raised, and no handle is left open.
pub data Opened (w : Windows) (allowed_root : FilePath) (handles : Handles)
    (run : Result ℕ × Handles) : Type 0 where
  accepted :
      (handle : ℕ) (executable : FilePath)
      → w.image_name ≡ some executable
      → is_under allowed_root executable ≡ true
      → run ≡ (ok handle, handle ∷ handles)
      → Opened w allowed_root handles run
  refused : run ≡ (err read_error, handles) → Opened w allowed_root handles run

closed : (handle : ℕ) (handles : Handles) → close handle (handle ∷ handles) ≡ handles
unfolding close
closed handle handles = rw (==_refl handle) refl

module _ (w : Windows) (allowed_root : FilePath) (handles : Handles) where
  with_image :
      (handle : ℕ) (image : Option FilePath)
      → w.image_name ≡ image
      → Opened w allowed_root handles (
          close_on_error handle
            (bind_result (some_or_error image) (checked_root allowed_root))
            (handle ∷ handles))
  with_image handle none e = rw (closed handle handles) (refused refl)
  with_image handle (some executable) e = elim (Bool-cases (is_under allowed_root executable)) [
    | inl inside ↦ rw inside (accepted handle executable e inside refl)
    | inr outside ↦ rw (outside, closed handle handles) (refused refl)
  ]

  by_handle :
      (found : Option ℕ) → Opened w allowed_root handles (opened w allowed_root found handles)
  unfolding executable_path
  by_handle none = refused refl
  by_handle (some handle) = with_image handle w.image_name refl

  -- The constructor returns only for a process whose executable is below the allowed root, and then the
  -- new handle is open beside those that were; when it raises, exactly those that were are open.
  pub process_reader-Opened : Opened w allowed_root handles (process_reader w allowed_root handles)
  unfolding process_reader
  process_reader-Opened = by_handle w.open_process
