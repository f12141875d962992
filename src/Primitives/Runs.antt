-- ===== src/Primitives/Runs.antt =====
-- A text written by `write_string16` and read back: "é", between other bytes.
use army.Common.{[], ◌∷◌}
use army.Primitives.{ByteWriter, write_string16}
use army.Primitives.Text.{Stored, write_string16-Stored}

abbrev started : ByteWriter
started = record { buffer = 9 ∷ [] }

write_string16-Stored_example :
    Stored (233 ∷ []) (5 ∷ []) started (write_string16 (233 ∷ []) started)
write_string16-Stored_example = write_string16-Stored (233 ∷ []) (5 ∷ []) started
