-- ===== src/Config/Runs.antt =====
-- A configuration with the numbers of the defaults and an experimental revision.
use army.Common.{◌≡◌, refl, arith, true, some, [], ◌∷◌}
use army.Common.Int.{pos, negsuc}
use army.Exec.{ok, err, value_error}
use army.App.{Client, new_client, serve, data_read, timed_out}
use army.App.Valid.{Ends}
use army.App.Valid.Runs.{AreBytes}
use army.Config.{ServerConfig, validate_int, validate_revision, validate_ints}
use army.Config.Valid.{configured-Ends}

abbrev defaults : ServerConfig
defaults = record {
  port = pos 19150;
  max_payload_bytes = pos 0xffff;
  read_chunk_size = pos 4096;
  backlog = pos 16;
  experimental_splash_revision = some (negsuc 127);
  experimental_area_push = true;
}

bad_port : validate_ints (record defaults { port = pos 65536 }) ≡ err value_error
unfolding validate_ints
bad_port = refl

configured-Ends_example :
    (c : Client) × (new_client (pos 0xffff) (some (negsuc 127)) true ≡ ok c)
    × Ends (serve (data_read (0xe5 ∷ []) ∷ timed_out ∷ []) c)
unfolding validate_ints validate_int validate_revision AreBytes
configured-Ends_example =
    configured-Ends defaults (data_read (0xe5 ∷ []) ∷ timed_out ∷ []) refl
      ((omega arith, tt), (tt, tt))
