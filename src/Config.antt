-- ===== src/Config.antt =====
-- server/config.py: the integers and the flag of `ServerConfig`. The host, which is parsed by the
-- module `ipaddress`, and the interval, a floating-point number, do not reach the modelled code.
pub mod Valid
mod Runs
use army.Common.{Bool, Option, none, some, if◌then◌else◌}
use army.Common.Int.{ℤ, pos, negsuc, within}
use army.Exec.{Result, ok, err, value_error, bind_result}

pub record ServerConfig : Type 0 where
  pub port : ℤ
  pub max_payload_bytes : ℤ
  pub read_chunk_size : ℤ
  pub backlog : ℤ
  pub experimental_splash_revision : Option ℤ
  pub experimental_area_push : Bool

-- `_validate_int(name, value, minimum, maximum)`
unfoldable pub validate_int : ℤ → ℤ → ℤ → Result (Unit {0})
validate_int value minimum maximum = if within minimum maximum value then ok tt else err value_error

unfoldable pub validate_revision : Option ℤ → Result (Unit {0})
unfolding validate_int
validate_revision none = ok tt
validate_revision (some revision) = validate_int revision (negsuc 127) (pos 127)

-- The calls of `_validate_int` in `__post_init__`, in their order.
unfoldable pub validate_ints : ServerConfig → Result (Unit {0})
unfolding validate_int validate_revision
validate_ints c = bind_result (validate_int c.port (pos 0) (pos 0xffff)) (λ x.
    bind_result (validate_int c.max_payload_bytes (pos 0) (pos 0xffff)) (λ x.
      bind_result (validate_int c.read_chunk_size (pos 1) (pos 1048576)) (λ x.
        bind_result (validate_int c.backlog (pos 1) (pos 1024))
          (λ x. validate_revision c.experimental_splash_revision))))
