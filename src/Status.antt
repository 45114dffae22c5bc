-- ===== src/Status.antt =====
-- The status values of the shell core, `sh_status_t` of shell/include/sh_shell.h, and their
-- diagnostic strings (`sh_status_string` of shell/src/sh_tokenizer.c).
use Prim.Native.Nat.{ℕ}
use mathlib.Core.Bool.{Bool, true, false}
use package.portable_c_shell.Prelude.{◌≡◌, refl, arith, Bytes, text}

-- `other` stands for the values that a command handler defines for itself.
pub data Status : Type 0 where
  ok err_invalid_arg err_line_too_long err_too_many_args err_unterminated_quote : Status
  err_unknown_command err_ambiguous err_no_memory err_invalid_config err_transport : Status
  err_would_block err_truncated err_busy err_incomplete_command : Status
  other : ℕ → Status

abbrev pub is_ok : Status → Bool
is_ok ok = true
is_ok _ = false

unfoldable pub status_string : Status → Bytes
status_string ok = text "ok"
status_string err_invalid_arg = text "invalid argument"
status_string err_line_too_long = text "line too long"
status_string err_too_many_args = text "too many arguments"
status_string err_unterminated_quote = text "unterminated quote"
status_string err_unknown_command = text "unknown command"
status_string err_ambiguous = text "ambiguous command"
status_string err_no_memory = text "not enough memory"
status_string err_invalid_config = text "invalid configuration"
status_string err_transport = text "transport error"
status_string err_would_block = text "operation would block"
status_string err_truncated = text "result truncated"
status_string err_busy = text "busy"
status_string err_incomplete_command = text "incomplete command"
status_string (other n) = text "unknown error"

-- Only one status is a success.
pub is_ok_sound : (a : Status) → is_ok a ≡ true → a ≡ ok
is_ok_sound ok h = refl
is_ok_sound _ h = absurd (ground (arith, h))
