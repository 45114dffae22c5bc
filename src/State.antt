-- ===== src/State.antt =====
-- The data of the shell: the command descriptors of shell/include/sh_command.h, the limits of
-- shell/include/sh_config.h, and `sh_config_t` and `sh_t` of shell/include/sh_shell.h. A pointer
-- that may be null is an `Option`; a number that stands for a handler, a completion provider or a
-- user context is the key by which `Env` finds it. `W` is the state of the output backend.
use portable_c_shell.Prelude.{ℕ, suc, ◌-◌, ◌^◌, Bool, true, false, Option, List, Bytes}
use portable_c_shell.Status.{Status}
use portable_c_shell.Transport.{Transport}
use portable_c_shell.Ansi.{Decoder}

-- SH_MAX_LINE_LEN, SH_MAX_ARGC, SH_MAX_CMD_DEPTH
abbrev pub max_line_len : ℕ
max_line_len = 256

abbrev pub max_argc : ℕ
max_argc = 32

abbrev pub max_cmd_depth : ℕ
max_cmd_depth = 8

-- SH_COMPLETION_MAX_MATCHES, SH_COMPLETION_PROVIDER_MAX_ITEMS
abbrev pub completion_max_matches : ℕ
completion_max_matches = 32

abbrev pub completion_provider_max_items : ℕ
completion_provider_max_items = 256

-- SH_ARGS_ANY, which is `(size_t)-1`
abbrev pub args_any : ℕ
args_any = 2 ^ 64 - 1

-- `sh_cmd_t` without its child table; the three flags are the bits of `flags`.
pub record CmdInfo : Type 0 where
  pub name : Option Bytes
  pub usage : Option Bytes
  pub help : Option Bytes
  pub handler : Option ℕ
  pub sensitive : Bool
  pub hidden : Bool
  pub no_history : Bool
  pub min_args : ℕ
  pub max_args : ℕ
  pub user_ctx : Option ℕ
  pub completion : Option ℕ

-- A descriptor with `subcommands` and `subcommand_count`: a null pointer beside a count, or an
-- array with as many entries as the count says.
mutual
  pub data Cmd : Type 0 where
    cmd : CmdInfo → Table → Cmd

  pub data Table : Type 0 where
    null : ℕ → Table
    table : Cmds → Table

  pub data Cmds : Type 0 where
    nil : Cmds
    cons : Cmd → Cmds → Cmds

abbrev pub info : Cmd → CmdInfo
info (cmd i t) = i

abbrev pub subcommands : Cmd → Table
subcommands (cmd i t) = t

abbrev pub length_cmds : Cmds → ℕ
length_cmds nil = 0
length_cmds (cons c cs) = suc (length_cmds cs)

abbrev pub count : Table → ℕ
count (null n) = n
count (table cs) = length_cmds cs

-- The entries that a loop over the table reads. (Past a null pointer there are none.)
abbrev pub entries : Table → Cmds
entries (null n) = nil
entries (table cs) = cs

-- `subcommands && subcommand_count`
abbrev pub has_children : Table → Bool
has_children (table (cons c cs)) = true
has_children _ = false

-- `commands`/`command_count`, or `command_sets`/`command_set_count` if `command_sets` is not null.
pub data Roots : Type 0 where
  flat : Table → Roots
  sets : List Table → Roots

-- `sh_config_t`; `mask_ctx` and `write_ctx` are inside the callbacks.
pub record Config (W : Type 0) : Type 0 where
  pub prompt : Option Bytes
  pub line_max : ℕ
  pub argc_max : ℕ
  pub history_depth : ℕ
  pub echo_enabled : Bool
  pub ansi_enabled : Bool
  pub builtins_enabled : Bool
  pub secure_clear_enabled : Bool
  pub write : Option (W → Bytes → W)
  pub transport : Option (Transport W)
  pub transport_write_attempts : ℕ
  pub user_ctx : Option ℕ
  pub should_mask_arg : Option (Bytes → ℕ → Bytes → Bool)

-- The editable line: `line`, `line_capacity`, `line_len` and `cursor`.
pub record Line : Type 0 where
  pub buffer : Bytes
  pub capacity : ℕ
  pub len : ℕ
  pub cursor : ℕ

-- The history ring: `history_storage` as its slots of `history_slot_size` bytes each,
-- `history_depth`, `history_count` and `history_start`.
pub record History : Type 0 where
  pub storage : Option (List Bytes)
  pub depth : ℕ
  pub slot_size : ℕ
  pub entry_count : ℕ
  pub start : ℕ

-- `history_view`, an `int`: -1, or the index of the entry that is shown.
pub data View : Type 0 where
  draft_view : View
  entry_view : ℕ → View

-- `sh_t`. The pointer array `argv` is dead between two calls, so only its capacity is kept.
-- `world` is the state of the output backend.
pub record Shell (W : Type 0) : Type 0 where
  pub cfg : Config W
  pub roots : Roots
  pub line : Line
  pub argv_capacity : ℕ
  pub history : History
  pub history_view : View
  pub draft : Option Bytes
  pub echo_enabled : Bool
  pub started : Bool
  pub ansi : Decoder
  pub last_input_was_cr : Bool
  pub world : W

-- The application's callbacks, by key: a handler may change the shell that it is given, and a
-- completion provider lists candidates (`none` is its null result).
pub record Env (W : Type 0) : Type 0 where
  pub handler : ℕ → Shell W → List Bytes → Option ℕ → Shell W × Status
  pub completion : ℕ → Shell W → ℕ → ℕ → Option ℕ → Option Bytes
