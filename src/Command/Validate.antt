-- ===== src/Command/Validate.antt =====
-- Registration: `validate_command_level`, `sh_register_commands` and `sh_register_command_sets`
-- of shell/src/sh_command.c.
pub mod Find
use portable_c_shell.Prelude.{
  ℕ, zero, suc, ◌+◌, Bool, true, false, not, ◌&&◌, ◌||◌, Option, none, some, List, [], ◌∷◌, ltb,
  ◌==◌, if◌then◌else◌, Bytes, text, is_space, equal,
}
use portable_c_shell.Status.{Status, ok, err_invalid_arg, err_invalid_config, is_ok}
use portable_c_shell.State.{
  Cmd, cmd, CmdInfo, Table, null, table, Cmds, nil, cons, info, count, entries, Roots, flat, sets,
  Shell, args_any, max_cmd_depth,
}
use portable_c_shell.Command.Lookup.{is_named}

-- The loop of `is_valid_command_name`.
abbrev pub is_token : Bytes → Bool
is_token [] = true
is_token (b ∷ name) = not (is_space b || ltb b 33 || b == 127) && is_token name

abbrev pub is_valid_command_name : Option Bytes → Bool
is_valid_command_name none = false
is_valid_command_name (some []) = false
is_valid_command_name (some (b ∷ name)) = is_token (b ∷ name)

unfoldable pub is_reserved_root_name : Option Bytes → Bool
is_reserved_root_name none = false
is_reserved_root_name (some name) =
    equal name (text "clear")
    || equal name (text "echo")
    || equal name (text "help")
    || equal name (text "history")

-- `commands[j].name && strcmp(name, commands[j].name) == 0` for some later `j`.
unfoldable pub is_repeated : Option Bytes → Cmds → Bool
is_repeated name nil = false
is_repeated none (cons c cs) = false
is_repeated (some name) (cons c cs) = is_named (info c).name name || is_repeated (some name) cs

-- A null pointer beside a count, or an array without entries.
abbrev pub is_malformed : Table → Bool
is_malformed (null zero) = false
is_malformed (null (suc n)) = true
is_malformed (table nil) = true
is_malformed (table (cons c cs)) = false

abbrev pub has_bad_arity : CmdInfo → Option ℕ → Bool
has_bad_arity i none = false
has_bad_arity i (some h) =
    i.min_args == 0 || (not (i.max_args == args_any) && ltb i.max_args i.min_args)

-- The first condition of the loop of `validate_command_level`.
abbrev pub is_bad_descriptor : CmdInfo → Table → Bool → Bool → Bool
is_bad_descriptor i t root builtins =
    not (is_valid_command_name i.name)
    || (root && (builtins && is_reserved_root_name i.name))
    || is_malformed t
    || has_bad_arity i i.handler

unfoldable mutual
  pub validate_level : Table → ℕ → Bool → Bool → Status
  validate_level (null n) depth root builtins =
      if not (n == 0) || ltb max_cmd_depth depth then err_invalid_config else ok
  validate_level (table cs) depth root builtins =
      let entries_status = validate_entries cs depth root builtins in
      if ltb max_cmd_depth depth then err_invalid_config else entries_status

  pub validate_entries : Cmds → ℕ → Bool → Bool → Status
  validate_entries nil depth root builtins = ok
  validate_entries (cons c cs) depth root builtins =
      let later = validate_entries cs depth root builtins in
      let here = validate_entry c cs depth root builtins in if is_ok here then later else here

  pub validate_entry : Cmd → Cmds → ℕ → Bool → Bool → Status
  validate_entry (cmd i t) later depth root builtins =
      let below = validate_level t (suc depth) false builtins in
      if is_bad_descriptor i t root builtins
      then err_invalid_config
      else if is_repeated i.name later
      then err_invalid_config
      else if count t == 0
      then ok
      else below

-- `sets` and `set_count`: a null pointer beside a count, or an array of sets.
pub data SetTable : Type 0 where
  null_sets : ℕ → SetTable
  set_table : List Table → SetTable

-- The first loop of `sh_register_command_sets`.
unfoldable pub validate_sets : List Table → Bool → Status
validate_sets [] builtins = ok
validate_sets (t ∷ ts) builtins =
    let later = validate_sets ts builtins in
    let here = validate_level t 1 true builtins in if is_ok here then later else here

-- `strcmp` of a root name of one set and one of another.
abbrev pub share_name : Option Bytes → Option Bytes → Bool
share_name none other = false
share_name (some name) other = is_named other name

unfoldable pub occurs : Option Bytes → Cmds → Bool
occurs name nil = false
occurs name (cons c cs) = share_name name (info c).name || occurs name cs

unfoldable pub overlap : Cmds → Cmds → Bool
overlap nil other = false
overlap (cons c cs) other = occurs (info c).name other || overlap cs other

unfoldable pub overlaps_later : Table → List Table → Bool
overlaps_later t [] = false
overlaps_later t (u ∷ us) = overlap (entries t) (entries u) || overlaps_later t us

-- The second loop: whether two sets share a root name.
unfoldable pub sets_clash : List Table → Bool
sets_clash [] = false
sets_clash (t ∷ ts) = overlaps_later t ts || sets_clash ts

module _ {W : Type 0} where
  -- `sh_register_commands`
  unfoldable pub register_commands : Shell W → Table → Shell W × Status
  register_commands s (null (suc n)) = (s, err_invalid_arg)
  register_commands s t =
      let status = validate_level t 1 true s.cfg.builtins_enabled in
      if is_ok status then (record s { roots = flat t }, ok) else (s, status)

  -- `sh_register_command_sets`
  unfoldable pub register_command_sets : Shell W → SetTable → Shell W × Status
  register_command_sets s (null_sets zero) = (record s { roots = flat (null 0) }, ok)
  register_command_sets s (null_sets (suc n)) = (s, err_invalid_arg)
  register_command_sets s (set_table ts) =
      let status = validate_sets ts s.cfg.builtins_enabled in
      if not (is_ok status)
      then (s, status)
      else if sets_clash ts
      then (s, err_invalid_config)
      else (record s { roots = sets ts }, ok)
