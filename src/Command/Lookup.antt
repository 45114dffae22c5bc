-- ===== src/Command/Lookup.antt =====
-- `find_child` and `sh_resolve_command_internal` of shell/src/sh_command.c.
use portable_c_shell.Prelude.{
  ℕ, suc, Bool, false, Option, none, some, List, [], ◌∷◌, ◌++◌, take, if◌then◌else◌, Bytes, equal,
}
use portable_c_shell.State.{
  Cmd, Table, Cmds, nil, cons, info, subcommands, entries, Roots, flat, sets,
}

-- `name && strcmp(name, wanted) == 0`
abbrev pub is_named : Option Bytes → Bytes → Bool
is_named none wanted = false
is_named (some name) wanted = equal name wanted

unfoldable pub find_child : Cmds → Bytes → Option Cmd
find_child nil name = none
find_child (cons c cs) name = if is_named (info c).name name then some c else find_child cs name

-- The loop over the command sets.
unfoldable pub find_in_sets : List Table → Bytes → Option Cmd
find_in_sets [] name = none
find_in_sets (t ∷ ts) name =
    let later = find_in_sets ts name in
    elim (find_child (entries t) name) [ some c ↦ some c | none ↦ later ]

unfoldable pub find_root : Roots → Bytes → Option Cmd
find_root (flat t) name = find_child (entries t) name
find_root (sets ts) name = find_in_sets ts name

-- The command, `*consumed` and `path`.
pub record Resolved : Type 0 where
  pub command : Option Cmd
  pub consumed : ℕ
  pub path : Bytes

-- `snprintf(path + used, 128 - used, "%s%s", used ? " " : "", arg)` on a buffer of 128 bytes.
abbrev pub extend_path : Bytes → Bytes → Bytes
extend_path [] arg = take 127 arg
extend_path (b ∷ path) arg = take 127 ((b ∷ path) ++ (32 ∷ arg))

-- One more word is matched.
abbrev pub descend : Resolved → Bytes → Cmd → Resolved
descend r arg c = record {
  command = some c;
  consumed = suc r.consumed;
  path = extend_path r.path arg;
}

-- The rounds of the loop from `i = 1` on.
unfoldable pub resolve_below : Table → List Bytes → Resolved → Resolved
resolve_below level [] r = r
resolve_below level (arg ∷ args) r = elim (find_child (entries level) arg) [
  | none ↦ r
  | some c ↦ resolve_below (subcommands c) args (descend r arg c)
]

abbrev pub unresolved : Resolved
unresolved = record { command = none; consumed = 0; path = [] }

unfoldable pub resolve : Roots → List Bytes → Resolved
resolve roots [] = unresolved
resolve roots (arg ∷ args) = elim (find_root roots arg) [
  | none ↦ unresolved
  | some c ↦ resolve_below (subcommands c) args (descend unresolved arg c)
]
