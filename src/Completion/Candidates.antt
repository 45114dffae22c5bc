-- ===== src/Completion/Candidates.antt =====
-- The levels of shell/src/sh_completion.c and their candidates: `find_exact_level`, `level_limit`,
-- `level_candidate`, and the walk of `sh_complete_line_internal` down the command tree.
use portable_c_shell.Prelude.{
  ℕ, zero, suc, ◌+◌, ◌-◌, false, Option, none, some, List, [], ◌∷◌, length, ltb, if◌then◌else◌,
  Bytes, text,
}
use portable_c_shell.State.{
  Cmd, cmd, CmdInfo, Table, null, table, Cmds, nil, cons, info, length_cmds, entries, count, Roots,
  flat, sets, Shell, Env, args_any, completion_provider_max_items,
}
use portable_c_shell.Command.Lookup.{find_child, find_in_sets}
use portable_c_shell.Command.Dispatch.{context}

-- SH_CMD(name, usage, help, NULL)
abbrev pub plain_info : Bytes → Bytes → Bytes → CmdInfo
plain_info name usage help = record {
  name = some name;
  usage = some usage;
  help = some help;
  handler = none;
  sensitive = false;
  hidden = false;
  no_history = false;
  min_args = 1;
  max_args = args_any;
  user_ctx = none;
  completion = none;
}

abbrev leaf : Bytes → Bytes → Cmd
leaf name help = cmd (plain_info name [] help) (null 0)

abbrev parent : Bytes → Bytes → Bytes → Cmds → Cmd
parent name usage help children =
    cmd (record (plain_info name usage help) { max_args = 1 }) (table children)

abbrev pub history_children : Cmds
history_children =
    cons (leaf (text "clear") (text "Clear command history"))
      (cons (leaf (text "status") (text "Show history usage")) nil)

abbrev pub echo_children : Cmds
echo_children = cons (leaf (text "off") (text "Disable local echo")) (
    cons (leaf (text "on") (text "Enable local echo"))
      (cons (leaf (text "status") (text "Show echo state")) nil))

abbrev pub builtin_commands : Cmds
builtin_commands = cons (leaf (text "clear") (text "Clear terminal")) (
    cons (cmd (plain_info (text "help") (text "[command]") (text "Show help")) (null 0)) (
      cons
        (parent (text "history") (text "[clear|status]") (text "Show command history")
          history_children)
        (cons
          (parent (text "echo") (text "on|off|status") (text "Control local echo") echo_children)
          nil)))

-- `sh_completion_level_t`: what `primary` lists, or the registered sets; `secondary`; or the
-- provider's command with the index of the argument.
pub data Level : Type 0 where
  listed : Cmds → Cmds → Level
  registered : List Table → Cmds → Level
  provided : Cmd → ℕ → ℕ → Level

abbrev pub or_else : Option Cmd → Option Cmd → Option Cmd
or_else none later = later
or_else (some c) later = some c

-- `find_exact_level`
unfoldable pub find_exact_level : Level → Bytes → Option Cmd
find_exact_level (listed primary secondary) name =
    or_else (find_child primary name) (find_child secondary name)
find_exact_level (registered ts secondary) name =
    or_else (find_in_sets ts name) (find_child secondary name)
find_exact_level (provided c key index) name = none

abbrev pub total_count : List Table → ℕ
total_count [] = 0
total_count (t ∷ ts) = count t + total_count ts

-- `level_limit`
unfoldable pub level_limit : Level → ℕ
level_limit (listed primary secondary) = length_cmds primary + length_cmds secondary
level_limit (registered ts secondary) = total_count ts + length_cmds secondary
level_limit (provided c key index) = completion_provider_max_items

-- What `level_candidate` answers: there is no such candidate, or there is one, whose name is null
-- if the command is hidden.
pub data Candidate : Type 0 where
  absent : Candidate
  present : Option Bytes → Candidate

abbrev pub visible_name : CmdInfo → Option Bytes
visible_name i = if i.hidden then none else i.name

unfoldable pub nth : Cmds → ℕ → Candidate
nth nil index = absent
nth (cons c cs) zero = present (visible_name (info c))
nth (cons c cs) (suc index) = nth cs index

-- The candidate of the first table, or of what follows past its end.
abbrev pub nth_or : Cmds → ℕ → (ℕ → Candidate) → Candidate
nth_or cs index later =
    if ltb index (length_cmds cs) then nth cs index else later (index - length_cmds cs)

unfoldable pub nth_in_sets : List Table → Cmds → ℕ → Candidate
nth_in_sets [] secondary index = nth secondary index
nth_in_sets (t ∷ ts) secondary index = nth_or (entries t) index (nth_in_sets ts secondary)

abbrev pub provided_candidate : Option Bytes → Candidate
provided_candidate none = absent
provided_candidate (some name) = present (some name)

module _ {W : Type 0} (env : Env W) (s : Shell W) where
  -- `level_candidate`
  unfoldable pub level_candidate : Level → ℕ → Candidate
  level_candidate (listed primary secondary) index = nth_or primary index (nth secondary)
  level_candidate (registered ts secondary) index = nth_in_sets ts secondary index
  level_candidate (provided c key argument) index =
      provided_candidate
        (env.completion key s argument index (context (info c).user_ctx s.cfg.user_ctx))

abbrev pub first_level : Roots → Cmds → Level
first_level (flat t) secondary = listed (entries t) secondary
first_level (sets ts) secondary = registered ts secondary

-- How the walk goes on below the command that a word names: it stops with nothing to complete,
-- reaches a provider, or goes down.
pub data Descent : Type 0 where
  nothing : Descent
  complete_with : ℕ → Descent
  down : Cmds → Descent

abbrev pub open_provider : CmdInfo → Option ℕ
open_provider i = if i.sensitive then none else i.completion

unfoldable pub descent : Cmd → Descent
descent (cmd i (table (cons c cs))) = down (cons c cs)
descent (cmd i t) = elim (open_provider i) [ none ↦ nothing | some key ↦ complete_with key ]

-- The loop over the words before the one under completion; `none` is the early `return SH_OK`.
unfoldable pub walk_words : Level → List Bytes → Option Level
walk_words level [] = some level
walk_words level (word ∷ words) = elim (find_exact_level level word) [
  | none ↦ none
  | some c ↦ elim (descent c) [
    | nothing ↦ none
    | complete_with key ↦ some (provided c key (suc (length words)))
    | down cs ↦ walk_words (listed cs nil) words
  ]
]
