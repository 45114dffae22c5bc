-- ===== src/Command/Help.antt =====
-- Help texts: `print_command_list`, `print_root_command_list` and `print_help_for` of
-- shell/src/sh_command.c.
use portable_c_shell.Prelude.{
  ℕ, Option, none, some, List, [], ◌∷◌, ◌++◌, ◌==◌, if◌then◌else◌, Bytes, text, decimal, padded,
}
use portable_c_shell.State.{
  Cmd, CmdInfo, Table, Cmds, nil, cons, info, subcommands, entries, has_children, Roots, flat, sets,
  Shell, args_any,
}
use portable_c_shell.Output.{emit, emit_formatted}

-- The text behind a pointer, or "" for null.
abbrev pub or_empty : Option Bytes → Bytes
or_empty none = []
or_empty (some t) = t

abbrev pub newline : Bytes
newline = text "\r\n"

abbrev pub builtin_list : Bytes
builtin_list =
    text "Built-ins:\r\n  help           Show help\r\n"
    ++ (text "  history        Show command history\r\n"
        ++ text "  echo           Echo controls\r\n  clear          Clear terminal\r\n")

module _ {W : Type 0} where
  unfoldable pub print_entry : Shell W → CmdInfo → Shell W
  print_entry s i =
      if i.hidden
      then s
      else emit_formatted s
          (text "  " ++ (padded (or_empty i.name) ++ (text " " ++ (or_empty i.help ++ newline))))

  unfoldable pub print_command_list : Shell W → Cmds → Shell W
  print_command_list s nil = s
  print_command_list s (cons c cs) = print_command_list (print_entry s (info c)) cs

  unfoldable pub print_sets : Shell W → List Table → Shell W
  print_sets s [] = s
  print_sets s (t ∷ ts) = print_sets (print_command_list s (entries t)) ts

  unfoldable pub print_roots : Shell W → Roots → Shell W
  print_roots s (flat t) = print_command_list s (entries t)
  print_roots s (sets ts) = print_sets s ts

  -- `print_help_for` with a null command.
  unfoldable pub print_root_help : Shell W → Shell W
  print_root_help s =
      let s' = print_roots (emit s (text "Commands:\r\n")) s.roots in
      if s.cfg.builtins_enabled then emit s' builtin_list else s'

  -- `usage: PATH USAGE`, if there is a usage text.
  unfoldable pub print_usage : Shell W → Bytes → Option Bytes → Shell W
  print_usage s path none = s
  print_usage s path (some []) = s
  print_usage s path (some (b ∷ usage)) =
      emit_formatted s (text "usage: " ++ (path ++ (32 ∷ ((b ∷ usage) ++ newline))))

  unfoldable pub print_help_line : Shell W → Option Bytes → Shell W
  print_help_line s none = s
  print_help_line s (some []) = s
  print_help_line s (some (b ∷ help)) = emit_formatted s ((b ∷ help) ++ newline)

  unfoldable pub print_arity : Shell W → CmdInfo → Option ℕ → Shell W
  print_arity s i none = s
  print_arity s i (some h) =
      if i.max_args == args_any
      then emit_formatted s
          (text "args: min=" ++ (decimal i.min_args ++ text ", max=any (including command)\r\n"))
      else emit_formatted s (
          text "args: min="
          ++ (decimal i.min_args
              ++ (text ", max=" ++ (decimal i.max_args ++ text " (including command)\r\n"))))

  unfoldable pub print_children : Shell W → Table → Shell W
  print_children s t =
      if has_children t
      then print_command_list (emit s (text "Subcommands:\r\n")) (entries t)
      else s

  -- `print_help_for` with a command.
  unfoldable pub print_help : Shell W → Cmd → Bytes → Shell W
  print_help s c path =
      let s₁ = emit_formatted s (path ++ newline) in
      let s₂ = print_usage s₁ path (info c).usage in
      let s₃ = print_help_line s₂ (info c).help in
      let s₄ = print_arity s₃ (info c) (info c).handler in print_children s₄ (subcommands c)
