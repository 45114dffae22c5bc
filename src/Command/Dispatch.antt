-- ===== src/Command/Dispatch.antt =====
-- The built-in commands and `sh_command_dispatch_internal` of shell/src/sh_command.c.
use portable_c_shell.Prelude.{
  ℕ, zero, suc, ◌+◌, ◌-◌, Bool, true, false, not, ◌&&◌, ◌||◌, Option, none, some, List, [], ◌∷◌,
  ◌++◌, length, drop, get_or, ltb, ◌==◌, if◌then◌else◌, Bytes, text, equal, decimal,
}
use portable_c_shell.Status.{
  Status, ok, err_invalid_arg, err_unknown_command, err_incomplete_command,
}
use portable_c_shell.State.{Cmd, info, subcommands, has_children, Shell, Env, args_any}
use portable_c_shell.Output.{emit, emit_formatted}
use portable_c_shell.History
use portable_c_shell.Command.Lookup.{resolve}
use portable_c_shell.Command.Help.{or_empty, newline, print_root_help, print_usage, print_help}

-- Whether the words are a name and one given word.
abbrev pub is_option : List Bytes → Bytes → Bool
is_option (name ∷ arg ∷ []) wanted = equal arg wanted
is_option _ wanted = false

abbrev pub context : Option ℕ → Option ℕ → Option ℕ
context none shell_ctx = shell_ctx
context (some ctx) shell_ctx = some ctx

abbrev pub is_help_word : Bytes → Bool
is_help_word word = equal word (text "help") || equal word (text "--help") || equal word (text "-h")

module _ {W : Type 0} where
  -- The loop of `builtin_history`: `left` entries are still to be printed, from number `i` on.
  unfoldable pub print_entries : Shell W → ℕ → ℕ → Shell W
  print_entries s zero i = s
  print_entries s (suc left) i =
      let entry = History.get_newest s.history left in
      print_entries (emit_formatted s (decimal i ++ (text ": " ++ (or_empty entry ++ newline))))
        left (i + 1)

  unfoldable pub history_status : Shell W → Shell W
  history_status s = emit_formatted s (
      text "history: "
      ++ (decimal s.history.entry_count
          ++ (text "/" ++ (decimal s.history.depth ++ text " commands\r\n"))))

  unfoldable pub builtin_history : Shell W → List Bytes → Shell W × Status
  builtin_history s args =
      if is_option args (text "clear")
      then (emit (History.clear s) (text "history cleared\r\n"), ok)
      else if is_option args (text "status")
      then (history_status s, ok)
      else if not (length args == 1)
      then (emit (history_status s) (text "usage: history [clear|status]\r\n"), err_invalid_arg)
      else (print_entries (history_status s) s.history.entry_count 0, ok)

  unfoldable pub builtin_echo : Shell W → List Bytes → Shell W × Status
  builtin_echo s args =
      if length args == 1 || is_option args (text "status")
      then (
        emit_formatted s
            (text "echo: " ++ ((if s.echo_enabled then text "on" else text "off") ++ newline)),
        ok,
      )
      else if is_option args (text "on")
      then (emit (record s { echo_enabled = true }) (text "echo: on\r\n"), ok)
      else if is_option args (text "off")
      then (emit (record s { echo_enabled = false }) (text "echo: off\r\n"), ok)
      else (emit s (text "usage: echo on|off|status\r\n"), err_invalid_arg)

  -- The words behind `help`.
  unfoldable pub builtin_help : Shell W → List Bytes → Shell W × Status
  builtin_help s [] = (print_root_help s, ok)
  builtin_help s (topic ∷ topics) =
      let r = resolve s.roots (topic ∷ topics) in
      let unknown : Shell W × Status =
        (emit s (text "help: unknown topic\r\n"), err_unknown_command) in
      elim r.command [
        | none ↦ unknown
        | some c ↦
            if r.consumed == length (topic ∷ topics) then (print_help s c r.path, ok) else unknown
      ]

  unfoldable pub builtin_clear : Shell W → Shell W × Status
  builtin_clear s =
      (emit s (if s.cfg.ansi_enabled then text "\u{1b}[2J\u{1b}[H" else text "\r\n"), ok)

module _ {W : Type 0} (env : Env W) where
  -- The end of the dispatcher: the arity check and the handler's call.
  unfoldable pub run_handler : Shell W → List Bytes → Cmd → ℕ → Bytes → Option ℕ → Shell W × Status
  run_handler s args c consumed path none = (
    emit_formatted s (text "error: incomplete command: " ++ (path ++ newline)),
    err_incomplete_command,
  )
  run_handler s args c consumed path (some key) =
      let handler_argc : ℕ = length args - consumed + 1 in
      let i = info c in
      if ltb handler_argc i.min_args
        || (not (i.max_args == args_any) && ltb i.max_args handler_argc)
      then (
        print_usage
            (emit_formatted s (text "error: invalid argument count for " ++ (path ++ newline))) path
            i.usage,
        err_invalid_arg,
      )
      else env.handler key s (drop (consumed - 1) args) (context i.user_ctx s.cfg.user_ctx)

  -- What follows a resolved command, on the words behind it.
  unfoldable pub run_resolved : Shell W → List Bytes → Cmd → ℕ → Bytes → Shell W × Status
  run_resolved s args c consumed path =
      let word = get_or args consumed [] in
      let more = ltb consumed (length args) in
      if more && is_help_word word
      then (print_help s c path, ok)
      else if more && has_children (subcommands c)
      then (
        emit_formatted s (text "error: unknown subcommand: " ++ (word ++ newline)),
        err_unknown_command,
      )
      else if has_children (subcommands c) && consumed == length args
      then (print_help s c path, ok)
      else run_handler s args c consumed path (info c).handler

  unfoldable pub run_command : Shell W → List Bytes → Shell W × Status
  run_command s args =
      let r = resolve s.roots args in
      elim r.command [
        | none ↦ (
          emit_formatted s (text "error: unknown command: " ++ (get_or args 0 [] ++ newline)),
          err_unknown_command,
        )
        | some c ↦ run_resolved s args c r.consumed r.path
      ]

  -- `sh_command_dispatch_internal`
  unfoldable pub dispatch : Shell W → List Bytes → Shell W × Status
  dispatch s [] = (s, ok)
  dispatch s (name ∷ args) =
      let builtins = s.cfg.builtins_enabled in
      if builtins && equal name (text "help")
      then builtin_help s args
      else if builtins && equal name (text "history")
      then builtin_history s (name ∷ args)
      else if builtins && equal name (text "echo")
      then builtin_echo s (name ∷ args)
      else if builtins && equal name (text "clear")
      then builtin_clear s
      else run_command s (name ∷ args)
