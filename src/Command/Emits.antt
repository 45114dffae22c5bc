-- ===== src/Command/Emits.antt =====
-- Help texts and the listings of the built-in commands only write.
use portable_c_shell.Prelude.{
  ℕ, zero, suc, Option, none, some, List, [], ◌∷◌, ◌++◌, ◌+◌, Bytes, text,
}
use portable_c_shell.State.{
  Cmd, info, subcommands, CmdInfo, Table, Cmds, nil, cons, entries, has_children, Roots, flat, sets,
  Shell,
}
use portable_c_shell.Output.{emit, emit_formatted}
use portable_c_shell.Output.Emits.{
  Emits, silent, Emits-trans, if-Emits, emit-Emits, emit_formatted-Emits,
}
use portable_c_shell.Command.Help.{
  print_entry, print_command_list, print_sets, print_roots, print_root_help, print_usage,
  print_help_line, print_arity, print_children, print_help, builtin_list, newline,
}
use portable_c_shell.Command.Dispatch.{print_entries, history_status}

module _ {W : Type 0} where
  print_command_list-Emits : (s : Shell W) (cs : Cmds) → Emits s (print_command_list s cs)
  unfolding print_command_list print_entry
  print_command_list-Emits s nil = silent
  print_command_list-Emits s (cons c cs) =
      Emits-trans s (print_entry s (info c)) _
        (if-Emits (info c).hidden s s (emit_formatted s _) silent (emit_formatted-Emits s _))
        (print_command_list-Emits (print_entry s (info c)) cs)

  print_sets-Emits : (s : Shell W) (ts : List Table) → Emits s (print_sets s ts)
  unfolding print_sets
  print_sets-Emits s [] = silent
  print_sets-Emits s (t ∷ ts) =
      Emits-trans s (print_command_list s (entries t)) _ (print_command_list-Emits s (entries t))
        (print_sets-Emits (print_command_list s (entries t)) ts)

  print_roots-Emits : (s : Shell W) (roots : Roots) → Emits s (print_roots s roots)
  unfolding print_roots
  print_roots-Emits s (flat t) = print_command_list-Emits s (entries t)
  print_roots-Emits s (sets ts) = print_sets-Emits s ts

  pub print_root_help-Emits : (s : Shell W) → Emits s (print_root_help s)
  unfolding print_root_help
  print_root_help-Emits s =
      let s₁ = emit s (text "Commands:\r\n") in
      let s₂ = print_roots s₁ s.roots in
      let listed : Emits s s₂ =
        Emits-trans s s₁ s₂ (emit-Emits s _) (print_roots-Emits s₁ s.roots) in
      if-Emits s.cfg.builtins_enabled s (emit s₂ builtin_list) s₂
        (Emits-trans s s₂ _ listed (emit-Emits s₂ _)) listed

  pub print_usage-Emits :
      (s : Shell W) (path : Bytes) (usage : Option Bytes) → Emits s (print_usage s path usage)
  unfolding print_usage
  print_usage-Emits s path none = silent
  print_usage-Emits s path (some []) = silent
  print_usage-Emits s path (some (b ∷ usage)) = emit_formatted-Emits s _

  print_help_line-Emits : (s : Shell W) (help : Option Bytes) → Emits s (print_help_line s help)
  unfolding print_help_line
  print_help_line-Emits s none = silent
  print_help_line-Emits s (some []) = silent
  print_help_line-Emits s (some (b ∷ help)) = emit_formatted-Emits s _

  print_arity-Emits :
      (s : Shell W) (i : CmdInfo) (handler : Option ℕ) → Emits s (print_arity s i handler)
  unfolding print_arity
  print_arity-Emits s i none = silent
  print_arity-Emits s i (some h) =
      if-Emits _ s (emit_formatted s _) (emit_formatted s _) (emit_formatted-Emits s _)
        (emit_formatted-Emits s _)

  print_children-Emits : (s : Shell W) (t : Table) → Emits s (print_children s t)
  unfolding print_children
  print_children-Emits s t =
      if-Emits (has_children t) s _ s
        (Emits-trans s (emit s _) _ (emit-Emits s _)
          (print_command_list-Emits (emit s _) (entries t)))
        silent

  pub print_help-Emits : (s : Shell W) (c : Cmd) (path : Bytes) → Emits s (print_help s c path)
  unfolding print_help
  print_help-Emits s c path =
      let s₁ = emit_formatted s (path ++ newline) in
      let s₂ = print_usage s₁ path (info c).usage in
      let s₃ = print_help_line s₂ (info c).help in
      let s₄ = print_arity s₃ (info c) (info c).handler in
      Emits-trans s s₁ _ (emit_formatted-Emits s _) (
        Emits-trans s₁ s₂ _ (print_usage-Emits s₁ path (info c).usage) (
          Emits-trans s₂ s₃ _ (print_help_line-Emits s₂ (info c).help) (
            Emits-trans s₃ s₄ _ (print_arity-Emits s₃ (info c) (info c).handler)
              (print_children-Emits s₄ (subcommands c)))))

  pub history_status-Emits : (s : Shell W) → Emits s (history_status s)
  unfolding history_status
  history_status-Emits s = emit_formatted-Emits s _

  pub print_entries-Emits : (left i : ℕ) (s : Shell W) → Emits s (print_entries s left i)
  unfolding print_entries
  print_entries-Emits zero i s = silent
  print_entries-Emits (suc left) i s =
      Emits-trans s (emit_formatted s _) _ (emit_formatted-Emits s _)
        (print_entries-Emits left (i + 1) (emit_formatted s _))
