-- ===== src/Execute/Carries.antt =====
-- What executing a line does to the shell: writes, the commands `echo` and `history clear`, records in
-- the history, and handlers. A relation that each of these respects is respected by the whole.
use portable_c_shell.Prelude.{
  ℕ, ◌+◌, Bool, true, false, not, ◌&&◌, ◌||◌, Option, none, some, List, [], ◌∷◌, ◌++◌, ◌==◌, Bytes,
  text, length, get_or, ltb, leb, if◌then◌else◌, Option-cases, inl, inr,
}
use portable_c_shell.Status.{Status, ok, is_ok, err_unknown_command}
use portable_c_shell.State.{Cmd, info, subcommands, has_children, Shell, Env, max_line_len}
use portable_c_shell.History
use portable_c_shell.Output.{write, emit, emit_formatted}
use portable_c_shell.Output.Emits.{Emits, Emits-keep, emit-Emits, emit_formatted-Emits}
use portable_c_shell.Command.Help.{print_help, print_root_help, print_usage, newline}
use portable_c_shell.Command.Lookup.{resolve}
use portable_c_shell.Command.Emits.{
  print_root_help-Emits, print_help-Emits, print_usage-Emits, history_status-Emits,
  print_entries-Emits,
}
use portable_c_shell.Command.Dispatch.{
  print_entries, is_option, is_help_word, history_status, builtin_history, builtin_echo,
  builtin_help, builtin_clear, run_handler, run_resolved, run_command, dispatch,
}
use portable_c_shell.Tokenizer.{split}
use portable_c_shell.Execute.{history_line, record_line, execute_tokens, execute_line}

-- The relation `R` holds between the shells before and after each kind of step.
pub record Carries {W : Type 0} (env : Env W) (R : Shell W → Shell W → Type 0) : Type 0 where
  pub carry_refl : (s : Shell W) → R s s
  pub carry_trans : (s t u : Shell W) → R s t → R t u → R s u
  pub carry_write : (s : Shell W) (bytes : Bytes) → R s (write s bytes).0
  pub carry_echo : (s : Shell W) (on : Bool) → R s (record s { echo_enabled = on })
  pub carry_clear : (s : Shell W) → R s (History.clear s)
  pub carry_add :
      (s : Shell W) (entry : Bytes) → R s (record s { history = History.add s.history entry })
  pub carry_handler :
      (key : ℕ) (s : Shell W) (args : List Bytes) (ctx : Option ℕ)
      → R s (env.handler key s args ctx).0

module _ {W : Type 0} {env : Env W} {R : Shell W → Shell W → Type 0} (law : Carries env R) where
  pub Emits-Carries : (s t : Shell W) → Emits s t → R s t
  Emits-Carries s t e =
      Emits-keep (R s)
        (λ t bytes h. law.carry_trans s t (write t bytes).0 h (law.carry_write t bytes)) e
        (law.carry_refl s)

  -- Either answer of a test.
  if-Carries :
      (b : Bool) (s : Shell W) (p q : Shell W × Status)
      → R s p.0
      → R s q.0
      → R s (if b then p else q).0
  if-Carries true s p q h k = h
  if-Carries false s p q h k = k

  emit-Carries : (s t : Shell W) (bytes : Bytes) → R s t → R s (emit t bytes)
  emit-Carries s t bytes k =
      law.carry_trans s t (emit t bytes) k (Emits-Carries t (emit t bytes) (emit-Emits t bytes))

  emit_formatted-Carries : (s t : Shell W) (bytes : Bytes) → R s t → R s (emit_formatted t bytes)
  emit_formatted-Carries s t bytes k =
      law.carry_trans s t (emit_formatted t bytes) k
        (Emits-Carries t (emit_formatted t bytes) (emit_formatted-Emits t bytes))

  builtin_history-Carries : (s : Shell W) (args : List Bytes) → R s (builtin_history s args).0
  unfolding builtin_history
  builtin_history-Carries s args =
      let listed = Emits-Carries s (history_status s) (history_status-Emits s) in
      if-Carries (is_option args (text "clear")) s _ _
        (emit-Carries s (History.clear s) _ (law.carry_clear s))
        (if-Carries (is_option args (text "status")) s _ _ listed (
          if-Carries (not (length args == 1)) s _ _ (emit-Carries s (history_status s) _ listed) (
            law.carry_trans s (history_status s) _ listed (
              Emits-Carries (history_status s)
                (print_entries (history_status s) s.history.entry_count 0)
                (print_entries-Emits s.history.entry_count 0 (history_status s))))))

  builtin_echo-Carries : (s : Shell W) (args : List Bytes) → R s (builtin_echo s args).0
  unfolding builtin_echo
  builtin_echo-Carries s args =
      if-Carries (length args == 1 || is_option args (text "status")) s _ _
        (emit_formatted-Carries s s _ (law.carry_refl s))
        (if-Carries (is_option args (text "on")) s _ _
          (emit-Carries s (record s { echo_enabled = true }) _ (law.carry_echo s true))
          (if-Carries (is_option args (text "off")) s _ _
            (emit-Carries s (record s { echo_enabled = false }) _ (law.carry_echo s false))
            (emit-Carries s s _ (law.carry_refl s))))

  builtin_help-Carries : (s : Shell W) (topics : List Bytes) → R s (builtin_help s topics).0
  unfolding builtin_help
  builtin_help-Carries s [] = Emits-Carries s (print_root_help s) (print_root_help-Emits s)
  builtin_help-Carries s (topic ∷ topics) =
      let r = resolve s.roots (topic ∷ topics) in
      elim (Option-cases r.command) [
        | inl e ↦ rw (builtin_help, e) (emit-Carries s s _ (law.carry_refl s))
        | inr (c, e) ↦
            rw (builtin_help, e)
              (if-Carries _ s _ _
                (Emits-Carries s (print_help s c r.path) (print_help-Emits s c r.path))
                (emit-Carries s s _ (law.carry_refl s)))
      ]

  run_handler-Carries :
      (s : Shell W) (args : List Bytes) (c : Cmd) (consumed : ℕ) (path : Bytes) (handler : Option ℕ)
      → R s (run_handler env s args c consumed path handler).0
  unfolding run_handler
  run_handler-Carries s args c consumed path none = emit_formatted-Carries s s _ (law.carry_refl s)
  run_handler-Carries s args c consumed path (some key) =
      let t = emit_formatted s (text "error: invalid argument count for " ++ (path ++ newline)) in
      let u = print_usage t path (info c).usage in
      if-Carries _ s _ _
        (law.carry_trans s t u (emit_formatted-Carries s s _ (law.carry_refl s))
          (Emits-Carries t u (print_usage-Emits t path (info c).usage)))
        (law.carry_handler key s _ _)

  run_resolved-Carries :
      (s : Shell W) (args : List Bytes) (c : Cmd) (consumed : ℕ) (path : Bytes)
      → R s (run_resolved env s args c consumed path).0
  unfolding run_resolved
  run_resolved-Carries s args c consumed path =
      let helped = Emits-Carries s (print_help s c path) (print_help-Emits s c path) in
      let word = get_or args consumed [] in
      let more = ltb consumed (length args) in
      let unknown : Shell W × Status = (
        emit_formatted s (text "error: unknown subcommand: " ++ (word ++ newline)),
        err_unknown_command,
      ) in
      let run = run_handler env s args c consumed path (info c).handler in
      let leaf =
        if has_children (subcommands c) && consumed == length args
        then (print_help s c path, ok)
        else run in
      if-Carries (more && is_help_word word) s (print_help s c path, ok)
        (if more && has_children (subcommands c) then unknown else leaf) helped
        (if-Carries (more && has_children (subcommands c)) s unknown leaf
          (emit_formatted-Carries s s _ (law.carry_refl s))
          (if-Carries (has_children (subcommands c) && consumed == length args) s
            (print_help s c path, ok) run helped
            (run_handler-Carries s args c consumed path (info c).handler)))

  run_command-Carries : (s : Shell W) (args : List Bytes) → R s (run_command env s args).0
  unfolding run_command
  run_command-Carries s args = elim (Option-cases (resolve s.roots args).command) [
    | inl e ↦ rw (run_command, e) (emit_formatted-Carries s s _ (law.carry_refl s))
    | inr (c, e) ↦
        rw (run_command, e)
          (run_resolved-Carries s args c (resolve s.roots args).consumed
            (resolve s.roots args).path)
  ]

  dispatch-Carries : (s : Shell W) (args : List Bytes) → R s (dispatch env s args).0
  unfolding dispatch builtin_clear
  dispatch-Carries s [] = law.carry_refl s
  dispatch-Carries s (name ∷ args) = if-Carries _ s _ _ (builtin_help-Carries s args) (
      if-Carries _ s _ _ (builtin_history-Carries s (name ∷ args)) (
        if-Carries _ s _ _ (builtin_echo-Carries s (name ∷ args)) (
          if-Carries _ s _ _ (emit-Carries s s _ (law.carry_refl s))
            (run_command-Carries s (name ∷ args)))))

  record_line-Carries :
      (s : Shell W) (line : Bytes) (args : List Bytes) → R s (record_line s line args)
  unfolding record_line
  record_line-Carries s line args =
      elim (Option-cases (history_line s.cfg.should_mask_arg (resolve s.roots args) line args)) [
        | inl e ↦ rw (record_line, e) (law.carry_refl s)
        | inr (entry, e) ↦ rw (record_line, e) (law.carry_add s entry)
      ]

  execute_tokens-Carries :
      (s : Shell W) (line : Bytes) (status : Status) (args : List Bytes)
      → R s (execute_tokens env s line (status, args)).0
  unfolding execute_tokens
  execute_tokens-Carries s line status [] =
      if-Carries (not (is_ok status)) s _ (s, ok) (emit_formatted-Carries s s _ (law.carry_refl s))
        (law.carry_refl s)
  execute_tokens-Carries s line status (arg ∷ args) =
      let t = record_line s line (arg ∷ args) in
      if-Carries (not (is_ok status)) s _ (dispatch env t (arg ∷ args))
        (emit_formatted-Carries s s _ (law.carry_refl s))
        (law.carry_trans s t (dispatch env t (arg ∷ args)).0
          (record_line-Carries s line (arg ∷ args)) (dispatch-Carries t (arg ∷ args)))

  pub execute_line-Carries : (s : Shell W) (line : Bytes) → R s (execute_line env s line).0
  unfolding execute_line
  execute_line-Carries s line =
      let parsed = split line s.argv_capacity in
      if-Carries (leb (max_line_len + 1) (length line) || leb s.line.capacity (length line)) s _
        (execute_tokens env s line parsed) (emit_formatted-Carries s s _ (law.carry_refl s))
        (execute_tokens-Carries s line parsed.0 parsed.1)
