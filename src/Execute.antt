-- ===== src/Execute.antt =====
-- Executing a line, shell/src/sh_shell.c: the reconstruction of the history entry
-- (`build_history_line`), `sh_execute_argv`, `sh_execute_line` and `handle_enter`.
pub mod Secrecy
pub mod Printed
pub mod Reread
pub mod Carries
pub mod Kept
pub mod Wipe
use portable_c_shell.Prelude.{
  ℕ, zero, suc, ◌+◌, ◌-◌, Bool, true, false, not, ◌&&◌, ◌||◌, Option, none, some, List, [], ◌∷◌,
  ◌++◌, length, take, get_or, ltb, leb, ◌==◌, if◌then◌else◌, Bytes, text, decimal,
}
use portable_c_shell.Status.{Status, ok, err_invalid_arg, err_line_too_long, is_ok, status_string}
use portable_c_shell.Tokenizer.{split, int_max}
use portable_c_shell.State.{Cmd, CmdInfo, info, Shell, Line, Config, Env, Roots, max_line_len}
use portable_c_shell.Output.{emit, emit_formatted, prompt}
use portable_c_shell.History
use portable_c_shell.Command.Lookup.{Resolved, resolve}
use portable_c_shell.Command.Dispatch.{dispatch}
use portable_c_shell.Display.{is_hidden, line_text}
use portable_c_shell.Editor.{finish_line}

-- The loop of `token_needs_quotes`.
abbrev pub has_special : Bytes → Bool
has_special [] = false
has_special (c ∷ token) =
    (c == 32 || c == 9 || c == b'"' || c == b'\\' || c == b'\'') || has_special token

abbrev pub token_needs_quotes : Bytes → Bool
token_needs_quotes [] = true
token_needs_quotes (c ∷ token) = has_special (c ∷ token)

-- `append_char` on a buffer of SH_MAX_LINE_LEN + 1 bytes: nothing is added to a full buffer.
abbrev pub append_char : Bytes → ℕ → Bytes
append_char out c = if ltb (length out + 1) (max_line_len + 1) then out ++ (c ∷ []) else out

-- The loop of `append_token`.
unfoldable pub append_escaped : Bytes → Bytes → Bytes
append_escaped out [] = out
append_escaped out (c ∷ token) =
    append_escaped (append_char (if c == b'"' || c == b'\\' then append_char out b'\\' else out) c)
      token

unfoldable pub append_token : Bytes → Bytes → Bytes
append_token out token =
    let spaced : Bytes =
      if not (length out == 0) && ltb (length out + 1) (max_line_len + 1)
      then out ++ (32 ∷ [])
      else out in
    if token_needs_quotes token
    then append_char (append_escaped (append_char spaced b'"') token) b'"'
    else append_escaped spaced token

abbrev pub hidden_text : Bytes
hidden_text = text "<hidden>"

module _ (policy : Option (Bytes → ℕ → Bytes → Bool)) (r : Resolved) where
  -- The loop that sets `must_rebuild`.
  unfoldable pub any_hidden : ℕ → List Bytes → Bool
  any_hidden i [] = false
  any_hidden i (arg ∷ args) = is_hidden policy r i arg || any_hidden (suc i) args

  -- The loop that appends the tokens.
  unfoldable pub rebuild : ℕ → List Bytes → Bytes → Bytes
  rebuild i [] out = out
  rebuild i (arg ∷ args) out =
      rebuild (suc i) args
        (append_token out (if is_hidden policy r i arg then hidden_text else arg))

  abbrev pub is_unrecorded : Bool
  is_unrecorded = elim r.command [ none ↦ false | some c ↦ (info c).no_history ]

  -- `build_history_line`; `none` is the result `false`.
  unfoldable pub history_line : Bytes → List Bytes → Option Bytes
  history_line original args =
      if is_unrecorded
      then none
      else if not (any_hidden 0 args)
      then some (take max_line_len original)
      else some (rebuild 0 args [])

module _ {W : Type 0} where
  -- The recording of a line by `sh_execute_line`.
  unfoldable pub record_line : Shell W → Bytes → List Bytes → Shell W
  record_line s line args =
      elim (history_line s.cfg.should_mask_arg (resolve s.roots args) line args) [
        | none ↦ s
        | some entry ↦ record s { history = History.add s.history entry }
      ]

module _ {W : Type 0} (env : Env W) where
  -- `sh_execute_argv`
  unfoldable pub execute_argv : Shell W → List Bytes → Shell W × Status
  execute_argv s args =
      if ltb s.argv_capacity (length args) || ltb int_max (length args)
      then (s, err_invalid_arg)
      else dispatch env s args

  -- `sh_execute_line` once the line is tokenized.
  unfoldable pub execute_tokens : Shell W → Bytes → Status × List Bytes → Shell W × Status
  execute_tokens s line (status, []) =
      if not (is_ok status)
      then (emit_formatted s (text "error: " ++ (status_string status ++ text "\r\n")), status)
      else (s, ok)
  execute_tokens s line (status, arg ∷ args) =
      if not (is_ok status)
      then (emit_formatted s (text "error: " ++ (status_string status ++ text "\r\n")), status)
      else dispatch env (record_line s line (arg ∷ args)) (arg ∷ args)

  -- `sh_execute_line`
  unfoldable pub execute_line : Shell W → Bytes → Shell W × Status
  execute_line s line =
      if leb (max_line_len + 1) (length line) || leb s.line.capacity (length line)
      then (
        emit_formatted s
            (text "error: line too long, max=" ++ (decimal (s.line.capacity - 1) ++ text "\r\n")),
        err_line_too_long,
      )
      else execute_tokens s line (split line s.argv_capacity)

  -- `handle_enter`
  unfoldable pub handle_enter : Shell W → Shell W × Status
  handle_enter s =
      let s₁ = emit s (text "\r\n") in
      let run : Shell W × Status =
        if ltb s.line.len (max_line_len + 1) then execute_line s₁ (line_text s) else (s₁, ok) in
      (prompt (finish_line run.0), run.1)
