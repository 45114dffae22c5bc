-- ===== src/Input.antt =====
-- Feeding bytes to the shell, shell/src/sh_shell.c: `sh_input_byte` and `sh_input`.
pub mod Typing
pub mod Chunks
use portable_c_shell.Prelude.{
  ℕ, Bool, true, false, not, ◌&&◌, ◌||◌, List, [], ◌∷◌, ltb, leb, ◌==◌, if◌then◌else◌, Bytes, text,
}
use portable_c_shell.Status.{Status, ok, is_ok}
use portable_c_shell.Ansi
use portable_c_shell.Ansi.{Event, Decoder}
use portable_c_shell.State.{Shell, Config, Env}
use portable_c_shell.Output.{emit}
use portable_c_shell.Display.{redraw}
use portable_c_shell.Editor.{
  insert_char, backspace, delete_word_left, clear_input_line, cancel_input_line, handle_escape_key,
}
use portable_c_shell.Completion.Complete.{complete_line}
use portable_c_shell.Execute.{handle_enter}

module _ {W : Type 0} where
  -- Ctrl+L
  unfoldable pub clear_screen : Shell W → Shell W
  clear_screen s =
      redraw (emit s (if s.cfg.ansi_enabled then text "\u{1b}[2J\u{1b}[H" else text "\r\n"))

module _ {W : Type 0} (env : Env W) where
  -- The `switch` of `sh_input_byte`.
  unfoldable pub handle_byte : Shell W → ℕ → Shell W × Status
  handle_byte s byte =
      if byte == b'\r' || byte == b'\n'
      then handle_enter env s
      else if byte == 0x08 || byte == 0x7f
      then (backspace s, ok)
      else if byte == b'\t'
      then complete_line env s
      else if byte == 0x03
      then (cancel_input_line s, ok)
      else if byte == 0x0c
      then (clear_screen s, ok)
      else if byte == 0x15
      then (clear_input_line s, ok)
      else if byte == 0x17
      then (delete_word_left s, ok)
      else if leb 32 byte && ltb byte 127
      then insert_char s byte
      else (s, ok)

  -- What follows the decoder, on its answer.
  unfoldable pub handle_decoded : Shell W → ℕ → Bool → Event → Shell W × Status
  handle_decoded s byte consumed Event.none_event = if consumed then (s, ok) else handle_byte s byte
  handle_decoded s byte consumed event = (handle_escape_key s event, ok)

  -- `sh_input_byte`, also `sh_feed_byte`
  unfoldable pub input_byte : Shell W → ℕ → Shell W × Status
  input_byte s byte =
      let (d, event) = Ansi.feed s.ansi byte in
      let s' = record s { last_input_was_cr = byte == b'\r'; ansi = d } in
      if byte == b'\n' && s.last_input_was_cr
      then (record s { last_input_was_cr = false }, ok)
      else handle_decoded s' byte d.last_byte_consumed event

  -- The loop of `sh_input`, with `result` so far.
  unfoldable pub input_from : Shell W → Bytes → Status → Shell W × Status
  input_from s [] result = (s, result)
  input_from s (byte ∷ bytes) result =
      let (s', status) = input_byte s byte in
      input_from s' bytes (if is_ok result && not (is_ok status) then status else result)

  -- `sh_input`, also `sh_feed`
  unfoldable pub input : Shell W → Bytes → Shell W × Status
  input s bytes = input_from s bytes ok
