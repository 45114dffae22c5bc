-- ===== src/Safety/Running.antt =====
-- Execution and input keep the invariant.
use portable_c_shell.Prelude.{
  ℕ, ◌+◌, Bool, false, ◌&&◌, [], ◌∷◌, Bytes, text, ltb, ◌==◌, if◌then◌else◌,
}
use portable_c_shell.Status.{Status, ok}
use portable_c_shell.Ansi
use portable_c_shell.Ansi.{Event, none_event, Decoder}
use portable_c_shell.Ansi.Feed.{feed-IsDecoder}
use portable_c_shell.State.{Shell, Config, Env, max_line_len}
use portable_c_shell.Output.{emit, prompt}
use portable_c_shell.Output.Emits.{emit-Emits, prompt-Emits}
use portable_c_shell.Display.{line_text}
use portable_c_shell.Editor.{finish_line}
use portable_c_shell.Execute.{execute_line, handle_enter}
use portable_c_shell.Execute.Carries.{Carries, execute_line-Carries}
use portable_c_shell.Input.{
  clear_screen, handle_byte, handle_decoded, input_byte, input_from, input,
}
use portable_c_shell.History
use portable_c_shell.Safety.Completing.{either-IsShell, complete_line-IsShell}
use portable_c_shell.Safety.{Sizes, Trusted, IsShell}
use portable_c_shell.Safety.Rings.{add-IsHistory, clear-IsHistory, clear-IsDraft}
use portable_c_shell.Safety.Editing.{
  Keeps, write-IsShell, Emits-IsShell, redraw-IsShell, insert_char-IsShell, backspace-IsShell,
  delete_word_left-IsShell, clear_input_line-IsShell, finish_line-IsShell, decoded-IsShell,
  cancel_input_line-IsShell, handle_escape_key-IsShell,
}

module _ {W : Type 0} {z : Sizes} {B : Config W → W → Type 0} (keeps : Keeps B) (env : Env W)
    (trusted : Trusted z B env) where
  -- What executing a line does keeps the invariant.
  IsShell-Carries : Carries env (λ s t. IsShell z B s → IsShell z B t)
  unfolding History.clear
  IsShell-Carries = record {
    carry_refl = λ s h. h;
    carry_trans = λ s t u p q h. q (p h);
    carry_write = λ s bytes h. write-IsShell keeps s bytes h;
    carry_echo = λ s on h. record {
      line_ok = h.line_ok;
      line_size = h.line_size;
      draft_ok = h.draft_ok;
      history_ok = h.history_ok;
      decoder_ok = h.decoder_ok;
      backed = h.backed;
    };
    carry_clear = λ s h. record {
      line_ok = h.line_ok;
      line_size = h.line_size;
      draft_ok = clear-IsDraft z s.line.capacity s.draft h.draft_ok;
      history_ok = clear-IsHistory z s h.history_ok;
      decoder_ok = h.decoder_ok;
      backed = h.backed;
    };
    carry_add = λ s entry h. record {
      line_ok = h.line_ok;
      line_size = h.line_size;
      draft_ok = h.draft_ok;
      history_ok = add-IsHistory z s.history entry h.history_ok;
      decoder_ok = h.decoder_ok;
      backed = h.backed;
    };
    carry_handler = trusted;
  }

  handle_enter-IsShell : (s : Shell W) → IsShell z B s → IsShell z B (handle_enter env s).0
  unfolding handle_enter
  handle_enter-IsShell s h =
      let s₁ = emit s (text "\r\n") in
      let ok₁ : IsShell z B s₁ = Emits-IsShell keeps s s₁ (emit-Emits s _) h in
      let run =
        if ltb s.line.len (max_line_len + 1) then execute_line env s₁ (line_text s) else (s₁, ok) in
      let done : IsShell z B run.0 =
        either-IsShell keeps (ltb s.line.len (max_line_len + 1)) (execute_line env s₁ (line_text s))
          (s₁, ok) (execute_line-Carries IsShell-Carries s₁ (line_text s) ok₁) ok₁ in
      Emits-IsShell keeps (finish_line run.0) (prompt (finish_line run.0))
        (prompt-Emits (finish_line run.0)) (finish_line-IsShell keeps run.0 done)

  handle_byte-IsShell :
      (s : Shell W) (byte : ℕ) → IsShell z B s → IsShell z B (handle_byte env s byte).0
  unfolding handle_byte clear_screen
  handle_byte-IsShell s byte h =
      let either = λ (b : Bool) (p q : Shell W × Status). either-IsShell {z = z} keeps b p q in
      either _ _ _ (handle_enter-IsShell s h) (
        either _ _ _ (backspace-IsShell keeps s h) (
          either _ _ _ (complete_line-IsShell keeps env s h) (
            either _ _ _ (cancel_input_line-IsShell keeps s h) (
              either _ _ _ (redraw-IsShell keeps _ (Emits-IsShell keeps s _ (emit-Emits s _) h)) (
                either _ _ _ (clear_input_line-IsShell keeps s h) (
                  either _ _ _ (delete_word_left-IsShell keeps s h)
                    (either _ _ _ (insert_char-IsShell keeps s byte h) h)))))))

  handle_decoded-IsShell :
      (s : Shell W) (byte : ℕ) (consumed : Bool) (event : Event)
      → IsShell z B s
      → IsShell z B (handle_decoded env s byte consumed event).0
  unfolding handle_decoded
  handle_decoded-IsShell s byte consumed Event.none_event h =
      either-IsShell keeps consumed (s, ok) (handle_byte env s byte) h
        (handle_byte-IsShell s byte h)
  handle_decoded-IsShell s byte consumed Event.up h = handle_escape_key-IsShell keeps s Event.up h
  handle_decoded-IsShell s byte consumed event h = handle_escape_key-IsShell keeps s event h

  -- One byte of input.
  pub input_byte-IsShell :
      (s : Shell W) (byte : ℕ) → IsShell z B s → IsShell z B (input_byte env s byte).0
  unfolding input_byte
  input_byte-IsShell s byte h =
      let (d, event) = Ansi.feed s.ansi byte in
      let decoder = feed-IsDecoder s.ansi byte h.decoder_ok in
      let s' : Shell W = record s { last_input_was_cr = byte == b'\r'; ansi = d } in
      either-IsShell keeps (byte == b'\n' && s.last_input_was_cr)
        (record s { last_input_was_cr = false }, ok)
        (handle_decoded env s' byte d.last_byte_consumed event)
        (decoded-IsShell keeps s s.ansi false h.decoder_ok h)
        (handle_decoded-IsShell s' byte d.last_byte_consumed event
          (decoded-IsShell keeps s d (byte == b'\r') decoder h))

  input_from-IsShell :
      (s : Shell W) (bytes : Bytes) (r : Status)
      → IsShell z B s
      → IsShell z B (input_from env s bytes r).0
  unfolding input_from
  input_from-IsShell s [] r h = h
  input_from-IsShell s (byte ∷ bytes) r h =
      input_from-IsShell (input_byte env s byte).0 bytes _ (input_byte-IsShell s byte h)

  -- If writing and the handlers keep the invariant, then `sh_input` keeps it, whatever the bytes: the
  -- line buffer, a draft that has room for every line, each slot of the history, the number of slots
  -- and the decoder's array keep exactly their sizes, so that no write goes behind one of them, the
  -- line ends in a NUL inside its buffer, and the ring and what the backend keeps stay well formed.
  pub input-IsShell :
      (s : Shell W) (bytes : Bytes) → IsShell z B s → IsShell z B (input env s bytes).0
  unfolding input
  input-IsShell s bytes h = input_from-IsShell s bytes ok h
