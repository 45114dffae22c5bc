-- ===== src/Input/Typing.antt =====
-- Typing a text: what the printable bytes of an input do to the line.
use portable_c_shell.Prelude.{
  ℕ, suc, ◌+◌, ◌≤◌, ◌<◌, false, not, [], ◌∷◌, ◌++◌, ◌≡◌, refl, sym, ap, ◌∙◌, subst, arith,
  append_assoc, append-nil, Bytes, length, length-append, ◌==◌, if◌then◌else◌,
}
use portable_c_shell.Status.{ok, is_ok}
use portable_c_shell.Ansi
use portable_c_shell.Ansi.{Event, DecoderState, idle}
use portable_c_shell.Ansi.Feed.{feed_idle_passes}
use portable_c_shell.State.{Shell, Line, Env}
use portable_c_shell.Editor.{insert_char, insert_at_cursor}
use portable_c_shell.Editor.Keys.{Shows, insert_char-Shows, insert_char-EditedTo}
use portable_c_shell.Input.{handle_byte, handle_decoded, input_byte, input_from}

abbrev pub IsPrintable : ℕ → Type 0
IsPrintable x = (32 ≤ x) × (x < 127)

abbrev pub AllPrintable : Bytes → Type 0
AllPrintable [] = Unit {0}
AllPrintable (x ∷ xs) = IsPrintable x × AllPrintable xs

module _ {W : Type 0} (env : Env W) where
  handle_byte_printable :
      (s : Shell W) (x : ℕ) → IsPrintable x → handle_byte env s x ≡ insert_char s x
  unfolding handle_byte
  handle_byte_printable s x (low, high) = ground arith

  -- The shell in which a byte that is not a line end is handled.
  abbrev decoded : Shell W → ℕ → Shell W
  decoded s x = record s { last_input_was_cr = x == b'\r'; ansi = (Ansi.feed s.ansi x).0 }

  input_byte_printable :
      (s : Shell W) (x : ℕ)
      → s.ansi.state ≡ idle
      → IsPrintable x
      → input_byte env s x ≡ insert_char (decoded s x) x
  unfolding input_byte handle_decoded
  input_byte_printable s x quiet (low, high) =
      let (passed, no_event, still) = feed_idle_passes s.ansi x quiet (omega arith) in
      let no_newline : (x == b'\n') ≡ false = ground arith in
      rw (no_newline, no_event, passed) (handle_byte_printable (decoded s x) x (low, high))

  -- The shell is between two keys, with this text in its line and this much room.
  abbrev pub Ready : Shell W → Bytes → Bytes → ℕ → Type 0
  Ready s left right room =
      (s.ansi.state ≡ idle)
      × Shows s.line left right
      × (length left + length right + room < s.line.capacity)

  input_byte-Ready :
      (s : Shell W) (x : ℕ) (left right : Bytes) (room : ℕ)
      → IsPrintable x
      → Ready s left right (suc room)
      → ((input_byte env s x).1 ≡ ok) × Ready (input_byte env s x).0 (left ++ x ∷ []) right room
  unfolding insert_at_cursor
  input_byte-Ready s x left right room printable (quiet, shows, fits) =
      let t = decoded s x in
      let (passed, no_event, still) = feed_idle_passes s.ansi x quiet (omega (arith, printable)) in
      let (fine, shown) = insert_char-Shows t x left right shows (omega arith) in
      let shows_len : s.line.len ≡ length left + length right =
        ap {A = Line} (λ l. l.len) shows.1 in
      let kept = (insert_char-EditedTo t x (ground (arith, shows_len, fits))).1 in
      rw (input_byte_printable s x quiet printable) (
        fine,
        (
          ap {A = Shell W} {B = DecoderState} (λ t. t.ansi.state) kept ∙ still,
          shown,
          omega (
            arith,
            fits,
            length-append left (x ∷ []),
            ap {A = Shell W} {B = ℕ} (λ t. t.line.capacity) kept,
          ),
        ),
      )

  -- With an idle decoder, printable bytes that fit in the line are all accepted by the input loop:
  -- they then stand before the cursor in their order, the text behind the cursor is the same, and
  -- the decoder is idle.
  pub input-Ready :
      (s : Shell W) (xs left right : Bytes) (room : ℕ)
      → AllPrintable xs
      → Ready s left right (length xs + room)
      → ((input_from env s xs ok).1 ≡ ok) × Ready (input_from env s xs ok).0 (left ++ xs) right room
  unfolding input_from
  input-Ready s [] left right room printable ready = (
    refl,
    subst (λ l. Ready s l right room) (sym (append-nil left))
        (subst (λ n. Ready s left right n) (omega arith) ready),
  )
  input-Ready s (x ∷ xs) left right room (printable, rest) ready =
      let t = (input_byte env s x).0 in
      let (fine, next) =
        input_byte-Ready s x left right (length xs + room) printable
          (subst (λ n. Ready s left right n) (omega arith) ready) in
      subst
        (λ st.
          ((input_from env t xs (if not (is_ok st) then st else ok)).1 ≡ ok)
          × Ready (input_from env t xs (if not (is_ok st) then st else ok)).0 (left ++ x ∷ xs) right
              room)
        (sym fine)
        (subst
          (λ l. ((input_from env t xs ok).1 ≡ ok) × Ready (input_from env t xs ok).0 l right room)
          (append_assoc left (x ∷ []) xs) (input-Ready t xs (left ++ x ∷ []) right room rest next))
