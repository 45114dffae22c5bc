-- ===== src/Editor/Keys.antt =====
-- The editing keys against a text with a cursor: what each does to the bytes before the cursor and
-- to those behind it.
use portable_c_shell.Prelude.{
  ℕ, ◌+◌, ◌≤◌, ◌<◌, true, false, ◌&&◌, [], ◌∷◌, ◌++◌, ◌≡◌, refl, sym, ap, ◌∙◌, arith, length,
  length-append, leb, ◌==◌, Bytes, Bool-cases, inl, inr,
}
use portable_c_shell.Status.{ok, err_line_too_long}
use portable_c_shell.State.{Shell, Line}
use portable_c_shell.Output.{emit}
use portable_c_shell.Output.Quiet.{Quiet, Quiet-trans, write-Quiet, emit-Quiet, prompt-Quiet}
use portable_c_shell.Display.Quiet.{redraw-Quiet}
use portable_c_shell.Editor.{
  insert_at_cursor, erase_before_cursor, erase_at_cursor, edited, insert_char, backspace,
  delete_at_cursor,
}
use portable_c_shell.Editor.Text.{
  line_of, stale, insert_at_cursor-line_of, erase_before_cursor-line_of, erase_at_cursor-line_of,
}

-- The line holds `left`, the cursor and `right`, and is well formed: the text with its NUL lies
-- inside the buffer, whose size is the capacity.
abbrev pub Shows : Line → Bytes → Bytes → Type 0
Shows l left right = (rest : Bytes) × (l ≡ line_of left right rest)

-- The sizes that a text with a cursor has.
pub Shows-sizes :
    (l : Line) (left right : Bytes)
    → Shows l left right
    → (l.cursor ≡ length left)
      × (l.len ≡ length left + length right)
      × (l.len < l.capacity)
      × (l.capacity ≡ length l.buffer)
Shows-sizes l left right (rest, e) = (
  ap {A = Line} (λ k. k.cursor) e,
  ap {A = Line} (λ k. k.len) e,
  omega (
    arith,
    ap {A = Line} (λ k. k.len) e,
    ap {A = Line} (λ k. k.capacity) e,
    length-append left (right ++ (0 ∷ rest)),
    length-append right (0 ∷ rest),
  ),
  ap {A = Line} (λ k. k.capacity) e ∙ sym (ap {A = Line} (λ k. length k.buffer) e),
)

module _ {W : Type 0} where
  -- `s'` is `s` with another line, not in the history any more, but for the backend.
  abbrev pub EditedTo : Shell W → Line → Shell W → Type 0
  EditedTo s l s' = Quiet (edited s l) s'

  pub EditedTo-line : (s s' : Shell W) (l : Line) → EditedTo s l s' → s'.line ≡ l
  EditedTo-line s s' l e = ap {A = Shell W} {B = Line} (λ t. t.line) e

  pub insert_char-EditedTo :
      (s : Shell W) (c : ℕ)
      → leb s.line.capacity (s.line.len + 1) ≡ false
      → ((insert_char s c).1 ≡ ok) × EditedTo s (insert_at_cursor s.line c) (insert_char s c).0
  unfolding insert_char
  insert_char-EditedTo s c room =
      elim (Bool-cases (s.echo_enabled && s.line.cursor == s.line.len)) [
        | inl e ↦ rw (room, e) (refl, write-Quiet (edited s (insert_at_cursor s.line c)) _)
        | inr e ↦ rw (room, e) (refl, redraw-Quiet (edited s (insert_at_cursor s.line c)))
      ]

  -- A byte typed where there is room is inserted before the cursor, with status OK.
  pub insert_char-Shows :
      (s : Shell W) (c : ℕ) (left right : Bytes)
      → Shows s.line left right
      → length left + length right + 1 < s.line.capacity
      → ((insert_char s c).1 ≡ ok) × Shows (insert_char s c).0.line (left ++ c ∷ []) right
  insert_char-Shows s c left right ([], e) h = absurd (
      omega (
        arith,
        ap {A = Line} (λ l. l.capacity) e,
        length-append left (right ++ (0 ∷ [])),
        length-append right (0 ∷ []),
      ))
  insert_char-Shows s c left right (free ∷ rest, e) h =
      let room : leb s.line.capacity (s.line.len + 1) ≡ false =
        ground (arith, ap {A = Line} (λ l. l.len) e) in
      let (fine, kept) = insert_char-EditedTo s c room in
      (
        fine,
        (
          rest,
          EditedTo-line s (insert_char s c).0 (insert_at_cursor s.line c) kept
              ∙ ap (λ l. insert_at_cursor l c) e
              ∙ insert_at_cursor-line_of left right rest free c,
        ),
      )

  -- With no room left a byte is refused with SH_ERR_LINE_TOO_LONG, and nothing of the shell but
  -- the backend changes.
  pub insert_char_full :
      (s : Shell W) (c : ℕ)
      → s.line.capacity ≤ s.line.len + 1
      → ((insert_char s c).1 ≡ err_line_too_long) × Quiet s (insert_char s c).0
  unfolding insert_char
  insert_char_full s c h =
      let full : leb s.line.capacity (s.line.len + 1) ≡ true = ground arith in
      rw full (refl, Quiet-trans s (emit s _) _ (emit-Quiet s _) (prompt-Quiet (emit s _)))

  -- Backspace removes the byte before the cursor.
  pub backspace-Shows :
      (s : Shell W) (c : ℕ) (left right : Bytes)
      → Shows s.line (left ++ c ∷ []) right
      → Shows (backspace s).line left right
  unfolding backspace
  backspace-Shows s c left right (rest, e) =
      let away : (s.line.cursor == 0) ≡ false =
        ground (arith, ap {A = Line} (λ l. l.cursor) e, length-append left (c ∷ [])) in
      (
        stale (c ∷ []) right ++ rest,
        rw away (
            EditedTo-line s _ _ (redraw-Quiet (edited s (erase_before_cursor s.line)))
            ∙ ap erase_before_cursor e
            ∙ erase_before_cursor-line_of left right rest c),
      )

  pub backspace_at_start : (s : Shell W) → s.line.cursor ≡ 0 → backspace s ≡ s
  unfolding backspace
  backspace_at_start s h = rw h

  -- Delete removes the byte under the cursor.
  pub delete_at_cursor-Shows :
      (s : Shell W) (c : ℕ) (left right : Bytes)
      → Shows s.line left (c ∷ right)
      → Shows (delete_at_cursor s).line left right
  unfolding delete_at_cursor
  delete_at_cursor-Shows s c left right (rest, e) =
      let away : leb s.line.len s.line.cursor ≡ false =
        ground (arith, ap {A = Line} (λ l. l.cursor) e, ap {A = Line} (λ l. l.len) e) in
      (
        stale (c ∷ []) right ++ rest,
        rw away (
            EditedTo-line s _ _ (redraw-Quiet (edited s (erase_at_cursor s.line)))
            ∙ ap erase_at_cursor e
            ∙ erase_at_cursor-line_of left right rest c),
      )
