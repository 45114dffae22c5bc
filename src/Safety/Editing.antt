-- ===== src/Safety/Editing.antt =====
-- Output and the keys of the line editor keep the invariant.
use portable_c_shell.Prelude.{
  ℕ, zero, suc, ◌+◌, ◌-◌, ◌≤◌, Bool, true, false, not, ◌&&◌, ◌≡◌, refl, sym, ◌∙◌, subst, arith,
  Bytes, text, Bool-cases, inl, inr, leb, ltb, ◌==◌, if◌then◌else◌, get_or, is_space, Option,
}
use portable_c_shell.Ansi
use portable_c_shell.Ansi.{Event}
use portable_c_shell.Ansi.Feed.{IsDecoder}
use portable_c_shell.State.{Shell, Line, Config, View, draft_view}
use portable_c_shell.Output.{write, emit, prompt}
use portable_c_shell.Output.Quiet.{write-Quiet}
use portable_c_shell.Output.Emits.{Emits, Emits-keep, Emits-trans, emit-Emits, prompt-Emits}
use portable_c_shell.Display.{redraw}
use portable_c_shell.Display.Quiet.{redraw-Emits}
use portable_c_shell.Editor.{
  load_line, insert_at_cursor, erase_before_cursor, erase_at_cursor, walk_left, word_start,
  erase_from, wipe_line, save_draft, shown_text, older, newer, edited, set_line, move_history,
  insert_char, backspace, delete_at_cursor, delete_word_left, clear_input_line, finish_line,
  cancel_input_line, move_cursor, handle_escape_key,
}
use portable_c_shell.Safety.{Sizes, IsLine, IsDraft, IsShell}
use portable_c_shell.Safety.Lines.{
  IsLine-sizes, insert_at_cursor-IsLine, erase_before_cursor-IsLine, erase_at_cursor-IsLine,
  erase_from-IsLine, move_cursor-IsLine, load_line-IsLine, wipe_line-IsLine,
}
use portable_c_shell.Safety.Rings.{
  wipe_draft-IsDraft, wipe_draft_if_secure-IsDraft, save_draft-IsDraft,
}

-- A walk to the left ends at most where it starts.
walk_left-le : (test : ℕ → Bool) (b : Bytes) (n : ℕ) → walk_left test b n ≤ n
walk_left-le test b zero = omega arith
walk_left-le test b (suc n) = elim (Bool-cases (test (get_or b n 0))) [
  | inl e ↦ rw (walk_left, e) (omega (arith, walk_left-le test b n))
  | inr e ↦ rw (walk_left, e) (omega arith)
]

word_start-le : (l : Line) → word_start l ≤ l.cursor
unfolding word_start
word_start-le l = omega (
  arith,
  walk_left-le (λ c. not (is_space c)) l.buffer (walk_left is_space l.buffer l.cursor),
  walk_left-le is_space l.buffer l.cursor,
)

-- Writing keeps what the backend and the configuration keep between them.
abbrev pub Keeps : {W : Type 0} → (Config W → W → Type 0) → Type 0
Keeps {W} B = (s : Shell W) (bytes : Bytes) → B s.cfg s.world → B s.cfg (write s bytes).0.world

module _ {W : Type 0} {z : Sizes} {B : Config W → W → Type 0} (keeps : Keeps B) where
  pub write-IsShell : (s : Shell W) (bytes : Bytes) → IsShell z B s → IsShell z B (write s bytes).0
  write-IsShell s bytes h = subst {A = Shell W} (IsShell z B) (sym (write-Quiet s bytes)) (record {
    line_ok = h.line_ok;
    line_size = h.line_size;
    draft_ok = h.draft_ok;
    history_ok = h.history_ok;
    decoder_ok = h.decoder_ok;
    backed = keeps s bytes h.backed;
  })

  pub Emits-IsShell : (s t : Shell W) → Emits s t → IsShell z B s → IsShell z B t
  Emits-IsShell s t e h = Emits-keep (IsShell z B) write-IsShell e h

  -- Another line of the same capacity.
  pub lined-IsShell :
      (s : Shell W) (l : Line) (v : View)
      → IsShell z B s
      → IsLine l
      → l.capacity ≡ s.line.capacity
      → IsShell z B (record s { line = l; history_view = v })
  lined-IsShell s l v h ok same = record {
    line_ok = ok;
    line_size = same ∙ h.line_size;
    draft_ok = subst (λ n. IsDraft z n s.draft) (sym same) h.draft_ok;
    history_ok = h.history_ok;
    decoder_ok = h.decoder_ok;
    backed = h.backed;
  }

  pub redraw-IsShell : (s : Shell W) → IsShell z B s → IsShell z B (redraw s)
  redraw-IsShell s h = Emits-IsShell s (redraw s) (redraw-Emits s) h

  if-IsShell :
      (b : Bool) (s t : Shell W) → IsShell z B s → IsShell z B t → IsShell z B (if b then s else t)
  if-IsShell true s t h k = h
  if-IsShell false s t h k = k

  pub insert_char-IsShell : (s : Shell W) (c : ℕ) → IsShell z B s → IsShell z B (insert_char s c).0
  unfolding insert_char insert_at_cursor
  insert_char-IsShell s c h = elim (Bool-cases (leb s.line.capacity (s.line.len + 1))) [
    | inl e ↦ rw e (
        Emits-IsShell s _ (Emits-trans s (emit s _) _ (emit-Emits s _) (prompt-Emits (emit s _))) h)
    | inr e ↦
        let s' = edited s (insert_at_cursor s.line c) in
        let ok : IsShell z B s' =
          lined-IsShell s (insert_at_cursor s.line c) draft_view h
            (insert_at_cursor-IsLine s.line c h.line_ok (ground (arith, e))) refl in
        elim (Bool-cases (s.echo_enabled && s.line.cursor == s.line.len)) [
          | inl f ↦ rw (e, f) (write-IsShell s' _ ok)
          | inr f ↦ rw (e, f) (redraw-IsShell s' ok)
        ]
  ]

  pub backspace-IsShell : (s : Shell W) → IsShell z B s → IsShell z B (backspace s)
  unfolding backspace erase_before_cursor
  backspace-IsShell s h = elim (Bool-cases (s.line.cursor == 0)) [
    | inl e ↦ rw e h
    | inr e ↦ rw e (
        redraw-IsShell (edited s (erase_before_cursor s.line)) (
          lined-IsShell s (erase_before_cursor s.line) draft_view h
            (erase_before_cursor-IsLine s.line h.line_ok (ground (arith, e))) refl))
  ]

  pub delete_at_cursor-IsShell : (s : Shell W) → IsShell z B s → IsShell z B (delete_at_cursor s)
  unfolding delete_at_cursor erase_at_cursor
  delete_at_cursor-IsShell s h = elim (Bool-cases (leb s.line.len s.line.cursor)) [
    | inl e ↦ rw e h
    | inr e ↦ rw e (
        redraw-IsShell (edited s (erase_at_cursor s.line)) (
          lined-IsShell s (erase_at_cursor s.line) draft_view h
            (erase_at_cursor-IsLine s.line h.line_ok (ground (arith, e))) refl))
  ]

  pub delete_word_left-IsShell : (s : Shell W) → IsShell z B s → IsShell z B (delete_word_left s)
  unfolding delete_word_left erase_from
  delete_word_left-IsShell s h =
      if-IsShell (word_start s.line == s.line.cursor) s
        (redraw (edited s (erase_from s.line (word_start s.line)))) h
        (redraw-IsShell (edited s (erase_from s.line (word_start s.line))) (
          lined-IsShell s (erase_from s.line (word_start s.line)) draft_view h
            (erase_from-IsLine s.line (word_start s.line) h.line_ok (word_start-le s.line)) refl))

  pub move_cursor-IsShell :
      (s : Shell W) (cursor : ℕ)
      → cursor ≤ s.line.len
      → IsShell z B s
      → IsShell z B (move_cursor s cursor)
  move_cursor-IsShell s cursor inside h =
      let l : Line = record (s.line) { cursor = cursor } in
      if-IsShell (s.line.cursor == cursor) s (redraw (record s { line = l })) h (
        redraw-IsShell (record s { line = l })
          (lined-IsShell s l s.history_view h (move_cursor-IsLine s.line cursor h.line_ok inside)
            refl))

  -- A cleared line, with a draft of the same size.
  cleared-IsShell :
      (s : Shell W) (secure : Bool) (d : Option Bytes)
      → IsShell z B s
      → IsDraft z s.line.capacity d
      → IsShell z B
          (record s { line = wipe_line secure s.line; history_view = draft_view; draft = d })
  unfolding wipe_line
  cleared-IsShell s secure d h k = record {
    line_ok = wipe_line-IsLine secure s.line h.line_ok;
    line_size = h.line_size;
    draft_ok = k;
    history_ok = h.history_ok;
    decoder_ok = h.decoder_ok;
    backed = h.backed;
  }

  pub clear_input_line-IsShell : (s : Shell W) → IsShell z B s → IsShell z B (clear_input_line s)
  unfolding clear_input_line
  clear_input_line-IsShell s h = redraw-IsShell _ (
      cleared-IsShell s s.cfg.secure_clear_enabled _ h (
        wipe_draft_if_secure-IsDraft z s.cfg.secure_clear_enabled s.line.capacity s.draft
          h.draft_ok))

  pub finish_line-IsShell : (s : Shell W) → IsShell z B s → IsShell z B (finish_line s)
  finish_line-IsShell s h = cleared-IsShell s s.cfg.secure_clear_enabled _ h (
      wipe_draft-IsDraft z s.cfg.secure_clear_enabled s.line.capacity s.draft
        (omega (arith, IsLine-sizes s.line h.line_ok)) h.draft_ok)

  -- Another state of the decoder.
  pub decoded-IsShell :
      (s : Shell W) (d : Ansi.Decoder) (cr : Bool)
      → IsDecoder d
      → IsShell z B s
      → IsShell z B (record s { ansi = d; last_input_was_cr = cr })
  decoded-IsShell s d cr ok h = record {
    line_ok = h.line_ok;
    line_size = h.line_size;
    draft_ok = h.draft_ok;
    history_ok = h.history_ok;
    decoder_ok = ok;
    backed = h.backed;
  }

  pub cancel_input_line-IsShell : (s : Shell W) → IsShell z B s → IsShell z B (cancel_input_line s)
  unfolding cancel_input_line
  cancel_input_line-IsShell s h =
      let s₁ = emit s (text "^C\r\n") in
      let s₂ = finish_line s₁ in
      let ok : IsShell z B s₂ = finish_line-IsShell s₁ (Emits-IsShell s s₁ (emit-Emits s _) h) in
      let s₃ : Shell W = record s₂ { ansi = Ansi.reset s₂.ansi } in
      Emits-IsShell s₃ (prompt s₃) (prompt-Emits s₃) (
        decoded-IsShell s₂ (Ansi.reset s₂.ansi) s₂.last_input_was_cr
          (record { sized = ok.decoder_ok.sized; within = omega arith }) ok)

  pub move_history-IsShell :
      (s : Shell W) (back : Bool) → IsShell z B s → IsShell z B (move_history s back)
  unfolding move_history load_line
  move_history-IsShell s back h =
      let view =
        if back then older s.history_view s.history.entry_count else newer s.history_view in
      let draft = save_draft s.history_view s.line s.draft in
      let s' : Shell W = record s { history_view = view; draft = draft } in
      let saved : IsShell z B s' = record {
        line_ok = h.line_ok;
        line_size = h.line_size;
        draft_ok =
            save_draft-IsDraft z s.history_view s.line s.draft
              (omega (arith, IsLine-sizes s.line h.line_ok)) h.draft_ok;
        history_ok = h.history_ok;
        decoder_ok = h.decoder_ok;
        backed = h.backed;
      } in
      let new = shown_text view draft s.history in
      if-IsShell (s.history.entry_count == 0) s (redraw (set_line s' new)) h (
        redraw-IsShell (set_line s' new) (
          lined-IsShell s' (load_line s'.line new) view saved
            (load_line-IsLine s'.line new saved.line_ok) refl))

  pub handle_escape_key-IsShell :
      (s : Shell W) (key : Event) → IsShell z B s → IsShell z B (handle_escape_key s key)
  unfolding handle_escape_key
  handle_escape_key-IsShell s Event.up h = move_history-IsShell s true h
  handle_escape_key-IsShell s Event.down h = move_history-IsShell s false h
  handle_escape_key-IsShell s Event.right h = elim (Bool-cases (ltb s.line.cursor s.line.len)) [
    | inl e ↦
        rw (handle_escape_key, e) (move_cursor-IsShell s (s.line.cursor + 1) (ground (arith, e)) h)
    | inr e ↦ rw (handle_escape_key, e) h
  ]
  handle_escape_key-IsShell s Event.left h =
      if-IsShell (ltb 0 s.line.cursor) (move_cursor s (s.line.cursor - 1)) s
        (move_cursor-IsShell s (s.line.cursor - 1) (omega (arith, IsLine-sizes s.line h.line_ok)) h)
        h
  handle_escape_key-IsShell s Event.home h = move_cursor-IsShell s 0 (omega arith) h
  handle_escape_key-IsShell s Event.end h = move_cursor-IsShell s s.line.len (omega arith) h
  handle_escape_key-IsShell s Event.delete h = delete_at_cursor-IsShell s h
  handle_escape_key-IsShell s Event.none_event h = h
