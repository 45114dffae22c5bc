-- ===== src/Editor.antt =====
-- The line editor of shell/src/sh_shell.c: each operation works on the buffer of the line as the
-- code does, by `memmove` and `memcpy`, and redraws.
pub mod Text
pub mod Keys
pub mod Words
pub mod Browse
use portable_c_shell.Prelude.{
  ℕ, zero, suc, ◌+◌, ◌-◌, Bool, true, false, not, ◌&&◌, ◌||◌, Option, none, some, List, [], ◌∷◌,
  length, take, get_or, set, ltb, leb, ◌==◌, if◌then◌else◌, Bytes, text, blit, memmove, zero_fill,
  c_string, is_space,
}
use portable_c_shell.Status.{Status, ok, err_line_too_long}
use portable_c_shell.Ansi
use portable_c_shell.Ansi.{Event}
use portable_c_shell.State.{Shell, Line, Config, History, View, draft_view, entry_view}
use portable_c_shell.History
use portable_c_shell.Output.{emit, prompt, write}
use portable_c_shell.Display.{display_line, redraw}

-- The buffer part of `set_line`.
unfoldable pub load_line : Line → Bytes → Line
load_line l new =
    let len : ℕ = if leb l.capacity (length new) then l.capacity - 1 else length new in
    record l { buffer = set (blit l.buffer 0 (take len new)) len 0; len = len; cursor = len }

-- The buffer part of `insert_char`.
unfoldable pub insert_at_cursor : Line → ℕ → Line
insert_at_cursor l c = record l {
  buffer = set (memmove l.buffer (l.cursor + 1) l.cursor (l.len - l.cursor + 1)) l.cursor c;
  len = l.len + 1;
  cursor = l.cursor + 1;
}

-- The buffer part of `backspace`.
unfoldable pub erase_before_cursor : Line → Line
erase_before_cursor l = record l {
  buffer = memmove l.buffer (l.cursor - 1) l.cursor (l.len - l.cursor + 1);
  len = l.len - 1;
  cursor = l.cursor - 1;
}

-- The buffer part of `delete_at_cursor`.
unfoldable pub erase_at_cursor : Line → Line
erase_at_cursor l = record l {
  buffer = memmove l.buffer l.cursor (l.cursor + 1) (l.len - l.cursor);
  len = l.len - 1;
}

-- The two loops of `delete_word_left`, each a walk to the left while its test holds.
abbrev pub walk_left : (ℕ → Bool) → Bytes → ℕ → ℕ
walk_left test buffer zero = 0
walk_left test buffer (suc start) = elim (test (get_or buffer start 0)) [
  | true ↦ walk_left test buffer start
  | false ↦ suc start
]

unfoldable pub word_start : Line → ℕ
word_start l = walk_left (λ c. not (is_space c)) l.buffer (walk_left is_space l.buffer l.cursor)

-- The buffer part of `delete_word_left`.
unfoldable pub erase_from : Line → ℕ → Line
erase_from l start = record l {
  buffer = memmove l.buffer start l.cursor (l.len - l.cursor + 1);
  len = l.len - (l.cursor - start);
  cursor = start;
}

-- `line_len = 0; cursor = 0;` and the clearing of the buffer; the flag is secure_clear_enabled.
unfoldable pub wipe_line : Bool → Line → Line
wipe_line secure l = record l {
  buffer = if secure then zero_fill l.buffer l.capacity else set l.buffer 0 0;
  len = 0;
  cursor = 0;
}

-- The clearing of the draft by `cancel_input_line` and `handle_enter`.
abbrev pub wipe_draft : Bool → ℕ → Option Bytes → Option Bytes
wipe_draft secure capacity none = none
wipe_draft secure capacity (some d) = some (if secure then zero_fill d capacity else set d 0 0)

-- The clearing of the draft by `clear_input_line`.
abbrev pub wipe_draft_if_secure : Bool → ℕ → Option Bytes → Option Bytes
wipe_draft_if_secure secure capacity none = none
wipe_draft_if_secure secure capacity (some d) = some (if secure then zero_fill d capacity else d)

-- `direction < 0` is towards older entries.
abbrev pub older : View → ℕ → View
older draft_view n = entry_view 0
older (entry_view v) n = if ltb (v + 1) n then entry_view (v + 1) else entry_view v

abbrev pub newer : View → View
newer draft_view = draft_view
newer (entry_view zero) = draft_view
newer (entry_view (suc v)) = entry_view v

-- The saving of the draft when navigation begins.
abbrev pub save_draft : View → Line → Option Bytes → Option Bytes
save_draft (entry_view v) l draft = draft
save_draft draft_view l none = none
save_draft draft_view l (some d) =
    let len : ℕ = if leb l.capacity l.len then l.capacity - 1 else l.len in
    some (set (blit d 0 (take len l.buffer)) len 0)

-- What `move_history` loads: the draft, or an entry.
abbrev pub shown_text : View → Option Bytes → History → Bytes
shown_text draft_view none h = []
shown_text draft_view (some d) h = c_string d
shown_text (entry_view v) draft h = elim (History.get_newest h v) [ none ↦ [] | some e ↦ e ]

module _ {W : Type 0} where
  -- The changed line, with `history_view = -1`.
  abbrev pub edited : Shell W → Line → Shell W
  edited s l = record s { line = l; history_view = draft_view }

  -- `set_line`
  abbrev pub set_line : Shell W → Bytes → Shell W
  set_line s new = record s { line = load_line s.line new }

  -- `move_history`; the flag is `direction < 0`.
  unfoldable pub move_history : Shell W → Bool → Shell W
  move_history s back =
      let view =
        if back then older s.history_view s.history.entry_count else newer s.history_view in
      let draft = save_draft s.history_view s.line s.draft in
      let s' = record s { history_view = view; draft = draft } in
      if s.history.entry_count == 0
      then s
      else redraw (set_line s' (shown_text view draft s.history))

  -- `insert_char`
  unfoldable pub insert_char : Shell W → ℕ → Shell W × Status
  insert_char s c =
      let s' = edited s (insert_at_cursor s.line c) in
      if leb s.line.capacity (s.line.len + 1)
      then (prompt (emit s (text "\r\nerror: line too long\r\n")), err_line_too_long)
      else if s.echo_enabled && s.line.cursor == s.line.len
      then ((write s' (get_or (display_line s') s.line.cursor 0 ∷ [])).0, ok)
      else (redraw s', ok)

  unfoldable pub backspace : Shell W → Shell W
  backspace s = if s.line.cursor == 0 then s else redraw (edited s (erase_before_cursor s.line))

  unfoldable pub delete_at_cursor : Shell W → Shell W
  delete_at_cursor s =
      if leb s.line.len s.line.cursor then s else redraw (edited s (erase_at_cursor s.line))

  unfoldable pub delete_word_left : Shell W → Shell W
  delete_word_left s =
      let start = word_start s.line in
      if start == s.line.cursor then s else redraw (edited s (erase_from s.line start))

  unfoldable pub clear_input_line : Shell W → Shell W
  clear_input_line s =
      let secure = s.cfg.secure_clear_enabled in
      redraw (record s {
        line = wipe_line secure s.line;
        history_view = draft_view;
        draft = wipe_draft_if_secure secure s.line.capacity s.draft;
      })

  -- The state after a line is done: cleared, with an empty draft.
  abbrev pub finish_line : Shell W → Shell W
  finish_line s =
      let secure = s.cfg.secure_clear_enabled in
      record s {
        line = wipe_line secure s.line;
        history_view = draft_view;
        draft = wipe_draft secure s.line.capacity s.draft;
      }

  unfoldable pub cancel_input_line : Shell W → Shell W
  cancel_input_line s =
      let s₁ = finish_line (emit s (text "^C\r\n")) in
      prompt (record s₁ { ansi = Ansi.reset s₁.ansi })

  abbrev pub move_cursor : Shell W → ℕ → Shell W
  move_cursor s cursor =
      if s.line.cursor == cursor
      then s
      else redraw (record s { line = record (s.line) { cursor = cursor } })

  -- `handle_escape_key`
  unfoldable pub handle_escape_key : Shell W → Event → Shell W
  handle_escape_key s Event.up = move_history s true
  handle_escape_key s Event.down = move_history s false
  handle_escape_key s Event.right =
      if ltb s.line.cursor s.line.len then move_cursor s (s.line.cursor + 1) else s
  handle_escape_key s Event.left =
      if ltb 0 s.line.cursor then move_cursor s (s.line.cursor - 1) else s
  handle_escape_key s Event.home = move_cursor s 0
  handle_escape_key s Event.end = move_cursor s s.line.len
  handle_escape_key s Event.delete = delete_at_cursor s
  handle_escape_key s Event.none_event = s
