-- ===== src/Editor/Browse.antt =====
-- Browsing the history: `move_history` of shell/src/sh_shell.c, up from the draft and down again.
use portable_c_shell.Prelude.{
  ℕ, suc, ◌+◌, ◌-◌, ◌≤◌, ◌<◌, Bool, true, false, Option, some, [], ◌∷◌, ◌++◌, ◌≡◌, sym, ap, ap₂,
  ◌∙◌, subst, arith, Bytes, leb, ◌==◌, if◌then◌else◌, length, length-append, length-take,
  length-drop, take, take_all, take-length_append, set, blit, set-blit_terminated, c_string,
  c_string-append, NoNul, append_assoc, drop,
}
use portable_c_shell.State.{Shell, Line, View, draft_view, entry_view}
use portable_c_shell.Output.Quiet.{Quiet}
use portable_c_shell.Display.Quiet.{redraw-Quiet}
use portable_c_shell.Editor.{
  load_line, older, newer, save_draft, shown_text, set_line, move_history,
}
use portable_c_shell.Editor.Text.{line_ext}
use portable_c_shell.Editor.Keys.{Shows, Shows-sizes}

-- How many bytes of a text `set_line` takes.
abbrev pub loaded : Line → Bytes → ℕ
loaded l new = if leb l.capacity (length new) then l.capacity - 1 else length new

-- A text copied to the front of the buffer, with a NUL behind it.
pub load_line-take :
    (l : Line) (left right new : Bytes)
    → Shows l left right
    → Shows (load_line l new) (take (loaded l new) new) []
unfolding load_line
load_line-take l left right new shows = (
  drop (suc (loaded l new)) l.buffer,
  line_ext
      (ap (λ n. set (blit l.buffer 0 (take (loaded l new) new)) n 0) (sym shown)
        ∙ set-blit_terminated l.buffer (take (loaded l new) new)
            (omega (arith, sizes, shown, short))
        ∙ ap (λ n. take (loaded l new) new ++ (0 ∷ drop (suc n) l.buffer)) shown)
      (omega (
        arith,
        sizes,
        shown,
        short,
        length-append (take (loaded l new) new) (0 ∷ drop (suc (loaded l new)) l.buffer),
        length-drop (suc (loaded l new)) l.buffer,
      ))
      (omega (arith, shown)) (omega (arith, shown)),
)
  where
    sizes :
        (l.cursor ≡ length left)
        × (l.len ≡ length left + length right)
        × (l.len < l.capacity)
        × (l.capacity ≡ length l.buffer)
    sizes = Shows-sizes l left right shows

    short : (loaded l new ≤ length new) × (loaded l new < l.capacity)
    short = ground (arith, sizes)

    shown : length (take (loaded l new) new) ≡ loaded l new
    shown = omega (arith, length-take (loaded l new) new, short)

-- A text that fits is loaded whole.
pub load_line-Shows :
    (l : Line) (left right new : Bytes)
    → Shows l left right
    → length new < l.capacity
    → Shows (load_line l new) new []
load_line-Shows l left right new shows fits =
    let whole : loaded l new ≡ length new = ground (arith, fits) in
    subst (λ k. Shows (load_line l new) k [])
      (ap (λ n. take n new) whole ∙ take_all (length new) new (omega arith))
      (load_line-take l left right new shows)

-- The draft that is saved of a line is its text.
save_draft-Shows :
    (l : Line) (left right d : Bytes)
    → Shows l left right
    → NoNul (left ++ right)
    → l.capacity ≤ length d
    → (d' : Bytes) × (save_draft draft_view l (some d) ≡ some d') × (c_string d' ≡ left ++ right)
save_draft-Shows l left right d (rest, e) clean fits =
    let (_, len, inside, _) = Shows-sizes l left right (rest, e) in
    let whole : (if leb l.capacity l.len then l.capacity - 1 else l.len) ≡ length (left ++ right) =
      ground (arith, len, inside, length-append left right) in
    let copied : take (length (left ++ right)) l.buffer ≡ left ++ right =
      ap {A = Line} (λ k. take (length (left ++ right)) k.buffer) e
      ∙ ap (take (length (left ++ right))) (sym (append_assoc left right (0 ∷ rest)))
      ∙ take-length_append (left ++ right) (0 ∷ rest) in
    let text = left ++ right in
    (
      text ++ (0 ∷ drop (suc (length text)) d),
      ap (λ n. some (set (blit d 0 (take n l.buffer)) n 0)) whole
          ∙ ap (λ t. some (set (blit d 0 t) (length text) 0)) copied
          ∙ ap some (
              set-blit_terminated d text
                (omega (arith, fits, len, inside, length-append left right))),
      c_string-append text (drop (suc (length text)) d) clean,
    )

module _ {W : Type 0} where
  -- What `move_history` makes of a shell, but for the redraw.
  abbrev navigated : Shell W → Bool → Shell W
  navigated s back =
      let view =
        if back then older s.history_view s.history.entry_count else newer s.history_view in
      let draft = save_draft s.history_view s.line s.draft in
      set_line (record s { history_view = view; draft = draft }) (shown_text view draft s.history)

  move_history-Quiet :
      (s : Shell W) (back : Bool)
      → 0 < s.history.entry_count
      → Quiet (navigated s back) (move_history s back)
  unfolding move_history
  move_history-Quiet s back entries =
      let some_entry : (s.history.entry_count == 0) ≡ false = ground (arith, entries) in
      rw some_entry (redraw-Quiet (navigated s back))

  -- From an unfinished line, one step up into a history with entries and one step down restore the
  -- text of the line, with the cursor at its end, if the text has no NUL bytes and there is a draft
  -- buffer of the size of the line.
  pub move_history_back :
      (s : Shell W) (left right d : Bytes)
      → s.history_view ≡ draft_view
      → 0 < s.history.entry_count
      → Shows s.line left right
      → NoNul (left ++ right)
      → s.draft ≡ some d
      → s.line.capacity ≤ length d
      → ((move_history (move_history s true) false).history_view ≡ draft_view)
        × Shows (move_history (move_history s true) false).line (left ++ right) []
  unfolding load_line
  move_history_back s left right d unfinished entries shows clean has_draft fits =
      let up = move_history s true in
      let up_is : Quiet (navigated s true) up = move_history-Quiet s true entries in
      let view_is : up.history_view ≡ entry_view 0 =
        ap {A = Shell W} {B = View} (λ t. t.history_view) up_is
        ∙ ap (λ v. older v s.history.entry_count) unfinished in
      let (d', saved, text_is) = save_draft-Shows s.line left right d shows clean fits in
      let draft_is : up.draft ≡ some d' =
        ap {A = Shell W} {B = Option Bytes} (λ t. t.draft) up_is
        ∙ ap₂ (λ v o. save_draft v s.line o) unfinished has_draft
        ∙ saved in
      let count_is : up.history.entry_count ≡ s.history.entry_count =
        ap {A = Shell W} {B = ℕ} (λ t. t.history.entry_count) up_is in
      let down_is : Quiet (navigated up false) (move_history up false) =
        move_history-Quiet up false (omega (arith, entries, count_is)) in
      let entry : Bytes =
        shown_text (older s.history_view s.history.entry_count)
          (save_draft s.history_view s.line s.draft) s.history in
      let entry_shows : Shows up.line (take (loaded s.line entry) entry) [] =
        subst (λ l. Shows l (take (loaded s.line entry) entry) [])
          (sym (ap {A = Shell W} {B = Line} (λ t. t.line) up_is))
          (load_line-take s.line left right entry shows) in
      let capacity_is : up.line.capacity ≡ s.line.capacity =
        ap {A = Shell W} {B = ℕ} (λ t. t.line.capacity) up_is in
      let new_is : shown_text (newer up.history_view) (save_draft up.history_view up.line up.draft)
            up.history
          ≡ left ++ right =
        ap₂ (λ v o. shown_text (newer v) (save_draft v up.line o) up.history) view_is draft_is
        ∙ text_is in
      let (_, len, inside, _) = Shows-sizes s.line left right shows in
      (
        ap {A = Shell W} {B = View} (λ t. t.history_view) down_is ∙ ap newer view_is,
        subst (λ l. Shows l (left ++ right) [])
            (sym
              (ap {A = Shell W} {B = Line} (λ t. t.line) down_is ∙ ap (load_line up.line) new_is))
            (load_line-Shows up.line (take (loaded s.line entry) entry) [] (left ++ right)
              entry_shows (omega (arith, len, inside, capacity_is, length-append left right))),
      )
