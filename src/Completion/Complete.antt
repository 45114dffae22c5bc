-- ===== src/Completion/Complete.antt =====
-- `sh_complete_line_internal`, `replace_token` and `print_matches` of shell/src/sh_completion.c.
use portable_c_shell.Prelude.{
  ℕ, zero, suc, ◌+◌, ◌-◌, Bool, true, false, not, ◌&&◌, ◌||◌, Option, none, some, List, [], ◌∷◌,
  ◌++◌, length, take, get_or, ltb, leb, ◌==◌, if◌then◌else◌, Bytes, text, blit, memmove, bytes_at,
  is_space, has_prefix, decimal, min,
}
use portable_c_shell.Status.{Status, ok, err_invalid_arg, err_line_too_long, err_ambiguous, is_ok}
use portable_c_shell.Tokenizer.{split}
use portable_c_shell.State.{nil, Shell, Line, Env, draft_view, max_line_len, completion_max_matches}
use portable_c_shell.Output.{emit, emit_formatted}
use portable_c_shell.Display.{redraw}
use portable_c_shell.Editor.{walk_left}
use portable_c_shell.Completion.Candidates.{
  Level, absent, present, level_limit, level_candidate, first_level, walk_words, builtin_commands,
}

unfoldable pub common_prefix_len : Bytes → Bytes → ℕ
common_prefix_len (x ∷ xs) (y ∷ ys) = if x == y then suc (common_prefix_len xs ys) else 0
common_prefix_len _ _ = 0

-- `first_match`, `common_len` and `match_count`.
pub record Matches : Type 0 where
  pub first : Bytes
  pub common_len : ℕ
  pub match_count : ℕ

abbrev pub no_matches : Matches
no_matches = record { first = []; common_len = 0; match_count = 0 }

-- One more match.
unfoldable pub add_match : Matches → Bytes → Matches
add_match m name =
    let kept = take max_line_len name in
    if m.match_count == 0
    then record { first = kept; common_len = length kept; match_count = 1 }
    else record m {
      common_len = min m.common_len (common_prefix_len m.first name);
      match_count = m.match_count + 1;
    }

-- A candidate that is visible and starts with the prefix.
abbrev pub matching : Bytes → Option Bytes → Option Bytes
matching wanted none = none
matching wanted (some name) = if has_prefix name wanted then some name else none

abbrev pub count_match : Matches → Option Bytes → Matches
count_match m none = m
count_match m (some name) = add_match m name

-- The loop of `token_end`: a walk to the right over `left` bytes at most.
abbrev pub walk_right : Bytes → ℕ → ℕ → ℕ
walk_right buffer index zero = index
walk_right buffer index (suc left) = elim (is_space (get_or buffer index 0)) [
  | true ↦ index
  | false ↦ walk_right buffer (suc index) left
]

-- The buffer part of `replace_token`; `space` is the text " " or nothing.
unfoldable pub splice : Line → ℕ → ℕ → Bytes → Bytes → Line
splice l start stop new space =
    let moved : Bytes =
      memmove l.buffer (start + length new + length space) stop (l.len - stop + 1) in
    let written : Bytes = blit (blit moved start new) (start + length new) space in
    record l {
      buffer = written;
      len = start + length new + length space + (l.len - stop);
      cursor = start + length new + length space;
    }

-- Whether `replace_token` adds a space.
abbrev pub added_space : Line → ℕ → Bool → Bytes
added_space l stop append_space =
    if append_space && (stop == l.len || not (is_space (get_or l.buffer stop 0)))
    then text " "
    else []

module _ {W : Type 0} where
  unfoldable pub replace_token : Shell W → ℕ → ℕ → Bytes → Bool → Shell W × Status
  replace_token s start stop new append_space =
      let space : Bytes = added_space s.line stop append_space in
      if ltb stop start || ltb s.line.len stop
      then (s, err_invalid_arg)
      else if leb s.line.capacity (start + length new + length space + (s.line.len - stop))
      then (s, err_line_too_long)
      else (
        redraw (record s { line = splice s.line start stop new space; history_view = draft_view }),
        ok,
      )

module _ {W : Type 0} (env : Env W) where
  -- The loop that collects the matches, from candidate `i` on.
  unfoldable pub collect : Shell W → Level → Bytes → ℕ → ℕ → Matches → Matches
  collect s level wanted zero i m = m
  collect s level wanted (suc left) i m = elim (level_candidate env s level i) [
    | absent ↦ m
    | present name ↦ collect s level wanted left (suc i) (count_match m (matching wanted name))
  ]

  -- One candidate of the loop of `print_matches`.
  unfoldable pub print_match : Shell W → ℕ → Option Bytes → Shell W × ℕ
  print_match s displayed none = (s, displayed)
  print_match s displayed (some name) = (
    if ltb displayed completion_max_matches then emit_formatted s (name ++ text "\r\n") else s,
    displayed + 1,
  )

  unfoldable pub print_loop : Shell W → Level → Bytes → ℕ → ℕ → ℕ → Shell W
  print_loop s level wanted zero i displayed = s
  print_loop s level wanted (suc left) i displayed = elim (level_candidate env s level i) [
    | absent ↦ s
    | present name ↦
        let shown = print_match s displayed (matching wanted name) in
        print_loop shown.0 level wanted left (suc i) shown.1
  ]

  unfoldable pub print_matches : Shell W → Level → Bytes → ℕ → Shell W
  print_matches s level wanted match_count =
      let s₁ = print_loop (emit s (text "\r\n")) level wanted (level_limit level) 0 0 in
      let s₂ =
        emit_formatted s₁
          (text "... " ++ (decimal (match_count - completion_max_matches) ++ text " more\r\n")) in
      redraw (if ltb completion_max_matches match_count then s₂ else s₁)

  -- What is done with the matches of the token between `start` and `stop`.
  unfoldable pub apply_matches : Shell W → Level → Bytes → ℕ → ℕ → Matches → Shell W × Status
  apply_matches s level wanted start stop m =
      if m.match_count == 0
      then (s, ok)
      else if m.match_count == 1
      then replace_token s start stop m.first true
      else if ltb (length wanted) m.common_len
      then replace_token s start stop (take m.common_len m.first) false
      else (print_matches s level wanted m.match_count, err_ambiguous)

  -- `sh_complete_line_internal` behind the tokenizing of the text left of the cursor.
  unfoldable pub complete_words : Shell W → List Bytes → Shell W × Status
  complete_words s words =
      let start : ℕ = walk_left (λ c. not (is_space c)) s.line.buffer s.line.cursor in
      let stop : ℕ = walk_right s.line.buffer s.line.cursor (s.line.len - s.line.cursor) in
      let wanted : Bytes = bytes_at s.line.buffer start (s.line.cursor - start) in
      let before : List Bytes =
        if length wanted == 0 then words else take (length words - 1) words in
      let root = first_level s.roots (if s.cfg.builtins_enabled then builtin_commands else nil) in
      elim (walk_words root before) [
        | none ↦ (s, ok)
        | some level ↦
            apply_matches s level wanted start stop
              (collect s level wanted (level_limit level) 0 no_matches)
      ]

  -- `sh_complete_line_internal`
  unfoldable pub complete_line : Shell W → Shell W × Status
  complete_line s =
      let parsed = split (take s.line.cursor s.line.buffer) s.argv_capacity in
      if ltb s.line.len s.line.cursor || ltb max_line_len s.line.cursor
      then (s, err_invalid_arg)
      else if not (is_ok parsed.0)
      then (s, parsed.0)
      else complete_words s parsed.1
