-- ===== src/Safety/Completing.antt =====
-- Completion keeps the invariant.
use portable_c_shell.Prelude.{
  ℕ, zero, suc, ◌+◌, ◌-◌, Bool, true, false, not, ◌||◌, Option, none, some, List, ◌++◌, refl, arith,
  Bytes, text, Bool-cases, inl, inr, leb, ltb, ◌==◌, if◌then◌else◌, length, take, is_space, decimal,
  bytes_at,
}
use portable_c_shell.Tokenizer.{split}
use portable_c_shell.Status.{Status, ok, is_ok, err_invalid_arg, err_ambiguous}
use portable_c_shell.State.{
  Shell, Config, Env, draft_view, max_line_len, nil, completion_max_matches,
}
use portable_c_shell.Output.{emit, emit_formatted}
use portable_c_shell.Output.Emits.{
  Emits, silent, Emits-trans, if-Emits, emit-Emits, emit_formatted-Emits,
}
use portable_c_shell.Display.{redraw}
use portable_c_shell.Display.Quiet.{redraw-Emits}
use portable_c_shell.Editor.{edited, walk_left}
use portable_c_shell.Completion.Candidates.{
  Level, absent, present, level_candidate, level_limit, walk_words, first_level, builtin_commands,
}
use portable_c_shell.Completion.Complete.{
  Matches, matching, splice, added_space, replace_token, print_match, print_loop, print_matches,
  apply_matches, complete_words, complete_line, walk_right, collect, no_matches,
}
use portable_c_shell.Safety.{Sizes, IsShell}
use portable_c_shell.Safety.Lines.{splice-IsLine}
use portable_c_shell.Safety.Editing.{Keeps, Emits-IsShell, lined-IsShell, redraw-IsShell}

module _ {W : Type 0} {z : Sizes} {B : Config W → W → Type 0} (keeps : Keeps B) where
  -- Either answer of a test.
  pub either-IsShell :
      (b : Bool) (p q : Shell W × Status)
      → IsShell z B p.0
      → IsShell z B q.0
      → IsShell z B (if b then p else q).0
  either-IsShell true p q h k = h
  either-IsShell false p q h k = k

  replace_token-IsShell :
      (s : Shell W) (start stop : ℕ) (new : Bytes) (append_space : Bool)
      → IsShell z B s
      → IsShell z B (replace_token s start stop new append_space).0
  unfolding replace_token splice
  replace_token-IsShell s start stop new append_space h =
      let space = added_space s.line stop append_space in
      elim (Bool-cases (ltb stop start || ltb s.line.len stop)) [
        | inl e ↦ rw e h
        | inr e ↦
            elim (Bool-cases
              (leb s.line.capacity (start + length new + length space + (s.line.len - stop)))) [
                | inl f ↦ rw (e, f) h
                | inr f ↦
                    rw (e, f)
                      (redraw-IsShell keeps (edited s (splice s.line start stop new space)) (
                        lined-IsShell keeps s (splice s.line start stop new space) draft_view h
                          (splice-IsLine s.line start stop new space h.line_ok (ground (arith, e))
                            (ground (arith, e)) (ground (arith, f)))
                          refl))
              ]
      ]

module _ {W : Type 0} (env : Env W) where
  print_match-Emits : (s : Shell W) (n : ℕ) (o : Option Bytes) → Emits s (print_match env s n o).0
  unfolding print_match
  print_match-Emits s n none = silent
  print_match-Emits s n (some name) =
      if-Emits _ s (emit_formatted s _) s (emit_formatted-Emits s _) silent

  print_loop-Emits :
      (left : ℕ) (s : Shell W) (level : Level) (wanted : Bytes) (i n : ℕ)
      → Emits s (print_loop env s level wanted left i n)
  unfolding print_loop
  print_loop-Emits zero s level wanted i n = silent
  print_loop-Emits (suc left) s level wanted i n =
      elim (level_candidate env s level i)
        as (λ c. Emits s (elim c as (λ _. Shell W) [
          | absent ↦ s
          | present name ↦
              let shown = print_match env s n (matching wanted name) in
              print_loop env shown.0 level wanted left (suc i) shown.1
        ])) [
          | absent ↦ silent
          | present name ↦
              let shown = print_match env s n (matching wanted name) in
              Emits-trans s shown.0 _ (print_match-Emits s n (matching wanted name))
                (print_loop-Emits left shown.0 level wanted (suc i) shown.1)
        ]

  print_matches-Emits :
      (s : Shell W) (level : Level) (wanted : Bytes) (n : ℕ)
      → Emits s (print_matches env s level wanted n)
  unfolding print_matches
  print_matches-Emits s level wanted n =
      let s₀ = emit s (text "\r\n") in
      let s₁ = print_loop env s₀ level wanted (level_limit level) 0 0 in
      let s₂ =
        emit_formatted s₁
          (text "... " ++ (decimal (n - completion_max_matches) ++ text " more\r\n")) in
      let s₃ = if ltb completion_max_matches n then s₂ else s₁ in
      let listed : Emits s s₁ =
        Emits-trans s s₀ s₁ (emit-Emits s _)
          (print_loop-Emits (level_limit level) s₀ level wanted 0 0) in
      Emits-trans s s₃ (redraw s₃)
        (if-Emits (ltb completion_max_matches n) s s₂ s₁
          (Emits-trans s s₁ s₂ listed (emit_formatted-Emits s₁ _)) listed)
        (redraw-Emits s₃)

module _ {W : Type 0} {z : Sizes} {B : Config W → W → Type 0} (keeps : Keeps B) (env : Env W) where
  apply_matches-IsShell :
      (s : Shell W) (level : Level) (wanted : Bytes) (start stop : ℕ) (m : Matches)
      → IsShell z B s
      → IsShell z B (apply_matches env s level wanted start stop m).0
  unfolding apply_matches
  apply_matches-IsShell s level wanted start stop m h =
      let listing : Shell W × Status =
        (print_matches env s level wanted m.match_count, err_ambiguous) in
      let common = replace_token s start stop (take m.common_len m.first) false in
      let one = replace_token s start stop m.first true in
      let several = if ltb (length wanted) m.common_len then common else listing in
      either-IsShell keeps (m.match_count == 0) (s, ok)
        (if m.match_count == 1 then one else several) h
        (either-IsShell keeps (m.match_count == 1) one several
          (replace_token-IsShell keeps s start stop m.first true h)
          (either-IsShell keeps (ltb (length wanted) m.common_len) common listing
            (replace_token-IsShell keeps s start stop (take m.common_len m.first) false h)
            (Emits-IsShell keeps s (print_matches env s level wanted m.match_count)
              (print_matches-Emits env s level wanted m.match_count) h)))

  complete_words-IsShell :
      (s : Shell W) (words : List Bytes)
      → IsShell z B s
      → IsShell z B (complete_words env s words).0
  unfolding complete_words
  complete_words-IsShell s words h =
      let start : ℕ = walk_left (λ c. not (is_space c)) s.line.buffer s.line.cursor in
      let stop : ℕ = walk_right s.line.buffer s.line.cursor (s.line.len - s.line.cursor) in
      let wanted : Bytes = bytes_at s.line.buffer start (s.line.cursor - start) in
      elim (walk_words
          (first_level s.roots (if s.cfg.builtins_enabled then builtin_commands else nil))
          (if length wanted == 0 then words else take (length words - 1) words))
        as (λ o.
          IsShell z B
            (elim o as (λ _. Shell W × Status) [
              | none ↦ (s, ok)
              | some level ↦
                  apply_matches env s level wanted start stop
                    (collect env s level wanted (level_limit level) 0 no_matches)
            ]).0) [
              | none ↦ h
              | some level ↦
                  apply_matches-IsShell s level wanted start stop
                    (collect env s level wanted (level_limit level) 0 no_matches) h
            ]

  pub complete_line-IsShell : (s : Shell W) → IsShell z B s → IsShell z B (complete_line env s).0
  unfolding complete_line
  complete_line-IsShell s h =
      let parsed = split (take s.line.cursor s.line.buffer) s.argv_capacity in
      let found = if not (is_ok parsed.0) then (s, parsed.0) else complete_words env s parsed.1 in
      either-IsShell keeps (ltb s.line.len s.line.cursor || ltb max_line_len s.line.cursor)
        (s, err_invalid_arg) found h
        (either-IsShell keeps (not (is_ok parsed.0)) (s, parsed.0) (complete_words env s parsed.1) h
          (complete_words-IsShell s parsed.1 h))
