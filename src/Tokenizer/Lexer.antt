-- ===== src/Tokenizer/Lexer.antt =====
-- A description of the command language that is independent of the in-place code: an automaton
-- that reads the line byte by byte and collects the words in lists.
use portable_c_shell.Prelude.{
  ℕ, Bool, not, ◌&&◌, ◌||◌, List, [], ◌∷◌, ◌++◌, length, leb, ◌==◌, if◌then◌else◌, Bytes, is_space,
}
use portable_c_shell.Status.{Status, ok, err_invalid_arg, err_too_many_args, err_unterminated_quote}
use portable_c_shell.Tokenizer.{is_quote, int_max}

-- Between two words; inside a word, under a quote (0 for none); or behind a backslash.
pub data Mode : Type 0 where
  between : Mode
  inside : ℕ → Mode
  escaped : ℕ → Mode

-- The mode, the bytes of the word that is being read, and the words before it.
pub record Lex : Type 0 where
  pub mode : Mode
  pub current : Bytes
  pub words : List Bytes

pub data Next : Type 0 where
  refused : Status → Next
  going : Lex → Next

abbrev pub lex_at : Mode → Bytes → List Bytes → Lex
lex_at m cur ws = record { mode = m; current = cur; words = ws }

unfoldable pub inside_byte : ℕ → Bytes → List Bytes → ℕ → Next
inside_byte q cur ws c =
    if q == 0 && is_space c
    then going (lex_at between [] (ws ++ (cur ∷ [])))
    else if c == b'\\' && not (q == b'\'')
    then going (lex_at (escaped q) cur ws)
    else if q == 0
    then (if is_quote c
        then going (lex_at (inside c) cur ws)
        else going (lex_at (inside 0) (cur ++ (c ∷ [])) ws))
    else if c == q
    then going (lex_at (inside 0) cur ws)
    else going (lex_at (inside q) (cur ++ (c ∷ [])) ws)

module _ (capacity : ℕ) where
  abbrev pub is_full : List Bytes → Bool
  is_full ws = leb capacity (length ws) || leb int_max (length ws)

  abbrev pub lex_byte : Mode → Bytes → List Bytes → ℕ → Next
  lex_byte between cur ws c =
      if is_space c
      then going (lex_at between cur ws)
      else if is_full ws
      then refused err_too_many_args
      else inside_byte 0 [] ws c
  lex_byte (inside q) cur ws c = inside_byte q cur ws c
  lex_byte (escaped q) cur ws c = going (lex_at (inside q) (cur ++ (c ∷ [])) ws)

  abbrev pub lex_end : Mode → Bytes → List Bytes → Status × List Bytes
  lex_end between cur ws = (ok, ws)
  lex_end (inside q) cur ws =
      if q == 0 then (ok, ws ++ (cur ∷ [])) else (err_unterminated_quote, [])
  lex_end (escaped q) cur ws = (err_invalid_arg, [])

  unfoldable pub lex : Lex → Bytes → Status × List Bytes
  lex x [] = lex_end x.mode x.current x.words
  lex x (c ∷ line) = elim (lex_byte x.mode x.current x.words c) [
    | refused status ↦ (status, [])
    | going y ↦ lex y line
  ]

  -- The words of a line, or why it has none.
  unfoldable pub words_of : Bytes → Status × List Bytes
  words_of line = if capacity == 0 then (err_invalid_arg, []) else lex (lex_at between [] []) line
