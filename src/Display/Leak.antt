-- ===== src/Display/Leak.antt =====
-- The echo of a line that cannot be tokenized.
use portable_c_shell.Prelude.{
  ℕ, ◌+◌, ◌<◌, Bool, false, not, ◌&&◌, List, [], ◌∷◌, ◌++◌, ◌≡◌, ◌≢◌, refl, sym, ap, subst, arith,
  ◌⊎◌, inl, inr, Bytes, length, length-append, take_all, ltb, ◌==◌, if◌then◌else◌, is_space, NoNul,
  NoNul-append, Bool-cases,
}
use portable_c_shell.Status.{
  Status, is_ok, err_invalid_arg, err_too_many_args, err_unterminated_quote,
}
use portable_c_shell.State.{Shell, max_line_len}
use portable_c_shell.Tokenizer.{split, is_quote}
use portable_c_shell.Tokenizer.Lexer.{
  Mode, Next, Lex, between, inside, escaped, lex, lex_at, lex_byte, is_full, inside_byte, words_of,
  refused, going,
}
use portable_c_shell.Tokenizer.Split.{split_lem}
use portable_c_shell.Display.{parse_for_display, display_line, line_text, unmatched_quote}

-- Text without quotes, backslashes and NUL bytes.
abbrev pub Plain : Bytes → Type 0
Plain [] = Unit {0}
Plain (c ∷ cs) = (c ≢ 0) × (c ≢ b'"') × (c ≢ b'\'') × (c ≢ b'\\') × Plain cs

Plain-NoNul : (xs : Bytes) → Plain xs → NoNul xs
Plain-NoNul [] p = tt
Plain-NoNul (x ∷ xs) (nul, _, _, _, p) = (nul, Plain-NoNul xs p)

-- The statuses of a line that ends in a backslash.
abbrev pub Fails : Status → Type 0
Fails status = (status ≡ err_invalid_arg) ⊎ (status ≡ err_too_many_args)

-- Outside quotes.
abbrev pub IsOpen : Mode → Type 0
IsOpen between = Unit {0}
IsOpen (inside q) = q ≡ 0
IsOpen (escaped q) = ⊥

abbrev StaysOpen : Next → Type 0
StaysOpen (refused status) = status ≡ err_too_many_args
StaysOpen (going y) = IsOpen y.mode

module _ (capacity : ℕ) where
  inside_byte-StaysOpen :
      (cur : Bytes) (ws : List Bytes) (c : ℕ)
      → c ≢ b'"'
      → c ≢ b'\''
      → c ≢ b'\\'
      → StaysOpen (inside_byte 0 cur ws c)
  unfolding inside_byte
  inside_byte-StaysOpen cur ws c dq sq bs =
      let no_quote : is_quote c ≡ false = ground arith in
      let no_escape : (c == b'\\') ≡ false = ground arith in
      elim (Bool-cases (is_space c)) [ inl e ↦ rw e tt | inr e ↦ rw (e, no_escape, no_quote) refl ]

  lex_byte-StaysOpen :
      (m : Mode) (cur : Bytes) (ws : List Bytes) (c : ℕ)
      → IsOpen m
      → c ≢ b'"'
      → c ≢ b'\''
      → c ≢ b'\\'
      → StaysOpen (lex_byte capacity m cur ws c)
  lex_byte-StaysOpen between cur ws c o dq sq bs = elim (Bool-cases (is_space c)) [
    | inl e ↦ rw e tt
    | inr e ↦ elim (Bool-cases (is_full capacity ws)) [
      | inl f ↦ rw (e, f) refl
      | inr f ↦ rw (e, f) (inside_byte-StaysOpen [] ws c dq sq bs)
    ]
  ]
  lex_byte-StaysOpen (inside q) cur ws c o dq sq bs = rw o (inside_byte-StaysOpen cur ws c dq sq bs)
  lex_byte-StaysOpen (escaped q) cur ws c o dq sq bs = absurd o

  -- What the rest of a line makes of a step.
  after_step :
      (n : Next) (line : Bytes)
      → StaysOpen n
      → ((y : Lex) → IsOpen y.mode → Fails (lex capacity y line).0)
      → Fails
          (elim n as (λ _. Status × List Bytes) [
            | refused status ↦ (status, [])
            | going y ↦ lex capacity y line
          ]).0
  after_step (refused status) line h next = inr h
  after_step (going y) line h next = next y h

  last_backslash :
      (m : Mode) (cur : Bytes) (ws : List Bytes)
      → IsOpen m
      → Fails (lex capacity (lex_at m cur ws) (b'\\' ∷ [])).0
  unfolding lex inside_byte
  last_backslash between cur ws o = elim (Bool-cases (is_full capacity ws)) [
    | inl e ↦ rw (lex, e) (inr refl)
    | inr e ↦ rw (lex, e) (inl refl)
  ]
  last_backslash (inside q) cur ws o = rw (lex, o) (inl refl)
  last_backslash (escaped q) cur ws o = absurd o

  lex-Fails :
      (x : Lex) (xs : Bytes)
      → IsOpen x.mode
      → Plain xs
      → Fails (lex capacity x (xs ++ b'\\' ∷ [])).0
  unfolding lex
  lex-Fails x [] o p = last_backslash x.mode x.current x.words o
  lex-Fails x (c ∷ xs) o (nul, dq, sq, bs, p) =
      after_step (lex_byte capacity x.mode x.current x.words c) (xs ++ b'\\' ∷ [])
        (lex_byte-StaysOpen x.mode x.current x.words c o dq sq bs)
        (λ y unquoted. lex-Fails y xs unquoted p)

  split-Fails : (xs : Bytes) → Plain xs → Fails (split (xs ++ b'\\' ∷ []) capacity).0
  unfolding words_of
  split-Fails xs p =
      subst Fails
        (sym (
          ap (λ r. r.0)
            (split_lem (xs ++ b'\\' ∷ []) capacity
              (NoNul-append xs _ (Plain-NoNul xs p) (λ e. absurd (omega (arith, e)), tt)))))
        (elim (Bool-cases (capacity == 0)) [
          | inl e ↦ rw e (inl refl)
          | inr e ↦ rw e (lex-Fails (lex_at between [] []) xs tt p)
        ])

abbrev kept : Status → List Bytes → Status × List Bytes → Bool → Status × List Bytes
kept st ws retry b = elim st as (λ _. Status × List Bytes) [
  | err_unterminated_quote ↦ if b then retry else (st, ws)
  | _ ↦ (st, ws)
]

-- A status that is not an open quote is kept.
kept_status :
    (first retry : Status × List Bytes) (b : Bool)
    → Fails first.0
    → is_ok (kept first.0 first.1 retry b).0 ≡ false
kept_status (st, ws) retry b (inl e) =
    subst (λ st. is_ok (kept st ws retry b).0 ≡ false) (sym e) refl
kept_status (st, ws) retry b (inr e) =
    subst (λ st. is_ok (kept st ws retry b).0 ≡ false) (sym e) refl

Fails-parse :
    (line : Bytes) (capacity : ℕ)
    → Fails (split line capacity).0
    → is_ok (parse_for_display line capacity).0 ≡ false
unfolding parse_for_display
Fails-parse line capacity f =
    kept_status (split line capacity) (split (line ++ unmatched_quote line ∷ []) capacity)
      (ltb (length line + 1) (max_line_len + 2) && not (unmatched_quote line == 0)) f

module _ {W : Type 0} where
  -- A line of plain text with a backslash at its end, of at most SH_MAX_LINE_LEN bytes, is echoed
  -- as it is, whatever commands and masking there are.
  pub display_line_unmasked :
      (s : Shell W) (xs : Bytes)
      → line_text s ≡ xs ++ b'\\' ∷ []
      → Plain xs
      → length xs < max_line_len
      → display_line s ≡ xs ++ b'\\' ∷ []
  unfolding display_line
  display_line_unmasked s xs e p fits =
      rw (e, Fails-parse (xs ++ b'\\' ∷ []) s.argv_capacity (split-Fails s.argv_capacity xs p))
        (take_all max_line_len (xs ++ b'\\' ∷ [])
          (omega (arith, fits, length-append xs (b'\\' ∷ []))))
