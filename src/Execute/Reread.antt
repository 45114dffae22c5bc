-- ===== src/Execute/Reread.antt =====
-- Reading back what the history keeps: the tokenizer of shell/src/sh_tokenizer.c on the line that
-- `build_history_line` of shell/src/sh_shell.c has put together.
use portable_c_shell.Prelude.{
  ℕ, suc, ◌+◌, ◌≤◌, ◌<◌, Bool, false, ◌||◌, Option, List, [], ◌∷◌, ◌++◌, ◌≡◌, ◌≢◌, ◌⊎◌, refl, sym,
  ap, ◌∙◌, arith, append-nil, append_assoc, Bool-cases, inl, inr, length, length-append, ◌==◌,
  Bytes, is_space, NoNul, NoNul-append,
}
use portable_c_shell.Status.{Status, ok}
use portable_c_shell.State.{max_line_len}
use portable_c_shell.Command.Lookup.{Resolved}
use portable_c_shell.Tokenizer.{split, int_max}
use portable_c_shell.Tokenizer.Lexer.{
  Mode, between, inside, escaped, Lex, lex_at, refused, going, inside_byte, is_full, lex_byte, lex,
  words_of,
}
use portable_c_shell.Tokenizer.Split.{split_lem}
use portable_c_shell.Execute.{has_special, token_needs_quotes, rebuild}
use portable_c_shell.Execute.Printed.{escape, printed, followed, joined, shown, rebuild-joined}

-- A token without NUL bytes, line feeds, vertical tabs, form feeds and carriage returns.
abbrev pub Plain : Bytes → Type 0
Plain [] = Unit {0}
Plain (c ∷ token) = (c ≢ 0) × ((c < 10) ⊎ (13 < c)) × Plain token

abbrev pub AllPlain : List Bytes → Type 0
AllPlain [] = Unit {0}
AllPlain (token ∷ tokens) = Plain token × AllPlain tokens

module _ (capacity : ℕ) where
  lex_step :
      (m : Mode) (cur : Bytes) (ws : List Bytes) (y : Lex) (c : ℕ) (line : Bytes)
      → lex_byte capacity m cur ws c ≡ going y
      → lex capacity (lex_at m cur ws) (c ∷ line) ≡ lex capacity y line
  unfolding lex
  lex_step m cur ws y c line e = rw e refl

  -- Inside double quotes, an escaped text is read as the text.
  lex_quoted :
      (cur token rest : Bytes) (ws : List Bytes)
      → lex capacity (lex_at (inside b'"') cur ws) (escape token ++ rest)
        ≡ lex capacity (lex_at (inside b'"') (cur ++ token) ws) rest
  unfolding inside_byte
  lex_quoted cur [] rest ws =
      ap (λ t. lex capacity (lex_at (inside b'"') t ws) rest) (sym (append-nil cur))
  lex_quoted cur (c ∷ token) rest ws =
      let next =
        lex_quoted (cur ++ (c ∷ [])) token rest ws
        ∙ ap (λ t. lex capacity (lex_at (inside b'"') t ws) rest)
            (append_assoc cur (c ∷ []) token) in
      elim (Bool-cases (c == b'"' || c == b'\\')) [
        | inl e ↦ rw e (
            lex_step (inside b'"') cur ws (lex_at (escaped b'"') cur ws) b'\\'
              (c ∷ (escape token ++ rest)) refl
            ∙ lex_step (escaped b'"') cur ws (lex_at (inside b'"') (cur ++ (c ∷ [])) ws) c
                (escape token ++ rest) refl
            ∙ next)
        | inr e ↦ rw e (
            lex_step (inside b'"') cur ws (lex_at (inside b'"') (cur ++ (c ∷ [])) ws) c
              (escape token ++ rest) (ground (arith, e))
            ∙ next)
      ]

  -- Outside quotes, a text without special bytes is read as it is.
  lex_bare :
      (cur token rest : Bytes) (ws : List Bytes)
      → has_special token ≡ false
      → Plain token
      → lex capacity (lex_at (inside 0) cur ws) (escape token ++ rest)
        ≡ lex capacity (lex_at (inside 0) (cur ++ token) ws) rest
  unfolding inside_byte
  lex_bare cur [] rest ws h p =
      ap (λ t. lex capacity (lex_at (inside 0) t ws) rest) (sym (append-nil cur))
  lex_bare cur (c ∷ token) rest ws h (some_byte, place, p) =
      let bare : (c == b'"' || c == b'\\') ≡ false = ground (arith, h) in
      let later : has_special token ≡ false = ground (arith, h) in
      rw bare (
        lex_step (inside 0) cur ws (lex_at (inside 0) (cur ++ (c ∷ [])) ws) c (escape token ++ rest)
          (ground (arith, h, place))
        ∙ lex_bare (cur ++ (c ∷ [])) token rest ws later p
        ∙ ap (λ t. lex capacity (lex_at (inside 0) t ws) rest) (append_assoc cur (c ∷ []) token))

  lex-printed :
      (token rest : Bytes) (ws : List Bytes)
      → Plain token
      → lex capacity (lex_at (inside 0) [] ws) (printed token ++ rest)
        ≡ lex capacity (lex_at (inside 0) token ws) rest
  unfolding inside_byte
  lex-printed token rest ws p = elim (Bool-cases (token_needs_quotes token)) [
    | inl e ↦ rw e (
        lex_step (inside 0) [] ws (lex_at (inside b'"') [] ws) b'"'
          ((escape token ++ (b'"' ∷ [])) ++ rest) refl
        ∙ ap (lex capacity (lex_at (inside b'"') [] ws))
            (append_assoc (escape token) (b'"' ∷ []) rest)
        ∙ lex_quoted [] token (b'"' ∷ rest) ws
        ∙ lex_step (inside b'"') token ws (lex_at (inside 0) token ws) b'"' rest refl)
    | inr e ↦ rw e (lex_bare [] token rest ws (unquoted token e) p)
  ]
    where
      unquoted : (t : Bytes) → token_needs_quotes t ≡ false → has_special t ≡ false
      unquoted [] e = refl
      unquoted (c ∷ t) e = e

  same_byte :
      (c : ℕ) (ws : List Bytes)
      → is_space c ≡ false
      → is_full capacity ws ≡ false
      → lex_byte capacity between [] ws c ≡ lex_byte capacity (inside 0) [] ws c
  same_byte c ws e f = rw (e, f) refl

  -- Two modes that take a byte alike read on alike.
  lex_same :
      (m n : Mode) (cur old : Bytes) (ws : List Bytes) (c : ℕ) (line : Bytes)
      → lex_byte capacity m cur ws c ≡ lex_byte capacity n old ws c
      → lex capacity (lex_at m cur ws) (c ∷ line) ≡ lex capacity (lex_at n old ws) (c ∷ line)
  unfolding lex
  lex_same m n cur old ws c line e =
      ap
        (λ k. elim k as (λ _. Status × List Bytes) [
          | refused status ↦ (status, [])
          | going y ↦ lex capacity y line
        ])
        e

  -- A word begins with its first byte, as inside a word.
  lex_begin :
      (c : ℕ) (rest : Bytes) (ws : List Bytes)
      → is_space c ≡ false
      → is_full capacity ws ≡ false
      → lex capacity (lex_at between [] ws) (c ∷ rest)
        ≡ lex capacity (lex_at (inside 0) [] ws) (c ∷ rest)
  lex_begin c rest ws e f = lex_same between (inside 0) [] [] ws c rest (same_byte c ws e f)

  -- A printed token begins with a byte that is no white space.
  printed_head :
      (token : Bytes)
      → Plain token
      → (c : ℕ) × (rest : Bytes) × (printed token ≡ c ∷ rest) × (is_space c ≡ false)
  printed_head [] p = (b'"', b'"' ∷ [], refl, refl)
  printed_head (c ∷ token) (some_byte, place, p) = elim (Bool-cases (has_special (c ∷ token))) [
    | inl e ↦ (b'"', escape (c ∷ token) ++ (b'"' ∷ []), rw e refl, refl)
    | inr e ↦
        let bare : (c == b'"' || c == b'\\') ≡ false = ground (arith, e) in
        (c, escape token, rw (e, bare) refl, ground (arith, e, place))
  ]

  lex_first :
      (token rest : Bytes) (ws : List Bytes)
      → Plain token
      → is_full capacity ws ≡ false
      → lex capacity (lex_at between [] ws) (printed token ++ rest)
        ≡ lex capacity (lex_at (inside 0) token ws) rest
  lex_first token rest ws p f =
      let (c, text, e, plain) = printed_head token p in
      ap (λ t. lex capacity (lex_at between [] ws) (t ++ rest)) e
      ∙ lex_begin c (text ++ rest) ws plain f
      ∙ ap (λ t. lex capacity (lex_at (inside 0) [] ws) (t ++ rest)) (sym e)
      ∙ lex-printed token rest ws p

  lex-followed :
      (token : Bytes) (tokens ws : List Bytes)
      → AllPlain tokens
      → length ws + suc (length tokens) ≤ capacity
      → length ws + suc (length tokens) ≤ int_max
      → lex capacity (lex_at (inside 0) token ws) (followed tokens) ≡ (ok, ws ++ (token ∷ tokens))
  unfolding lex inside_byte
  lex-followed token [] ws p room room' = refl
  lex-followed token (next ∷ tokens) ws (p, ps) room room' =
      let ws' = ws ++ (token ∷ []) in
      let len = length-append ws (token ∷ []) in
      let free : is_full capacity ws' ≡ false = ground (arith, len, room, room') in
      lex_step (inside 0) token ws (lex_at between [] ws') 32 (printed next ++ followed tokens) refl
      ∙ lex_first next (followed tokens) ws' p free
      ∙ lex-followed next tokens ws' ps (omega (arith, len, room)) (omega (arith, len, room'))
      ∙ ap (λ t. (ok, t)) (append_assoc ws (token ∷ []) (next ∷ tokens))

  lex_joined :
      (tokens : List Bytes)
      → AllPlain tokens
      → 0 < capacity
      → length tokens ≤ capacity
      → length tokens ≤ int_max
      → words_of capacity (joined tokens) ≡ (ok, tokens)
  unfolding words_of lex
  lex_joined tokens p some_room room room' =
      let positive : (capacity == 0) ≡ false = ground (arith, some_room) in
      rw positive (go tokens p room room')
    where
      go :
          (tokens : List Bytes)
          → AllPlain tokens
          → length tokens ≤ capacity
          → length tokens ≤ int_max
          → lex capacity (lex_at between [] []) (joined tokens) ≡ (ok, tokens)
      go [] p room room' = refl
      go (token ∷ tokens) (p, ps) room room' =
          lex_first token (followed tokens) [] p (ground (arith, room))
          ∙ lex-followed token tokens [] ps (omega (arith, room)) (omega (arith, room'))

escape-NoNul : (token : Bytes) → Plain token → NoNul (escape token)
escape-NoNul [] p = tt
escape-NoNul (c ∷ token) (some_byte, place, p) = ground (arith, some_byte, escape-NoNul token p)

printed-NoNul : (token : Bytes) → Plain token → NoNul (printed token)
printed-NoNul token p = elim (Bool-cases (token_needs_quotes token)) [
  | inl e ↦ rw e (
    omega arith,
    NoNul-append (escape token) (b'"' ∷ []) (escape-NoNul token p) (omega arith, tt),
  )
  | inr e ↦ rw e (escape-NoNul token p)
]

followed-NoNul : (tokens : List Bytes) → AllPlain tokens → NoNul (followed tokens)
followed-NoNul [] p = tt
followed-NoNul (token ∷ tokens) (p, ps) = (
  omega arith,
  NoNul-append (printed token) (followed tokens) (printed-NoNul token p) (followed-NoNul tokens ps),
)

joined-NoNul : (tokens : List Bytes) → AllPlain tokens → NoNul (joined tokens)
joined-NoNul [] p = tt
joined-NoNul (token ∷ tokens) (p, ps) =
    NoNul-append (printed token) (followed tokens) (printed-NoNul token p)
      (followed-NoNul tokens ps)

-- The line that the history keeps of arguments with hidden ones among them, tokenized again, gives
-- back the arguments, each hidden one as `<hidden>`, if the line fits the buffer of
-- `build_history_line` and there is room for as many arguments, none of which, as it is shown, has a
-- NUL byte, a line feed, a vertical tab, a form feed or a carriage return in it.
pub split-rebuild :
    (policy : Option (Bytes → ℕ → Bytes → Bool)) (r : Resolved) (args : List Bytes) (capacity : ℕ)
    → AllPlain (shown policy r 0 args)
    → length (joined (shown policy r 0 args)) ≤ max_line_len
    → 0 < capacity
    → length (shown policy r 0 args) ≤ capacity
    → length (shown policy r 0 args) ≤ int_max
    → split (rebuild policy r 0 args []) capacity ≡ (ok, shown policy r 0 args)
split-rebuild policy r args capacity plain fits some_room room room' =
    let tokens = shown policy r 0 args in
    ap (λ t. split t capacity) (rebuild-joined policy r args fits)
    ∙ split_lem (joined tokens) capacity (joined-NoNul tokens plain)
    ∙ lex_joined capacity tokens plain some_room room room'
