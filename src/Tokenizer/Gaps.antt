-- ===== src/Tokenizer/Gaps.antt =====
-- The loop over white space of `sh_tokenize`, shell/src/sh_tokenizer.c, beside the automaton.
use portable_c_shell.Prelude.{
  ℕ, zero, suc, ◌+◌, ◌≤◌, ◌<◌, true, false, List, [], ◌∷◌, ◌++◌, ◌≡◌, refl, ap, ap₂, ◌∙◌, arith,
  length, length-append, get_or, Bytes, is_space, NoNul, Bool-cases, inl, inr,
}
use portable_c_shell.Tokenizer.{skip_spaces}
use portable_c_shell.Tokenizer.Lexer.{between, lex_at, lex}
use portable_c_shell.Tokenizer.Block.{block, get_or-block, block-read}

skip-byte :
    (fuel : ℕ) (memory : Bytes) (read : ℕ) {b : ℕ}
    → get_or memory read 0 ≡ b
    → skip_spaces (suc fuel) memory read
      ≡ elim (is_space b) [ true ↦ skip_spaces fuel memory (suc read) | false ↦ read ]
unfolding skip_spaces
skip-byte fuel memory read e =
    ap (λ b. elim (is_space b) [ true ↦ skip_spaces fuel memory (suc read) | false ↦ read ]) e

module _ (capacity : ℕ) where
  -- Skipping white space, beside the automaton.
  pub record Skipped (out gap unread : Bytes) (ws : List Bytes) (fuel : ℕ) : Type 0 where
    pub gap' : Bytes
    pub rest : Bytes
    pub stop :
        skip_spaces fuel (block out gap unread) (length out + length gap) ≡ length out + length gap'
    pub same : block out gap unread ≡ block out gap' rest
    pub lexed :
        lex capacity (lex_at between [] ws) unread ≡ lex capacity (lex_at between [] ws) rest
    pub shorter : length rest ≤ length unread
    pub raw : NoNul rest
    pub ready : is_space (get_or (rest ++ (0 ∷ [])) 0 0) ≡ false

  lex-space :
      (c : ℕ) (unread : Bytes) (ws : List Bytes)
      → is_space c ≡ true
      → lex capacity (lex_at between [] ws) (c ∷ unread)
        ≡ lex capacity (lex_at between [] ws) unread
  unfolding lex
  lex-space c unread ws space = rw (lex, space)

  pub skip_lem :
      (fuel : ℕ) (out gap unread : Bytes) (ws : List Bytes)
      → length unread < fuel
      → NoNul unread
      → Skipped out gap unread ws fuel
  skip_lem zero out gap unread ws h clean = absurd (omega arith)
  skip_lem (suc fuel) out gap [] ws h clean = record {
    gap' = gap;
    rest = [];
    stop = skip-byte fuel _ _ (get_or-block out gap [] 0 _ (omega arith));
    same = refl;
    lexed = refl;
    shorter = omega arith;
    raw = tt;
    ready = refl;
  }
  skip_lem (suc fuel) out gap (c ∷ unread) ws h clean = elim (Bool-cases (is_space c)) [
    | inl space ↦
        let later = skip_lem fuel out (gap ++ c ∷ []) unread ws (omega arith) clean.1 in
        record {
          gap' = later.gap';
          rest = later.rest;
          stop =
              skip-byte fuel _ _ here
              ∙ rw space (
                  ap₂ (skip_spaces fuel) (block-read out gap (c ∷ []) unread)
                    (omega (arith, length-append gap (c ∷ [])))
                  ∙ later.stop);
          same = block-read out gap (c ∷ []) unread ∙ later.same;
          lexed = lex-space c unread ws space ∙ later.lexed;
          shorter = omega (arith, later.shorter);
          raw = later.raw;
          ready = later.ready;
        }
    | inr plain ↦ record {
      gap' = gap;
      rest = c ∷ unread;
      stop = skip-byte fuel _ _ here ∙ rw plain;
      same = refl;
      lexed = refl;
      shorter = omega arith;
      raw = clean;
      ready = plain;
    }
  ]
    where
      here : get_or (block out gap (c ∷ unread)) (length out + length gap) 0 ≡ c
      here = get_or-block out gap (c ∷ unread) 0 _ (omega arith)
