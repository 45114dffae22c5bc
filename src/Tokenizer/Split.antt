-- ===== src/Tokenizer/Split.antt =====
-- The whole tokenizer against the automaton: the words that `argv` points to.
use Prim.Native.Nat.{pred}
use portable_c_shell.Prelude.{
  ℕ, zero, suc, ◌+◌, ◌≤◌, ◌<◌, true, false, List, [], ◌∷◌, ◌++◌, ◌≡◌, ◌≢◌, refl, sym, ap, ◌∙◌,
  arith, append-nil, length, length-append, get_or, ◌==◌, Bytes, is_space, NoNul, Bool-cases, inl,
  inr,
}
use portable_c_shell.Status.{ok, err_too_many_args}
use portable_c_shell.Tokenizer.{
  Round, scan_token, skip_spaces, failed, close_token, tokenize_loop, tokenize, split,
}
use portable_c_shell.Tokenizer.Lexer.{between, lex_at, lex, is_full, words_of}
use portable_c_shell.Tokenizer.Block.{block, scan_of, get_or-block}
use portable_c_shell.Tokenizer.Refine.{scan_lex, lex_inside}
use portable_c_shell.Tokenizer.Strings.{flat, starts, AllNoNul, length-starts, outcome}
use portable_c_shell.Tokenizer.Gaps.{skip_lem}
use portable_c_shell.Tokenizer.Closing.{
  body, loop-body, stop_lem, lex-done, close_lem, AgreesBelow, rest_of_loop,
}

module _ (capacity : ℕ) where
  lex-full :
      (c : ℕ) (unread : Bytes) (ws : List Bytes)
      → is_space c ≡ false
      → is_full capacity ws ≡ true
      → lex capacity (lex_at between [] ws) (c ∷ unread) ≡ (err_too_many_args, [])
  unfolding lex
  lex-full c unread ws plain full = rw (lex, plain, full)

  lex-word :
      (c : ℕ) (unread : Bytes) (ws : List Bytes)
      → is_space c ≡ false
      → is_full capacity ws ≡ false
      → lex capacity (lex_at between [] ws) (c ∷ unread)
        ≡ lex_inside capacity (flat ws) ws 0 [] (c ∷ unread)
  unfolding lex
  lex-word c unread ws plain free = rw (lex, plain, free)

  nonzero : (c : ℕ) → c ≢ 0 → (c == 0) ≡ false
  nonzero c ne = ground arith

  body-stop :
      (rounds fuel : ℕ) (memory : Bytes) (write : ℕ) (argv : List ℕ) (c : ℕ) (token : Round)
      → c ≢ 0
      → body capacity rounds fuel memory write argv c 0 token
        ≡ record { status = ok; memory = memory; argv = argv }
  body-stop rounds fuel memory write argv c token ne = rw (nonzero c ne)

  body-full :
      (rounds fuel : ℕ) (memory : Bytes) (ws : List Bytes) (c d : ℕ) (token : Round)
      → c ≢ 0
      → d ≢ 0
      → is_full capacity ws ≡ true
      → body capacity rounds fuel memory (length (flat ws)) (starts 0 ws) c d token
        ≡ failed err_too_many_args memory
  body-full rounds fuel memory ws c d token ne nd full =
      rw (nonzero c ne, nonzero d nd, length-starts, full)

  body-free :
      (rounds fuel : ℕ) (memory : Bytes) (ws : List Bytes) (c d : ℕ) (token : Round)
      → c ≢ 0
      → d ≢ 0
      → is_full capacity ws ≡ false
      → body capacity rounds fuel memory (length (flat ws)) (starts 0 ws) c d token
        ≡ close_token (rest_of_loop capacity rounds fuel ws) token
  body-free rounds fuel memory ws c d token ne nd free =
      rw (nonzero c ne, nonzero d nd, length-starts, free)

  -- One round of the outer loop, once the white space is skipped.
  round_lem :
      (rounds fuel : ℕ) (gap : Bytes) (c : ℕ) (unread : Bytes) (ws : List Bytes)
      → c ≢ 0
      → AgreesBelow capacity rounds fuel
      → length unread < rounds
      → length unread < pred fuel
      → AllNoNul ws
      → (gap' rest : Bytes)
      → skip_spaces fuel (block (flat ws) gap (c ∷ unread)) (length (flat ws) + length gap)
        ≡ length (flat ws) + length gap'
      → block (flat ws) gap (c ∷ unread) ≡ block (flat ws) gap' rest
      → length rest ≤ suc (length unread)
      → NoNul rest
      → is_space (get_or (rest ++ (0 ∷ [])) 0 0) ≡ false
      → outcome (
          tokenize_loop
            (suc rounds)
            fuel
            capacity
            (block (flat ws) gap (c ∷ unread))
            (length (flat ws) + length gap)
            (length (flat ws))
            (starts 0 ws))
        ≡ lex capacity (lex_at between [] ws) rest
  round_lem rounds fuel gap c unread ws ne ih h k clean gap' [] stop same shorter raw ready =
      ap outcome (
        loop-body capacity rounds fuel _ _ _ _
          (get_or-block (flat ws) gap (c ∷ unread) 0 _ (omega arith)) stop
          (ap (λ m. get_or m (length (flat ws) + length gap') 0) same
            ∙ get_or-block (flat ws) gap' [] 0 _ (omega arith))
          refl)
      ∙ ap outcome (body-stop rounds fuel _ (length (flat ws)) (starts 0 ws) c token ne)
      ∙ ap (λ m. outcome (record { status = ok; memory = m; argv = starts 0 ws })) same
      ∙ stop_lem capacity gap' ws clean
      ∙ sym (lex-done capacity ws)
    where
      token : Round
      token = scan_token fuel (record {
        memory = block (flat ws) gap (c ∷ unread);
        read = length (flat ws) + length gap';
        write = length (flat ws);
        quote = 0;
      })
  round_lem rounds fuel gap c unread ws ne ih h k clean gap' (d ∷ rest) stop same shorter raw
        ready =
      step ∙ elim (Bool-cases (is_full capacity ws)) [
        | inl full ↦
            ap outcome (body-full rounds fuel _ ws c d _ ne raw.0 full)
            ∙ sym (lex-full d rest ws ready full)
        | inr free ↦
            ap outcome (body-free rounds fuel _ ws c d _ ne raw.0 free)
            ∙ close_lem capacity ih (omega arith) (omega arith) clean
                (scan_lex capacity (flat ws) ws fuel [] gap' (d ∷ rest) 0 (omega arith) tt raw)
            ∙ sym (lex-word d rest ws ready free)
      ]
    where
      step :
          outcome (
            tokenize_loop
              (suc rounds)
              fuel
              capacity
              (block (flat ws) gap (c ∷ unread))
              (length (flat ws) + length gap)
              (length (flat ws))
              (starts 0 ws))
          ≡ outcome (
              body capacity rounds fuel
                (block (flat ws) gap (c ∷ unread))
                (length (flat ws))
                (starts 0 ws)
                c
                d
                (scan_token fuel (scan_of (flat ws ++ []) gap' (d ∷ rest) 0)))
      step = ap outcome (
          loop-body capacity rounds fuel _ _ _ _
            (get_or-block (flat ws) gap (c ∷ unread) 0 _ (omega arith)) stop
            (ap (λ m. get_or m (length (flat ws) + length gap') 0) same
              ∙ get_or-block (flat ws) gap' (d ∷ rest) 0 _ (omega arith))
            (ap
                (λ m. scan_token fuel (record {
                  memory = m;
                  read = length (flat ws) + length gap';
                  write = length (flat ws);
                  quote = 0;
                }))
                same
              ∙ ap (λ o. scan_token fuel (scan_of o gap' (d ∷ rest) 0))
                  (sym (append-nil (flat ws)))))

  loop_lem : (rounds fuel : ℕ) → AgreesBelow capacity rounds fuel
  loop_lem zero fuel gap unread ws h k raw clean = absurd (omega arith)
  loop_lem (suc rounds) fuel gap [] ws h k raw clean =
      ap outcome (
        loop-body capacity rounds fuel _ _ _ _ (get_or-block (flat ws) gap [] 0 _ (omega arith))
          refl refl refl)
      ∙ stop_lem capacity gap ws clean
      ∙ sym (lex-done capacity ws)
  loop_lem (suc rounds) fuel gap (c ∷ unread) ws h k raw clean =
      let skipped = skip_lem capacity fuel (flat ws) gap (c ∷ unread) ws k raw in
      round_lem rounds fuel gap c unread ws raw.0 (loop_lem rounds fuel) (omega arith) (omega arith)
        clean skipped.gap' skipped.rest skipped.stop skipped.same skipped.shorter skipped.raw
        skipped.ready
      ∙ sym skipped.lexed

-- On a line without NUL bytes the tokenizer returns the status and the words of the automaton, for
-- every capacity of the argument array.
pub split_lem :
    (line : Bytes) (capacity : ℕ) → NoNul line → split line capacity ≡ words_of capacity line
unfolding split tokenize words_of
split_lem line capacity clean =
    let fuel : ℕ = suc (length (line ++ (0 ∷ []))) in
    let enough : length line < fuel = omega (arith, length-append line (0 ∷ [])) in
    elim (Bool-cases (capacity == 0)) [
      | inl e ↦ rw e
      | inr e ↦ rw e (loop_lem capacity fuel fuel [] line [] enough enough clean tt)
    ]
