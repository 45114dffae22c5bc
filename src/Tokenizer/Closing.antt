-- ===== src/Tokenizer/Closing.antt =====
-- The outer loop of `sh_tokenize`, shell/src/sh_tokenizer.c: its body, and the end of a word.
use portable_c_shell.Prelude.{
  ℕ, zero, suc, ◌+◌, ◌<◌, ◌||◌, List, [], ◌∷◌, ◌++◌, map, ◌≡◌, refl, sym, ap, ◌∙◌, arith,
  append-nil, append_assoc, length, length-append, get_or, set, drop, ◌==◌, leb, if◌then◌else◌,
  Bytes, NoNul, c_string, set-length_append,
}
use portable_c_shell.Status.{Status, ok, err_too_many_args}
use portable_c_shell.Tokenizer.{
  Round, scan_token, skip_spaces, Tokenized, failed, close_token, tokenize_loop, int_max,
}
use portable_c_shell.Tokenizer.Lexer.{between, lex_at, lex}
use portable_c_shell.Tokenizer.Block.{block, get_or-block, set-block}
use portable_c_shell.Tokenizer.Refine.{Outcome, word, last, open_end, dangle}
use portable_c_shell.Tokenizer.Strings.{
  flat, starts, AllNoNul, AllNoNul-concat, flat-concat, starts-concat, strings-starts, outcome,
}

module _ (capacity : ℕ) where
  -- A round of the outer loop, on the bytes at `read` and behind the white space, and on how the
  -- loop over the token ends.
  abbrev pub body : ℕ → ℕ → Bytes → ℕ → List ℕ → ℕ → ℕ → Round → Tokenized
  body rounds fuel memory write argv b b' token =
      if b == 0
      then record { status = ok; memory = memory; argv = argv }
      else if b' == 0
      then record { status = ok; memory = memory; argv = argv }
      else if leb capacity (length argv) || leb int_max (length argv)
      then failed err_too_many_args memory
      else close_token (λ m r w. tokenize_loop rounds fuel capacity m r w (argv ++ (write ∷ [])))
          token

  pub loop-body :
      (rounds fuel : ℕ) (memory : Bytes) (read write : ℕ) (argv : List ℕ) {b b' start : ℕ}
      {token : Round}
      → get_or memory read 0 ≡ b
      → skip_spaces fuel memory read ≡ start
      → get_or memory start 0 ≡ b'
      → scan_token fuel (record { memory = memory; read = start; write = write; quote = 0 }) ≡ token
      → tokenize_loop (suc rounds) fuel capacity memory read write argv
        ≡ body rounds fuel memory write argv b b' token
  unfolding tokenize_loop
  loop-body rounds fuel memory read write argv p q r t =
      let r' = ap (λ k. get_or memory k 0) q ∙ r in
      let t' =
        ap (λ k. scan_token fuel (record { memory = memory; read = k; write = write; quote = 0 })) q
        ∙ t in
      λ i. body rounds fuel memory write argv (p i) (r' i) (t' i)

  -- The loop stops at the end of the line with the words that it has.
  pub stop_lem :
      (gap : Bytes) (ws : List Bytes)
      → AllNoNul ws
      → outcome (record { status = ok; memory = block (flat ws) gap []; argv = starts 0 ws })
        ≡ (ok, ws)
  stop_lem gap ws clean = ap (λ k. (ok, k)) (strings-starts ws [] (gap ++ (0 ∷ [])) clean)

  pub lex-done : (ws : List Bytes) → lex capacity (lex_at between [] ws) [] ≡ (ok, ws)
  unfolding lex
  lex-done ws = refl

  -- The loop does from this state what the automaton does between two words.
  abbrev pub Agrees : ℕ → ℕ → Bytes → Bytes → List Bytes → Type 0
  Agrees rounds fuel gap unread ws =
      outcome (
        tokenize_loop rounds fuel capacity (block (flat ws) gap unread)
          (length (flat ws) + length gap) (length (flat ws)) (starts 0 ws))
      ≡ lex capacity (lex_at between [] ws) unread

  abbrev pub AgreesBelow : ℕ → ℕ → Type 0
  AgreesBelow rounds fuel =
      (gap unread : Bytes) (ws : List Bytes)
      → length unread < rounds
      → length unread < fuel
      → NoNul unread
      → AllNoNul ws
      → Agrees rounds fuel gap unread ws

  -- The rest of the loop after the word that begins behind `ws`.
  abbrev pub rest_of_loop : ℕ → ℕ → List Bytes → Bytes → ℕ → ℕ → Tokenized
  rest_of_loop rounds fuel ws m r w =
      tokenize_loop rounds fuel capacity m r w (starts 0 ws ++ (length (flat ws) ∷ []))

  starts-next :
      (ws : List Bytes) (w : Bytes)
      → starts 0 ws ++ (length (flat ws) ∷ []) ≡ starts 0 (ws ++ (w ∷ []))
  starts-next ws w = sym (starts-concat ws w 0 ∙ ap (λ k. starts 0 ws ++ (k ∷ [])) (omega arith))

  -- A last word that ends with the line, whose NUL is the line's own.
  close_last :
      (rounds fuel : ℕ) (ws : List Bytes) (cur : Bytes)
      → 0 < rounds
      → AllNoNul ws
      → NoNul cur
      → outcome (
          rest_of_loop rounds fuel ws
            (set (block (flat ws ++ cur) [] []) (length (flat ws ++ cur)) 0)
            (length (flat ws ++ cur) + 0)
            (suc (length (flat ws ++ cur))))
        ≡ (ok, ws ++ (cur ∷ []))
  close_last zero fuel ws cur h clean k = absurd (omega arith)
  close_last (suc rounds) fuel ws cur h clean k =
      ap outcome (loop-body rounds fuel _ _ _ _ at_end refl refl refl)
      ∙ (λ i. (ok, map (λ start. c_string (drop start (memory i))) (starts-next ws cur i)))
      ∙ ap (λ l. (ok, l)) (strings-starts (ws ++ (cur ∷ [])) [] [] (AllNoNul-concat ws cur clean k))
    where
      out : Bytes
      out = flat ws ++ cur

      kept : set (block out [] []) (length out) 0 ≡ out ++ (0 ∷ [])
      kept = set-length_append out [] 0 0

      at_end : get_or (set (block out [] []) (length out) 0) (length out + 0) 0 ≡ 0
      at_end = ap (λ m. get_or m (length out + 0) 0) kept ∙ get_or-block out [] [] 0 _ (omega arith)

      memory : set (block out [] []) (length out) 0 ≡ flat (ws ++ (cur ∷ [])) ++ []
      memory =
          kept
          ∙ append_assoc (flat ws) cur (0 ∷ [])
          ∙ sym (append-nil (flat (ws ++ (cur ∷ []))) ∙ flat-concat ws cur)

  -- A word whose NUL is written over a byte of the gap.
  close_word :
      (rounds fuel : ℕ) (ws : List Bytes) (cur : Bytes) (g : ℕ) (gap rest : Bytes)
      → rest_of_loop rounds fuel ws
          (set (block (flat ws ++ cur) (g ∷ gap) rest) (length (flat ws ++ cur)) 0)
          (length (flat ws ++ cur) + suc (length gap))
          (suc (length (flat ws ++ cur)))
        ≡ tokenize_loop rounds fuel capacity
            (block (flat (ws ++ (cur ∷ []))) gap rest)
            (length (flat (ws ++ (cur ∷ []))) + length gap)
            (length (flat (ws ++ (cur ∷ []))))
            (starts 0 (ws ++ (cur ∷ [])))
  close_word rounds fuel ws cur g gap rest =
      λ i. tokenize_loop rounds fuel capacity (memory i) (read i) (write i) (starts-next ws cur i)
    where
      next : Bytes
      next = flat (ws ++ (cur ∷ []))

      joined : (flat ws ++ cur) ++ (0 ∷ []) ≡ next
      joined = append_assoc (flat ws) cur (0 ∷ []) ∙ sym (flat-concat ws cur)

      memory :
          set (block (flat ws ++ cur) (g ∷ gap) rest) (length (flat ws ++ cur)) 0
          ≡ block next gap rest
      memory = set-block (flat ws ++ cur) g gap rest 0 ∙ ap (λ o. block o gap rest) joined

      write : suc (length (flat ws ++ cur)) ≡ length next
      write = omega (arith, ap length joined, length-append (flat ws ++ cur) (0 ∷ []))

      read : length (flat ws ++ cur) + suc (length gap) ≡ length next + length gap
      read = omega (arith, write)

  pub close_lem :
      {rounds fuel : ℕ} {ws : List Bytes} {r : Round} {l : Status × List Bytes} {n : ℕ}
      → AgreesBelow rounds fuel
      → n < rounds
      → n < fuel
      → AllNoNul ws
      → Outcome capacity (flat ws) ws r l n
      → outcome (close_token (rest_of_loop rounds fuel ws) r) ≡ l
  unfolding close_token
  close_lem {rounds} {fuel} {ws} ih h k clean (word cur g gap rest p q b c d) =
      rw (p, q)
        (ap outcome (close_word rounds fuel ws cur g gap rest)
          ∙ ih gap rest (ws ++ (cur ∷ [])) (omega arith) (omega arith) d
              (AllNoNul-concat ws cur clean c))
  close_lem {rounds} {fuel} {ws} ih h k clean (last cur p q c) =
      rw (p, q) (close_last rounds fuel ws cur (omega arith) clean c)
  close_lem ih h k clean (open_end s p e q) = rw (p, q, close_token, e)
  close_lem ih h k clean (dangle s p q) = rw (p, q)
