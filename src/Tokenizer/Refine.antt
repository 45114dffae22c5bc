-- ===== src/Tokenizer/Refine.antt =====
-- The loop over one token does what the automaton does.
use portable_c_shell.Prelude.{
  ℕ, zero, suc, ◌+◌, ◌-◌, ◌≤◌, ◌<◌, false, not, ◌&&◌, List, [], ◌∷◌, ◌++◌, ◌≡◌, ◌≢◌, refl, ap, ◌∙◌,
  arith, append_assoc, length, get_or, ◌==◌, if◌then◌else◌, Bytes, is_space, NoNul, NoNul-append,
  Bool-cases, inl, inr,
}
use portable_c_shell.Status.{Status, err_invalid_arg, err_unterminated_quote, ok}
use portable_c_shell.Tokenizer.{
  Scan, Round, leave, dangling, again, is_quote, round, round_on, scan_token, put,
}
use portable_c_shell.Tokenizer.Lexer.{
  between, inside, escaped, Lex, lex_at, going, inside_byte, lex,
}
use portable_c_shell.Tokenizer.Block.{
  scan_of, gap_after, scan-read, scan-put, round-block, round-block_end,
}

-- A round on a byte of the line, beside the automaton's step on it: the word ends, a backslash is
-- met, a quote opens or closes, or the byte is copied.
data Paired (s : Scan) (cur : Bytes) (words : List Bytes) (c d : ℕ) : Type 0 where
  ends :
      round_on s c d ≡ leave (record s { read = suc s.read; quote = 0 })
      → inside_byte s.quote cur words c ≡ going (lex_at between [] (words ++ (cur ∷ [])))
      → Paired s cur words c d
  escapes :
      round_on s c d ≡ (if d == 0 then dangling s else again (put s (suc (suc s.read)) d))
      → inside_byte s.quote cur words c ≡ going (lex_at (escaped s.quote) cur words)
      → Paired s cur words c d
  turns :
      (q : ℕ)
      → round_on s c d ≡ again (record s { read = suc s.read; quote = q })
      → inside_byte s.quote cur words c ≡ going (lex_at (inside q) cur words)
      → Paired s cur words c d
  copies :
      round_on s c d ≡ again (put s (suc s.read) c)
      → inside_byte s.quote cur words c ≡ going (lex_at (inside s.quote) (cur ++ (c ∷ [])) words)
      → Paired s cur words c d

paired : (s : Scan) (cur : Bytes) (words : List Bytes) (c d : ℕ) → c ≢ 0 → Paired s cur words c d
unfolding round_on inside_byte
paired s cur words c d ne = elim (Bool-cases (s.quote == 0)) [
  | inl out ↦ elim (Bool-cases (is_space c)) [
    | inl space ↦ ends (ground arith) (ground arith)
    | inr plain ↦ elim (Bool-cases (c == b'\\')) [
      | inl slash ↦ escapes (ground arith) (ground arith)
      | inr other ↦ elim (Bool-cases (is_quote c)) [
        | inl quote ↦ turns c (ground arith) (ground arith)
        | inr byte ↦ copies (ground arith) (ground arith)
      ]
    ]
  ]
  | inr within ↦ elim (Bool-cases (c == b'\\' && not (s.quote == b'\''))) [
    | inl slash ↦ escapes (ground arith) (ground arith)
    | inr other ↦ elim (Bool-cases (c == s.quote)) [
      | inl close ↦ turns 0 (ground arith) (ground arith)
      | inr byte ↦ copies (ground arith) (ground arith)
    ]
  ]
]

-- What `scan_token` goes on with.
abbrev after_round : ℕ → Round → Round
after_round fuel r = elim r [
  | leave t ↦ leave t
  | dangling t ↦ dangling t
  | again t ↦ scan_token fuel t
]

scan_token-round :
    (fuel : ℕ) (s : Scan) {r : Round} → round s ≡ r → scan_token (suc fuel) s ≡ after_round fuel r
unfolding scan_token
scan_token-round fuel s e = ap (after_round fuel) e

module _ (capacity : ℕ) (done : Bytes) (words : List Bytes) where
  abbrev pub lex_inside : ℕ → Bytes → Bytes → Status × List Bytes
  lex_inside q cur unread = lex capacity (lex_at (inside q) cur words) unread

  -- How the loop over a token ends, beside what the automaton says of the line: a word was read
  -- and a byte of the gap is left for its NUL; the last word ends at the end of the line; a quote
  -- is open; or the line ends in a backslash. The last argument bounds what is left to read.
  pub data Outcome : Round → Status × List Bytes → ℕ → Type 0 where
    word :
        {r : Round} {l : Status × List Bytes} {n : ℕ} (cur : Bytes) (g : ℕ) (gap rest : Bytes)
        → r ≡ leave (scan_of (done ++ cur) (g ∷ gap) rest 0)
        → l ≡ lex capacity (lex_at between [] (words ++ (cur ∷ []))) rest
        → length rest ≤ n
        → NoNul cur
        → NoNul rest
        → Outcome r l n
    last :
        {r : Round} {l : Status × List Bytes} {n : ℕ} (cur : Bytes)
        → r ≡ leave (scan_of (done ++ cur) [] [] 0)
        → l ≡ (ok, words ++ (cur ∷ []))
        → NoNul cur
        → Outcome r l n
    open_end :
        {r : Round} {l : Status × List Bytes} {n : ℕ} (s : Scan)
        → r ≡ leave s
        → (s.quote == 0) ≡ false
        → l ≡ (err_unterminated_quote, [])
        → Outcome r l n
    dangle :
        {r : Round} {l : Status × List Bytes} {n : ℕ} (s : Scan)
        → r ≡ dangling s
        → l ≡ (err_invalid_arg, [])
        → Outcome r l n

  Outcome-le :
      {r : Round} {l : Status × List Bytes} {n m : ℕ} → n ≤ m → Outcome r l n → Outcome r l m
  Outcome-le h (word cur g gap rest p q b c d) = word cur g gap rest p q (omega arith) c d
  Outcome-le h (last cur p q c) = last cur p q c
  Outcome-le h (open_end s p q e) = open_end s p q e
  Outcome-le h (dangle s p q) = dangle s p q

  scan_end :
      (fuel : ℕ) (cur gap : Bytes) (q : ℕ)
      → NoNul cur
      → Outcome (scan_token (suc fuel) (scan_of (done ++ cur) gap [] q)) (lex_inside q cur []) 0
  unfolding lex
  scan_end fuel cur [] zero clean =
      last cur (scan_token-round fuel _ (round-block_end (done ++ cur) [] 0)) refl clean
  scan_end fuel cur (g ∷ gap) zero clean =
      word cur g gap [] (scan_token-round fuel _ (round-block_end (done ++ cur) (g ∷ gap) 0)) refl
        (omega arith) clean tt
  scan_end fuel cur gap (suc q) clean =
      open_end (scan_of (done ++ cur) gap [] (suc q))
        (scan_token-round fuel _ (round-block_end (done ++ cur) gap (suc q))) (ground arith)
        (ground arith)

  -- One step of the automaton.
  lex-going :
      (q : ℕ) (cur : Bytes) (c : ℕ) (unread : Bytes) (y : Lex)
      → inside_byte q cur words c ≡ going y
      → lex_inside q cur (c ∷ unread) ≡ lex capacity y unread
  unfolding lex
  lex-going q cur c unread y e = rw (lex, e)

  Outcome-eq :
      {r r' : Round} {l l' : Status × List Bytes} {n : ℕ}
      → r ≡ r'
      → l ≡ l'
      → Outcome r' l' n
      → Outcome r l n
  Outcome-eq p q o = rw (p, q) o

  -- White space ends the word, and leaves a byte of the gap for its NUL.
  word_ends :
      (cur gap : Bytes) (c : ℕ) (unread : Bytes)
      → NoNul cur
      → NoNul unread
      → Outcome
          (leave (scan_of (done ++ cur) (gap ++ c ∷ []) unread 0))
          (lex capacity (lex_at between [] (words ++ (cur ∷ []))) unread)
          (length unread)
  word_ends cur [] c unread clean raw = word cur c [] unread refl refl (omega arith) clean raw
  word_ends cur (g ∷ gap) c unread clean raw =
      word cur g (gap ++ c ∷ []) unread refl refl (omega arith) clean raw

  -- After a backslash.
  scan_escape :
      (fuel : ℕ) (cur gap : Bytes) (c : ℕ) (unread : Bytes) (q : ℕ)
      → ((d : ℕ) (rest : Bytes)
          → unread ≡ d ∷ rest
          → d ≢ 0
          → Outcome
              (scan_token fuel
                (scan_of (done ++ (cur ++ d ∷ [])) (gap_after gap c (d ∷ [])) rest q))
              (lex_inside q (cur ++ d ∷ []) rest)
              (length rest - 1))
      → NoNul unread
      → round (scan_of (done ++ cur) gap (c ∷ unread) q) ≡ (
          if get_or (unread ++ (0 ∷ [])) 0 0 == 0
          then dangling (scan_of (done ++ cur) gap (c ∷ unread) q)
          else again (
              put
                (scan_of (done ++ cur) gap (c ∷ unread) q)
                (suc (suc (length (done ++ cur) + length gap)))
                (get_or (unread ++ (0 ∷ [])) 0 0)))
      → Outcome
          (scan_token (suc fuel) (scan_of (done ++ cur) gap (c ∷ unread) q))
          (lex capacity (lex_at (escaped q) cur words) unread)
          (length unread)
  unfolding lex
  scan_escape fuel cur gap c [] q next raw e = dangle _ (scan_token-round fuel _ e) refl
  scan_escape fuel cur gap c (d ∷ rest) q next raw e =
      Outcome-eq (scan_token-round fuel _ (e ∙ written)) refl
        (Outcome-le (omega arith) (next d rest refl raw.0))
    where
      s : Scan
      s = scan_of (done ++ cur) gap (c ∷ (d ∷ rest)) q

      here : ℕ
      here = length (done ++ cur) + length gap

      moved :
          put s (suc (suc here)) d
          ≡ scan_of (done ++ (cur ++ d ∷ [])) (gap_after gap c (d ∷ [])) rest q
      moved =
          scan-put (done ++ cur) gap c (d ∷ []) rest q d (suc (suc here)) (omega arith)
          ∙ ap (λ o. scan_of o (gap_after gap c (d ∷ [])) rest q) (append_assoc done cur (d ∷ []))

      written :
          (if d == 0 then dangling s else again (put s (suc (suc here)) d))
          ≡ again (scan_of (done ++ (cur ++ d ∷ [])) (gap_after gap c (d ∷ [])) rest q)
      written = ground (arith, moved, raw.0)

  pub scan_lex :
      (fuel : ℕ) (cur gap unread : Bytes) (q : ℕ)
      → length unread < fuel
      → NoNul cur
      → NoNul unread
      → Outcome
          (scan_token fuel (scan_of (done ++ cur) gap unread q))
          (lex_inside q cur unread)
          (length unread - 1)
  scan_lex zero cur gap unread q h clean raw = absurd (omega arith)
  scan_lex (suc fuel) cur gap [] q h clean raw =
      Outcome-le (omega arith) (scan_end fuel cur gap q clean)
  scan_lex (suc fuel) cur gap (c ∷ unread) q h clean raw =
      elim (paired (scan_of (done ++ cur) gap (c ∷ unread) q) cur words c
        (get_or (unread ++ (0 ∷ [])) 0 0) raw.0) [
          | ends r l ↦
              Outcome-eq (step r ∙ ap leave (scan-read out gap c unread q 0))
                (lex-going q cur c unread _ l)
                (Outcome-le (omega arith) (word_ends cur gap c unread clean raw.1))
          | escapes r l ↦ Outcome-eq refl (lex-going q cur c unread _ l) (
              Outcome-le (omega arith) (
                scan_escape fuel cur gap c unread q
                  (λ d rest e ne.
                    scan_lex fuel (cur ++ d ∷ []) (gap_after gap c (d ∷ [])) rest q
                      (omega (arith, ap length e)) (NoNul-append cur (d ∷ []) clean (ne, tt))
                      (tail-clean e))
                  raw.1 (round-block out gap c unread q ∙ r)))
          | turns q' r l ↦
              Outcome-eq (step r ∙ ap (scan_token fuel) (scan-read out gap c unread q q'))
                (lex-going q cur c unread _ l)
                (Outcome-le (omega arith)
                  (scan_lex fuel cur (gap ++ c ∷ []) unread q' (omega arith) clean raw.1))
          | copies r l ↦
              Outcome-eq
                (step r
                  ∙ ap (scan_token fuel) (
                      scan-put out gap c [] unread q c _ (omega arith)
                      ∙ ap (λ o. scan_of o (gap_after gap c []) unread q)
                          (append_assoc done cur (c ∷ []))))
                (lex-going q cur c unread _ l)
                (Outcome-le (omega arith) (
                  scan_lex fuel (cur ++ c ∷ []) (gap_after gap c []) unread q (omega arith)
                    (NoNul-append cur (c ∷ []) clean (raw.0, tt)) raw.1))
        ]
    where
      out : Bytes
      out = done ++ cur

      step :
          {r : Round}
          → round_on (scan_of out gap (c ∷ unread) q) c (get_or (unread ++ (0 ∷ [])) 0 0) ≡ r
          → scan_token (suc fuel) (scan_of out gap (c ∷ unread) q) ≡ after_round fuel r
      step e = scan_token-round fuel _ (round-block out gap c unread q ∙ e)

      tail-clean : {d : ℕ} {rest : Bytes} → unread ≡ d ∷ rest → NoNul rest
      tail-clean e = (rw e at raw.1).1
