-- ===== src/Editor/Words.antt =====
-- `delete_word_left`: the word before the cursor and the blanks behind it are removed.
use portable_c_shell.Prelude.{
  ℕ, suc, ◌+◌, ◌<◌, Bool, true, false, not, [], ◌∷◌, ◌++◌, ◌≡◌, refl, sym, ap, ap₂, ◌∙◌, arith,
  append_assoc, length, length-append, get_or, get_or-length_append, ◌==◌, Bytes, is_space,
}
use portable_c_shell.State.{Shell, Line}
use portable_c_shell.Display.Quiet.{redraw-Quiet}
use portable_c_shell.Editor.{walk_left, word_start, erase_from, edited, delete_word_left}
use portable_c_shell.Editor.Text.{line_of, stale, erase_from-line_of}
use portable_c_shell.Editor.Keys.{Shows, EditedTo-line}

abbrev pub All : (ℕ → Bool) → Bytes → Type 0
All test [] = Unit {0}
All test (c ∷ cs) = (test c ≡ true) × All test cs

-- The walk stops behind this text.
abbrev pub StopsAt : (ℕ → Bool) → Bytes → Type 0
StopsAt test [] = Unit {0}
StopsAt test (c ∷ []) = test c ≡ false
StopsAt test (c ∷ d ∷ cs) = StopsAt test (d ∷ cs)

walk_pass :
    (test : ℕ → Bool) (b : Bytes) (n c : ℕ)
    → get_or b n 0 ≡ c
    → test c ≡ true
    → walk_left test b (suc n) ≡ walk_left test b n
walk_pass test b n c e h =
    ap (λ t. elim t [ true ↦ walk_left test b n | false ↦ suc n ]) (ap test e ∙ h)

walk_halt :
    (test : ℕ → Bool) (b : Bytes) (n c : ℕ)
    → get_or b n 0 ≡ c
    → test c ≡ false
    → walk_left test b (suc n) ≡ suc n
walk_halt test b n c e h =
    ap (λ t. elim t [ true ↦ walk_left test b n | false ↦ suc n ]) (ap test e ∙ h)

-- One byte of the text behind `pre` is moved to it.
regroup :
    (pre cs post : Bytes) (c : ℕ) → pre ++ (c ∷ (cs ++ post)) ≡ (pre ++ c ∷ []) ++ (cs ++ post)
regroup pre cs post c = sym (append_assoc pre (c ∷ []) (cs ++ post))

-- A walk stays where it stands, if the byte before it fails the test.
walk_stop :
    (test : ℕ → Bool) (pre stop post : Bytes)
    → StopsAt test stop
    → 0 < length stop
    → walk_left test (pre ++ (stop ++ post)) (length pre + length stop) ≡ length pre + length stop
walk_stop test pre [] post s h = absurd (omega arith)
walk_stop test pre (c ∷ []) post s h =
    ap (walk_left test (pre ++ (c ∷ post))) {x = length pre + 1} {y = suc (length pre)}
      (omega arith)
    ∙ walk_halt test _ (length pre) c (get_or-length_append pre post c 0) s
    ∙ omega arith
walk_stop test pre (c ∷ d ∷ cs) post s h =
    ap₂ (walk_left test) (regroup pre (d ∷ cs) post c) len
    ∙ walk_stop test (pre ++ c ∷ []) (d ∷ cs) post s (omega arith)
    ∙ sym len
  where
    len : length pre + suc (suc (length cs)) ≡ length (pre ++ c ∷ []) + suc (length cs)
    len = omega (arith, length-append pre (c ∷ []))

walk_at :
    (test : ℕ → Bool) (left post : Bytes)
    → StopsAt test left
    → walk_left test (left ++ post) (length left) ≡ length left
walk_at test [] post s = refl
walk_at test (c ∷ left) post s =
    ap (walk_left test ((c ∷ left) ++ post)) {x = suc (length left)} {y = 0 + suc (length left)}
      (omega arith)
    ∙ walk_stop test [] (c ∷ left) post s (omega arith)
    ∙ omega arith

-- A walk passes over bytes that meet the test.
walk_over :
    (test : ℕ → Bool) (pre mid post : Bytes)
    → All test mid
    → walk_left test (pre ++ (mid ++ post)) (length pre + length mid)
      ≡ walk_left test (pre ++ (mid ++ post)) (length pre)
walk_over test pre [] post a = ap (walk_left test (pre ++ post)) (omega arith)
walk_over test pre (c ∷ cs) post (a, rest) =
    ap₂ (walk_left test) (regroup pre cs post c) (omega (arith, len))
    ∙ walk_over test (pre ++ c ∷ []) cs post rest
    ∙ sym (ap₂ (walk_left test) (regroup pre cs post c) (sym len))
    ∙ walk_pass test _ (length pre) c (get_or-length_append pre (cs ++ post) c 0) a
  where
    len : length (pre ++ c ∷ []) ≡ suc (length pre)
    len = omega (arith, length-append pre (c ∷ []))

-- Passing the blanks and then the word leads to the start of the word.
word_start-line_of :
    (left word blanks right rest : Bytes)
    → StopsAt (λ c. not (is_space c)) left
    → All (λ c. not (is_space c)) word
    → StopsAt is_space (left ++ word)
    → All is_space blanks
    → word_start (line_of (left ++ (word ++ blanks)) right rest) ≡ length left
unfolding word_start
word_start-line_of left word blanks right rest stop word_ok blank_stop blanks_ok =
    ap₂ (λ b n. walk_left (λ c. not (is_space c)) b (walk_left is_space b n)) whole
      (omega (
        arith,
        length-append left (word ++ blanks),
        length-append word blanks,
        length-append left word,
      ))
    ∙ ap (walk_left (λ c. not (is_space c)) ((left ++ word) ++ (blanks ++ tail))) (
        walk_over is_space (left ++ word) blanks tail blanks_ok
        ∙ walk_at is_space (left ++ word) (blanks ++ tail) blank_stop
        ∙ length-append left word)
    ∙ ap (λ b. walk_left (λ c. not (is_space c)) b (length left + length word))
        (append_assoc left word (blanks ++ tail))
    ∙ walk_over (λ c. not (is_space c)) left word (blanks ++ tail) word_ok
    ∙ walk_at (λ c. not (is_space c)) left (word ++ (blanks ++ tail)) stop
  where
    tail : Bytes
    tail = right ++ (0 ∷ rest)

    whole : (left ++ (word ++ blanks)) ++ tail ≡ (left ++ word) ++ (blanks ++ tail)
    whole =
        ap (λ b. b ++ tail) (sym (append_assoc left word blanks))
        ∙ append_assoc (left ++ word) blanks tail

module _ {W : Type 0} where
  -- Ctrl+W removes the word before the cursor and the blanks behind it, not both empty, and
  -- nothing else: the text before the word ends in a blank or is empty, and the text up to the
  -- blanks does not end in one.
  pub delete_word_left-Shows :
      (s : Shell W) (left word blanks right : Bytes)
      → StopsAt (λ c. not (is_space c)) left
      → All (λ c. not (is_space c)) word
      → StopsAt is_space (left ++ word)
      → All is_space blanks
      → 0 < length word + length blanks
      → Shows s.line (left ++ (word ++ blanks)) right
      → Shows (delete_word_left s).line left right
  unfolding delete_word_left
  delete_word_left-Shows s left word blanks right stop word_ok blank_stop blanks_ok some_left
        (rest, e) =
      let start : word_start s.line ≡ length left =
        ap word_start e
        ∙ word_start-line_of left word blanks right rest stop word_ok blank_stop blanks_ok in
      let away : (length left == s.line.cursor) ≡ false = ground (
        arith,
        ap {A = Line} (λ l. l.cursor) e,
        length-append left (word ++ blanks),
        length-append word blanks,
      ) in
      (
        stale (word ++ blanks) right ++ rest,
        rw (start, away)
            (EditedTo-line s _ _ (redraw-Quiet (edited s (erase_from s.line (length left))))
              ∙ ap (λ l. erase_from l (length left)) e
              ∙ erase_from-line_of left (word ++ blanks) right rest),
      )
