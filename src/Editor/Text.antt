-- ===== src/Editor/Text.antt =====
-- The buffer operations of the line editor against a text with a cursor: the bytes before it and
-- the bytes behind it.
use portable_c_shell.Prelude.{
  ℕ, suc, ◌+◌, ◌-◌, [], ◌∷◌, ◌++◌, ◌≡◌, refl, sym, ap, ap₂, ◌∙◌, arith, append_assoc, length,
  length-append, drop, set, blit, blit-prefix, set-blit_gap, length-blit, bytes_at, bytes_at-append,
  Bytes,
}
use portable_c_shell.State.{Line}
use portable_c_shell.Editor.{insert_at_cursor, erase_before_cursor, erase_at_cursor, erase_from}

-- The line that shows `left`, the cursor and `right`: the text, a NUL, and unused bytes `rest`.
abbrev pub line_of : Bytes → Bytes → Bytes → Line
line_of left right rest = record {
  buffer = left ++ (right ++ (0 ∷ rest));
  capacity = length (left ++ (right ++ (0 ∷ rest)));
  len = length left + length right;
  cursor = length left;
}

-- Lines are equal if their fields are.
pub line_ext :
    {l k : Line}
    → l.buffer ≡ k.buffer
    → l.capacity ≡ k.capacity
    → l.len ≡ k.len
    → l.cursor ≡ k.cursor
    → l ≡ k
line_ext p q r s = λ i. record { buffer = p i; capacity = q i; len = r i; cursor = s i }

terminated-length : (xs : Bytes) → length (xs ++ (0 ∷ [])) ≡ length xs + 1
terminated-length xs = omega (arith, length-append xs (0 ∷ []))

-- The bytes behind the cursor with the NUL, as the operations read them.
pub bytes_at-terminated :
    (left right rest : Bytes) (n : ℕ)
    → n ≡ length right + 1
    → bytes_at (left ++ (right ++ (0 ∷ rest))) (length left) n ≡ right ++ (0 ∷ [])
bytes_at-terminated left right rest n e =
    ap (λ k. bytes_at (left ++ k) (length left) n) (sym (append_assoc right (0 ∷ []) rest))
    ∙ bytes_at-append left (right ++ (0 ∷ [])) rest n (omega (arith, terminated-length right))

-- Inserting a byte puts it before the cursor and uses up one free byte.
pub insert_at_cursor-line_of :
    (left right rest : Bytes) (free c : ℕ)
    → insert_at_cursor (line_of left right (free ∷ rest)) c ≡ line_of (left ++ c ∷ []) right rest
unfolding insert_at_cursor
insert_at_cursor-line_of left right rest free c =
    line_ext buffers
      (omega (
        arith,
        length-append left (right ++ (0 ∷ free ∷ rest)),
        length-append right (0 ∷ free ∷ rest),
        length-append (left ++ c ∷ []) (right ++ (0 ∷ rest)),
        length-append left (c ∷ []),
        length-append right (0 ∷ rest),
      ))
      (omega (arith, length-append left (c ∷ []))) (omega (arith, length-append left (c ∷ [])))
  where
    block : Bytes
    block = left ++ (right ++ (0 ∷ (free ∷ rest)))

    read :
        bytes_at block (length left) (length left + length right - length left + 1)
        ≡ right ++ (0 ∷ [])
    read = bytes_at-terminated left right (free ∷ rest) _ (omega arith)

    next : length left + 1 ≡ suc (length left)
    next = omega arith

    regroup : block ≡ left ++ ((right ++ (0 ∷ (free ∷ []))) ++ rest)
    regroup = ap (λ k. left ++ k) (sym (append_assoc right (0 ∷ (free ∷ [])) rest))

    buffers :
        set
          (blit block
            (length left + 1)
            (bytes_at block (length left) (length left + length right - length left + 1)))
          (length left)
          c
        ≡ (left ++ c ∷ []) ++ (right ++ (0 ∷ rest))
    buffers =
        ap₂ (λ n t. set (blit block n t) (length left) c) next read
        ∙ ap (λ b. set (blit b (suc (length left)) (right ++ (0 ∷ []))) (length left) c) regroup
        ∙ set-blit_gap left (right ++ (0 ∷ (free ∷ []))) (right ++ (0 ∷ [])) rest c
            (omega (arith, length-append right (0 ∷ (free ∷ [])), terminated-length right))
        ∙ ap (λ k. left ++ (c ∷ k)) (append_assoc right (0 ∷ []) rest)
        ∙ sym (append_assoc left (c ∷ []) (right ++ (0 ∷ rest)))

-- What the memory behind the NUL holds after `word` was erased: bytes that were not overwritten.
abbrev pub stale : Bytes → Bytes → Bytes
stale word right = drop (length (right ++ (0 ∷ []))) (word ++ (right ++ (0 ∷ [])))

-- Moving the bytes behind `word`, with the NUL, over it.
close_gap :
    (left word right rest : Bytes)
    → blit (left ++ (word ++ (right ++ (0 ∷ rest)))) (length left) (right ++ (0 ∷ []))
      ≡ left ++ (right ++ (0 ∷ (stale word right ++ rest)))
close_gap left word right rest =
    ap (λ b. blit (left ++ b) (length left) (right ++ (0 ∷ []))) regroup
    ∙ blit-prefix left (word ++ (right ++ (0 ∷ []))) (right ++ (0 ∷ [])) rest
        (omega (arith, length-append word (right ++ (0 ∷ []))))
    ∙ ap (λ k. left ++ k) (append_assoc right (0 ∷ []) (stale word right ++ rest))
  where
    regroup : word ++ (right ++ (0 ∷ rest)) ≡ (word ++ (right ++ (0 ∷ []))) ++ rest
    regroup =
        ap (λ k. word ++ k) (sym (append_assoc right (0 ∷ []) rest))
        ∙ sym (append_assoc word (right ++ (0 ∷ [])) rest)

length-close_gap :
    (left word right rest : Bytes)
    → length (left ++ (word ++ (right ++ (0 ∷ rest))))
      ≡ length (left ++ (right ++ (0 ∷ (stale word right ++ rest))))
length-close_gap left word right rest =
    sym (
      length-blit (left ++ (word ++ (right ++ (0 ∷ rest)))) (length left) (right ++ (0 ∷ [])) (
        omega (
          arith,
          length-append left (word ++ (right ++ (0 ∷ rest))),
          length-append word (right ++ (0 ∷ rest)),
          length-append right (0 ∷ rest),
          length-append right (0 ∷ []),
        )))
    ∙ ap length (close_gap left word right rest)

-- Erasing from `left` up to the cursor removes the bytes between them.
pub erase_from-line_of :
    (left word right rest : Bytes)
    → erase_from (line_of (left ++ word) right rest) (length left)
      ≡ line_of left right (stale word right ++ rest)
unfolding erase_from
erase_from-line_of left word right rest =
    line_ext
      (ap (blit ((left ++ word) ++ (right ++ (0 ∷ rest))) (length left))
          (bytes_at-terminated (left ++ word) right rest _ (omega arith))
        ∙ ap (λ b. blit b (length left) (right ++ (0 ∷ []))) regroup
        ∙ close_gap left word right rest)
      (ap length regroup ∙ length-close_gap left word right rest)
      (omega (arith, length-append left word)) refl
  where
    regroup : (left ++ word) ++ (right ++ (0 ∷ rest)) ≡ left ++ (word ++ (right ++ (0 ∷ rest)))
    regroup = append_assoc left word (right ++ (0 ∷ rest))

-- Backspace removes the byte before the cursor.
pub erase_before_cursor-line_of :
    (left right rest : Bytes) (c : ℕ)
    → erase_before_cursor (line_of (left ++ c ∷ []) right rest)
      ≡ line_of left right (stale (c ∷ []) right ++ rest)
unfolding erase_before_cursor
erase_before_cursor-line_of left right rest c =
    line_ext
      (ap₂ (blit ((left ++ c ∷ []) ++ (right ++ (0 ∷ rest)))) (omega (arith, len))
          (bytes_at-terminated (left ++ c ∷ []) right rest _ (omega arith))
        ∙ ap (λ b. blit b (length left) (right ++ (0 ∷ []))) regroup
        ∙ close_gap left (c ∷ []) right rest)
      (ap length regroup ∙ length-close_gap left (c ∷ []) right rest) (omega (arith, len))
      (omega (arith, len))
  where
    len : length (left ++ c ∷ []) ≡ suc (length left)
    len = omega (arith, length-append left (c ∷ []))

    regroup :
        (left ++ c ∷ []) ++ (right ++ (0 ∷ rest)) ≡ left ++ ((c ∷ []) ++ (right ++ (0 ∷ rest)))
    regroup = append_assoc left (c ∷ []) (right ++ (0 ∷ rest))

-- Delete removes the byte behind the cursor.
pub erase_at_cursor-line_of :
    (left right rest : Bytes) (c : ℕ)
    → erase_at_cursor (line_of left (c ∷ right) rest)
      ≡ line_of left right (stale (c ∷ []) right ++ rest)
unfolding erase_at_cursor
erase_at_cursor-line_of left right rest c =
    line_ext (ap (blit block (length left)) read ∙ close_gap left (c ∷ []) right rest)
      (length-close_gap left (c ∷ []) right rest) (omega arith) refl
  where
    block : Bytes
    block = left ++ (c ∷ (right ++ (0 ∷ rest)))

    read :
        bytes_at block (length left + 1) (length left + suc (length right) - length left)
        ≡ right ++ (0 ∷ [])
    read =
        ap₂ (λ b i. bytes_at b i (length left + suc (length right) - length left))
          (sym (append_assoc left (c ∷ []) (right ++ (0 ∷ rest))))
          (omega (arith, length-append left (c ∷ [])))
        ∙ bytes_at-terminated (left ++ c ∷ []) right rest _ (omega arith)
