-- ===== src/Safety/Lines.antt =====
-- The operations on the buffer of the line keep it well formed.
use portable_c_shell.Prelude.{
  ℕ, suc, ◌+◌, ◌-◌, ◌≤◌, ◌<◌, Bool, true, false, [], ◌∷◌, ◌++◌, ◌≡◌, refl, sym, ap, ap₂, ◌∙◌, arith,
  append_assoc, length, length-append, length-take, take, drop, take-append-drop, set,
  if◌then◌else◌, Bytes, blit, zero_fill, replicate, length-replicate, length-blit,
}
use portable_c_shell.State.{Line}
use portable_c_shell.Editor.{
  load_line, insert_at_cursor, erase_before_cursor, erase_at_cursor, erase_from, wipe_line,
}
use portable_c_shell.Editor.Text.{
  line_of, line_ext, stale, insert_at_cursor-line_of, erase_before_cursor-line_of,
  erase_at_cursor-line_of, erase_from-line_of,
}
use portable_c_shell.Editor.Keys.{Shows-sizes}
use portable_c_shell.Editor.Browse.{loaded, load_line-take}
use portable_c_shell.Completion.Complete.{splice}
use portable_c_shell.Completion.Replace.{spliced_rest, splice-line_of}
use portable_c_shell.Safety.{IsLine}

-- The last byte of a text that is not empty.
unsnoc : (c : ℕ) (xs : Bytes) → (ys : Bytes) × (d : ℕ) × (c ∷ xs ≡ ys ++ d ∷ [])
unsnoc c [] = ([], c, refl)
unsnoc c (x ∷ xs) = let (ys, d, e) = unsnoc x xs in (c ∷ ys, d, ap (c ∷◌) e)

pub insert_at_cursor-IsLine :
    (l : Line) (c : ℕ) → IsLine l → l.len + 1 < l.capacity → IsLine (insert_at_cursor l c)
insert_at_cursor-IsLine l c (left, right, ([], e)) h = absurd (
    omega (
      arith,
      h,
      ap {A = Line} (λ k. k.len) e,
      ap {A = Line} (λ k. k.capacity) e,
      length-append left (right ++ (0 ∷ [])),
      length-append right (0 ∷ []),
    ))
insert_at_cursor-IsLine l c (left, right, (free ∷ rest, e)) h = (
  left ++ c ∷ [],
  right,
  (rest, ap (λ k. insert_at_cursor k c) e ∙ insert_at_cursor-line_of left right rest free c),
)

pub erase_before_cursor-IsLine :
    (l : Line) → IsLine l → 0 < l.cursor → IsLine (erase_before_cursor l)
erase_before_cursor-IsLine l ([], right, (rest, e)) h =
    absurd (omega (arith, h, ap {A = Line} (λ k. k.cursor) e))
erase_before_cursor-IsLine l (c ∷ left, right, (rest, e)) h =
    let (ys, d, split) = unsnoc c left in
    (
      ys,
      right,
      (
        stale (d ∷ []) right ++ rest,
        ap erase_before_cursor (e ∙ ap (λ k. line_of k right rest) split)
            ∙ erase_before_cursor-line_of ys right rest d,
      ),
    )

pub erase_at_cursor-IsLine : (l : Line) → IsLine l → l.cursor < l.len → IsLine (erase_at_cursor l)
erase_at_cursor-IsLine l (left, [], (rest, e)) h =
    absurd (omega (arith, h, ap {A = Line} (λ k. k.cursor) e, ap {A = Line} (λ k. k.len) e))
erase_at_cursor-IsLine l (left, c ∷ right, (rest, e)) h = (
  left,
  right,
  (stale (c ∷ []) right ++ rest, ap erase_at_cursor e ∙ erase_at_cursor-line_of left right rest c),
)

-- A text is cut at an index in it.
cut :
    (n : ℕ) (xs : Bytes)
    → n ≤ length xs
    → (ys : Bytes) × (zs : Bytes) × (xs ≡ ys ++ zs) × (length ys ≡ n)
cut n xs h = (take n xs, drop n xs, sym (take-append-drop n xs), omega (arith, length-take n xs))

pub erase_from-IsLine :
    (l : Line) (start : ℕ) → IsLine l → start ≤ l.cursor → IsLine (erase_from l start)
erase_from-IsLine l start (left, right, (rest, e)) h =
    let (ys, word, split, len) =
      cut start left (omega (arith, h, ap {A = Line} (λ k. k.cursor) e)) in
    (
      ys,
      right,
      (
        stale word right ++ rest,
        ap₂ erase_from (e ∙ ap (λ k. line_of k right rest) split) (sym len)
            ∙ erase_from-line_of ys word right rest,
      ),
    )

-- The cursor may stand anywhere in the text.
pub move_cursor-IsLine :
    (l : Line) (cursor : ℕ) → IsLine l → cursor ≤ l.len → IsLine (record l { cursor = cursor })
move_cursor-IsLine l cursor (left, right, (rest, e)) h =
    let (ys, zs, split, len) =
      cut cursor (left ++ right)
        (omega (arith, h, ap {A = Line} (λ k. k.len) e, length-append left right)) in
    let whole : left ++ (right ++ (0 ∷ rest)) ≡ ys ++ (zs ++ (0 ∷ rest)) =
      sym (append_assoc left right (0 ∷ rest))
      ∙ ap (λ k. k ++ (0 ∷ rest)) split
      ∙ append_assoc ys zs (0 ∷ rest) in
    (
      ys,
      zs,
      (
        rest,
        line_ext (ap {A = Line} (λ k. k.buffer) e ∙ whole)
            (ap {A = Line} (λ k. k.capacity) e ∙ ap length whole)
            (ap {A = Line} (λ k. k.len) e
              ∙ omega (arith, ap length split, length-append left right, length-append ys zs))
            (sym len),
      ),
    )

pub IsLine-sizes :
    (l : Line)
    → IsLine l
    → (l.cursor ≤ l.len) × (l.len < l.capacity) × (l.capacity ≡ length l.buffer)
IsLine-sizes l (left, right, shows) =
    let (at, len, fits, sized) = Shows-sizes l left right shows in
    (omega (arith, at, len), fits, sized)

pub load_line-IsLine : (l : Line) (new : Bytes) → IsLine l → IsLine (load_line l new)
load_line-IsLine l new (left, right, shows) =
    (take (loaded l new) new, [], load_line-take l left right new shows)

blit-cons : (x : ℕ) (b : Bytes) (i : ℕ) (t : Bytes) → blit (x ∷ b) (suc i) t ≡ x ∷ blit b i t
blit-cons x b i [] = refl
blit-cons x b i (y ∷ t) = blit-cons x (set b i y) (suc i) t

-- A cleared buffer starts with a NUL, cleared in either way.
wiped_front :
    (secure : Bool) (b : Bytes)
    → 0 < length b
    → (rest : Bytes) × ((if secure then zero_fill b (length b) else set b 0 0) ≡ 0 ∷ rest)
      × (length (0 ∷ rest) ≡ length b)
wiped_front secure [] h = absurd (omega arith)
wiped_front true (x ∷ b) h = (
  blit b 0 (replicate (length b) 0),
  blit-cons 0 b 0 (replicate (length b) 0),
  ap suc (
      length-blit b 0 (replicate (length b) 0)
        (omega (arith, length-replicate {A = ℕ} (length b) 0))),
)
wiped_front false (x ∷ b) h = (b, refl, refl)

pub wipe_line-IsLine : (secure : Bool) (l : Line) → IsLine l → IsLine (wipe_line secure l)
unfolding wipe_line
wipe_line-IsLine secure l line =
    let (_, short, sized) = IsLine-sizes l line in
    let (rest, front, len) = wiped_front secure l.buffer (omega (arith, short, sized)) in
    (
      [],
      [],
      (
        rest,
        line_ext (ap (λ n. if secure then zero_fill l.buffer n else set l.buffer 0 0) sized ∙ front)
            (sized ∙ sym len) refl refl,
      ),
    )

pub splice-IsLine :
    (l : Line) (start stop : ℕ) (new space : Bytes)
    → IsLine l
    → start ≤ stop
    → stop ≤ l.len
    → start + length new + length space + (l.len - stop) < l.capacity
    → IsLine (splice l start stop new space)
splice-IsLine l start stop new space (left, right, (rest, e)) order inside fits =
    let lens : l.len ≡ length (left ++ right) =
      ap {A = Line} (λ k. k.len) e ∙ sym (length-append left right) in
    let (front, tail, split, stop_len) = cut stop (left ++ right) (omega (arith, inside, lens)) in
    let (ys, mid, split', start_len) = cut start front (omega (arith, order, stop_len)) in
    let front_len : length front ≡ length ys + length mid =
      ap length split' ∙ length-append ys mid in
    let whole : left ++ (right ++ (0 ∷ rest)) ≡ ys ++ (mid ++ (tail ++ (0 ∷ rest))) =
      sym (append_assoc left right (0 ∷ rest))
      ∙ ap (λ k. k ++ (0 ∷ rest)) (split ∙ ap (λ k. k ++ tail) split')
      ∙ append_assoc (ys ++ mid) tail (0 ∷ rest)
      ∙ append_assoc ys mid (tail ++ (0 ∷ rest)) in
    let all_len : l.len ≡ length front + length tail =
      lens ∙ ap length split ∙ length-append front tail in
    (
      ys ++ (new ++ space),
      tail,
      (
        spliced_rest mid tail rest (new ++ space),
        ap₂ (λ a b. splice l a b new space) (sym start_len) (omega (arith, stop_len, front_len))
            ∙ splice-line_of ys mid tail rest new space l (ap {A = Line} (λ k. k.buffer) e ∙ whole)
                (ap {A = Line} (λ k. k.capacity) e ∙ sym (ap {A = Line} (λ k. length k.buffer) e))
                (omega (arith, all_len, front_len))
                (omega (arith, fits, all_len, front_len, start_len, stop_len)),
      ),
    )
