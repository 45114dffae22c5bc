-- ===== src/Completion/Replace.antt =====
-- `replace_token`, shell/src/sh_completion.c, against a text with a cursor: the token under the
-- cursor gives way to the replacement.
use portable_c_shell.Prelude.{
  ℕ, suc, ◌+◌, ◌-◌, ◌≤◌, ◌<◌, Bool, false, [], ◌∷◌, ◌++◌, ◌≡◌, refl, sym, ap, ap₂, ◌∙◌, arith,
  append-nil, append_assoc, length, length-append, length-take, length-drop, take, drop, set,
  take-append-drop, leb, ltb, Bytes, blit, length-blit, blit-append, blit-prefix, bytes_at,
}
use portable_c_shell.Status.{ok}
use portable_c_shell.State.{Shell, Line}
use portable_c_shell.Display.Quiet.{redraw-Quiet}
use portable_c_shell.Editor.{edited}
use portable_c_shell.Editor.Text.{line_of, line_ext, bytes_at-terminated}
use portable_c_shell.Editor.Keys.{Shows, EditedTo-line}
use portable_c_shell.Completion.Complete.{splice, added_space, replace_token}

-- Two writes, one behind the other.
blit_twice :
    (b : Bytes) (i : ℕ) (xs ys : Bytes)
    → blit (blit b i xs) (i + length xs) ys ≡ blit b i (xs ++ ys)
blit_twice b i [] ys = ap (λ n. blit b n ys) (omega arith)
blit_twice b i (x ∷ xs) ys =
    ap (λ n. blit (blit (set b i x) (suc i) xs) n ys) (omega arith)
    ∙ blit_twice (set b i x) (suc i) xs ys

-- A write behind a gap, and one that fills the gap.
fill_gap :
    (pre old moved ins : Bytes)
    → length ins + length moved ≤ length old
    → blit (blit (pre ++ old) (length pre + length ins) moved) (length pre) ins
      ≡ pre ++ (ins ++ (moved ++ drop (length moved) (drop (length ins) old)))
fill_gap pre old moved ins h =
    ap (λ b. blit b (length pre) ins)
      (ap₂ (λ b n. blit b n moved) regroup (omega (arith, front_len))
        ∙ blit-prefix (pre ++ front) back moved [] (omega (arith, length-drop (length ins) old))
        ∙ ap (λ k. (pre ++ front) ++ (moved ++ k)) (append-nil (drop (length moved) back))
        ∙ append_assoc pre front (moved ++ drop (length moved) back))
    ∙ blit-append pre front ins (moved ++ drop (length moved) back) (omega (arith, front_len))
  where
    front : Bytes
    front = take (length ins) old

    back : Bytes
    back = drop (length ins) old

    front_len : (length (pre ++ front) ≡ length pre + length ins) × (length front ≡ length ins)
    front_len = omega (arith, length-append pre front, length-take (length ins) old)

    regroup : pre ++ old ≡ (pre ++ front) ++ (back ++ [])
    regroup =
        ap (λ k. pre ++ k) (sym (take-append-drop (length ins) old))
        ∙ sym (append_assoc pre front back)
        ∙ ap (λ k. (pre ++ front) ++ k) (sym (append-nil back))

-- What the memory behind the NUL holds after a splice.
abbrev pub spliced_rest : Bytes → Bytes → Bytes → Bytes → Bytes
spliced_rest mid right rest ins =
    drop (length (right ++ 0 ∷ [])) (drop (length ins) (mid ++ (right ++ (0 ∷ rest))))

-- The bytes between `left` and `right` give way to `new` and `space`.
pub splice-line_of :
    (left mid right rest new space : Bytes) (l : Line)
    → l.buffer ≡ left ++ (mid ++ (right ++ (0 ∷ rest)))
    → l.capacity ≡ length l.buffer
    → l.len ≡ length left + length mid + length right
    → length left + length new + length space + length right < l.capacity
    → splice l (length left) (length left + length mid) new space
      ≡ line_of (left ++ (new ++ space)) right (spliced_rest mid right rest (new ++ space))
unfolding splice
splice-line_of left mid right rest new space l buf sized len fits =
    line_ext buffers (sized ∙ sym size ∙ ap length buffers) (omega (arith, ins_len))
      (omega (arith, ins_len))
  where
    old : Bytes
    old = mid ++ (right ++ (0 ∷ rest))

    moved : Bytes
    moved = right ++ 0 ∷ []

    ins_len :
        (length (left ++ (new ++ space)) ≡ length left + length (new ++ space))
        × (length (new ++ space) ≡ length new + length space)
        × (length (left ++ mid) ≡ length left + length mid)
    ins_len = (length-append left (new ++ space), length-append new space, length-append left mid)

    room : length (new ++ space) + length moved ≤ length old
    room = omega (
      arith,
      fits,
      sized,
      ap length buf,
      length-append left old,
      length-append new space,
      length-append right (0 ∷ []),
    )

    read :
        bytes_at l.buffer (length left + length mid) (l.len - (length left + length mid) + 1)
        ≡ moved
    read =
        ap₂ (λ b n. bytes_at b n (l.len - (length left + length mid) + 1))
          (buf ∙ sym (append_assoc left mid (right ++ (0 ∷ rest)))) (sym (length-append left mid))
        ∙ bytes_at-terminated (left ++ mid) right rest _ (omega (arith, len))

    sizes : length l.buffer ≡ length left + length old
    sizes = ap length buf ∙ length-append left old

    behind : Bytes
    behind = spliced_rest mid right rest (new ++ space)

    buffers :
        blit
          (blit
            (blit l.buffer (length left + length new + length space) (
              bytes_at l.buffer
                (length left + length mid)
                (l.len - (length left + length mid) + 1)))
            (length left)
            new)
          (length left + length new)
          space
        ≡ (left ++ (new ++ space)) ++ (right ++ (0 ∷ behind))
    buffers =
        ap₂
          (λ b m.
            blit (blit (blit b (length left + length new + length space) m) (length left) new)
              (length left + length new) space)
          buf read
        ∙ blit_twice _ (length left) new space
        ∙ ap (λ n. blit (blit (left ++ old) n moved) (length left) (new ++ space))
            (omega (arith, length-append new space))
        ∙ fill_gap left old moved (new ++ space) room
        ∙ ap (λ k. left ++ ((new ++ space) ++ k)) (append_assoc right (0 ∷ []) behind)
        ∙ sym (append_assoc left (new ++ space) (right ++ (0 ∷ behind)))

    size :
        length (
          blit
            (blit
              (blit l.buffer (length left + length new + length space) (
                bytes_at l.buffer
                  (length left + length mid)
                  (l.len - (length left + length mid) + 1)))
              (length left)
              new)
            (length left + length new)
            space)
        ≡ length l.buffer
    size =
        let shifted : Bytes =
          bytes_at l.buffer (length left + length mid) (l.len - (length left + length mid) + 1) in
        let tail_kept : length (blit l.buffer (length left + length new + length space) shifted)
            ≡ length l.buffer =
          length-blit l.buffer (length left + length new + length space) shifted
            (omega (arith, ap length read, sizes, room, ins_len)) in
        let new_kept =
          length-blit (blit l.buffer (length left + length new + length space) shifted)
            (length left) new (omega (arith, tail_kept, sizes, room, ins_len)) in
        length-blit
          (blit (blit l.buffer (length left + length new + length space) shifted) (length left) new)
          (length left + length new) space
          (omega (arith, new_kept, tail_kept, sizes, room, ins_len))
        ∙ new_kept
        ∙ tail_kept

module _ {W : Type 0} where
  -- If the token between `left` and `right`, with the cursor in it, is replaced and there is room,
  -- then the line holds the replacement and the added space in its place, the cursor behind them.
  pub replace_token-Shows :
      (s : Shell W) (left before behind right new : Bytes) (append_space : Bool)
      → Shows s.line (left ++ before) (behind ++ right)
      → length left
          + length new
          + length (added_space s.line (length left + length before + length behind) append_space)
          + length right
        < s.line.capacity
      → let stop = length left + length before + length behind in
        let r = replace_token s (length left) stop new append_space in
        (r.1 ≡ ok) × Shows r.0.line (left ++ (new ++ added_space s.line stop append_space)) right
  unfolding replace_token
  replace_token-Shows s left before behind right new append_space (rest, e) fits =
      let stop = length left + length before + length behind in
      let space = added_space s.line stop append_space in
      let inside : (length left ≤ stop) × (stop ≤ s.line.len) = omega (arith, lens) in
      let in_order : ltb stop (length left) ≡ false = ground (arith, inside) in
      let in_line : ltb s.line.len stop ≡ false = ground (arith, inside) in
      let room : leb s.line.capacity (length left + length new + length space + (s.line.len - stop))
          ≡ false =
        ground (arith, lens, fits) in
      rw (in_order, in_line, room)
        (
          refl,
          (
            spliced_rest (before ++ behind) right rest (new ++ space),
            EditedTo-line s _ _
                  (redraw-Quiet (edited s (splice s.line (length left) stop new space)))
                ∙ ap (λ n. splice s.line (length left) n new space)
                    (omega (arith, length-append before behind))
                ∙ splice-line_of left (before ++ behind) right rest new space s.line regroup sized
                    (omega (arith, lens, length-append before behind)) (omega (arith, fits)),
          ),
        )
    where
      lens : s.line.len ≡ length left + length before + length behind + length right
      lens = omega (
        arith,
        ap {A = Line} (λ l. l.len) e,
        length-append left before,
        length-append behind right,
      )

      regroup : s.line.buffer ≡ left ++ ((before ++ behind) ++ (right ++ (0 ∷ rest)))
      regroup =
          ap {A = Line} (λ l. l.buffer) e
          ∙ append_assoc left before ((behind ++ right) ++ (0 ∷ rest))
          ∙ ap (λ k. left ++ (before ++ k)) (append_assoc behind right (0 ∷ rest))
          ∙ ap (λ k. left ++ k) (sym (append_assoc before behind (right ++ (0 ∷ rest))))

      sized : s.line.capacity ≡ length s.line.buffer
      sized = ap {A = Line} (λ l. l.capacity) e ∙ sym (ap {A = Line} (λ l. length l.buffer) e)
