-- ===== src/Prelude/Memory.antt =====
-- Blocks of memory as lists of bytes, with the C operations on them: each writes byte by byte,
-- and a byte that is written behind the block makes it longer.
use Prim.Native.Nat.{ℕ, suc, ◌+◌, ◌≤◌, ◌<◌}
use mathlib.Core.Path.{◌≡◌, refl, ap, ap₂, ◌∙◌, sym}
use mathlib.Core.List.{List, [], ◌∷◌, ◌++◌, append-nil, append_assoc}
use mathlib.Core.Logic.{◌≢◌, inl, inr}
use native.Mathlib.Omega.{arith}
use package.portable_c_shell.Prelude.Tests.{◌==◌, if◌then◌else◌, ltb, Bool-cases}
use package.portable_c_shell.Prelude.Lists.{
  length, length-append, length-set, length-set_behind, length-replicate, length-take, take, drop,
  replicate, set, set-length_append, take-append-drop, take-length_append, drop-length_append,
  drop-eq-cons, get_or,
}

abbrev pub Bytes : Type 0
Bytes = List ℕ

-- Write `text` from index `i` on: `memcpy(block + i, text, n)` for the `n` bytes of `text`.
abbrev pub blit : Bytes → ℕ → Bytes → Bytes
blit block i [] = block
blit block i (b ∷ text) = blit (set block i b) (suc i) text

-- The `n` bytes from index `i` on.
abbrev pub bytes_at : Bytes → ℕ → ℕ → Bytes
bytes_at block i n = take n (drop i block)

-- `memmove` within one block: the source is read before anything is written.
abbrev pub memmove : Bytes → ℕ → ℕ → ℕ → Bytes
memmove block to from n = blit block to (bytes_at block from n)

-- `memset(block, 0, n)`, and the loop of `secure_zero`.
abbrev pub zero_fill : Bytes → ℕ → Bytes
zero_fill block n = blit block 0 (replicate n 0)

-- The C string that begins a block: the bytes before the first NUL.
abbrev pub c_string : Bytes → Bytes
c_string [] = []
c_string (b ∷ block) = if b == 0 then [] else b ∷ c_string block

-- A copy that stays inside the block keeps its length.
pub length-blit :
    (block : Bytes) (i : ℕ) (text : Bytes)
    → i + length text ≤ length block
    → length (blit block i text) ≡ length block
length-blit block i [] h = refl
length-blit block i (b ∷ text) h =
    let same = length-set block i b (omega (arith, h)) in
    length-blit (set block i b) (suc i) text (omega (arith, h, same)) ∙ same

-- A copy that goes on behind the block does not.
pub length-blit_behind :
    (block : Bytes) (i : ℕ) (text : Bytes)
    → i ≤ length block
    → length block ≤ i + length text
    → length (blit block i text) ≡ i + length text
length-blit_behind block i [] h k = omega (arith, h, k)
length-blit_behind block i (b ∷ text) h k = elim (Bool-cases (ltb i (length block))) [
  | inl e ↦
      let inside : i < length block = ground (arith, e) in
      let same = length-set block i b inside in
      length-blit_behind (set block i b) (suc i) text (omega (arith, inside, same))
        (omega (arith, k, same))
      ∙ omega arith
  | inr e ↦
      let at_end : i ≡ length block = ground (arith, h, e) in
      let longer : length (set block i b) ≡ i + 1 =
        ap (λ n. length (set block n b)) at_end
        ∙ length-set_behind block b
        ∙ ap (λ n. n + 1) (sym at_end) in
      length-blit_behind (set block i b) (suc i) text (omega (arith, longer))
        (omega (arith, longer))
      ∙ omega arith
]

-- Clearing a whole block, or its first bytes.
pub length-zero_fill :
    (block : Bytes) (n : ℕ) → n ≤ length block → length (zero_fill block n) ≡ length block
length-zero_fill block n h =
    length-blit block 0 (replicate n 0) (omega (arith, h, length-replicate {A = ℕ} n 0))

-- A write over `mid` leaves what stands before and behind it.
pub blit-append :
    (pre mid text post : Bytes)
    → length mid ≡ length text
    → blit (pre ++ (mid ++ post)) (length pre) text ≡ pre ++ (text ++ post)
blit-append pre [] [] post h = refl
blit-append pre [] (b ∷ text) post h = absurd (omega arith)
blit-append pre (m ∷ mid) [] post h = absurd (omega arith)
blit-append pre (m ∷ mid) (b ∷ text) post h =
    ap (λ k. blit k (suc (length pre)) text) (set-length_append pre (mid ++ post) m b ∙ shift mid)
    ∙ (ap (λ n. blit ((pre ++ b ∷ []) ++ (mid ++ post)) n text) len
        ∙ (blit-append (pre ++ b ∷ []) mid text post (omega arith) ∙ sym (shift text)))
  where
    shift : (xs : Bytes) → pre ++ b ∷ (xs ++ post) ≡ (pre ++ b ∷ []) ++ (xs ++ post)
    shift xs = sym (append_assoc pre (b ∷ []) (xs ++ post))

    len : suc (length pre) ≡ length (pre ++ b ∷ [])
    len = omega (arith, length-append pre (b ∷ []))

-- A write over the first bytes of `old` leaves the rest of it.
pub blit-prefix :
    (pre old text post : Bytes)
    → length text ≤ length old
    → blit (pre ++ (old ++ post)) (length pre) text
      ≡ pre ++ (text ++ (drop (length text) old ++ post))
blit-prefix pre old text post h =
    ap (λ k. blit (pre ++ k) (length pre) text) split
    ∙ blit-append pre (take (length text) old) text (drop (length text) old ++ post)
        (omega (arith, length-take (length text) old))
  where
    split : old ++ post ≡ take (length text) old ++ (drop (length text) old ++ post)
    split =
        ap (λ k. k ++ post) (sym (take-append-drop (length text) old))
        ∙ append_assoc (take (length text) old) (drop (length text) old) post

-- Moving bytes one place to the right and writing a byte into the gap.
pub set-blit_gap :
    (pre old text post : Bytes) (c : ℕ)
    → length old ≡ suc (length text)
    → set (blit (pre ++ (old ++ post)) (suc (length pre)) text) (length pre) c
      ≡ pre ++ (c ∷ (text ++ post))
set-blit_gap pre [] text post c h = absurd (omega arith)
set-blit_gap pre (b ∷ old) text post c h =
    ap (λ k. set k (length pre) c) moved ∙ set-length_append pre (text ++ post) b c
  where
    front : pre ++ (b ∷ (old ++ post)) ≡ (pre ++ b ∷ []) ++ (old ++ post)
    front = sym (append_assoc pre (b ∷ []) (old ++ post))

    len : suc (length pre) ≡ length (pre ++ b ∷ [])
    len = omega (arith, length-append pre (b ∷ []))

    moved : blit (pre ++ (b ∷ (old ++ post))) (suc (length pre)) text ≡ pre ++ (b ∷ (text ++ post))
    moved =
        ap₂ (λ k n. blit k n text) front len
        ∙ blit-append (pre ++ b ∷ []) old text post (omega arith)
        ∙ append_assoc pre (b ∷ []) (text ++ post)

-- Reading past a prefix.
pub bytes_at-append :
    (pre text post : Bytes) (n : ℕ)
    → n ≡ length text
    → bytes_at (pre ++ (text ++ post)) (length pre) n ≡ text
bytes_at-append pre text post n e =
    rw (e, drop-length_append pre (text ++ post)) (take-length_append text post)

-- The bytes of a C string: none of them is NUL.
abbrev pub NoNul : Bytes → Type 0
NoNul [] = Unit {0}
NoNul (b ∷ text) = (b ≢ 0) × NoNul text

pub NoNul-append : (xs ys : Bytes) → NoNul xs → NoNul ys → NoNul (xs ++ ys)
NoNul-append [] ys h k = k
NoNul-append (x ∷ xs) ys h k = (h.0, NoNul-append xs ys h.1 k)

-- Reading a C string up to its NUL.
pub c_string-append : (xs ys : Bytes) → NoNul xs → c_string (xs ++ (0 ∷ ys)) ≡ xs
c_string-append [] ys h = refl
c_string-append (x ∷ xs) ys h = ground (arith, c_string-append xs ys h.1, h.0)

-- Copying a text to the front of a block that has room for it, with a NUL behind it.
pub set-blit_terminated :
    (block text : Bytes)
    → length text < length block
    → set (blit block 0 text) (length text) 0 ≡ text ++ (0 ∷ drop (suc (length text)) block)
set-blit_terminated block text h =
    ap (λ k. set k (length text) 0) (ap (λ k. blit k 0 text) (sym (append-nil block)) ∙ over)
    ∙ set-length_append text (drop (suc (length text)) block) (get_or block (length text) 0) 0
  where
    over :
        blit (block ++ []) 0 text
        ≡ text ++ (get_or block (length text) 0 ∷ drop (suc (length text)) block)
    over =
        blit-prefix [] block text [] (omega arith)
        ∙ ap (λ k. text ++ k)
            (append-nil (drop (length text) block) ∙ drop-eq-cons block (length text) 0 h)
