-- ===== src/Tokenizer/Block.antt =====
-- The memory of the tokenizer at work: what it has written, the bytes that were read and not yet
-- written over, and what is still unread.
use mathlib.Core.List.{tail}
use portable_c_shell.Prelude.{
  ℕ, suc, ◌+◌, [], ◌∷◌, ◌++◌, ◌≡◌, refl, sym, ap, ap₂, ◌∙◌, arith, append_assoc, length,
  length-append, get_or, set, set-length_append, Bytes,
}
use portable_c_shell.Tokenizer.{Scan, leave, round, round_on}

abbrev pub block : Bytes → Bytes → Bytes → Bytes
block out gap unread = out ++ (gap ++ (unread ++ (0 ∷ [])))

abbrev pub scan_of : Bytes → Bytes → Bytes → ℕ → Scan
scan_of out gap unread q = record {
  memory = block out gap unread;
  read = length out + length gap;
  write = length out;
  quote = q;
}

-- Scans are equal if their fields are.
scan_ext :
    {s t : Scan}
    → s.memory ≡ t.memory
    → s.read ≡ t.read
    → s.write ≡ t.write
    → s.quote ≡ t.quote
    → s ≡ t
scan_ext p q r u = λ i. record { memory = p i; read = q i; write = r i; quote = u i }

get_or-append : (xs ys : Bytes) (n : ℕ) → get_or (xs ++ ys) (length xs + n) 0 ≡ get_or ys n 0
get_or-append [] ys n = ap (λ k. get_or ys k 0) (omega arith)
get_or-append (x ∷ xs) ys n =
    ap (λ k. get_or (x ∷ (xs ++ ys)) k 0) {x = suc (length xs) + n} {y = suc (length xs + n)}
      (omega arith)
    ∙ get_or-append xs ys n

-- The byte that is `n` places behind the next unread one.
pub get_or-block :
    (out gap unread : Bytes) (n i : ℕ)
    → i ≡ length out + length gap + n
    → get_or (block out gap unread) i 0 ≡ get_or (unread ++ (0 ∷ [])) n 0
get_or-block out gap unread n i e =
    ap₂ (λ b k. get_or b k 0) (sym (append_assoc out gap (unread ++ (0 ∷ []))))
      (omega (arith, length-append out gap))
    ∙ get_or-append (out ++ gap) (unread ++ (0 ∷ [])) n

-- Reading `bytes` without writing.
pub block-read :
    (out gap bytes unread : Bytes)
    → block out gap (bytes ++ unread) ≡ block out (gap ++ bytes) unread
block-read out gap bytes unread =
    ap (λ k. out ++ k)
      (ap (λ k. gap ++ k) (append_assoc bytes unread (0 ∷ []))
        ∙ sym (append_assoc gap bytes (unread ++ (0 ∷ []))))

-- Writing a byte behind what is written, over a byte that was read.
pub set-block :
    (out : Bytes) (g : ℕ) (gap unread : Bytes) (v : ℕ)
    → set (block out (g ∷ gap) unread) (length out) v ≡ block (out ++ v ∷ []) gap unread
set-block out g gap unread v =
    set-length_append out (gap ++ (unread ++ (0 ∷ []))) g v
    ∙ sym (append_assoc out (v ∷ []) (gap ++ (unread ++ (0 ∷ []))))

-- What is left of the gap after the bytes `bytes` were read and one byte was written.
abbrev pub gap_after : Bytes → ℕ → Bytes → Bytes
gap_after gap b bytes = tail (gap ++ (b ∷ bytes))

set-read :
    (out gap : Bytes) (b : ℕ) (bytes unread : Bytes) (v : ℕ)
    → set (block out gap (b ∷ (bytes ++ unread))) (length out) v
      ≡ block (out ++ v ∷ []) (gap_after gap b bytes) unread
set-read out [] b bytes unread v =
    ap (λ k. set k (length out) v) (block-read out [] (b ∷ bytes) unread)
    ∙ set-block out b bytes unread v
set-read out (g ∷ gap) b bytes unread v =
    ap (λ k. set k (length out) v) (block-read out (g ∷ gap) (b ∷ bytes) unread)
    ∙ set-block out g (gap ++ (b ∷ bytes)) unread v

length-gap_after :
    (gap : Bytes) (b : ℕ) (bytes : Bytes)
    → length (gap_after gap b bytes) ≡ length gap + length bytes
length-gap_after [] b bytes = omega arith
length-gap_after (g ∷ gap) b bytes = omega (arith, length-append gap (b ∷ bytes))

-- After the bytes `bytes` were read, the scan that reads on.
pub scan-read :
    (out gap : Bytes) (c : ℕ) (unread : Bytes) (q q' : ℕ)
    → record (scan_of out gap (c ∷ unread) q) { read = suc (length out + length gap); quote = q' }
      ≡ scan_of out (gap ++ c ∷ []) unread q'
scan-read out gap c unread q q' =
    scan_ext (block-read out gap (c ∷ []) unread) (omega (arith, length-append gap (c ∷ []))) refl
      refl

-- After `b` and `bytes` were read and `v` was written, the scan that reads on.
pub scan-put :
    (out gap : Bytes) (b : ℕ) (bytes unread : Bytes) (q v next : ℕ)
    → next ≡ length out + length gap + suc (length bytes)
    → record (scan_of out gap (b ∷ (bytes ++ unread)) q) {
      memory = set (block out gap (b ∷ (bytes ++ unread))) (length out) v;
      read = next;
      write = suc (length out);
    }
      ≡ scan_of (out ++ v ∷ []) (gap_after gap b bytes) unread q
scan-put out gap b bytes unread q v next e =
    scan_ext (set-read out gap b bytes unread v)
      (omega (arith, length-append out (v ∷ []), length-gap_after gap b bytes))
      (omega (arith, length-append out (v ∷ []))) refl

-- The byte at `read`, and the byte behind it.
pub round-block :
    (out gap : Bytes) (c : ℕ) (unread : Bytes) (q : ℕ)
    → round (scan_of out gap (c ∷ unread) q)
      ≡ round_on (scan_of out gap (c ∷ unread) q) c (get_or (unread ++ (0 ∷ [])) 0 0)
round-block out gap c unread q =
    ap₂ (round_on (scan_of out gap (c ∷ unread) q))
      (get_or-block out gap (c ∷ unread) 0 _ (omega arith))
      (get_or-block out gap (c ∷ unread) 1 _ (omega arith))

pub round-block_end :
    (out gap : Bytes) (q : ℕ) → round (scan_of out gap [] q) ≡ leave (scan_of out gap [] q)
unfolding round_on
round-block_end out gap q =
    ap
      (λ c.
        round_on (scan_of out gap [] q) c
          (get_or (block out gap []) (suc (length out + length gap)) 0))
      (get_or-block out gap [] 0 _ (omega arith))
