-- ===== src/History/Slots.antt =====
-- The slots of the history and their sizes, shell/src/sh_history.c: what `memcpy` into a slot leaves.
use portable_c_shell.Prelude.{
  ℕ, zero, suc, ◌-◌, ◌<◌, List, [], ◌∷◌, ◌++◌, ◌≡◌, ◌∙◌, arith, length, length-set, take, take_all,
  drop, get_or, set, leb, if◌then◌else◌, Bytes, length-take, set-blit_terminated, blit, length-blit,
}
use portable_c_shell.History.{fill_slot}

-- Every slot has the size of a slot.
abbrev pub AllSized : ℕ → List Bytes → Type 0
AllSized size [] = Unit {0}
AllSized size (slot ∷ stored) = (length slot ≡ size) × AllSized size stored

pub AllSized-set :
    (size : ℕ) (stored : List Bytes) (i : ℕ) (v : Bytes)
    → i < length stored
    → AllSized size stored
    → length v ≡ size
    → AllSized size (set stored i v)
AllSized-set size [] i v inside h k = absurd (omega (arith, inside))
AllSized-set size (s ∷ stored) zero v inside h k = (k, h.1)
AllSized-set size (s ∷ stored) (suc i) v inside h k =
    (h.0, AllSized-set size stored i v (omega (arith, inside)) h.1 k)

pub length-slot :
    (size : ℕ) (stored : List Bytes) (i : ℕ)
    → AllSized size stored
    → i < length stored
    → length (get_or stored i []) ≡ size
length-slot size [] i h p = absurd (omega arith)
length-slot size (s ∷ stored) zero h p = h.0
length-slot size (s ∷ stored) (suc i) h p = length-slot size stored i h.1 (omega arith)

-- A slot that was filled holds the line and a NUL.
pub fill_slot_lem :
    (size : ℕ) (slot line : Bytes)
    → length slot ≡ size
    → length line < size
    → fill_slot size slot line ≡ line ++ (0 ∷ drop (suc (length line)) slot)
unfolding fill_slot
fill_slot_lem size slot line e h =
    ground (arith, take_all (length line) line, set-blit_terminated slot line)

pub length-fill_slot :
    (size : ℕ) (slot line : Bytes)
    → 0 < size
    → length slot ≡ size
    → length (fill_slot size slot line) ≡ size
unfolding fill_slot
length-fill_slot size slot line h e =
    let len : ℕ = if leb size (length line) then size - 1 else length line in
    let short : len < size = ground arith in
    let copied =
      length-blit slot 0 (take len line) (omega (arith, short, e, length-take len line)) in
    length-set (blit slot 0 (take len line)) len 0 (omega (arith, short, copied, e)) ∙ copied ∙ e
