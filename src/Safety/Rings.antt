-- ===== src/Safety/Rings.antt =====
-- Recording and clearing keep the history well formed, and wiping keeps the draft's size.
use portable_c_shell.Prelude.{
  ℕ, zero, suc, ◌≤◌, ◌<◌, Bool, true, false, Option, none, some, List, [], ◌∷◌, ◌≡◌, refl, sym, ap,
  ◌∙◌, arith, inl, inr, Option-cases, ◌-◌, ◌⊎◌, Bytes, length, length-blit, length-zero_fill,
  length-take, length-set, blit, zero_fill, take, leb, if◌then◌else◌, subst,
}
use portable_c_shell.State.{Shell, Line, History, View, draft_view, entry_view}
use portable_c_shell.History
use portable_c_shell.History.{clear_slots}
use portable_c_shell.History.Log.{add-IsRing}
use portable_c_shell.History.Slots.{AllSized}
use portable_c_shell.Editor.{wipe_draft, wipe_draft_if_secure, save_draft}
use portable_c_shell.Safety.{Sizes, IsDraft, IsStored, IsHistory}

-- A history that is switched off records nothing.
add_off : (h : History) (line : Bytes) → (h.storage ≡ none) ⊎ (h.depth ≡ 0) → History.add h line ≡ h
unfolding History.add
add_off h [] off = refl
add_off h (b ∷ line) (inl off) = ground (arith, off)
add_off h (b ∷ line) (inr off) = elim (Option-cases h.storage) [
  | inl e ↦ ground (arith, e)
  | inr (stored, e) ↦ ground (arith, e, off)
]

module _ (z : Sizes) where
  pub add-IsHistory :
      (h : History) (line : Bytes) → IsHistory z h → IsHistory z (History.add h line)
  add-IsHistory h line (size, slots, inl (empty, off)) =
      subst (IsHistory z) (sym (add_off h line off)) (size, slots, inl (empty, off))
  add-IsHistory h line (size, slots, inr (stored, ring, positive)) =
      let (s, ring', sized, len, same) = add-IsRing line ring positive in
      let kept = subst (IsStored z h.slot_size) ring.storage_is slots in
      (
        same ∙ size,
        subst (IsStored z (History.add h line).slot_size) (sym ring'.storage_is)
            (ring'.sized, len ∙ kept.1),
        inr (s, ring', omega (arith, positive, same)),
      )

-- Clearing slots that are there changes no size.
clear_slots-AllSized :
    (depth size : ℕ) (stored : List Bytes)
    → depth ≤ length stored
    → AllSized size stored
    → AllSized size (clear_slots depth size stored)
clear_slots-AllSized zero size stored room h = h
clear_slots-AllSized (suc depth) size [] room h = absurd (omega (arith, room))
clear_slots-AllSized (suc depth) size (slot ∷ stored) room (len, h) = (
  length-zero_fill slot size (omega (arith, len)) ∙ len,
  clear_slots-AllSized depth size stored (omega (arith, room)) h,
)

length-clear_slots :
    (depth size : ℕ) (stored : List Bytes)
    → depth ≤ length stored
    → length (clear_slots depth size stored) ≡ length stored
length-clear_slots zero size stored room = refl
length-clear_slots (suc depth) size [] room = absurd (omega (arith, room))
length-clear_slots (suc depth) size (slot ∷ stored) room =
    ap suc (length-clear_slots depth size stored (omega (arith, room)))

abbrev cleared : ℕ → ℕ → Option (List Bytes) → Option (List Bytes)
cleared depth size o = elim o as (λ _. Option (List Bytes)) [
  | none ↦ none
  | some stored ↦ some (clear_slots depth size stored)
]

cleared_off :
    (z : Sizes) (depth size : ℕ) (o : Option (List Bytes))
    → depth ≡ 0
    → IsStored z size o
    → IsStored z size (cleared depth size o)
cleared_off z depth size none off h = h
cleared_off z depth size (some stored) off h =
    subst (λ d. IsStored z size (some (clear_slots d size stored))) (sym off) h

module _ {W : Type 0} (z : Sizes) where
  pub clear-IsHistory :
      (s : Shell W) → IsHistory z s.history → IsHistory z (History.clear s).history
  unfolding History.clear
  clear-IsHistory s (size, slots, inl (empty, inl off)) = (
    size,
    subst (λ o. IsStored z s.history.slot_size (cleared s.history.depth s.history.slot_size o))
        (sym off) tt,
    inl (refl, inl (ap (cleared s.history.depth s.history.slot_size) off)),
  )
  clear-IsHistory s (size, slots, inl (empty, inr off)) = (
    size,
    cleared_off z s.history.depth s.history.slot_size s.history.storage off slots,
    inl (refl, inr off),
  )
  clear-IsHistory s (size, slots, inr (stored, ring, positive)) =
      let h = s.history in
      let len = length-clear_slots h.depth h.slot_size stored ring.room in
      let sized = clear_slots-AllSized h.depth h.slot_size stored ring.room ring.sized in
      let kept = subst (IsStored z h.slot_size) ring.storage_is slots in
      (
        size,
        subst (λ o. IsStored z h.slot_size (cleared h.depth h.slot_size o)) (sym ring.storage_is)
            (sized, len ∙ kept.1),
        inr (
          clear_slots h.depth h.slot_size stored,
          record {
            storage_is = ap (cleared h.depth h.slot_size) ring.storage_is;
            room = omega (arith, ring.room, len);
            sized = sized;
            start_in = omega (arith, ring.start_in);
            count_in = omega arith;
          },
          positive,
        ),
      )

-- The draft, whose size is at least that of the line.
module _ (z : Sizes) where
  pub zero_fill-IsDraft :
      (n : ℕ) (d : Bytes) → IsDraft z n (some d) → IsDraft z n (some (zero_fill d n))
  zero_fill-IsDraft n d (room, len) = (room, length-zero_fill d n (omega (arith, room, len)) ∙ len)

  pub wipe_draft-IsDraft :
      (secure : Bool) (n : ℕ) (d : Option Bytes)
      → 0 < n
      → IsDraft z n d
      → IsDraft z n (wipe_draft secure n d)
  wipe_draft-IsDraft secure n none p h = h
  wipe_draft-IsDraft true n (some d) p h = zero_fill-IsDraft n d h
  wipe_draft-IsDraft false n (some d) p (room, len) =
      (room, length-set d 0 0 (omega (arith, p, room, len)) ∙ len)

  pub wipe_draft_if_secure-IsDraft :
      (secure : Bool) (n : ℕ) (d : Option Bytes)
      → IsDraft z n d
      → IsDraft z n (wipe_draft_if_secure secure n d)
  wipe_draft_if_secure-IsDraft secure n none h = h
  wipe_draft_if_secure-IsDraft true n (some d) h = zero_fill-IsDraft n d h
  wipe_draft_if_secure-IsDraft false n (some d) h = h

  pub save_draft-IsDraft :
      (v : View) (l : Line) (d : Option Bytes)
      → 0 < l.capacity
      → IsDraft z l.capacity d
      → IsDraft z l.capacity (save_draft v l d)
  save_draft-IsDraft (entry_view v) l d p h = h
  save_draft-IsDraft draft_view l none p h = h
  save_draft-IsDraft draft_view l (some d) p (room, len) =
      let n : ℕ = if leb l.capacity l.len then l.capacity - 1 else l.len in
      let short : n < l.capacity = ground (arith, p) in
      let copied =
        length-blit d 0 (take n l.buffer)
          (omega (arith, short, room, len, length-take n l.buffer)) in
      (
        room,
        length-set (blit d 0 (take n l.buffer)) n 0 (omega (arith, short, room, len, copied))
            ∙ copied
            ∙ len,
      )

  pub clear-IsDraft :
      (n : ℕ) (d : Option Bytes)
      → IsDraft z n d
      → IsDraft z n (elim d as (λ _. Option Bytes) [ none ↦ none | some b ↦ some (zero_fill b n) ])
  clear-IsDraft n none h = h
  clear-IsDraft n (some d) h = zero_fill-IsDraft n d h
