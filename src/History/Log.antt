-- ===== src/History/Log.antt =====
-- The history ring against a log: the list of its entries, oldest first.
use portable_c_shell.Prelude.{
  ℕ, zero, suc, ◌+◌, ◌-◌, ◌%◌, ◌≤◌, ◌<◌, Option, none, some, List, [], ◌∷◌, ◌++◌, ◌≡◌, ◌⊎◌, inl,
  inr, Bool-cases, refl, sym, ap, ◌∙◌, subst, arith, length, length-append, length-set, get_or,
  get_elem?, set, leb, ltb, if◌then◌else◌, Bytes, c_string, NoNul, c_string-append,
}
use native.Mathlib.Nat.{mod-lt, mod-eq_of_lt, add-mod_right}
use native.Mathlib.Decide.{dec_lt}
use mathlib.Core.List.{tail}
use portable_c_shell.State.{History}
use portable_c_shell.History.{slots, is_latest, get_newest, fill_slot, push_entry, add}
use portable_c_shell.History.Slots.{
  AllSized, AllSized-set, length-slot, fill_slot_lem, length-fill_slot,
}
use portable_c_shell.History.Ring.{window, length-window, window-mod, window-set}

-- A history that is switched on: its storage, and where its entries lie.
pub record IsRing (h : History) (stored : List Bytes) : Type 0 where
  pub storage_is : h.storage ≡ some stored
  pub room : h.depth ≤ length stored
  pub sized : AllSized h.slot_size stored
  pub start_in : h.start < h.depth
  pub count_in : h.entry_count ≤ h.depth

-- The entries, oldest first.
abbrev pub contents : History → List Bytes
contents h = window h.depth (slots h) h.start h.entry_count

-- Entry `i` of a log, counted from its newest.
abbrev pub newest : List Bytes → ℕ → Option Bytes
newest log i = if leb (length log) i then none else get_elem? log (length log - 1 - i)

-- A log of bounded depth forgets its oldest entry.
abbrev pub trim : ℕ → List Bytes → List Bytes
trim depth log = if leb (length log) depth then log else tail log

-- Recording a line, unless it is the newest entry.
abbrev pub log_add : ℕ → List Bytes → Bytes → List Bytes
log_add depth log line =
    if is_latest (newest log 0) line then log else trim depth (log ++ (line ∷ []))

get_elem?-window :
    (d : ℕ) (stored : List Bytes) (n a k : ℕ)
    → k < n
    → get_elem? (window d stored a n) k ≡ some (c_string (get_or stored ((a + k) % d) []))
get_elem?-window d stored zero a k h = absurd (omega arith)
get_elem?-window d stored (suc n) a zero h =
    ap (λ t. some (c_string (get_or stored (t % d) []))) (omega arith)
get_elem?-window d stored (suc n) a (suc k) h =
    get_elem?-window d stored n (suc a) k (omega arith)
    ∙ ap (λ t. some (c_string (get_or stored (t % d) []))) (omega arith)

module _ {h : History} {stored : List Bytes} (ring : IsRing h stored) where
  length-contents : length (contents h) ≡ h.entry_count
  length-contents = length-window h.depth (slots h) h.start h.entry_count

  slots-stored : slots h ≡ stored
  slots-stored = ground arith

  -- In a well-formed ring, `sh_history_get_newest` gives entry `i` of the log counted from its
  -- newest, and nothing past the oldest.
  pub get_newest-contents : (i : ℕ) → get_newest h i ≡ newest (contents h) i
  unfolding get_newest
  get_newest-contents i = ground (
    arith,
    length-contents,
    ring.start_in,
    get_elem?-window h.depth (slots h) h.entry_count h.start (h.entry_count - 1 - i),
  )

  module _ (line : Bytes) (clean : NoNul line) (fits : length line < h.slot_size) where
    filled : Bytes → Bytes
    filled slot = fill_slot h.slot_size slot line

    -- Writing a slot behind the entries.
    window-filled :
        (a n i : ℕ)
        → i ≡ (a + n) % h.depth
        → n < h.depth
        → window h.depth (set stored i (filled (get_or stored i []))) a (suc n)
          ≡ window h.depth stored a n ++ (line ∷ [])
    unfolding filled
    window-filled a n i e lt =
        window-set h.depth stored (filled (get_or stored i [])) n a i e inside lt
        ∙ ap (λ t. window h.depth stored a n ++ (t ∷ []))
            (ap c_string (
                fill_slot_lem h.slot_size (get_or stored i []) line
                  (length-slot h.slot_size stored i ring.sized inside) fits)
              ∙ c_string-append line _ clean)
      where
        inside : i < length stored
        inside = omega (arith, ring.room, ring.start_in, mod-lt (a + n) {m = h.depth} (omega arith))

    -- Overwriting the oldest of `suc n` entries in a full ring.
    window-full :
        (n : ℕ)
        → h.depth ≡ suc n
        → window h.depth
            (set stored h.start (filled (get_or stored h.start [])))
            ((h.start + 1) % h.depth)
            (suc n)
          ≡ window h.depth stored (suc h.start) n ++ (line ∷ [])
    window-full n e =
        window-mod h.depth (set stored h.start (filled (get_or stored h.start []))) (h.start + 1)
          (suc n)
        ∙ ap
            (λ k. window h.depth (set stored h.start (filled (get_or stored h.start []))) k (suc n))
            (omega arith)
        ∙ window-filled (suc h.start) n h.start round (omega arith)
      where
        round : h.start ≡ (suc h.start + n) % h.depth
        round = sym (
            ap (λ k. k % h.depth) {x = suc h.start + n} {y = h.start + h.depth} (omega arith)
            ∙ add-mod_right h.start h.depth
            ∙ mod-eq_of_lt ring.start_in)

    -- The part of `sh_history_add_internal` behind its guards.
    push_entry-contents :
        contents (push_entry h stored line) ≡ trim h.depth (contents h ++ (line ∷ []))
    unfolding push_entry filled
    push_entry-contents = elim (dec_lt h.entry_count h.depth) [
      | yes p ↦ ground (
        arith,
        length-contents,
        slots-stored,
        length-append (contents h) (line ∷ []),
        window-filled h.start h.entry_count ((h.start + h.entry_count) % h.depth) refl p,
      )
      | no p ↦
          let n = h.depth - 1 in
          let e : h.depth ≡ suc n = omega (arith, ring.start_in) in
          let c : h.entry_count ≡ suc n = omega (arith, ring.start_in, ring.count_in) in
          ground (
            arith,
            length-contents,
            slots-stored,
            window-full n e,
            length-append (contents h) (line ∷ []),
          )
    ]

-- In a well-formed ring, recording a nonempty line without NUL bytes that fits in a slot adds it
-- to the log, unless it is the newest entry, and past the full depth the oldest entry is
-- forgotten.
pub add-contents :
    {h : History} {stored : List Bytes} (b : ℕ) (line : Bytes)
    → IsRing h stored
    → NoNul (b ∷ line)
    → length (b ∷ line) < h.slot_size
    → contents (add h (b ∷ line)) ≡ log_add h.depth (contents h) (b ∷ line)
unfolding add
add-contents {h} {stored} b line ring clean fits = ground (
  arith,
  ring.storage_is,
  ring.start_in,
  get_newest-contents ring 0,
  push_entry-contents ring (b ∷ line) clean fits,
)

module _ {h : History} {stored : List Bytes} (ring : IsRing h stored) (line : Bytes) where
  -- The slot that is written.
  target : ℕ
  target = if ltb h.entry_count h.depth then (h.start + h.entry_count) % h.depth else h.start

  written_slots : List Bytes
  unfolding target
  written_slots = set stored target (fill_slot h.slot_size (get_or stored target []) line)

  target_inside : target < length stored
  unfolding target
  target_inside = ground (
    arith,
    ring.room,
    ring.start_in,
    mod-lt (h.start + h.entry_count) {m = h.depth} (omega (arith, ring.start_in)),
  )

  length-written_slots : length written_slots ≡ length stored
  unfolding written_slots
  length-written_slots =
      length-set stored target (fill_slot h.slot_size (get_or stored target []) line) target_inside

  slot_size-push_entry : (push_entry h stored line).slot_size ≡ h.slot_size
  unfolding push_entry
  slot_size-push_entry = ground arith

  push_entry-IsRing : 0 < h.slot_size → IsRing (push_entry h stored line) written_slots
  unfolding push_entry written_slots
  push_entry-IsRing positive = record {
    storage_is = ground arith;
    room = ground (
      arith,
      ring.room,
      length-set stored target (fill_slot h.slot_size (get_or stored target []) line) target_inside,
    );
    sized = ground (
      arith,
      AllSized-set h.slot_size stored target (fill_slot h.slot_size (get_or stored target []) line)
          target_inside ring.sized
          (length-fill_slot h.slot_size (get_or stored target []) line positive
            (length-slot h.slot_size stored target ring.sized target_inside)),
    );
    start_in =
        ground
          (arith, ring.start_in, mod-lt (h.start + 1) {m = h.depth} (omega (arith, ring.start_in)));
    count_in = ground (arith, ring.count_in);
  }

-- `sh_history_add_internal` leaves the ring as it is, or writes one slot.
add-cases :
    {h : History} {stored : List Bytes} (line : Bytes)
    → IsRing h stored
    → (add h line ≡ h) ⊎ (add h line ≡ push_entry h stored line)
unfolding add
add-cases [] ring = inl refl
add-cases {h} (b ∷ line) ring = elim (Bool-cases (is_latest (get_newest h 0) (b ∷ line))) [
  | inl e ↦ inl (ground (arith, ring.storage_is))
  | inr e ↦ inr (ground (arith, ring.storage_is, ring.start_in))
]

-- In a well-formed ring whose slots have room for a byte at least, recording any line, also one that
-- is longer than a slot, leaves a well-formed ring with the slots and the slot size that it had: no
-- write goes behind a slot, nor behind the last slot, since that would make it longer.
pub add-IsRing :
    {h : History} {stored : List Bytes} (line : Bytes)
    → IsRing h stored
    → 0 < h.slot_size
    → (s : List Bytes) × IsRing (add h line) s
      × AllSized h.slot_size s
      × (length s ≡ length stored)
      × ((add h line).slot_size ≡ h.slot_size)
add-IsRing {h} {stored} line ring positive = elim (add-cases line ring) [
  | inl e ↦ (stored, rw e ring, ring.sized, refl, ap (λ k. k.slot_size) e)
  | inr e ↦
      let pushed = push_entry-IsRing ring line positive in
      let same : (push_entry h stored line).slot_size ≡ h.slot_size =
        slot_size-push_entry ring line in
      (
        written_slots ring line,
        rw e pushed,
        subst (λ n. AllSized n (written_slots ring line)) same pushed.sized,
        length-written_slots ring line,
        ap (λ k. k.slot_size) e ∙ same,
      )
]
