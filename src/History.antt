-- ===== src/History.antt =====
-- The history ring, shell/src/sh_history.c. An entry is the C string in a slot.
pub mod Ring
pub mod Slots
pub mod Log
use portable_c_shell.Prelude.{
  ℕ, zero, suc, ◌+◌, ◌-◌, ◌%◌, Bool, true, false, ◌||◌, Option, none, some, List, [], ◌∷◌, length,
  take, get_or, set, ltb, leb, ◌==◌, if◌then◌else◌, Bytes, blit, zero_fill, c_string, equal,
}
use portable_c_shell.State.{Shell, History, Line, View, draft_view}

-- `slot_at`: the memory of one slot.
abbrev pub slot_at : List Bytes → ℕ → Bytes
slot_at slots physical = get_or slots physical []

abbrev pub slots : History → List Bytes
slots h = elim h.storage [ none ↦ [] | some s ↦ s ]

-- `sh_history_get_newest`
unfoldable pub get_newest : History → ℕ → Option Bytes
get_newest h newest_index =
    if leb h.entry_count newest_index || h.depth == 0
    then none
    else some
        (c_string (slot_at (slots h) ((h.start + (h.entry_count - 1 - newest_index)) % h.depth)))

-- `memcpy(slot, line, len); slot[len] = '\0';` with `len` cut to the slot.
unfoldable pub fill_slot : ℕ → Bytes → Bytes → Bytes
fill_slot slot_size slot line =
    let len : ℕ = if leb slot_size (length line) then slot_size - 1 else length line in
    set (blit slot 0 (take len line)) len 0

-- Whether the newest entry is this line.
abbrev pub is_latest : Option Bytes → Bytes → Bool
is_latest none line = false
is_latest (some latest) line = equal latest line

-- The part of `sh_history_add_internal` behind its guards.
unfoldable pub push_entry : History → List Bytes → Bytes → History
push_entry h stored line =
    let free : ℕ = (h.start + h.entry_count) % h.depth in
    let write = λ (physical : ℕ).
      some (set stored physical (fill_slot h.slot_size (slot_at stored physical) line)) in
    if ltb h.entry_count h.depth
    then record h { storage = write free; entry_count = h.entry_count + 1 }
    else record h { storage = write h.start; start = (h.start + 1) % h.depth }

-- `sh_history_add_internal`
unfoldable pub add : History → Bytes → History
add h [] = h
add h (b ∷ line) = elim h.storage [
  | none ↦ h
  | some stored ↦
      if h.depth == 0
      then h
      else if is_latest (get_newest h 0) (b ∷ line)
      then h
      else push_entry h stored (b ∷ line)
]

-- `memset(history_storage, 0, depth * slot_size)`, slot by slot.
abbrev pub clear_slots : ℕ → ℕ → List Bytes → List Bytes
clear_slots zero slot_size stored = stored
clear_slots (suc depth) slot_size [] = zero_fill [] slot_size ∷ clear_slots depth slot_size []
clear_slots (suc depth) slot_size (slot ∷ stored) =
    zero_fill slot slot_size ∷ clear_slots depth slot_size stored

module _ {W : Type 0} where
  -- `sh_history_clear`
  unfoldable pub clear : Shell W → Shell W
  clear s = record s {
    history = record (s.history) {
      entry_count = 0;
      start = 0;
      storage = elim s.history.storage [
        | none ↦ none
        | some stored ↦ some (clear_slots s.history.depth s.history.slot_size stored)
      ];
    };
    history_view = draft_view;
    draft = elim s.draft [ none ↦ none | some d ↦ some (zero_fill d s.line.capacity) ];
  }
