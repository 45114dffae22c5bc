-- ===== src/Safety.antt =====
-- The invariant of a shell, `sh_t` of shell/include/sh_shell.h, that every input keeps: the line,
-- the draft, the slots of the history and the decoder's array have the sizes that they were made
-- with, which a write behind one of them would change.
pub mod Lines
pub mod Rings
pub mod Editing
pub mod Completing
pub mod Running
pub mod Fresh
pub mod ShortDraft
use portable_c_shell.Prelude.{ℕ, ◌≤◌, ◌<◌, Option, none, some, List, ◌≡◌, ◌⊎◌, Bytes, length}
use portable_c_shell.Ansi.Feed.{IsDecoder}
use portable_c_shell.State.{Shell, Line, History, Config, Env}
use portable_c_shell.History.Log.{IsRing}
use portable_c_shell.History.Slots.{AllSized}
use portable_c_shell.Editor.Keys.{Shows}

-- The buffer of the line has the size of the capacity and holds a text with a NUL behind it, and
-- the cursor stands in the text or at its end.
abbrev pub IsLine : Line → Type 0
IsLine l = (left : Bytes) × (right : Bytes) × Shows l left right

-- The sizes of the buffers of a shell, in bytes, and the number of its history slots.
pub record Sizes : Type 0 where
  pub line_bytes : ℕ
  pub draft_bytes : ℕ
  pub slot_bytes : ℕ
  pub slot_count : ℕ

-- A draft that is there has exactly its bytes, which have room for every line.
abbrev pub IsDraft : Sizes → ℕ → Option Bytes → Type 0
IsDraft z n none = Unit {0}
IsDraft z n (some d) = (n ≤ z.draft_bytes) × (length d ≡ z.draft_bytes)

-- A storage that is there has exactly its slots, each exactly as long as a slot.
abbrev pub IsStored : Sizes → ℕ → Option (List Bytes) → Type 0
IsStored z size none = Unit {0}
IsStored z size (some stored) = AllSized size stored × (length stored ≡ z.slot_count)

-- A history that is switched off, or a well-formed ring.
abbrev pub IsOffOrRing : History → Type 0
IsOffOrRing h =
    ((h.entry_count ≡ 0) × ((h.storage ≡ none) ⊎ (h.depth ≡ 0)))
    ⊎ ((stored : List Bytes) × IsRing h stored × (0 < h.slot_size))

abbrev pub IsHistory : Sizes → History → Type 0
IsHistory z h = (h.slot_size ≡ z.slot_bytes) × IsStored z h.slot_size h.storage × IsOffOrRing h

-- `B` is what the output backend and the configuration keep between them.
pub record IsShell {W : Type 0} (z : Sizes) (B : Config W → W → Type 0) (s : Shell W) : Type 0 where
  pub line_ok : IsLine s.line
  pub line_size : s.line.capacity ≡ z.line_bytes
  pub draft_ok : IsDraft z s.line.capacity s.draft
  pub history_ok : IsHistory z s.history
  pub decoder_ok : IsDecoder s.ansi
  pub backed : B s.cfg s.world

-- Handlers keep the invariant of the shell that they are given.
abbrev pub Trusted : {W : Type 0} → Sizes → (Config W → W → Type 0) → Env W → Type 0
Trusted {W} z B env =
    (key : ℕ) (s : Shell W) (args : List Bytes) (ctx : Option ℕ)
    → IsShell z B s
    → IsShell z B (env.handler key s args ctx).0
