-- ===== src/Safety/Fresh.antt =====
-- A shell that `sh_init` has set up meets the invariant, and so does every shell that input makes of it.
use portable_c_shell.Prelude.{
  ℕ, ◌+◌, ◌≤◌, ◌<◌, ◌==◌, Option, none, some, List, [], ◌≡◌, refl, sym, ◌∙◌, subst, arith, inl, inr,
  Bool-cases, Bytes, length, set, length-set,
}
use portable_c_shell.State.{Shell, Config, Env}
use portable_c_shell.History.Slots.{AllSized}
use portable_c_shell.Input.{input}
use portable_c_shell.Session.{Storage, created, init, initial, complete_config}
use portable_c_shell.Session.Fresh.{init-created, first_line}
use portable_c_shell.Safety.{Sizes, IsDraft, IsStored, IsOffOrRing, IsHistory, IsShell, Trusted}
use portable_c_shell.Safety.Editing.{Keeps}
use portable_c_shell.Safety.Running.{input-IsShell}

-- The sizes of the buffers that `sh_init` is given.
abbrev pub draft_length : Option Bytes → ℕ
draft_length none = 0
draft_length (some d) = length d

abbrev pub sizes_of : Storage → Bytes → List Bytes → Sizes
sizes_of st line stored = record {
  line_bytes = length line;
  draft_bytes = draft_length st.draft_buffer;
  slot_bytes = st.history_slot_size;
  slot_count = length stored;
}

-- A draft buffer, if there is one, has room for a line.
abbrev pub HasRoom : ℕ → Option Bytes → Type 0
HasRoom n none = Unit {0}
HasRoom n (some d) = n ≤ length d

-- The storage that `sh_init` is given is what its descriptor says, slots are not empty, and a draft
-- has room for a line.
pub record IsStorage {W : Type 0} (c : Config W) (st : Storage) (line : Bytes) (stored : List Bytes)
    : Type 0 where
  pub line_is : st.line_buffer ≡ some line
  pub line_size : length line ≡ c.line_max + 1
  pub history_is : st.history_buffer ≡ some stored
  pub history_room : c.history_depth ≤ length stored
  pub history_slots : AllSized st.history_slot_size stored
  pub slot_room : 0 < st.history_slot_size
  pub draft_room : HasRoom (c.line_max + 1) st.draft_buffer

fresh-IsDraft :
    (z : Sizes) (n : ℕ) (d : Option Bytes)
    → 0 < n
    → z.draft_bytes ≡ draft_length d
    → HasRoom n d
    → IsDraft z n (elim d as (λ _. Option Bytes) [ none ↦ none | some b ↦ some (set b 0 0) ])
fresh-IsDraft z n none p e h = h
fresh-IsDraft z n (some b) p e h =
    (omega (arith, h, e), length-set b 0 0 (omega (arith, p, h)) ∙ sym e)

module _ {W : Type 0} where
  initial-IsOffOrRing :
      (w : W) (c : Config W) (st : Storage) (line : Bytes) (stored : List Bytes)
      → IsStorage c st line stored
      → IsOffOrRing (initial w c st line).history
  initial-IsOffOrRing w c st line stored ok = elim (Bool-cases (c.history_depth == 0)) [
    | inl e ↦ inl (refl, inr (ground (arith, e)))
    | inr e ↦ inr (
      stored,
      record {
        storage_is = ok.history_is;
        room = ok.history_room;
        sized = ok.history_slots;
        start_in = ground (arith, e);
        count_in = omega arith;
      },
      ok.slot_room,
    )
  ]

  initial-IsHistory :
      (w : W) (c : Config W) (st : Storage) (line : Bytes) (stored : List Bytes)
      → IsStorage c st line stored
      → IsHistory (sizes_of st line stored) (initial w c st line).history
  initial-IsHistory w c st line stored ok = (
    refl,
    subst (IsStored (sizes_of st line stored) st.history_slot_size) (sym ok.history_is)
        (ok.history_slots, refl),
    initial-IsOffOrRing w c st line stored ok,
  )

  pub init-IsShell :
      (B : Config W → W → Type 0) (w : W) (config : Option (Config W)) (st : Storage) (line : Bytes)
      (stored : List Bytes) (s : Shell W)
      → IsStorage (complete_config config st) st line stored
      → init w config st ≡ created s
      → B (complete_config config st) w
      → IsShell (sizes_of st line stored) B s
  init-IsShell B w config st line stored s ok made backed =
      let c = complete_config config st in
      subst {A = Shell W} (IsShell (sizes_of st line stored) B)
        (sym (init-created w config st line s ok.line_is made))
        (record {
          line_ok = ([], [], first_line line c.line_max ok.line_size);
          line_size = sym ok.line_size;
          draft_ok =
              fresh-IsDraft (sizes_of st line stored) (c.line_max + 1) st.draft_buffer (omega arith)
                refl ok.draft_room;
          history_ok = initial-IsHistory w c st line stored ok;
          decoder_ok = omega arith;
          backed = backed;
        })

  -- Let `sh_init` make a shell over a line buffer of `line_max + 1` bytes, a history storage of at
  -- least `history_depth` slots, each of `history_slot_size` bytes and not empty, and a draft buffer
  -- that, if it is given, has at least `line_max + 1` bytes. If the handlers keep the invariant and
  -- writing keeps `B`, then no input makes the shell write behind the line buffer, the draft, a slot,
  -- the last slot or the decoder's array: after every input these have the sizes of the given ones.
  pub init-input-IsShell :
      {B : Config W → W → Type 0} (env : Env W) (w : W) (config : Option (Config W)) (st : Storage)
      (line : Bytes) (stored : List Bytes) (s : Shell W) (bytes : Bytes)
      → Keeps B
      → Trusted (sizes_of st line stored) B env
      → IsStorage (complete_config config st) st line stored
      → init w config st ≡ created s
      → B (complete_config config st) w
      → IsShell (sizes_of st line stored) B (input env s bytes).0
  init-input-IsShell {B} env w config st line stored s bytes keeps trusted ok made backed =
      input-IsShell keeps env trusted s bytes
        (init-IsShell B w config st line stored s ok made backed)
