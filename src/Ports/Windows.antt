-- ===== src/Ports/Windows.antt =====
-- The Windows console port, shell/ports/host/sh_port_windows.c: console key events become bytes, which
-- wait in a queue of eight bytes and are repeated for a held key. The conversion to UTF-8,
-- `WideCharToMultiByte`, is a parameter.
pub mod Keys
use portable_c_shell.Prelude.{
  ℕ, zero, suc, ◌+◌, ◌-◌, Bool, true, false, not, ◌&&◌, ◌||◌, Option, none, some, List, [], ◌∷◌,
  length, get_or, blit, ltb, leb, ◌==◌, if◌then◌else◌, Bytes, text,
}

-- `sizeof(byte_queue)`
abbrev pub queue_size : ℕ
queue_size = 8

-- The part of `sh_host_terminal_t` that reads keys.
pub record Terminal : Type 0 where
  pub byte_queue : Bytes
  pub queue_length : ℕ
  pub queue_position : ℕ
  pub repeat_remaining : ℕ
  pub pending_high_surrogate : ℕ

-- The virtual keys of the `switch`.
pub data VirtualKey : Type 0 where
  vk_up vk_down vk_right vk_left vk_home vk_end vk_delete vk_other : VirtualKey

-- `INPUT_RECORD`: a key that goes down, with its UTF-16 unit and repeat count, or anything else.
pub data ConsoleRecord : Type 0 where
  key_down : VirtualKey → ℕ → ℕ → ConsoleRecord
  other_record : ConsoleRecord

-- What queueing a key answers: READ_BYTE, READ_EOF or ERROR.
pub data Queued : Type 0 where
  queued : Terminal → Queued
  ignored : Terminal → Queued
  queue_failed : Terminal → Queued

-- What the loop over console records comes to: a byte, an error, or the end of the records.
pub data KeyRead : Type 0 where
  got_byte : Terminal → ℕ → List ConsoleRecord → KeyRead
  read_failed : Terminal → KeyRead
  waiting : Terminal → KeyRead

-- `sh_host_queue_sequence`; `none` is SH_HOST_TERMINAL_ERROR.
unfoldable pub queue_sequence : Terminal → Bytes → ℕ → Option Terminal
queue_sequence t sequence repeat_count =
    if length sequence == 0 || ltb queue_size (length sequence)
    then none
    else some (record t {
      byte_queue = blit t.byte_queue 0 sequence;
      queue_length = length sequence;
      queue_position = 0;
      repeat_remaining = if repeat_count == 0 then 1 else repeat_count;
    })

-- The state after the last byte of the queue was taken.
abbrev pub wrapped : Terminal → Terminal
wrapped t =
    if ltb 1 t.repeat_remaining
    then record t { repeat_remaining = t.repeat_remaining - 1; queue_position = 0 }
    else record t { queue_length = 0; queue_position = 0; repeat_remaining = 0 }

-- `sh_host_take_queued_byte`; `none` is SH_HOST_TERMINAL_READ_EOF.
unfoldable pub take_queued_byte : Terminal → Option (Terminal × ℕ)
take_queued_byte t =
    if leb t.queue_length t.queue_position
    then none
    else some (
      (if t.queue_position + 1 == t.queue_length
          then wrapped (record t { queue_position = t.queue_position + 1 })
          else record t { queue_position = t.queue_position + 1 }),
      get_or t.byte_queue t.queue_position 0,
    )

abbrev pub special_sequence : VirtualKey → Option Bytes
special_sequence vk_up = some (text "\u{1b}[A")
special_sequence vk_down = some (text "\u{1b}[B")
special_sequence vk_right = some (text "\u{1b}[C")
special_sequence vk_left = some (text "\u{1b}[D")
special_sequence vk_home = some (text "\u{1b}[H")
special_sequence vk_end = some (text "\u{1b}[F")
special_sequence vk_delete = some (text "\u{1b}[3~")
special_sequence vk_other = none

abbrev pub queue_result : Terminal → Option Terminal → Queued
queue_result t none = queue_failed t
queue_result t (some t') = queued t'

-- `sh_host_queue_special_key`
unfoldable pub queue_special_key : Terminal → VirtualKey → ℕ → Queued
queue_special_key t key repeat_count = elim (special_sequence key) [
  | none ↦ ignored t
  | some sequence ↦ queue_result t (queue_sequence t sequence repeat_count)
]

abbrev pub is_high_surrogate : ℕ → Bool
is_high_surrogate c = leb 0xd800 c && leb c 0xdbff

abbrev pub is_low_surrogate : ℕ → Bool
is_low_surrogate c = leb 0xdc00 c && leb c 0xdfff

module _ (to_utf8 : List ℕ → Option Bytes) where
  -- The end of `sh_host_queue_unicode`, on the UTF-16 units.
  abbrev pub queue_units : Terminal → List ℕ → ℕ → Queued
  queue_units t units repeat_count = elim (to_utf8 units) [
    | none ↦ ignored t
    | some bytes ↦
        if length bytes == 0
        then ignored t
        else queue_result t (queue_sequence t bytes repeat_count)
  ]

  -- `sh_host_queue_unicode`
  unfoldable pub queue_unicode : Terminal → ℕ → ℕ → Queued
  queue_unicode t c repeat_count =
      let cleared : Terminal = record t { pending_high_surrogate = 0 } in
      if is_high_surrogate c
      then ignored (record t { pending_high_surrogate = c })
      else if is_low_surrogate c
      then (if t.pending_high_surrogate == 0
          then ignored t
          else queue_units cleared (t.pending_high_surrogate ∷ c ∷ []) repeat_count)
      else if c == 0
      then ignored cleared
      else queue_units cleared (c ∷ []) repeat_count

  -- A key of the loop of `sh_host_terminal_read_byte`.
  abbrev pub queue_key : Terminal → VirtualKey → ℕ → ℕ → Queued
  queue_key t key c repeat_count = elim (queue_special_key t key repeat_count) [
    | queued t' ↦ queued t'
    | ignored t' ↦ queue_unicode t' c repeat_count
    | queue_failed t' ↦ queue_failed t'
  ]

  -- The loop over console records.
  unfoldable pub read_keys : Terminal → List ConsoleRecord → KeyRead
  read_keys t [] = waiting t
  read_keys t (other_record ∷ records) = read_keys t records
  read_keys t (key_down key c repeat_count ∷ records) = elim (queue_key t key c repeat_count) [
    | queued t' ↦ elim (take_queued_byte t') [
      | none ↦ read_failed t'
      | some (t'', b) ↦ got_byte t'' b records
    ]
    | ignored t' ↦ read_keys t' records
    | queue_failed t' ↦ read_failed t'
  ]

  -- `sh_host_terminal_read_byte` of an open console
  unfoldable pub read_console : Terminal → List ConsoleRecord → KeyRead
  read_console t records = elim (take_queued_byte t) [
    | some (t', b) ↦ got_byte t' b records
    | none ↦ read_keys t records
  ]
