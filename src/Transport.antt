-- ===== src/Transport.antt =====
-- The output transport, shell/src/sh_transport.c: a complete write by a bounded number of partial
-- attempts, and the flush. The backend's callbacks are parameters: `W` is the state of what they
-- write to, and a callback returns the new state with what it reports.
pub mod WriteAll
use portable_c_shell.Prelude.{
  ℕ, zero, suc, ◌+◌, ◌-◌, Bool, true, false, ◌&&◌, Option, none, some, length, drop, ltb, ◌==◌,
  if◌then◌else◌, Bytes, not,
}

-- `sh_transport_status_t`; a callback may also return a value that is not named.
pub data TransportStatus : Type 0 where
  ok would_block err_invalid_argument err_io err_no_progress : TransportStatus
  err_protocol err_attempts_exhausted : TransportStatus
  other : ℕ → TransportStatus

-- `sh_transport_t`; `none` is a null pointer. A write reports the bytes that it accepted.
pub record Transport (W : Type 0) : Type 0 where
  pub write : Option (W → Bytes → W × TransportStatus × ℕ)
  pub flush : Option (W → W × TransportStatus)

abbrev pub is_callback_status : TransportStatus → Bool
is_callback_status ok = true
is_callback_status would_block = true
is_callback_status err_io = true
is_callback_status _ = false

abbrev pub is_io : TransportStatus → Bool
is_io err_io = true
is_io _ = false

abbrev pub is_ok : TransportStatus → Bool
is_ok ok = true
is_ok _ = false

-- What the loop leaves behind: the backend's state, its result and `*written_total`.
pub record Written (W : Type 0) : Type 0 where
  pub world : W
  pub status : TransportStatus
  pub total : ℕ

module _ {W : Type 0} where
  abbrev pub written : W → TransportStatus → ℕ → Written W
  written w st n = record { world = w; status = st; total = n }

  -- The result of the loop when its test fails.
  unfoldable pub exhausted : W → ℕ → TransportStatus → Written W
  exhausted w total would_block = written w would_block total
  exhausted w total _ = written w err_attempts_exhausted total

  -- One round of the loop after the callback reported `status` and `count`; `again` is the rest of
  -- the loop, from the new total and `last_status`.
  unfoldable pub after_attempt :
      Bytes → ℕ → W → TransportStatus → ℕ → (ℕ → TransportStatus → Written W) → Written W
  after_attempt bytes total w status count again =
      if ltb (length bytes - total) count
      then written w err_protocol total
      else if not (is_callback_status status)
      then written w err_protocol (total + count)
      else if is_io status
      then written w err_io (total + count)
      else if total + count == length bytes
      then written w ok (total + count)
      else if is_ok status && count == 0
      then written w err_no_progress (total + count)
      else again (total + count) status

  -- The loop, by recursion on the attempts that are left.
  unfoldable pub write_loop :
      (W → Bytes → W × TransportStatus × ℕ) → Bytes → ℕ → W → ℕ → TransportStatus → Written W
  write_loop call bytes zero w total last = exhausted w total last
  write_loop call bytes (suc attempts) w total last =
      let round =
        let (w', status, count) = call w (drop total bytes) in
        after_attempt bytes total w' status count (write_loop call bytes attempts w') in
      if ltb total (length bytes) then round else exhausted w total last

  -- `sh_transport_write_all` past the null checks of the descriptor.
  unfoldable pub write_with : (W → Bytes → W × TransportStatus × ℕ) → W → Bytes → ℕ → Written W
  write_with call w bytes max_attempts =
      if length bytes == 0
      then written w ok 0
      else if max_attempts == 0
      then written w err_invalid_argument 0
      else write_loop call bytes max_attempts w 0 ok

  unfoldable pub write_all : Option (Transport W) → W → Bytes → ℕ → Written W
  write_all none w bytes max_attempts = written w err_invalid_argument 0
  write_all (some t) w bytes max_attempts = elim t.write [
    | none ↦ written w err_invalid_argument 0
    | some call ↦ write_with call w bytes max_attempts
  ]

  unfoldable pub flush_transport : Option (Transport W) → W → W × TransportStatus
  flush_transport none w = (w, err_invalid_argument)
  flush_transport (some t) w = elim t.flush [
    | none ↦ (w, ok)
    | some call ↦
        let (w', status) = call w in
        (w', if is_callback_status status then status else err_protocol)
  ]
