-- ===== src/Output.antt =====
-- The output functions of shell/src/sh_shell.c. A formatted call takes the bytes that `vsnprintf`
-- makes of its arguments.
pub mod Quiet
pub mod Emits
use portable_c_shell.Prelude.{
  ℕ, ◌-◌, Bool, true, false, ◌&&◌, Option, none, some, List, [], ◌∷◌, length, take, ltb, leb, ◌==◌,
  if◌then◌else◌, Bytes, text,
}
use portable_c_shell.Status.{
  Status, ok, err_invalid_config, err_transport, err_would_block, err_truncated,
}
use portable_c_shell.Transport.{Transport, TransportStatus, Written, write_all, flush_transport}
use portable_c_shell.State.{Shell}

-- The status of `sh_write` from that of the transport.
abbrev pub write_status : TransportStatus → Bool → Status
write_status TransportStatus.ok true = ok
write_status TransportStatus.would_block _ = err_would_block
write_status TransportStatus.err_attempts_exhausted _ = err_would_block
write_status _ _ = err_transport

abbrev pub flush_status : TransportStatus → Status
flush_status TransportStatus.ok = ok
flush_status TransportStatus.would_block = err_would_block
flush_status _ = err_transport

-- The configured prompt, or the default.
abbrev pub prompt_text : Option Bytes → Bytes
prompt_text none = text "sh> "
prompt_text (some p) = p

module _ {W : Type 0} where
  -- The branch of `sh_write` for an installed transport.
  unfoldable pub write_through : Shell W → Transport W → Bytes → Shell W × Status
  write_through s t bytes =
      let w = write_all (some t) s.world bytes s.cfg.transport_write_attempts in
      (record s { world = w.world }, write_status w.status (w.total == length bytes))

  -- The branch of `sh_write` for the best-effort callback.
  unfoldable pub write_plain : Shell W → Option (W → Bytes → W) → Bytes → Shell W × Status
  write_plain s none bytes = (s, err_invalid_config)
  write_plain s (some call) [] = (s, ok)
  write_plain s (some call) (b ∷ bytes) = (record s { world = call s.world (b ∷ bytes) }, ok)

  -- `sh_write`
  unfoldable pub write : Shell W → Bytes → Shell W × Status
  write s bytes = elim s.cfg.transport [
    | some t ↦ write_through s t bytes
    | none ↦ write_plain s s.cfg.write bytes
  ]

  -- `sh_vprintf`: 255 bytes at most are written.
  unfoldable pub print_formatted : Shell W → Bytes → Shell W × Status
  print_formatted s bytes =
      if leb 256 (length bytes)
      then ((write s (take 255 bytes)).0, err_truncated)
      else write s bytes

  -- `sh_write_internal`
  unfoldable pub emit : Shell W → Bytes → Shell W
  emit s bytes = (write s bytes).0

  -- `sh_writef_internal`
  unfoldable pub emit_formatted : Shell W → Bytes → Shell W
  emit_formatted s bytes = (print_formatted s bytes).0

  -- `sh_flush`
  unfoldable pub flush : Shell W → Shell W × Status
  flush s = elim s.cfg.transport [
    | none ↦ (s, ok)
    | some t ↦
        let (w, status) = flush_transport (some t) s.world in
        (record s { world = w }, flush_status status)
  ]

  -- `sh_prompt`
  unfoldable pub prompt : Shell W → Shell W
  prompt s = emit s (prompt_text s.cfg.prompt)
