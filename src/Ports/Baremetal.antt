-- ===== src/Ports/Baremetal.antt =====
-- The bare-metal adapter, shell/ports/baremetal: a bounded poll over a callback that yields one
-- byte at a time, and the transport over a write callback. `W` is what stands behind the contexts
-- of both callbacks; it is the state of the output backend of the shell.
pub mod Poll
use portable_c_shell.Prelude.{
  ℕ, zero, suc, ◌+◌, ◌%◌, ◌^◌, Bool, true, false, Option, none, some, ltb, ◌==◌, if◌then◌else◌,
  Bytes, length,
}
use portable_c_shell.Transport
use portable_c_shell.Transport.{Transport, TransportStatus}
use portable_c_shell.State.{Shell, Env}
use portable_c_shell.Input.{input_byte}

-- `sh_port_baremetal_read_status_t`; a callback may also return a value that is not named, which
-- the code takes as an error.
pub data ReadStatus : Type 0 where
  read_byte : ℕ → ReadStatus
  read_no_data read_error : ReadStatus
  read_other : ℕ → ReadStatus

-- `sh_port_baremetal_write_status_t`
pub data WriteStatus : Type 0 where
  write_ok write_would_block write_error : WriteStatus
  write_other : ℕ → WriteStatus

-- `sh_port_baremetal_status_t`
pub data PortStatus : Type 0 where
  port_ok no_data limit_reached err_invalid_argument err_read : PortStatus

-- `sh_port_baremetal_t` with the shell that it points to. A callback that is null is `none`.
pub record Port (W : Type 0) : Type 0 where
  pub shell : Shell W
  pub read : Option (W → W × ReadStatus)
  pub write : Option (W → Bytes → W × WriteStatus × ℕ)
  pub read_error_count : ℕ

-- A poll: the adapter after it, and `sh_port_baremetal_poll_result_t`.
pub record Polled (W : Type 0) : Type 0 where
  pub port : Port W
  pub status : PortStatus
  pub bytes_processed : ℕ

-- The `switch` of `sh_port_baremetal_transport_write`.
abbrev pub write_result : WriteStatus → TransportStatus
write_result write_ok = Transport.ok
write_result write_would_block = Transport.would_block
write_result write_error = Transport.err_io
write_result (write_other k) = Transport.err_protocol

module _ {W : Type 0} where
  abbrev pub polled : Port W → PortStatus → ℕ → Polled W
  polled p st n = record { port = p; status = st; bytes_processed = n }

  -- `sh_port_baremetal_init`: the adapter, or SH_PORT_BAREMETAL_ERR_INVALID_ARGUMENT.
  abbrev pub port_init :
      Shell W
      → Option (W → W × ReadStatus)
      → Option (W → Bytes → W × WriteStatus × ℕ)
      → Option (Port W)
  port_init s (some read) (some write) =
      some (record { shell = s; read = some read; write = some write; read_error_count = 0 })
  port_init s _ _ = none

  -- The adapter with another shell.
  abbrev pub with_shell : Port W → Shell W → Port W
  with_shell p s = record p { shell = s }

  -- The status of a poll that a read has ended, with `size_t` for the counter.
  unfoldable pub no_byte : Port W → ReadStatus → ℕ → Polled W
  no_byte p read_no_data n = polled p no_data n
  no_byte p _ n =
      polled (record p { read_error_count = (p.read_error_count + 1) % 2 ^ 64 }) err_read n

  -- The loop of `sh_port_baremetal_poll`, by recursion on the bytes that may still be read.
  unfoldable pub poll_loop : Env W → (W → W × ReadStatus) → ℕ → Port W → ℕ → Polled W
  poll_loop env read zero p n = polled p limit_reached n
  poll_loop env read (suc left) p n =
      let (w, status) = read p.shell.world in
      let p' = with_shell p (record p.shell { world = w }) in
      elim status [
        | read_byte b ↦
            poll_loop env read left (with_shell p' (input_byte env p'.shell b).0) (suc n)
        | read_no_data ↦ no_byte p' read_no_data n
        | read_error ↦ no_byte p' read_error n
        | read_other k ↦ no_byte p' (read_other k) n
      ]

  -- `sh_port_baremetal_poll`
  unfoldable pub poll : Env W → Port W → ℕ → Polled W
  poll env p max_bytes = elim p.read [
    | none ↦ polled p err_invalid_argument 0
    | some read ↦
        if max_bytes == 0 then polled p err_invalid_argument 0 else poll_loop env read max_bytes p 0
  ]

  -- `sh_port_baremetal_clear_read_errors`
  abbrev pub clear_read_errors : Port W → Port W
  clear_read_errors p = record p { read_error_count = 0 }

  -- `sh_port_baremetal_transport_write`
  unfoldable pub transport_write :
      Option (W → Bytes → W × WriteStatus × ℕ) → W → Bytes → W × TransportStatus × ℕ
  transport_write none w bytes = (w, Transport.err_invalid_argument, 0)
  transport_write (some call) w bytes =
      let (w', status, n) = call w bytes in
      if ltb (length bytes) n then (w', Transport.err_protocol, 0) else (w', write_result status, n)

  -- `sh_port_baremetal_transport`
  abbrev pub port_transport : Port W → Transport W
  port_transport p = record { write = some (transport_write p.write); flush = none }
