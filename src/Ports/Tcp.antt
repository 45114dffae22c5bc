-- ===== src/Ports/Tcp.antt =====
-- One raw TCP session, shell/ports/tcp: `sh_tcp_session_t`, its transport, the receive step and the
-- close. The callbacks of the owner are parameters over the state `I` of the connection.
pub mod Life
pub mod Report
pub mod Fresh
use portable_c_shell.Prelude.{
  ℕ, Bool, true, false, not, Option, none, some, length, take, ltb, ◌==◌, if◌then◌else◌, Bytes,
}
use portable_c_shell.Status
use portable_c_shell.Status.{Status}
use portable_c_shell.Transport
use portable_c_shell.Transport.{Transport, TransportStatus}
use portable_c_shell.State.{Shell, Config, Table, null, Env}
use portable_c_shell.Output.{write, prompt_text}
use portable_c_shell.Session.{Storage, created, refused, init, default_config}
use portable_c_shell.Command.Validate.{register_commands}
use portable_c_shell.Input.{input}

-- SH_TCP_RX_CHUNK_SIZE
abbrev pub rx_chunk_size : ℕ
rx_chunk_size = 128

-- `sh_tcp_io_status_t`; a callback may also return a value that is not named.
pub data IoStatus : Type 0 where
  io_ok io_would_block io_closed io_failed : IoStatus
  io_other : ℕ → IoStatus

-- `sh_tcp_session_state_t`
pub data SessionState : Type 0 where
  uninitialized session_open peer_closed io_error local_closed : SessionState

-- `sh_tcp_status_t`
pub data TcpStatus : Type 0 where
  tcp_ok idle rx_data disconnected : TcpStatus
  err_invalid_argument err_closed err_io err_protocol err_shell : TcpStatus

abbrev pub is_open : SessionState → Bool
is_open session_open = true
is_open _ = false

abbrev pub is_uninitialized : SessionState → Bool
is_uninitialized uninitialized = true
is_uninitialized _ = false

-- The three callbacks of the owner: `read` gets the receive buffer and its size, and answers the
-- buffer with what it placed there, its status and `*read_count`; `write` answers `*written`.
pub record Callbacks (I : Type 0) : Type 0 where
  pub read : I → Bytes → ℕ → I × IoStatus × ℕ × Bytes
  pub write : I → Bytes → I × IoStatus × ℕ
  pub close : I → I

-- What the transport of a session reads and changes: `state`, `close_notified`, and what stands
-- behind `io_ctx`. It is the state of the output backend of the shell.
pub record Connection (I : Type 0) : Type 0 where
  pub state : SessionState
  pub close_notified : Bool
  pub io : I

-- `sh_tcp_session_t`; its callbacks stand beside it.
pub record TcpSession (I : Type 0) : Type 0 where
  pub shell : Shell (Connection I)
  pub auth_user_ctx : Option ℕ
  pub last_shell_status : Status
  pub rx_buffer : Bytes

-- `sh_tcp_session_config_t`
pub record TcpConfig (I : Type 0) : Type 0 where
  pub shell_config : Option (Config (Connection I))
  pub storage : Option Storage
  pub commands : Table
  pub callbacks : Option (Callbacks I)
  pub io_ctx : I
  pub auth_user_ctx : Option ℕ

-- `sh_tcp_poll_result_t`
pub record PollResult : Type 0 where
  pub status : TcpStatus
  pub bytes_received : ℕ
  pub shell_status : Status

-- `sh_tcp_session_init`: a session in state OPEN, or a status; SH_TCP_ERR_SHELL comes with
-- `last_shell_status`, and the session is left in state UNINITIALIZED.
pub data TcpInit (I : Type 0) : Type 0 where
  session : TcpSession I → TcpInit I
  invalid : TcpInit I
  shell_failed : Status → TcpInit I

-- `make_poll_result`
abbrev pub poll_result : TcpStatus → ℕ → Status → PollResult
poll_result st n shell_status = record {
  status = st;
  bytes_received = n;
  shell_status = shell_status;
}

-- `commands == NULL && command_count != 0`
abbrev pub is_missing : Table → Bool
is_missing (null n) = not (n == 0)
is_missing _ = false

module _ {I : Type 0} (calls : Callbacks I) where
  -- `notify_close`
  unfoldable pub notify_close : Connection I → Connection I
  notify_close c =
      if c.close_notified then c else record c { close_notified = true; io = calls.close c.io }

  -- `set_terminal_state`
  unfoldable pub set_terminal_state : Connection I → SessionState → Connection I
  set_terminal_state c state =
      if is_open c.state then notify_close (record c { state = state }) else c

  -- The `switch` of `sh_tcp_session_transport_write`.
  unfoldable pub sent_status : Connection I → IoStatus → ℕ → Connection I × TransportStatus × ℕ
  sent_status c io_ok n =
      if n == 0
      then (set_terminal_state c io_error, Transport.err_no_progress, n)
      else (c, Transport.ok, n)
  sent_status c io_would_block n = (c, Transport.would_block, n)
  sent_status c io_closed n = (set_terminal_state c peer_closed, Transport.err_io, n)
  sent_status c io_failed n = (set_terminal_state c io_error, Transport.err_io, n)
  sent_status c (io_other k) n = (set_terminal_state c io_error, Transport.err_protocol, n)

  -- `sh_tcp_session_transport_write`
  unfoldable pub transport_write : Connection I → Bytes → Connection I × TransportStatus × ℕ
  transport_write c bytes =
      if not (is_open c.state)
      then (c, Transport.err_io, 0)
      else if length bytes == 0
      then (c, Transport.ok, 0)
      else let (io, status, n) = calls.write c.io bytes in
        let c' : Connection I = record c { io = io } in
        if ltb (length bytes) n
        then (set_terminal_state c' io_error, Transport.err_protocol, 0)
        else sent_status c' status n

  -- The transport that is embedded in a session.
  abbrev pub tcp_transport : Transport (Connection I)
  tcp_transport = record { write = some transport_write; flush = none }

  -- The configuration that `sh_tcp_session_init` hands to the shell.
  abbrev pub session_config : TcpConfig I → Config (Connection I)
  session_config config =
      record (elim config.shell_config as (λ _. Config (Connection I)) [
        | none ↦ default_config
        | some c ↦ c
      ]) { write = none; transport = some tcp_transport; user_ctx = config.auth_user_ctx }

  abbrev pub opened : I → Connection I
  opened io = record { state = session_open; close_notified = false; io = io }

  -- The two calls of `sh_tcp_session_init` that may fail, on the cleared receive buffer.
  unfoldable pub session_init_with : TcpConfig I → Storage → Bytes → TcpInit I
  session_init_with config st cleared =
      elim (init (opened config.io_ctx) (some (session_config config)) st) [
        | refused status ↦ shell_failed status
        | created shell ↦
            let (shell', status) = register_commands shell config.commands in
            if Status.is_ok status
            then session (record {
              shell = shell';
              auth_user_ctx = config.auth_user_ctx;
              last_shell_status = Status.ok;
              rx_buffer = cleared;
            })
            else shell_failed status
      ]

  -- `set_terminal_state` on the connection of a session.
  unfoldable pub end_session : TcpSession I → SessionState → TcpSession I
  end_session s state = record s {
    shell = record s.shell { world = set_terminal_state s.shell.world state };
  }

  -- `sh_tcp_session_prompt`
  unfoldable pub session_prompt : TcpSession I → TcpSession I × Status
  session_prompt s =
      if not (is_open s.shell.world.state)
      then (s, Status.err_transport)
      else let (shell, status) = write s.shell (prompt_text s.shell.cfg.prompt) in
        (record s { shell = shell }, status)

  -- The last `switch` of `sh_tcp_session_poll`.
  unfoldable pub received : TcpSession I → IoStatus → ℕ → Status → TcpSession I × PollResult
  received s io_ok n shell_status =
      if n == 0
      then (end_session s io_error, poll_result err_protocol 0 shell_status)
      else (s, poll_result rx_data n shell_status)
  received s io_would_block n shell_status =
      (s, if n == 0 then poll_result idle 0 shell_status else poll_result rx_data n shell_status)
  received s io_closed n shell_status =
      (end_session s peer_closed, poll_result disconnected n shell_status)
  received s io_failed n shell_status = (end_session s io_error, poll_result err_io n shell_status)
  received s (io_other k) n shell_status =
      (end_session s io_error, poll_result err_protocol n shell_status)

  -- `sh_tcp_session_poll` after its read callback.
  unfoldable pub after_read :
      Env (Connection I) → TcpSession I → IoStatus → ℕ → TcpSession I × PollResult
  after_read env s io_status n =
      let (shell, status) = input env s.shell (take n s.rx_buffer) in
      let fed : TcpSession I = record s { shell = shell; last_shell_status = status } in
      if ltb rx_chunk_size n
      then (end_session s io_error, poll_result err_protocol 0 s.last_shell_status)
      else if n == 0
      then received s io_status n Status.ok
      else if not (Status.is_ok status)
      then (fed, poll_result err_shell n status)
      else if not (is_open shell.world.state)
      then (fed, poll_result err_io n status)
      else received fed io_status n status

  -- `sh_tcp_session_poll`
  unfoldable pub poll : Env (Connection I) → TcpSession I → TcpSession I × PollResult
  poll env s =
      if not (is_open s.shell.world.state)
      then (s, poll_result err_closed 0 s.last_shell_status)
      else let (io, status, n, buffer) = calls.read s.shell.world.io s.rx_buffer rx_chunk_size in
        let world : Connection I = record s.shell.world { io = io } in
        after_read env (record s { shell = record s.shell { world = world }; rx_buffer = buffer })
          status n

  -- `sh_tcp_session_close`
  unfoldable pub close : TcpSession I → TcpSession I × TcpStatus
  close s =
      let w = s.shell.world in
      let ended : Connection I = if is_open w.state then record w { state = local_closed } else w in
      if is_uninitialized w.state
      then (s, err_closed)
      else (record s { shell = record s.shell { world = notify_close ended } }, tcp_ok)

-- `sh_tcp_session_init`
unfoldable pub session_init : {I : Type 0} → TcpConfig I → Bytes → TcpInit I
session_init config cleared = elim config.storage [
  | none ↦ invalid
  | some st ↦ elim config.callbacks [
    | none ↦ invalid
    | some calls ↦
        if is_missing config.commands then invalid else session_init_with calls config st cleared
  ]
]
