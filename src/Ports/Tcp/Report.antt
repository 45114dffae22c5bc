-- ===== src/Ports/Tcp/Report.antt =====
-- What a poll of a TCP session reports, shell/ports/tcp/sh_port_tcp.c, and what a session does after
-- its connection has ended.
use portable_c_shell.Prelude.{
  ℕ, ◌≤◌, Bool, true, false, not, some, ◌≡◌, refl, sym, ap, ◌∙◌, subst, ◌++◌, append-nil, none,
  arith, Bytes, Bool-cases, inl, inr, length, take, ltb, ◌==◌,
}
use portable_c_shell.Status
use portable_c_shell.Transport.{write_all}
use portable_c_shell.Transport.WriteAll.{Keeps, write_all-sent}
use portable_c_shell.State.{Shell, Env}
use portable_c_shell.Input.{input}
use portable_c_shell.Safety.{Sizes, IsShell, Trusted}
use portable_c_shell.Safety.Running.{input-IsShell}
use portable_c_shell.Ports.Over.{Stable, Backed, Backed-Keeps}
use portable_c_shell.Ports.Tcp.{
  Callbacks, Connection, TcpSession, PollResult, SessionState, IoStatus, TcpStatus, peer_closed,
  io_error, io_ok, io_would_block, io_closed, io_failed, io_other, is_open, idle, rx_data,
  disconnected, err_closed, err_io, err_protocol, notify_close, set_terminal_state, sent_status,
  transport_write, end_session, received, after_read, poll, rx_chunk_size, tcp_transport,
}

-- What a poll status says of the connection: it is open, or it has ended. After a shell error it
-- may be either.
abbrev pub Fits : TcpStatus → Bool → Type 0
Fits idle is_alive = is_alive ≡ true
Fits rx_data is_alive = is_alive ≡ true
Fits disconnected is_alive = is_alive ≡ false
Fits err_closed is_alive = is_alive ≡ false
Fits err_io is_alive = is_alive ≡ false
Fits err_protocol is_alive = is_alive ≡ false
Fits _ is_alive = Unit {0}

module _ {I : Type 0} (calls : Callbacks I) where
  set_terminal_state-ends :
      (c : Connection I) (state : SessionState)
      → is_open state ≡ false
      → is_open (set_terminal_state calls c state).state ≡ false
  unfolding set_terminal_state notify_close
  set_terminal_state-ends c state ended = ground (arith, ended)

  -- A result that fits the session beside it, with no more bytes than the buffer has.
  abbrev pub Reported : TcpSession I × PollResult → Type 0
  Reported r =
      Fits r.1.status (is_open r.0.shell.world.state) × (r.1.bytes_received ≤ rx_chunk_size)

  received-Reported :
      (s : TcpSession I) (status : IoStatus) (n : ℕ) (shell_status : Status.Status)
      → is_open s.shell.world.state ≡ true
      → n ≤ rx_chunk_size
      → Reported (received calls s status n shell_status)
  unfolding received end_session
  received-Reported s io_ok n st alive small = elim (Bool-cases (n == 0)) [
    | inl e ↦ rw e (set_terminal_state-ends s.shell.world io_error refl, omega arith)
    | inr e ↦ rw e (alive, small)
  ]
  received-Reported s io_would_block n st alive small = elim (Bool-cases (n == 0)) [
    | inl e ↦ rw e (alive, omega arith)
    | inr e ↦ rw e (alive, small)
  ]
  received-Reported s io_closed n st alive small =
      (set_terminal_state-ends s.shell.world peer_closed refl, small)
  received-Reported s io_failed n st alive small =
      (set_terminal_state-ends s.shell.world io_error refl, small)
  received-Reported s (io_other k) n st alive small =
      (set_terminal_state-ends s.shell.world io_error refl, small)

  after_read-Reported :
      (env : Env (Connection I)) (s : TcpSession I) (status : IoStatus) (n : ℕ)
      → is_open s.shell.world.state ≡ true
      → Reported (after_read calls env s status n)
  unfolding after_read end_session
  after_read-Reported env s status n alive =
      let (shell, st) = input env s.shell (take n s.rx_buffer) in
      let fed : TcpSession I = record s { shell = shell; last_shell_status = st } in
      elim (Bool-cases (ltb rx_chunk_size n)) [
        | inl e ↦ rw e (set_terminal_state-ends s.shell.world io_error refl, omega arith)
        | inr e ↦ elim (Bool-cases (n == 0)) [
          | inl p ↦ rw (e, p) (received-Reported s status n Status.ok alive (ground (arith, e)))
          | inr p ↦ elim (Bool-cases (not (Status.is_ok st))) [
            | inl q ↦ rw (e, p, q) (tt, ground (arith, e))
            | inr q ↦ elim (Bool-cases (is_open shell.world.state)) [
              | inl r ↦ rw (e, p, q, r) (received-Reported fed status n st r (ground (arith, e)))
              | inr r ↦ rw (e, p, q, r) (r, ground (arith, e))
            ]
          ]
        ]
      ]

  -- Whatever the read callback answers and whatever the input does, the status of a poll fits the
  -- state that it leaves: IDLE and RX_DATA come with an open session, DISCONNECTED, ERR_CLOSED, ERR_IO
  -- and ERR_PROTOCOL with one that has ended; and no more bytes are reported than the buffer has.
  pub poll-Reported : (env : Env (Connection I)) (s : TcpSession I) → Reported (poll calls env s)
  unfolding poll
  poll-Reported env s = elim (Bool-cases (is_open s.shell.world.state)) [
    | inl e ↦
        let (io, status, n, buffer) = calls.read s.shell.world.io s.rx_buffer rx_chunk_size in
        let w : Connection I = record s.shell.world { io = io } in
        rw e (
          after_read-Reported env
            (record s { shell = record s.shell { world = w }; rx_buffer = buffer }) status n e)
    | inr e ↦ rw e (e, omega arith)
  ]

  -- The transport of a connection that has ended does nothing to it.
  transport_write_ended :
      (c : Connection I) → is_open c.state ≡ false → Stable (transport_write calls) (λ w. w ≡ c)
  unfolding transport_write
  transport_write_ended c ended w bytes same =
      let closed : is_open w.state ≡ false =
        ap {A = Connection I} (λ k. is_open k.state) same ∙ ended in
      rw closed same

  -- After the connection has ended, no callback is called by input any more: `sh_input` leaves the
  -- connection, and what stands behind its callbacks, as it was. The shell is well-formed over the
  -- transport of the session, and the handlers keep that and leave the connection alone.
  pub input_ended :
      {z : Sizes} (env : Env (Connection I)) (s : Shell (Connection I)) (bytes : Bytes)
      → is_open s.world.state ≡ false
      → Trusted z (Backed (transport_write calls) (λ w. w ≡ s.world)) env
      → IsShell z (Backed (transport_write calls) (λ w. w ≡ s.world)) s
      → (input env s bytes).0.world ≡ s.world
  input_ended env s bytes ended trusted h =
      (input-IsShell
        (Backed-Keeps (transport_write calls) (λ w. w ≡ s.world)
          (transport_write_ended s.world ended))
        env trusted s bytes h).backed.1

-- What a TCP stack promises of its callbacks: `write` confirms the first bytes of what it is given, no
-- more than that, and `close` sends nothing. `sent` is all that the stack has accepted.
pub record Stack {I : Type 0} (calls : Callbacks I) (sent : I → Bytes) : Type 0 where
  pub accepting :
      (io : I) (bytes : Bytes)
      → sent (calls.write io bytes).0 ≡ sent io ++ take (calls.write io bytes).2 bytes
  pub bounded : (io : I) (bytes : Bytes) → (calls.write io bytes).2 ≤ length bytes
  pub parting : (io : I) → sent (calls.close io) ≡ sent io

module _ {I : Type 0} {calls : Callbacks I} {sent : I → Bytes} (stack : Stack calls sent) where
  set_terminal_state-sent :
      (c : Connection I) (state : SessionState)
      → sent (set_terminal_state calls c state).io ≡ sent c.io
  unfolding set_terminal_state notify_close
  set_terminal_state-sent c state = ground (arith, stack.parting c.io)

  sent_status-sent :
      (c : Connection I) (status : IoStatus) (n : ℕ)
      → (sent (sent_status calls c status n).0.io ≡ sent c.io)
        × ((sent_status calls c status n).2 ≡ n)
  unfolding sent_status
  sent_status-sent c io_ok n = elim (Bool-cases (n == 0)) [
    | inl e ↦ rw e (set_terminal_state-sent c io_error, refl)
    | inr e ↦ rw e (refl, refl)
  ]
  sent_status-sent c io_would_block n = (refl, refl)
  sent_status-sent c io_closed n = (set_terminal_state-sent c peer_closed, refl)
  sent_status-sent c io_failed n = (set_terminal_state-sent c io_error, refl)
  sent_status-sent c (io_other k) n = (set_terminal_state-sent c io_error, refl)

  transport_write-Keeps : Keeps (transport_write calls) (λ c. sent c.io)
  unfolding transport_write
  transport_write-Keeps c bytes = elim (Bool-cases (is_open c.state)) [
    | inr e ↦ rw e (sym (append-nil (sent c.io)), omega arith)
    | inl e ↦ elim (Bool-cases (length bytes == 0)) [
      | inl p ↦ rw (e, p) (sym (append-nil (sent c.io)), omega arith)
      | inr p ↦
          let (io, status, n) = calls.write c.io bytes in
          let c' : Connection I = record c { io = io } in
          let small : ltb (length bytes) n ≡ false = ground (arith, stack.bounded c.io bytes) in
          let (same, all) = sent_status-sent c' status n in
          rw (e, p, small)
            (
              same ∙ stack.accepting c.io bytes ∙ ap (λ m. sent c.io ++ take m bytes) (sym all),
              subst (λ m. m ≤ length bytes) (sym all) (stack.bounded c.io bytes),
            )
    ]
  ]

  -- Over a stack that keeps its promises, a write of the shell through its session puts the first
  -- `total` bytes on the connection, in order and once each, whatever the status and wherever the
  -- connection ends.
  pub session_write-sent :
      (c : Connection I) (bytes : Bytes) (attempts : ℕ)
      → let r = write_all (some (tcp_transport calls)) c bytes attempts in
        sent r.world.io ≡ sent c.io ++ take r.total bytes
  session_write-sent c bytes attempts =
      write_all-sent (transport_write calls) none (λ k. sent k.io) transport_write-Keeps c bytes
        attempts
