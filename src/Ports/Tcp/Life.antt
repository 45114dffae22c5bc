-- ===== src/Ports/Tcp/Life.antt =====
-- The states of a TCP session, shell/ports/tcp/sh_port_tcp.c: the owner is told of the end of its
-- connection once, and what a poll reports fits the state that it leaves.
use portable_c_shell.Prelude.{
  ℕ, suc, false, not, List, [], ◌∷◌, ◌≡◌, refl, ◌∙◌, arith, Bytes, Bool-cases, inl, inr, length,
  take, ltb, ◌==◌, if◌then◌else◌,
}
use portable_c_shell.Status
use portable_c_shell.State.{Shell, Env}
use portable_c_shell.Output.{prompt_text}
use portable_c_shell.Input.{input}
use portable_c_shell.Safety.{Sizes, IsShell, Trusted}
use portable_c_shell.Safety.Editing.{write-IsShell}
use portable_c_shell.Safety.Running.{input-IsShell}
use portable_c_shell.Ports.Over.{Stable, Backed, Backed-Keeps}
use portable_c_shell.Ports.Tcp.{
  Callbacks, Connection, TcpSession, SessionState, IoStatus, peer_closed, io_error, local_closed,
  io_ok, io_would_block, io_closed, is_open, is_uninitialized, notify_close, set_terminal_state,
  sent_status, transport_write, end_session, session_prompt, received, after_read, poll, close,
  rx_chunk_size,
}

-- A count of the times that the connection was closed: only `close` changes it, by one.
pub record Counts {I : Type 0} (calls : Callbacks I) (closes : I → ℕ) : Type 0 where
  pub reading : (io : I) (buffer : Bytes) (n : ℕ) → closes (calls.read io buffer n).0 ≡ closes io
  pub writing : (io : I) (bytes : Bytes) → closes (calls.write io bytes).0 ≡ closes io
  pub closing : (io : I) → closes (calls.close io) ≡ suc (closes io)

-- What the owner may do with a session.
pub data Step : Type 0 where
  poll_step prompt_step close_step : Step

module _ {I : Type 0} (calls : Callbacks I) (closes : I → ℕ) where
  -- The owner was told of the end once, if the connection has ended, and not otherwise.
  abbrev pub Settled : Connection I → Type 0
  Settled c =
      (closes c.io ≡ (if c.close_notified then 1 else 0))
      × (c.close_notified ≡ not (is_open c.state))

  -- One step of the owner.
  abbrev pub step : Env (Connection I) → TcpSession I → Step → TcpSession I
  step env s poll_step = (poll calls env s).0
  step env s prompt_step = (session_prompt calls s).0
  step env s close_step = (close calls s).0

  abbrev pub run : Env (Connection I) → TcpSession I → List Step → TcpSession I
  run env s [] = s
  run env s (a ∷ steps) = run env (step env s a) steps

module _ {I : Type 0} {calls : Callbacks I} {closes : I → ℕ} (counts : Counts calls closes) where
  set_terminal_state-Settled :
      (c : Connection I) (state : SessionState)
      → is_open state ≡ false
      → Settled calls closes c
      → Settled calls closes (set_terminal_state calls c state)
  unfolding set_terminal_state notify_close
  set_terminal_state-Settled c state ended h = ground (arith, ended, h, counts.closing c.io)

  sent_status-Settled :
      (c : Connection I) (status : IoStatus) (n : ℕ)
      → Settled calls closes c
      → Settled calls closes (sent_status calls c status n).0
  unfolding sent_status
  sent_status-Settled c io_ok n h = elim (Bool-cases (n == 0)) [
    | inl e ↦ rw e (set_terminal_state-Settled c io_error refl h)
    | inr e ↦ rw e h
  ]
  sent_status-Settled c io_would_block n h = h
  sent_status-Settled c io_closed n h = set_terminal_state-Settled c peer_closed refl h
  sent_status-Settled c _ n h = set_terminal_state-Settled c io_error refl h

  -- The state of the connection after a callback that does not close it.
  io-Settled :
      (c : Connection I) (io : I)
      → closes io ≡ closes c.io
      → Settled calls closes c
      → Settled calls closes (record c { io = io })
  io-Settled c io e h = (e ∙ h.0, h.1)

  transport_write-Settled : Stable (transport_write calls) (Settled calls closes)
  unfolding transport_write
  transport_write-Settled c bytes h =
      let (io, status, n) = calls.write c.io bytes in
      let c' : Connection I = record c { io = io } in
      let wrote : Settled calls closes c' = io-Settled c io (counts.writing c.io bytes) h in
      elim (Bool-cases (not (is_open c.state))) [
        | inl e ↦ rw e h
        | inr e ↦ elim (Bool-cases (length bytes == 0)) [
          | inl p ↦ rw (e, p) h
          | inr p ↦ elim (Bool-cases (ltb (length bytes) n)) [
            | inl q ↦ rw (e, p, q) (set_terminal_state-Settled c' io_error refl wrote)
            | inr q ↦ rw (e, p, q) (sent_status-Settled c' status n wrote)
          ]
        ]
      ]

  -- A session whose shell is well-formed over its own transport, and whose connection is settled.
  abbrev pub IsSession : Sizes → TcpSession I → Type 0
  IsSession z s = IsShell z (Backed (transport_write calls) (Settled calls closes)) s.shell

  module _ {z : Sizes} where
    world-IsShell :
        (s : Shell (Connection I)) (w : Connection I)
        → IsShell z (Backed (transport_write calls) (Settled calls closes)) s
        → Settled calls closes w
        → IsShell z (Backed (transport_write calls) (Settled calls closes)) (record s { world = w })
    world-IsShell s w h settled = record {
      line_ok = h.line_ok;
      line_size = h.line_size;
      draft_ok = h.draft_ok;
      history_ok = h.history_ok;
      decoder_ok = h.decoder_ok;
      backed = (h.backed.0, settled);
    }

    end_session-IsSession :
        (s : TcpSession I) (state : SessionState)
        → is_open state ≡ false
        → IsSession z s
        → IsSession z (end_session calls s state)
    unfolding end_session
    end_session-IsSession s state ended h =
        world-IsShell s.shell (set_terminal_state calls s.shell.world state) h
          (set_terminal_state-Settled s.shell.world state ended h.backed.1)

    received-IsSession :
        (s : TcpSession I) (status : IoStatus) (n : ℕ) (shell_status : Status.Status)
        → IsSession z s
        → IsSession z (received calls s status n shell_status).0
    unfolding received
    received-IsSession s io_ok n st h = elim (Bool-cases (n == 0)) [
      | inl e ↦ rw e (end_session-IsSession s io_error refl h)
      | inr e ↦ rw e h
    ]
    received-IsSession s io_would_block n st h = h
    received-IsSession s io_closed n st h = end_session-IsSession s peer_closed refl h
    received-IsSession s _ n st h = end_session-IsSession s io_error refl h

    module _ (env : Env (Connection I))
        (trusted : Trusted z (Backed (transport_write calls) (Settled calls closes)) env) where
      after_read-IsSession :
          (s : TcpSession I) (status : IoStatus) (n : ℕ)
          → IsSession z s
          → IsSession z (after_read calls env s status n).0
      unfolding after_read
      after_read-IsSession s status n h =
          let (shell, st) = input env s.shell (take n s.rx_buffer) in
          let fed : TcpSession I = record s { shell = shell; last_shell_status = st } in
          let fed_ok : IsSession z fed =
            input-IsShell
              (Backed-Keeps (transport_write calls) (Settled calls closes) transport_write-Settled)
              env trusted s.shell (take n s.rx_buffer) h in
          elim (Bool-cases (ltb rx_chunk_size n)) [
            | inl e ↦ rw e (end_session-IsSession s io_error refl h)
            | inr e ↦ elim (Bool-cases (n == 0)) [
              | inl p ↦ rw (e, p) (received-IsSession s status n Status.ok h)
              | inr p ↦ elim (Bool-cases (not (Status.is_ok st))) [
                | inl q ↦ rw (e, p, q) fed_ok
                | inr q ↦ elim (Bool-cases (not (is_open shell.world.state))) [
                  | inl r ↦ rw (e, p, q, r) fed_ok
                  | inr r ↦ rw (e, p, q, r) (received-IsSession fed status n st fed_ok)
                ]
              ]
            ]
          ]

      poll-IsSession : (s : TcpSession I) → IsSession z s → IsSession z (poll calls env s).0
      unfolding poll
      poll-IsSession s h =
          let (io, status, n, buffer) = calls.read s.shell.world.io s.rx_buffer rx_chunk_size in
          let w : Connection I = record s.shell.world { io = io } in
          elim (Bool-cases (not (is_open s.shell.world.state))) [
            | inl e ↦ rw e h
            | inr e ↦ rw e (
                after_read-IsSession
                  (record s { shell = record s.shell { world = w }; rx_buffer = buffer }) status n
                  (world-IsShell s.shell w h (
                    io-Settled s.shell.world io
                      (counts.reading s.shell.world.io s.rx_buffer rx_chunk_size) h.backed.1)))
          ]

      prompt-IsSession : (s : TcpSession I) → IsSession z s → IsSession z (session_prompt calls s).0
      unfolding session_prompt
      prompt-IsSession s h = elim (Bool-cases (not (is_open s.shell.world.state))) [
        | inl e ↦ rw e h
        | inr e ↦ rw e (
            write-IsShell
              (Backed-Keeps (transport_write calls) (Settled calls closes) transport_write-Settled)
              s.shell (prompt_text s.shell.cfg.prompt) h)
      ]

      close-Settled :
          (c : Connection I)
          → Settled calls closes c
          → Settled calls closes (
              notify_close calls (if is_open c.state then record c { state = local_closed } else c))
      unfolding notify_close
      close-Settled c h = ground (arith, h, counts.closing c.io)

      close-IsSession : (s : TcpSession I) → IsSession z s → IsSession z (close calls s).0
      unfolding close
      close-IsSession s h = elim (Bool-cases (is_uninitialized s.shell.world.state)) [
        | inl e ↦ rw e h
        | inr e ↦ rw e (world-IsShell s.shell _ h (close-Settled s.shell.world h.backed.1))
      ]

      run-IsSession :
          (s : TcpSession I) (steps : List Step)
          → IsSession z s
          → IsSession z (run calls closes env s steps)
      run-IsSession s [] h = h
      run-IsSession s (poll_step ∷ steps) h =
          run-IsSession (step calls closes env s poll_step) steps (poll-IsSession s h)
      run-IsSession s (prompt_step ∷ steps) h =
          run-IsSession (step calls closes env s prompt_step) steps (prompt-IsSession s h)
      run-IsSession s (close_step ∷ steps) h =
          run-IsSession (step calls closes env s close_step) steps (close-IsSession s h)

      -- After any polls, prompts and closes of a session, in any order, the close callback has been
      -- called once, if the session is no longer open, and not at all, if it is; and the session is
      -- well-formed, so that its shell has not written behind its buffers. The session is well-formed at the start, the handlers keep its invariant,
      -- and of the callbacks only `close` closes the connection.
      pub run-closes_once :
          (s : TcpSession I) (steps : List Step)
          → IsSession z s
          → let c = (run calls closes env s steps).shell.world in
            (closes c.io ≡ (if is_open c.state then 0 else 1))
            × IsSession z (run calls closes env s steps)
      run-closes_once s steps h =
          let done = run-IsSession s steps h in (ground (arith, done.backed.1), done)
