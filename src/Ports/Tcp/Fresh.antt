-- ===== src/Ports/Tcp/Fresh.antt =====
-- A session that `sh_tcp_session_init` of shell/ports/tcp/sh_port_tcp.c has set up, and its whole life.
use portable_c_shell.Prelude.{
  ℕ, zero, suc, true, some, List, ◌≡◌, refl, Bytes, if◌then◌else◌, if-cases, subst,
}
use portable_c_shell.Status
use portable_c_shell.State.{Shell, Config, Env, Table, null, table, Roots, flat}
use portable_c_shell.Session.{Storage, Init, created, refused, init, complete_config}
use portable_c_shell.Command.Validate.{register_commands, validate_level}
use portable_c_shell.Safety.{Sizes, IsShell, Trusted}
use portable_c_shell.Safety.Fresh.{IsStorage, sizes_of, init-IsShell}
use portable_c_shell.Ports.Over.{Backed}
use portable_c_shell.Ports.Tcp.{
  Callbacks, Connection, TcpSession, TcpConfig, TcpInit, session, invalid, shell_failed,
  session_config, opened, session_init_with, session_init, transport_write, is_open, is_missing,
}
use portable_c_shell.Ports.Tcp.Life.{Counts, Settled, IsSession, Step, run, run-closes_once}

module _ {W : Type 0} {z : Sizes} {B : Config W → W → Type 0} where
  rooted-IsShell : (s : Shell W) (r : Roots) → IsShell z B s → IsShell z B (record s { roots = r })
  rooted-IsShell s r h = record {
    line_ok = h.line_ok;
    line_size = h.line_size;
    draft_ok = h.draft_ok;
    history_ok = h.history_ok;
    decoder_ok = h.decoder_ok;
    backed = h.backed;
  }

  validated-IsShell :
      (s : Shell W) (t : Table)
      → IsShell z B s
      → let status = validate_level t 1 true s.cfg.builtins_enabled in
        IsShell z B
          (if◌then◌else◌ {A = Shell W × Status.Status}
            (Status.is_ok status)
            (record s { roots = flat t }, Status.ok)
            (s, status)).0
  validated-IsShell s t h =
      if-cases {A = Shell W × Status.Status} (λ r. IsShell z B r.0)
        (Status.is_ok (validate_level t 1 true s.cfg.builtins_enabled)) _ _
        (λ e. rooted-IsShell s (flat t) h) (λ e. h)

  register_commands-IsShell :
      (s : Shell W) (t : Table) → IsShell z B s → IsShell z B (register_commands s t).0
  unfolding register_commands
  register_commands-IsShell s (null zero) h = validated-IsShell s (null zero) h
  register_commands-IsShell s (null (suc n)) h = h
  register_commands-IsShell s (table cs) h = validated-IsShell s (table cs) h

module _ {I : Type 0} {calls : Callbacks I} {closes : I → ℕ} (counts : Counts calls closes) where
  -- What an initialisation may answer.
  abbrev Made : Sizes → TcpInit I → Type 0
  Made z (session s) = IsSession counts z s
  Made z _ = Unit {0}

  after_init-Made :
      (z : Sizes) (config : TcpConfig I) (cleared : Bytes) (o : Init (Connection I))
      → ((s : Shell (Connection I))
          → o ≡ created s
          → IsShell z (Backed (transport_write calls) (Settled calls closes)) s)
      → Made z (elim o as (λ _. TcpInit I) [
        | refused status ↦ shell_failed status
        | created shell ↦
            let (shell', status) = register_commands shell config.commands in
            if Status.is_ok status
            then session (record {
              shell = shell';
              auth_user_ctx = config.auth_user_ctx;
              last_shell_status = Status.ok;
              rx_buffer = cleared;
            })
            else shell_failed status
      ])
  after_init-Made z config cleared (refused status) h = tt
  after_init-Made z config cleared (created shell) h =
      if-cases (Made z) (Status.is_ok (register_commands shell config.commands).1) _ _
        (λ e. register_commands-IsShell shell config.commands (h shell refl)) (λ e. tt)

  session_init-Made :
      (config : TcpConfig I) (cleared line : Bytes) (stored : List Bytes) (st : Storage)
      → IsStorage (complete_config (some (session_config calls config)) st) st line stored
      → closes config.io_ctx ≡ 0
      → Made
          (sizes_of st line stored)
          (session_init (record config { storage = some st; callbacks = some calls }) cleared)
  unfolding session_init session_init_with
  session_init-Made config cleared line stored st ok unclosed =
      if-cases (Made (sizes_of st line stored)) (is_missing config.commands) invalid _ (λ e. tt)
        (λ e.
          after_init-Made (sizes_of st line stored) config cleared
            (init (opened calls config.io_ctx) (some (session_config calls config)) st)
            (λ s made.
              init-IsShell (Backed (transport_write calls) (Settled calls closes))
                (opened calls config.io_ctx) (some (session_config calls config)) st line stored s
                ok made (refl, (unclosed, refl))))

  -- A session that `sh_tcp_session_init` makes over storage of the stated sizes and a connection that
  -- was not closed yet has its connection closed once, if it has ended, and not before, after any
  -- polls, prompts and closes, in any order. The handlers keep the invariant of the shell, and of the
  -- callbacks only `close` closes the connection.
  session_init-closes_once :
      (env : Env (Connection I)) (config : TcpConfig I) (cleared line : Bytes) (stored : List Bytes)
      (st : Storage) (s : TcpSession I) (steps : List Step)
      → Trusted
          (sizes_of st line stored)
          (Backed (transport_write calls) (Settled calls closes))
          env
      → IsStorage (complete_config (some (session_config calls config)) st) st line stored
      → closes config.io_ctx ≡ 0
      → session_init (record config { storage = some st; callbacks = some calls }) cleared
        ≡ session s
      → let c = (run calls closes env s steps).shell.world in
        closes c.io ≡ (if is_open c.state then 0 else 1)
  session_init-closes_once env config cleared line stored st s steps trusted ok unclosed made =
      (run-closes_once counts env trusted s steps (
        subst {A = TcpInit I} (Made (sizes_of st line stored)) made
          (session_init-Made config cleared line stored st ok unclosed))).0
