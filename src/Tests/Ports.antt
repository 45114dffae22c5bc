-- ===== src/Tests/Ports.antt =====
-- The theorems of the ports at concrete inputs: a TCP session over a link that
-- closes when it has no more bytes.
use portable_c_shell.Prelude.{
  ℕ, suc, ◌++◌, none, some, true, [], ◌∷◌, ◌≡◌, refl, sym, ap, take_all, arith, length, take, drop,
  blit, replicate, Bytes, text, ◌==◌, if◌then◌else◌,
}
use portable_c_shell.Status.{ok}
use portable_c_shell.Transport.{write_all}
use portable_c_shell.State.{Shell, Config, Env, null}
use portable_c_shell.Input.{input}
use portable_c_shell.Session.{init, initial, created, complete_config, default_config}
use portable_c_shell.Safety.Fresh.{IsStorage, init-IsShell}
use portable_c_shell.Ports.Over.{Backed}
use portable_c_shell.Ports.Tcp.{
  Callbacks, Connection, TcpSession, TcpConfig, IoStatus, io_ok, io_closed, session, opened,
  session_config, session_init, session_init_with, is_open, tcp_transport, poll, session_open,
  peer_closed,
}
use portable_c_shell.Ports.Tcp
use portable_c_shell.Ports.Tcp.Life.{
  Counts, Settled, IsSession, poll_step, prompt_step, run, run-closes_once,
}
use portable_c_shell.Ports.Tcp.Report.{
  Reported, poll-Reported, input_ended, Stack, session_write-sent,
}
use portable_c_shell.Tests.Sample.{sample_sizes, sample_storage}

-- A link: the bytes to come, the bytes that were sent, and how often it was closed.
pub record Link : Type 0 where
  pub incoming : Bytes
  pub outgoing : Bytes
  pub closed : ℕ

abbrev link_calls : Callbacks Link
link_calls = record {
  read = λ io buffer n. (
    record io { incoming = drop n io.incoming },
    (if length io.incoming == 0 then io_closed else io_ok),
    length (take n io.incoming),
    blit buffer 0 (take n io.incoming),
  );
  write = λ io bytes. (record io { outgoing = io.outgoing ++ bytes }, io_ok, length bytes);
  close = λ io. record io { closed = suc io.closed };
}

link-Counts : Counts link_calls (λ io. io.closed)
link-Counts = record {
  reading = λ io buffer n. refl;
  writing = λ io bytes. refl;
  closing = λ io. refl;
}

abbrev fresh_link : Link
fresh_link = record { incoming = text "ping\r"; outgoing = []; closed = 0 }

abbrev link_config : TcpConfig Link
link_config = record {
  shell_config = some (record default_config { line_max = 15; argc_max = 8; history_depth = 2 });
  storage = some (sample_storage 15);
  commands = null 0;
  callbacks = some link_calls;
  io_ctx = fresh_link;
  auth_user_ctx = some 7;
}

-- Handlers that leave the shell alone.
abbrev still_env : {W : Type 0} → Env W
still_env = record { handler = λ key s args ctx. (s, ok); completion = λ key s a i ctx. none }

abbrev link_shell_config : Config (Connection Link)
link_shell_config =
    complete_config (some (session_config link_calls link_config)) (sample_storage 15)

abbrev link_session : TcpSession Link
link_session = record {
  shell =
      initial (opened link_calls fresh_link) link_shell_config (sample_storage 15) (replicate 16 0);
  auth_user_ctx = some 7;
  last_shell_status = ok;
  rx_buffer = replicate 128 0;
}

link-IsStorage :
    IsStorage link_shell_config (sample_storage 15) (replicate 16 0) (replicate 2 (replicate 16 0))
link-IsStorage = record {
  line_is = refl;
  line_size = refl;
  history_is = refl;
  history_room = omega arith;
  history_slots = (refl, (refl, tt));
  slot_room = omega arith;
  draft_room = omega arith;
}

link_shell-created :
    init
      (opened link_calls fresh_link)
      (some (session_config link_calls link_config))
      (sample_storage 15)
    ≡ created link_session.shell
unfolding init
link_shell-created = refl

link_session-IsSession : IsSession link-Counts sample_sizes link_session
link_session-IsSession =
    init-IsShell (Backed (Tcp.transport_write link_calls) (Settled link_calls (λ io. io.closed)))
      (opened link_calls fresh_link) (some (session_config link_calls link_config))
      (sample_storage 15) (replicate 16 0) (replicate 2 (replicate 16 0)) link_session.shell
      link-IsStorage link_shell-created (refl, (refl, refl))

run-closes_once_example :
    let end =
      run link_calls
        (λ io. io.closed)
        still_env
        link_session
        (prompt_step ∷ poll_step ∷ poll_step ∷ []) in
    (end.shell.world.io.closed ≡ (if is_open end.shell.world.state then 0 else 1))
    × IsSession link-Counts sample_sizes end
run-closes_once_example =
    run-closes_once link-Counts still_env (λ key s args ctx h. h) link_session
      (prompt_step ∷ poll_step ∷ poll_step ∷ []) link_session-IsSession

poll-Reported_example : Reported link_calls (poll link_calls still_env link_session)
poll-Reported_example = poll-Reported link_calls still_env link_session

-- The peer has closed the link.
abbrev ended_link : Connection Link
ended_link = record {
  state = peer_closed;
  close_notified = true;
  io = record fresh_link { closed = 1 };
}

abbrev ended_shell : Shell (Connection Link)
ended_shell = initial ended_link link_shell_config (sample_storage 15) (replicate 16 0)

ended_shell-created :
    init ended_link (some (session_config link_calls link_config)) (sample_storage 15)
    ≡ created ended_shell
unfolding init
ended_shell-created = refl

input_ended_example : (input still_env ended_shell (text "help\r")).0.world ≡ ended_link
input_ended_example =
    input_ended link_calls still_env ended_shell (text "help\r") refl (λ key s args ctx h. h)
      (init-IsShell (Backed (Tcp.transport_write link_calls) (λ w. w ≡ ended_link)) ended_link
        (some (session_config link_calls link_config)) (sample_storage 15) (replicate 16 0)
        (replicate 2 (replicate 16 0)) ended_shell link-IsStorage ended_shell-created (refl, refl))

link-Stack : Stack link_calls (λ io. io.outgoing)
link-Stack = record {
  accepting =
      λ io bytes. ap (λ t. io.outgoing ++ t) (sym (take_all (length bytes) bytes (omega arith)));
  bounded = λ io bytes. omega arith;
  parting = λ io. refl;
}

session_write-sent_example :
    let r =
      write_all (some (tcp_transport link_calls)) (opened link_calls fresh_link) (text "pong") 8 in
    r.world.io.outgoing ≡ take r.total (text "pong")
session_write-sent_example =
    session_write-sent link-Stack (opened link_calls fresh_link) (text "pong") 8
