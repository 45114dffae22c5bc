-- ===== src/Tests/Devices.antt =====
-- The theorems of the device ports at concrete inputs: a bare-metal adapter over a queue, a
-- FreeRTOS adapter over two streams, and the keys of a Windows console.
use portable_c_shell.Prelude.{
  ℕ, ◌+◌, ◌-◌, ◌++◌, Option, none, some, true, false, List, [], ◌∷◌, ◌≡◌, refl, arith, length, take,
  drop, replicate, Bytes, text, ltb, if◌then◌else◌,
}
use portable_c_shell.Status.{ok}
use portable_c_shell.State.{Shell, Config, Env}
use portable_c_shell.Session.{init, initial, created, complete_config, default_config}
use portable_c_shell.Safety.Fresh.{IsStorage, init-IsShell}
use portable_c_shell.Ports.Over.{Stable, Backed, Backed-Keeps}
use portable_c_shell.Ports.Baremetal
use portable_c_shell.Ports.Baremetal.{
  ReadStatus, read_byte, read_no_data, WriteStatus, write_ok, Port, poll,
}
use portable_c_shell.Ports.Baremetal.Poll.{Queue, Waiting, drained, poll-drained}
use portable_c_shell.Ports.Freertos
use portable_c_shell.Ports.Freertos.{Streams, FreertosConfig, FreertosPort, no_stats, rx_from_isr}
use portable_c_shell.Ports.Freertos.Task.{Round, request_stop_event, isr_event, run}
use portable_c_shell.Ports.Freertos.Counters.{PortCounted}
use portable_c_shell.Ports.Freertos.RunCounters.{IsTask, left_by, run-IsTask}
use portable_c_shell.Ports.Freertos.Loop.{Released, run-Released}
use portable_c_shell.Session.{fresh_decoder}
use portable_c_shell.Ports.Windows.{Terminal, queue_sequence, special_sequence, vk_delete}
use portable_c_shell.Ports.Windows.Keys.{
  handed_out, queue_sequence-handed_out, Understood, special_sequence-Understood,
}
use portable_c_shell.Tests.Sample.{sample_sizes, sample_storage}

-- A device: the bytes to come and the bytes that were sent.
abbrev Device : Type 0
Device = Bytes × Bytes

abbrev read_device : Device → Device × ReadStatus
read_device ([], sent) = (([], sent), read_no_data)
read_device (b ∷ bytes, sent) = ((bytes, sent), read_byte b)

abbrev write_device : Option (Device → Bytes → Device × WriteStatus × ℕ)
write_device = some (λ d bytes. ((d.0, d.1 ++ bytes), write_ok, length bytes))

device_waiting :
    (d : Device) (b : ℕ) (bytes : Bytes)
    → d.0 ≡ b ∷ bytes
    → ((read_device d).1 ≡ read_byte b) × ((read_device d).0.0 ≡ bytes)
device_waiting ([], sent) b bytes e = absurd (ground (arith, e))
device_waiting (x ∷ incoming, sent) b bytes e = ground (arith, e)

device_empty : (d : Device) → d.0 ≡ [] → (read_device d).1 ≡ read_no_data
device_empty ([], sent) e = refl
device_empty (x ∷ incoming, sent) e = absurd (ground (arith, e))

device-Queue : Queue read_device (λ d. d.0)
device-Queue = record { waiting = device_waiting; empty = device_empty }

device_kept : (bytes : Bytes) → Stable (Baremetal.transport_write write_device) (λ d. d.0 ≡ bytes)
unfolding Baremetal.transport_write
device_kept bytes d text e = ground (arith, e)

abbrev idle_env : {W : Type 0} → Env W
idle_env = record { handler = λ key s args ctx. (s, ok); completion = λ key s a i ctx. none }

abbrev device_config : Config Device
device_config = record default_config {
  line_max = 15;
  argc_max = 8;
  history_depth = 2;
  transport = some (record { write = some (Baremetal.transport_write write_device); flush = none });
}

abbrev device_port : Port Device
device_port = record {
  shell = initial (text "ping\r", []) device_config (sample_storage 15) (replicate 16 0);
  read = some read_device;
  write = write_device;
  read_error_count = 0;
}

device-IsStorage :
    {c : Config Device}
    → c.line_max ≡ 15
    → c.history_depth ≡ 2
    → IsStorage c (sample_storage 15) (replicate 16 0) (replicate 2 (replicate 16 0))
device-IsStorage e f = record {
  line_is = refl;
  line_size = omega (arith, e);
  history_is = refl;
  history_room = omega (arith, f);
  history_slots = (refl, (refl, tt));
  slot_room = omega arith;
  draft_room = omega (arith, e);
}

device_shell-created :
    init (text "ping\r", []) (some device_config) (sample_storage 15) ≡ created device_port.shell
unfolding init
device_shell-created = refl

poll-drained_example :
    poll idle_env device_port 3 ≡ drained idle_env read_device 3 device_port 0 (text "ping\r")
poll-drained_example =
    poll-drained idle_env read_device write_device (λ d. d.0) device-Queue
      (λ bytes.
        Backed-Keeps (Baremetal.transport_write write_device) (λ d. d.0 ≡ bytes)
          (device_kept bytes))
      (λ bytes key s args ctx h. h) device_port 3 (text "ping\r")
      (init-IsShell (Waiting idle_env read_device write_device (λ d. d.0) (text "ping\r"))
        (text "ping\r", []) (some device_config) (sample_storage 15) (replicate 16 0)
        (replicate 2 (replicate 16 0)) device_port.shell (device-IsStorage refl refl)
        device_shell-created (refl, refl))
      refl (omega arith)

-- Two streams: what waits for the shell, at most eight bytes, and what was sent.
abbrev stream_calls : Streams Device
stream_calls = record {
  receive = λ d n ticks. ((drop n d.0, d.1), take n d.0);
  send = λ d bytes ticks. ((d.0, d.1 ++ bytes), length bytes);
  send_from_isr = λ d bytes. (
    (take 8 (d.0 ++ bytes), d.1),
    (if ltb 8 (length d.0 + length bytes) then 8 - length d.0 else length bytes),
  );
}

abbrev stream_port : FreertosPort Device
stream_port = record {
  config = record {
    rx_stream = true;
    tx_stream = true;
    read_timeout_ticks = 10;
    write_timeout_ticks = 10;
    read_chunk_size = 16;
  };
  stats = no_stats;
  running = false;
  stop_requested = false;
  kernel = ([], []);
}

abbrev stream_config : Config (FreertosPort Device)
stream_config = record default_config {
  line_max = 15;
  argc_max = 8;
  history_depth = 2;
  transport = some (record { write = some (Freertos.transport_write stream_calls); flush = none });
}

abbrev stream_shell : Shell (FreertosPort Device)
stream_shell = initial stream_port stream_config (sample_storage 15) (replicate 16 0)

-- A line arrives in the first round, and a stop in the second.
abbrev two_rounds : List Round
two_rounds =
    record { before_test = isr_event (text "help\r") ∷ []; during_receive = [] }
    ∷ record { before_test = []; during_receive = request_stop_event ∷ [] }
    ∷ []

run-Released_example : Released (run stream_calls idle_env true stream_shell [] two_rounds)
run-Released_example = run-Released stream_calls idle_env stream_shell [] two_rounds refl refl

stream_shell-created :
    init stream_port (some stream_config) (sample_storage 15) ≡ created stream_shell
unfolding init
stream_shell-created = refl

stream-IsStorage :
    IsStorage
      (complete_config (some stream_config) (sample_storage 15))
      (sample_storage 15)
      (replicate 16 0)
      (replicate 2 (replicate 16 0))
stream-IsStorage = record {
  line_is = refl;
  line_size = refl;
  history_is = refl;
  history_room = omega arith;
  history_slots = (refl, (refl, tt));
  slot_room = omega arith;
  draft_room = omega arith;
}

run-IsTask_example :
    IsTask stream_calls no_stats sample_sizes
      (left_by (run stream_calls idle_env true stream_shell [] two_rounds))
run-IsTask_example =
    run-IsTask stream_calls no_stats idle_env (λ key s args ctx h. h) true stream_shell []
      two_rounds
      (init-IsShell
        (Backed (Freertos.transport_write stream_calls) (PortCounted stream_calls no_stats))
        stream_port (some stream_config) (sample_storage 15) (replicate 16 0)
        (replicate 2 (replicate 16 0)) stream_shell stream-IsStorage stream_shell-created
        (refl, ground arith))

-- A console with nothing in its queue.
abbrev quiet_console : Terminal
quiet_console = record {
  byte_queue = replicate 8 0;
  queue_length = 0;
  queue_position = 0;
  repeat_remaining = 0;
  pending_high_surrogate = 0;
}

-- The key Up, held for two.
queue_sequence-handed_out_example :
    (t' : Terminal) × (queue_sequence quiet_console (text "\u{1b}[A") 2 ≡ some t')
    × (handed_out 10 t' ≡ text "\u{1b}[A\u{1b}[A")
queue_sequence-handed_out_example =
    queue_sequence-handed_out quiet_console 0x1b (text "[A") 2 10 refl (omega arith) (omega arith)

special_sequence-Understood_example :
    Understood fresh_decoder vk_delete (special_sequence vk_delete)
special_sequence-Understood_example =
    special_sequence-Understood fresh_decoder vk_delete (ground arith)
