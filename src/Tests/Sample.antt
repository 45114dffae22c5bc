-- ===== src/Tests/Sample.antt =====
-- A small application: `wifi set ssid|pass`, `ping`, and a shell whose output is appended to a log.
use portable_c_shell.Prelude.{
  ℕ, ◌+◌, true, Option, none, some, [], ◌++◌, length, Bytes, text, replicate,
}
use portable_c_shell.Safety.{Sizes}
use portable_c_shell.Status.{ok}
use portable_c_shell.Transport
use portable_c_shell.Transport.{Transport}
use portable_c_shell.State.{cmd, CmdInfo, null, table, Cmds, nil, cons, flat, Shell, Config, Env}
use portable_c_shell.Completion.Candidates.{plain_info}
use portable_c_shell.Session.{Storage, initial, default_config}

-- A backend that accepts everything and keeps it.
abbrev pub log_transport : Transport Bytes
log_transport = record {
  write = some (λ w bytes. (w ++ bytes, Transport.ok, length bytes));
  flush = none;
}

abbrev pub run : Bytes → Option ℕ → CmdInfo
run name key = record (plain_info name [] []) { handler = key }

abbrev pub wifi_children : Cmds
wifi_children =
    cons (cmd (run (text "ssid") (some 1)) (null 0))
      (cons (cmd (record (run (text "pass") (some 2)) { sensitive = true }) (null 0)) nil)

abbrev pub sample_roots : Cmds
sample_roots =
    cons
      (cmd (record (run (text "wifi") none) { max_args = 1 })
        (table (cons (cmd (run (text "set") none) (table wifi_children)) nil)))
      (cons (cmd (run (text "ping") (some 3)) (null 0)) nil)

abbrev pub sample_env : Env Bytes
sample_env = record { handler = λ key s args ctx. (s, ok); completion = λ key s a i ctx. none }

abbrev pub sample_storage : ℕ → Storage
sample_storage line_max = record {
  line_buffer = some (replicate (line_max + 1) 0);
  line_buffer_size = line_max + 1;
  argv_buffer = true;
  argv_capacity = 8;
  history_buffer = some (replicate 2 (replicate (line_max + 1) 0));
  history_capacity = 2;
  history_slot_size = line_max + 1;
  draft_buffer = some (replicate (line_max + 1) 0);
  draft_buffer_size = line_max + 1;
}

-- The sizes of that storage for lines of 15 bytes.
abbrev pub sample_sizes : Sizes
sample_sizes = record { line_bytes = 16; draft_bytes = 16; slot_bytes = 16; slot_count = 2 }

abbrev pub sample_config : ℕ → Config Bytes
sample_config line_max = record default_config {
  line_max = line_max;
  argc_max = 8;
  history_depth = 2;
  transport = some log_transport;
}

-- A shell for lines of 15 bytes and two history entries, with nothing typed.
abbrev pub empty_shell : Shell Bytes
empty_shell = record (initial [] (sample_config 15) (sample_storage 15) (replicate 16 0)) {
  roots = flat (table sample_roots);
}
