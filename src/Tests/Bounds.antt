-- ===== src/Tests/Bounds.antt =====
-- The theorems at concrete inputs: the invariant of a shell, completion, browsing, and the lines
-- that the history keeps.
use portable_c_shell.Prelude.{
  ℕ, Bool, ◌==◌, ◌++◌, Option, none, some, true, false, [], ◌∷◌, ◌≡◌, refl, arith, length, ◌<◌,
  replicate, Bytes, text,
}
use portable_c_shell.Status.{ok}
use portable_c_shell.State.{cmd, nil, cons, null, Shell, Config, draft_view}
use portable_c_shell.Editor.{move_history, cancel_input_line}
use portable_c_shell.Editor.Text.{line_of}
use portable_c_shell.Editor.Keys.{Shows}
use portable_c_shell.Editor.Browse.{move_history_back}
use portable_c_shell.Completion.Complete.{replace_token}
use portable_c_shell.Completion.Replace.{replace_token-Shows}
use portable_c_shell.Input.{input}
use portable_c_shell.Session.{Storage, init, initial, created, complete_config}
use portable_c_shell.Safety.{IsShell}
use portable_c_shell.Safety.Running.{input-IsShell}
use portable_c_shell.Safety.Fresh.{IsStorage, init-IsShell, init-input-IsShell}
use portable_c_shell.Safety.ShortDraft.{cancel_short_draft}
use portable_c_shell.Tokenizer.{split}
use portable_c_shell.Command.Lookup.{Resolved}
use portable_c_shell.Execute.{rebuild}
use portable_c_shell.Execute.Reread.{split-rebuild}
use portable_c_shell.Completion.Candidates.{Level, listed}
use portable_c_shell.Tests.Sample.{
  sample_sizes, run, log_transport, sample_env, sample_config, sample_storage, empty_shell,
}

-- The configuration keeps the transport that appends to a log.
abbrev Logging : Config Bytes → Bytes → Type 0
Logging c w = c.transport ≡ some log_transport

abbrev sample_shell : Shell Bytes
sample_shell = initial [] (sample_config 15) (sample_storage 15) (replicate 16 0)

sample_storage-IsStorage :
    IsStorage
      (complete_config (some (sample_config 15)) (sample_storage 15))
      (sample_storage 15)
      (replicate 16 0)
      (replicate 2 (replicate 16 0))
sample_storage-IsStorage = record {
  line_is = refl;
  line_size = refl;
  history_is = refl;
  history_room = omega arith;
  history_slots = (refl, (refl, tt));
  slot_room = omega arith;
  draft_room = omega arith;
}

sample_shell-created : init [] (some (sample_config 15)) (sample_storage 15) ≡ created sample_shell
unfolding init
sample_shell-created = refl

sample_shell-IsShell : IsShell sample_sizes Logging sample_shell
sample_shell-IsShell =
    init-IsShell Logging [] (some (sample_config 15)) (sample_storage 15) (replicate 16 0)
      (replicate 2 (replicate 16 0)) sample_shell sample_storage-IsStorage sample_shell-created refl

input-IsShell_example :
    IsShell sample_sizes Logging (input sample_env sample_shell (text "ping \t\u{1b}[A\r")).0
input-IsShell_example =
    input-IsShell {B = Logging} (λ s bytes h. h) sample_env (λ key s args ctx h. h) sample_shell
      (text "ping \t\u{1b}[A\r") sample_shell-IsShell

init-input-IsShell_example :
    IsShell sample_sizes Logging (input sample_env sample_shell (text "wifi\r\u{3}")).0
init-input-IsShell_example =
    init-input-IsShell {B = Logging} sample_env [] (some (sample_config 15)) (sample_storage 15)
      (replicate 16 0) (replicate 2 (replicate 16 0)) sample_shell (text "wifi\r\u{3}")
      (λ s bytes h. h) (λ key s args ctx h. h) sample_storage-IsStorage sample_shell-created refl

-- No history, and a draft of one byte beside a line of sixteen.
abbrev short_storage : Storage
short_storage = record (sample_storage 15) { draft_buffer = some (0 ∷ []); draft_buffer_size = 1 }

abbrev short_config : Config Bytes
short_config = record (sample_config 15) { history_depth = 0; secure_clear_enabled = true }

cancel_short_draft_example :
    (s : Shell Bytes) × (init [] (some short_config) short_storage ≡ created s)
    × (d' : Bytes) × ((cancel_input_line s).draft ≡ some d')
    × (length d' ≡ s.line.capacity)
    × (1 < length d')
cancel_short_draft_example =
    cancel_short_draft [] (some short_config) short_storage (replicate 16 0) (0 ∷ []) refl refl refl
      refl refl refl (omega arith)

-- `wifi s` with the cursor at its end, completed to `wifi set `.
abbrev half_typed : Shell Bytes
half_typed = record empty_shell { line = line_of (text "wifi s") [] (replicate 9 0) }

replace_token-Shows_example :
    let r = replace_token half_typed 5 6 (text "set") true in
    (r.1 ≡ ok) × Shows r.0.line (text "wifi set ") []
replace_token-Shows_example =
    replace_token-Shows half_typed (text "wifi ") (text "s") [] [] (text "set") true
      (replicate 9 0, refl) (omega arith)

-- An unfinished line, and one entry in the history.
abbrev unfinished : Shell Bytes
unfinished = record empty_shell {
  line = line_of (text "wi") (text "fi") (replicate 11 0);
  history = record empty_shell.history {
    storage = some ((text "ping" ++ replicate 12 0) ∷ (replicate 16 0 ∷ []));
    entry_count = 1;
  };
}

move_history_back_example :
    ((move_history (move_history unfinished true) false).history_view ≡ draft_view)
    × Shows (move_history (move_history unfinished true) false).line (text "wifi") []
move_history_back_example =
    move_history_back unfinished (text "wi") (text "fi") (replicate 16 0) refl (omega arith)
      (replicate 11 0, refl) (ground arith) refl (omega arith)

-- A policy that hides the last of three arguments, of a command that is not known.
abbrev sample_policy : Option (Bytes → ℕ → Bytes → Bool)
sample_policy = some (λ path i arg. i == 2)

abbrev sample_resolved : Resolved
sample_resolved = record { command = none; consumed = 0; path = [] }

-- `join "my net" key` is kept as `join "my net" <hidden>`.
split-rebuild_example :
    split
      (rebuild sample_policy sample_resolved 0 (text "join" ∷ text "my net" ∷ text "key" ∷ []) [])
      8
    ≡ (ok, text "join" ∷ text "my net" ∷ text "<hidden>" ∷ [])
split-rebuild_example =
    split-rebuild sample_policy sample_resolved (text "join" ∷ text "my net" ∷ text "key" ∷ []) 8
      (ground arith) (omega arith) (omega arith) (omega arith) (omega arith)

-- `st` could be `status` or `stack`, which have `sta` in common.
abbrev sample_level : Level
sample_level =
    listed
      (cons (cmd (run (text "status") none) (null 0)) (
        cons (cmd (run (text "ping") none) (null 0))
          (cons (cmd (run (text "stack") none) (null 0)) nil)))
      nil
