-- ===== src/Tests/Keys.antt =====
-- The theorems at concrete inputs: keys, typed lines, recorded lines and registered commands.
use portable_c_shell.Prelude.{
  ◌++◌, if◌then◌else◌, some, [], ◌∷◌, ◌≡◌, inl, inr, refl, arith, replicate, Bytes, text, equal,
}
use portable_c_shell.Status.{is_ok, ok, err_line_too_long}
use portable_c_shell.State.{Shell, cmd, null, table}
use portable_c_shell.Output.Quiet.{Quiet}
use portable_c_shell.Editor.{
  clear_input_line, insert_char, backspace, delete_at_cursor, delete_word_left, cancel_input_line,
}
use portable_c_shell.Editor.Text.{line_of}
use portable_c_shell.Editor.Keys.{
  Shows, insert_char-Shows, insert_char_full, backspace-Shows, delete_at_cursor-Shows,
}
use portable_c_shell.Editor.Words.{delete_word_left-Shows}
use portable_c_shell.Input.{input, input_from}
use portable_c_shell.Input.Typing.{Ready, input-Ready}
use portable_c_shell.Input.Chunks.{input-append}
use portable_c_shell.Session.{init, initial}
use portable_c_shell.Session.Fresh.{init-input}
use portable_c_shell.Command.Lookup.{resolve, resolve_below, find_root, find_in_sets, find_child}
use portable_c_shell.Command.Validate.{
  register_commands, validate_level, is_reserved_root_name, is_repeated,
}
use portable_c_shell.Command.Validate.Find.{register_commands-find_root}
use portable_c_shell.Execute.{record_line, handle_enter, any_hidden}
use portable_c_shell.Execute.Secrecy.{record_line-secret}
use portable_c_shell.Execute.Wipe.{
  Forgotten, cancel_input_line-Forgotten, clear_input_line-Forgotten, handle_enter-Forgotten,
}
use portable_c_shell.Display.{display_line}
use portable_c_shell.Display.Leak.{display_line_unmasked}
use portable_c_shell.Tests.Sample.{
  sample_env, sample_config, sample_storage, sample_roots, empty_shell, run,
}

-- The shell with a text in its line, a cursor in it and some free bytes.
abbrev holding : Bytes → Bytes → Bytes → Shell Bytes
holding left right free = record empty_shell { line = line_of left right free }

insert_char-Shows_example :
    ((insert_char (holding (text "pi") (text "g") (replicate 12 0)) b'n').1 ≡ ok)
    × Shows
        (insert_char (holding (text "pi") (text "g") (replicate 12 0)) b'n').0.line
        (text "pin")
        (text "g")
insert_char-Shows_example =
    insert_char-Shows (holding (text "pi") (text "g") (replicate 12 0)) b'n' (text "pi") (text "g")
      (replicate 12 0, refl) (omega arith)

insert_char_full_example :
    ((insert_char (holding (text "ping") [] []) b'x').1 ≡ err_line_too_long)
    × Quiet (holding (text "ping") [] []) (insert_char (holding (text "ping") [] []) b'x').0
insert_char_full_example = insert_char_full (holding (text "ping") [] []) b'x' (omega arith)

backspace-Shows_example :
    Shows (backspace (holding (text "pin") (text "g") (replicate 11 0))).line (text "pi") (text "g")
backspace-Shows_example =
    backspace-Shows (holding (text "pin") (text "g") (replicate 11 0)) b'n' (text "pi") (text "g")
      (replicate 11 0, refl)

delete_at_cursor-Shows_example :
    Shows
      (delete_at_cursor (holding (text "pi") (text "ng") (replicate 11 0))).line
      (text "pi")
      (text "g")
delete_at_cursor-Shows_example =
    delete_at_cursor-Shows (holding (text "pi") (text "ng") (replicate 11 0)) b'n' (text "pi")
      (text "g") (replicate 11 0, refl)

-- `wifi set  |x` becomes `wifi |x`.
delete_word_left-Shows_example :
    Shows
      (delete_word_left (holding (text "wifi set  ") (text "x") (replicate 4 0))).line
      (text "wifi ")
      (text "x")
delete_word_left-Shows_example =
    delete_word_left-Shows (holding (text "wifi set  ") (text "x") (replicate 4 0)) (text "wifi ")
      (text "set") (text "  ") (text "x") refl (refl, (refl, (refl, tt))) refl (refl, (refl, tt))
      (omega arith) (replicate 4 0, refl)

empty_shell-Ready : Ready sample_env empty_shell [] [] 14
empty_shell-Ready = (refl, (replicate 15 0, refl), omega arith)

input-Ready_example :
    ((input_from sample_env empty_shell (text "ping a") ok).1 ≡ ok)
    × Ready sample_env (input_from sample_env empty_shell (text "ping a") ok).0 (text "ping a") [] 8
input-Ready_example =
    input-Ready sample_env empty_shell (text "ping a") [] [] 8 (ground arith) empty_shell-Ready

init-input_example :
    ((input sample_env
        (initial [] (sample_config 15) (sample_storage 15) (replicate 16 0))
        (text "ping")).1
      ≡ ok)
    × Shows
        (input sample_env
          (initial [] (sample_config 15) (sample_storage 15) (replicate 16 0))
          (text "ping")).0.line
        (text "ping")
        []
unfolding init
init-input_example =
    init-input sample_env [] (some (sample_config 15)) (sample_storage 15) (replicate 16 0)
      (text "ping") (initial [] (sample_config 15) (sample_storage 15) (replicate 16 0)) refl refl
      refl (ground arith) (omega arith)

-- A Wi-Fi password does not reach the history.
record_line-secret_example :
    record_line empty_shell
      (text "wifi set pass k")
      (text "wifi" ∷ text "set" ∷ text "pass" ∷ text "k" ∷ [])
    ≡ record_line empty_shell
        (text "wifi set pass lo")
        (text "wifi" ∷ text "set" ∷ text "pass" ∷ text "lo" ∷ [])
unfolding resolve resolve_below find_root find_in_sets find_child equal any_hidden
record_line-secret_example =
    record_line-secret empty_shell (text "wifi set pass k") (text "wifi set pass lo")
      (text "wifi" ∷ text "set" ∷ text "pass" ∷ text "k" ∷ [])
      (text "wifi" ∷ text "set" ∷ text "pass" ∷ text "lo" ∷ []) refl
      (inl refl, (inl refl, (inl refl, (inr (refl, refl), tt)))) refl

cancel_input_line-Forgotten_example :
    Forgotten (cancel_input_line (holding (text "key") [] (replicate 12 0)))
cancel_input_line-Forgotten_example =
    cancel_input_line-Forgotten (holding (text "key") [] (replicate 12 0)) refl (refl, refl)

-- `ping` is found once it is registered behind `wifi`.
register_commands-find_root_example :
    find_root (register_commands empty_shell (table sample_roots)).0.roots (text "ping")
    ≡ some (cmd (run (text "ping") (some 3)) (null 0))
unfolding register_commands validate_level is_reserved_root_name is_repeated equal
register_commands-find_root_example =
    register_commands-find_root empty_shell sample_roots (cmd (run (text "ping") (some 3)) (null 0))
      (text "ping") refl (inr (inl refl)) refl

clear_input_line-Forgotten_example :
    Forgotten (clear_input_line (holding (text "key") [] (replicate 12 0)))
clear_input_line-Forgotten_example =
    clear_input_line-Forgotten (holding (text "key") [] (replicate 12 0)) refl (refl, refl)

-- Enter on `ping`.
handle_enter-Forgotten_example :
    Forgotten (handle_enter sample_env (holding (text "ping") [] (replicate 11 0))).0
handle_enter-Forgotten_example =
    handle_enter-Forgotten sample_env (holding (text "ping") [] (replicate 11 0))
      (λ key s args ctx. record { line_is = refl; size_is = refl; cfg_is = refl }) refl (refl, refl)

-- The password is in the echo.
display_line_unmasked_example :
    display_line (holding (text "wifi set pass k\\") [] []) ≡ text "wifi set pass k\\"
display_line_unmasked_example =
    display_line_unmasked (holding (text "wifi set pass k\\") [] []) (text "wifi set pass k") refl
      (ground arith) (omega arith)

-- `pi` and `ng` in two calls.
input-append_example :
    ((input sample_env empty_shell (text "pi" ++ text "ng")).0
      ≡ (input sample_env (input sample_env empty_shell (text "pi")).0 (text "ng")).0)
    × ((input sample_env empty_shell (text "pi" ++ text "ng")).1 ≡ (
        if is_ok (input sample_env empty_shell (text "pi")).1
        then (input sample_env (input sample_env empty_shell (text "pi")).0 (text "ng")).1
        else (input sample_env empty_shell (text "pi")).1))
input-append_example = input-append sample_env empty_shell (text "pi") (text "ng")
