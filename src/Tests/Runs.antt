-- ===== src/Tests/Runs.antt =====
-- Runs of the whole shell on the bytes of a terminal.
use portable_c_shell.Prelude.{
  ◌≡◌, refl, some, Bytes, text, c_string, equal, ◌==◌, [], decimal, padded, has_prefix,
}
use portable_c_shell.Status.{status_string}
use portable_c_shell.Transport.{write_all, write_with, write_loop, after_attempt, exhausted}
use portable_c_shell.Ansi.{feed}
use portable_c_shell.Tokenizer.{
  split, tokenize, tokenize_loop, close_token, skip_spaces, scan_token, round_on,
}
use portable_c_shell.State.{Shell}
use portable_c_shell.Output.{write, write_through, print_formatted, emit, emit_formatted, prompt}
use portable_c_shell.History
use portable_c_shell.Command.Lookup.{find_child, find_in_sets, find_root, resolve_below, resolve}
use portable_c_shell.Command.Dispatch.{
  history_status, builtin_history, builtin_echo, run_handler, run_resolved, run_command, dispatch,
}
use portable_c_shell.Display.{
  skip_white, raw_token, span_from, raw_token_span, mask_arguments, parse_for_display, display_line,
  redraw,
}
use portable_c_shell.Editor.{
  load_line, insert_at_cursor, wipe_line, move_history, insert_char, handle_escape_key,
}
use portable_c_shell.Completion.Candidates.{
  find_exact_level, level_limit, nth, level_candidate, descent, walk_words,
}
use portable_c_shell.Completion.Complete.{
  common_prefix_len, add_match, splice, replace_token, collect, apply_matches, complete_words,
  complete_line,
}
use portable_c_shell.Execute.{
  append_escaped, append_token, any_hidden, rebuild, history_line, record_line, execute_tokens,
  execute_line, handle_enter,
}
use portable_c_shell.Input.{handle_byte, handle_decoded, input_byte, input_from, input}
use portable_c_shell.Editor.Text.{line_of}
use portable_c_shell.Tests.Sample.{sample_env, empty_shell}

typed : Bytes → Shell Bytes
unfolding input input_from input_byte feed handle_decoded handle_byte handle_escape_key move_history
    insert_char insert_at_cursor load_line wipe_line redraw display_line parse_for_display
    mask_arguments raw_token_span span_from raw_token skip_white split tokenize tokenize_loop
    close_token skip_spaces scan_token round_on handle_enter execute_line execute_tokens record_line
    history_line rebuild any_hidden append_token append_escaped dispatch run_command run_resolved
    run_handler builtin_echo builtin_history history_status resolve resolve_below find_root
    find_in_sets find_child History.add History.get_newest History.push_entry History.fill_slot
    prompt emit emit_formatted print_formatted write write_through write_all write_with write_loop
    after_attempt exhausted equal decimal padded has_prefix status_string complete_line
    complete_words apply_matches collect replace_token splice add_match common_prefix_len walk_words
    descent level_candidate nth level_limit find_exact_level
typed bytes = (input sample_env empty_shell bytes).0

-- Tab completes the word that is being typed.
completed : c_string (typed (text "wifi set pas\t")).line.buffer ≡ text "wifi set pass "
unfolding typed
completed = refl

-- A hidden argument is recorded as `<hidden>`, cut to the size of the slot.
recorded :
    History.get_newest (typed (text "wifi set pass k\r")).history 0 ≡ some (text "wifi set pass <")
unfolding typed
recorded = refl

-- Two entries up and one down.
navigated :
    c_string (typed (text "ping a\rping b\rping c\r\u{1b}[A\u{1b}[A\u{1b}[B")).line.buffer
    ≡ text "ping c"
unfolding typed
navigated = refl

-- A policy that hides the third word; the two trackers of quotes disagree on `'\'`, so that the
-- third word has no span and is shown.
abbrev masking : Shell Bytes
masking = record empty_shell {
  cfg = record (empty_shell.cfg) { should_mask_arg = some (λ path i arg. i == 2) };
  line = line_of (text "ping '\\' key") [] [];
}

shown_word : display_line masking ≡ text "ping '\\' key"
unfolding display_line parse_for_display mask_arguments raw_token_span span_from raw_token
    skip_white split tokenize tokenize_loop close_token skip_spaces scan_token round_on resolve
    resolve_below find_root find_child equal
shown_word = refl
