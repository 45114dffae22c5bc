-- ===== src/Lib.antt =====
-- The portable command shell, shell/src and shell/include: a line editor with history, completion
-- and command dispatch that is fed one byte at a time and writes through a transport.
--
-- How the parts interact. `sh_input_byte` hands a byte to the ANSI decoder; what the decoder does not
-- consume goes to the line editor, the completion or `handle_enter`. Enter tokenizes the line, has the
-- command resolved, records the line in the history with its hidden arguments replaced, and
-- dispatches it to a built-in command or a handler of the application. Each change of the line is
-- redrawn, masked, through the prompt and the output functions.
--
-- The modules and the code.
--   Prelude        lists, numbers, memory blocks (`memmove`, `memcpy`, NUL-terminated texts)
--   Status         `sh_status_t` of shell/include/sh_shell.h, `sh_status_string`
--   Transport      shell/src/sh_transport.c; WriteAll: the bounded write
--   Ansi           shell/src/sh_ansi.c; Feed: the decoder as a state machine
--   Tokenizer      shell/src/sh_tokenizer.c; Lexer: an automaton that is independent of the code;
--                  Block, Refine, Strings, Gaps, Closing, Split: the in-place tokenizer against it
--   State          the structures of shell/include/sh_shell.h, sh_command.h and sh_config.h
--   Output         `sh_write`, `sh_vprintf`, `sh_flush`, `sh_prompt` of shell/src/sh_shell.c; Quiet,
--                  Emits: operations that do nothing but write
--   History        shell/src/sh_history.c; Ring, Slots, Log: the ring against a list of
--                  entries
--   Command        shell/src/sh_command.c: Lookup, Help, Validate (with Find), Dispatch; Emits: help
--                  and listings only write
--   Display        `build_display_line` and the redraw of shell/src/sh_shell.c; Leak: its echo of
--                  lines that do not tokenize
--   Editor         the line editor of shell/src/sh_shell.c; Text, Keys, Words, Browse: against a text
--                  with a cursor
--   Completion     shell/src/sh_completion.c; Longest: the matches; Replace: the token under the cursor
--   Execute        `sh_execute_line`, `build_history_line`, `handle_enter`; Secrecy, Printed,
--                  Reread: what the history keeps of a line; Carries, Kept, Wipe: what a line can
--                  change, and what is wiped behind it
--   Input          `sh_input_byte`, `sh_input`; Typing, Chunks
--   Safety         the invariant of `sh_t`; Lines, Rings, Editing, Completing, Running, Fresh: every
--                  operation that keeps it; ShortDraft: a draft buffer that `sh_init` does not test
--   Session        `sh_init`, `sh_start`, `sh_stop`; Fresh
--   Ports          Over: a shell over one write callback; Tcp: shell/ports/tcp (Life, Report, Fresh);
--                  Baremetal: shell/ports/baremetal (Poll); Freertos: shell/ports/freertos
--                  (Task, Counters, RunCounters, Loop); Windows: the keys of
--                  shell/ports/host/sh_port_windows.c (Keys)
--   Tests          a small application, runs of it, and the theorems at concrete inputs
--
-- State. `Shell` is `sh_t` as a record; an operation takes a shell to a shell, with a status where the
-- code returns one. The line is a record of its buffer, capacity, length and cursor, and the editor
-- works on the buffer by block moves, as the code does. The state of the output backend is the field
-- `world`, which the callbacks of the transport change. Handlers, completion providers, mask
-- callbacks and transports are parameters. A port is the backend of its shell: the state of a TCP
-- connection or of a FreeRTOS adapter is the `world`, so that a write can end a session in the middle
-- of an input.
--
-- Memory. A block is the list of its bytes, and the history storage the list of its slots. A write
-- behind a block is not lost: it makes the list longer, as no other operation does, so that a block
-- that has kept its length was not written past. Sizes are compared with the lengths that the blocks
-- were made with. A read behind a block gives 0.
--
-- Loops. They are structural recursion, but for three. The tokenizer's rounds run on fuel of one more
-- than the size of the memory block, since each round moves the read position. The write loop runs on
-- the code's own bound of attempts. Completion runs over at most the number of candidates.
-- The loop of the FreeRTOS task, which ends only on a stop or an error, runs over a list of rounds, each
-- with what other tasks and interrupts do in it; a bare-metal poll runs over its limit of bytes.
--
-- Not modelled: null shell and buffer pointers; the zeroing of local buffers and of the pointer
-- array `argv`; a failing `vsnprintf`; the wrap-around of `size_t` at sizes of objects in memory. A
-- completion provider and a mask callback change no state.
-- The POSIX port and the console modes of the Windows port, which only call the terminal of an
-- operating system, and the examples, fuzzers and tools under shell/ are left out. Of the other
-- ports, the accessors and the null pointers are left out, and the stream buffers of FreeRTOS are
-- parameters.
pub mod Prelude
pub mod Status
pub mod Transport
pub mod Ansi
pub mod Tokenizer
pub mod State
pub mod Output
pub mod History
pub mod Command
pub mod Display
pub mod Editor
pub mod Completion
pub mod Execute
pub mod Input
pub mod Safety
pub mod Session
pub mod Tests
pub mod Ports
