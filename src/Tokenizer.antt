-- ===== src/Tokenizer.antt =====
-- `sh_tokenize` of shell/src/sh_tokenizer.c: it splits a writable line in place. The line is a
-- block of memory that holds a C string, `read` and `write` are indices into it, and `argv` holds
-- the indices at which the tokens begin. No pointer is null here.
pub mod Lexer
pub mod Block
pub mod Refine
pub mod Strings
pub mod Gaps
pub mod Closing
pub mod Split
use portable_c_shell.Prelude.{
  ℕ, zero, suc, ◌+◌, Bool, true, false, not, ◌&&◌, ◌||◌, List, [], ◌∷◌, ◌++◌, map, length, drop,
  get_or, set, leb, ◌==◌, if◌then◌else◌, Bytes, is_space, c_string,
}
use portable_c_shell.Status.{Status, ok, err_invalid_arg, err_too_many_args, other}
use portable_c_shell.Status.{err_unterminated_quote}

-- INT_MAX
abbrev pub int_max : ℕ
int_max = 2147483647

-- The variables of the loop over one token; `quote` is 0 outside quotes.
pub record Scan : Type 0 where
  pub memory : Bytes
  pub read : ℕ
  pub write : ℕ
  pub quote : ℕ

-- How one round of that loop ends: with `break` or by its test, by the early return at a final
-- backslash, or with the next round.
pub data Round : Type 0 where
  leave : Scan → Round
  dangling : Scan → Round
  again : Scan → Round

abbrev pub is_quote : ℕ → Bool
is_quote c = c == b'"' || c == b'\''

-- `*write++ = c`, with `read` moved on to `next`.
abbrev pub put : Scan → ℕ → ℕ → Scan
put s next c = record s { memory = set s.memory s.write c; read = next; write = suc s.write }

-- One round, on the byte `c` at `read` and the byte `d` behind it.
unfoldable pub round_on : Scan → ℕ → ℕ → Round
round_on s c d =
    if c == 0
    then leave s
    else if s.quote == 0 && is_space c
    then leave (record s { read = suc s.read })
    else if c == b'\\' && not (s.quote == b'\'')
    then (if d == 0 then dangling s else again (put s (suc (suc s.read)) d))
    else if s.quote == 0
    then (if is_quote c
        then again (record s { read = suc s.read; quote = c })
        else again (put s (suc s.read) c))
    else if c == s.quote
    then again (record s { read = suc s.read; quote = 0 })
    else again (put s (suc s.read) c)

abbrev pub round : Scan → Round
round s = round_on s (get_or s.memory s.read 0) (get_or s.memory (suc s.read) 0)

-- The loop over one token. A round moves `read` on or ends the loop, so the length of the memory
-- is fuel enough.
unfoldable pub scan_token : ℕ → Scan → Round
scan_token zero s = again s
scan_token (suc fuel) s = elim (round s) [
  | leave t ↦ leave t
  | dangling t ↦ dangling t
  | again t ↦ scan_token fuel t
]

-- The loop over white space.
unfoldable pub skip_spaces : ℕ → Bytes → ℕ → ℕ
skip_spaces zero memory read = read
skip_spaces (suc fuel) memory read = elim (is_space (get_or memory read 0)) [
  | true ↦ skip_spaces fuel memory (suc read)
  | false ↦ read
]

-- The status, the memory afterwards, and the first `*argc_out` entries of `argv`.
pub record Tokenized : Type 0 where
  pub status : Status
  pub memory : Bytes
  pub argv : List ℕ

abbrev pub failed : Status → Bytes → Tokenized
failed st memory = record { status = st; memory = memory; argv = [] }

-- The end of a round of the outer loop, on how the loop over the token ended; `next` is the rest
-- of the outer loop.
unfoldable pub close_token : (Bytes → ℕ → ℕ → Tokenized) → Round → Tokenized
close_token next (leave s) =
    if not (s.quote == 0)
    then failed err_unterminated_quote s.memory
    else next (set s.memory s.write 0) s.read (suc s.write)
close_token next (dangling s) = failed err_invalid_arg s.memory
close_token next (again s) = failed (other 0) s.memory

-- The outer loop. `other 0` stands for fuel that ran out.
unfoldable pub tokenize_loop : ℕ → ℕ → ℕ → Bytes → ℕ → ℕ → List ℕ → Tokenized
tokenize_loop zero fuel capacity memory read write argv = failed (other 0) memory
tokenize_loop (suc rounds) fuel capacity memory read write argv =
    let start = skip_spaces fuel memory read in
    let done : Tokenized = record { status = ok; memory = memory; argv = argv } in
    let token : Round =
      scan_token fuel (record { memory = memory; read = start; write = write; quote = 0 }) in
    let rest =
      close_token (λ m r w. tokenize_loop rounds fuel capacity m r w (argv ++ write ∷ [])) token in
    if get_or memory read 0 == 0
    then done
    else if get_or memory start 0 == 0
    then done
    else if leb capacity (length argv) || leb int_max (length argv)
    then failed err_too_many_args memory
    else rest

-- `sh_tokenize(line, argv, argv_capacity, &argc)`
unfoldable pub tokenize : Bytes → ℕ → Tokenized
tokenize memory capacity =
    if capacity == 0
    then failed err_invalid_arg memory
    else tokenize_loop (suc (length memory)) (suc (length memory)) capacity memory 0 0 []

-- The strings that `argv` points to.
abbrev pub arguments : Tokenized → List Bytes
arguments t = map (λ start. c_string (drop start t.memory)) t.argv

-- Tokenizing a copy of a text that is kept in a buffer of its own, as every caller does.
unfoldable pub split : Bytes → ℕ → Status × List Bytes
split line capacity = let t = tokenize (line ++ 0 ∷ []) capacity in (t.status, arguments t)
