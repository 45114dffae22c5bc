-- ===== src/Display.antt =====
-- The echo of the line and its masking, shell/src/sh_shell.c: `raw_token_span`,
-- `unmatched_quote`, `build_display_line` and `sh_redraw_line_internal`.
pub mod Quiet
pub mod Leak
use portable_c_shell.Prelude.{
  ℕ, zero, suc, ◌+◌, ◌-◌, Bool, true, false, not, ◌&&◌, ◌||◌, Option, none, some, List, [], ◌∷◌,
  ◌++◌, length, take, get_or, set, ltb, leb, ◌==◌, if◌then◌else◌, Bytes, text, c_string, is_space,
  decimal, min,
}
use portable_c_shell.Status.{Status, ok, err_unterminated_quote, is_ok}
use portable_c_shell.Tokenizer.{is_quote, split}
use portable_c_shell.State.{Cmd, CmdInfo, info, Shell, Line, Config, max_line_len}
use portable_c_shell.Output.{emit, emit_formatted, prompt}
use portable_c_shell.Command.Lookup.{Resolved, resolve}

-- Where a scan over a line stands: the index and the bytes from it on.
abbrev pub Place : Type 0
Place = ℕ × Bytes

-- The loop over white space of `raw_token_span`.
unfoldable pub skip_white : ℕ → Bytes → Place
skip_white index [] = (index, [])
skip_white index (c ∷ rest) =
    let later = skip_white (suc index) rest in if is_space c then later else (index, c ∷ rest)

-- `quote` and `escaped` after one byte that is not the end of the token.
abbrev pub next_quote : ℕ → Bool → ℕ → ℕ
next_quote quote true c = quote
next_quote quote false c =
    if c == b'\\'
    then quote
    else if not (quote == 0)
    then (if c == quote then 0 else quote)
    else if is_quote c
    then c
    else 0

abbrev pub next_escaped : Bool → ℕ → Bool
next_escaped escaped c = not escaped && c == b'\\'

-- The loop over one token.
unfoldable pub raw_token : ℕ → Bytes → ℕ → Bool → Place
raw_token index [] quote escaped = (index, [])
raw_token index (c ∷ rest) quote escaped =
    let later = raw_token (suc index) rest (next_quote quote escaped c) (next_escaped escaped c) in
    if not escaped && (quote == 0 && is_space c) then (index, c ∷ rest) else later

-- The outer loop, on the tokens that are still to be passed over. A token ends outside quotes or
-- at the end of the line, so each round starts with `quote` and `escaped` clear.
abbrev pub span_end : Place → Option (ℕ × ℕ)
span_end (start, []) = none
span_end (start, c ∷ rest) = some (start, (raw_token start (c ∷ rest) 0 false).0)

-- The place behind the next token, if there is one.
abbrev pub behind_token : Place → Option Place
behind_token (start, []) = none
behind_token (start, c ∷ rest) = some (raw_token start (c ∷ rest) 0 false)

unfoldable pub span_from : ℕ → Place → Option (ℕ × ℕ)
span_from zero (index, line) = span_end (skip_white index line)
span_from (suc tokens) (index, line) = elim (behind_token (skip_white index line)) [
  | none ↦ none
  | some place ↦ span_from tokens place
]

-- `raw_token_span`: the first index of a token in the line, and the index behind it.
unfoldable pub raw_token_span : Bytes → ℕ → Option (ℕ × ℕ)
raw_token_span line token_index = span_from token_index (0, line)

unfoldable pub open_quote : Bytes → ℕ → Bool → ℕ
open_quote [] quote escaped = quote
open_quote (c ∷ line) quote escaped =
    open_quote line (next_quote quote escaped c) (next_escaped escaped c)

-- `unmatched_quote`
unfoldable pub unmatched_quote : Bytes → ℕ
unmatched_quote line = open_quote line 0 false

abbrev pub mask_byte : ℕ → ℕ
mask_byte c = if is_quote c then c else b'*'

-- The loop over the positions of a token; `left` of them are still to be masked.
abbrev pub mask_span : Bytes → ℕ → ℕ → Bytes
mask_span display pos zero = display
mask_span display pos (suc left) =
    mask_span (set display pos (mask_byte (get_or display pos 0))) (suc pos) left

abbrev pub mask_found : Bytes → Option (ℕ × ℕ) → Bytes
mask_found display none = display
mask_found display (some (start, stop)) =
    mask_span display start (min stop (length display) - start)

-- Whether the flag of the resolved command hides argument `i`.
abbrev pub is_sensitive_at : Resolved → ℕ → Bool
is_sensitive_at r i = elim r.command [
  | none ↦ false
  | some c ↦ (info c).sensitive && leb r.consumed i
]

-- `shell->cfg.should_mask_arg && shell->cfg.should_mask_arg(path, i, argv[i], mask_ctx)`
abbrev pub is_masked_by : Option (Bytes → ℕ → Bytes → Bool) → Bytes → ℕ → Bytes → Bool
is_masked_by none path i arg = false
is_masked_by (some call) path i arg = call path i arg

module _ (policy : Option (Bytes → ℕ → Bytes → Bool)) where
  abbrev pub is_hidden : Resolved → ℕ → Bytes → Bool
  is_hidden r i arg = is_sensitive_at r i || is_masked_by policy r.path i arg

  -- The loop over the arguments, from number `i` on.
  unfoldable pub mask_arguments : Bytes → Resolved → ℕ → List Bytes → Bytes → Bytes
  mask_arguments line r i [] display = display
  mask_arguments line r i (arg ∷ args) display =
      mask_arguments line r (suc i) args
        (if is_hidden r i arg then mask_found display (raw_token_span line i) else display)

-- The tokens of the line; if a quote is open, of the line with the quote closed.
unfoldable pub parse_for_display : Bytes → ℕ → Status × List Bytes
parse_for_display line capacity =
    let first = split line capacity in
    let quote = unmatched_quote line in
    let retry = split (line ++ quote ∷ []) capacity in
    elim first.0 [
      | err_unterminated_quote ↦
          if ltb (length line + 1) (max_line_len + 2) && not (quote == 0) then retry else first
      | _ ↦ first
    ]

module _ {W : Type 0} where
  -- The bytes of the line: `line_len` of them.
  abbrev pub line_text : Shell W → Bytes
  line_text s = take s.line.len s.line.buffer

  -- `build_display_line` into a buffer of SH_MAX_LINE_LEN + 1 bytes.
  unfoldable pub display_line : Shell W → Bytes
  display_line s =
      let line = line_text s in
      let parsed = parse_for_display line s.argv_capacity in
      let shown = take max_line_len line in
      if not (is_ok parsed.0)
      then shown
      else mask_arguments s.cfg.should_mask_arg line (resolve s.roots parsed.1) 0 parsed.1 shown

  -- `sh_redraw_line_internal`
  unfoldable pub redraw : Shell W → Shell W
  redraw s =
      let s₁ = emit s (if s.cfg.ansi_enabled then text "\r\u{1b}[2K" else text "\r\n") in
      let s₂ = emit (prompt s₁) (display_line s) in
      if not s.echo_enabled
      then s
      else if s.cfg.ansi_enabled && ltb s.line.cursor s.line.len
      then emit_formatted s₂ (text "\u{1b}[" ++ (decimal (s.line.len - s.line.cursor) ++ text "D"))
      else s₂
