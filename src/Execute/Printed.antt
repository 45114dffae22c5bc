-- ===== src/Execute/Printed.antt =====
-- The text that `build_history_line` of shell/src/sh_shell.c puts together, written without its
-- buffer: the tokens with their quotes and backslashes, a space between two of them.
use portable_c_shell.Prelude.{
  ℕ, suc, ◌+◌, ◌≤◌, ◌<◌, Bool, true, not, ◌&&◌, ◌||◌, Option, List, [], ◌∷◌, ◌++◌, ◌≡◌, refl, sym,
  ap, ◌∙◌, arith, append-nil, append_assoc, Bool-cases, inl, inr, length, length-append, ltb, ◌==◌,
  if◌then◌else◌, Bytes,
}
use portable_c_shell.State.{max_line_len}
use portable_c_shell.Command.Lookup.{Resolved}
use portable_c_shell.Display.{is_hidden}
use portable_c_shell.Execute.{
  token_needs_quotes, append_char, append_escaped, append_token, hidden_text, rebuild,
}

abbrev pub escape : Bytes → Bytes
escape [] = []
escape (c ∷ token) =
    if c == b'"' || c == b'\\' then b'\\' ∷ (c ∷ escape token) else c ∷ escape token

-- One token as it is printed.
abbrev pub printed : Bytes → Bytes
printed token =
    if token_needs_quotes token then b'"' ∷ (escape token ++ (b'"' ∷ [])) else escape token

-- The tokens that follow a first one.
abbrev pub followed : List Bytes → Bytes
followed [] = []
followed (token ∷ tokens) = 32 ∷ (printed token ++ followed tokens)

-- All tokens of a line.
abbrev pub joined : List Bytes → Bytes
joined [] = []
joined (token ∷ tokens) = printed token ++ followed tokens

append_char_fits :
    (out : Bytes) (c : ℕ) → length out < max_line_len → append_char out c ≡ out ++ (c ∷ [])
append_char_fits out c h = ground (arith, h)

append_escaped_fits :
    (out token : Bytes)
    → length out + length (escape token) ≤ max_line_len
    → append_escaped out token ≡ out ++ escape token
unfolding append_escaped
append_escaped_fits out [] h = sym (append-nil out)
append_escaped_fits out (c ∷ token) h = elim (Bool-cases (c == b'"' || c == b'\\')) [
  | inl e ↦
      let long : length (escape (c ∷ token)) ≡ suc (suc (length (escape token))) = rw e refl in
      let slash = out ++ (b'\\' ∷ []) in
      let len = length-append out (b'\\' ∷ []) in
      let len' = length-append slash (c ∷ []) in
      rw e (
        ap (λ o. append_escaped (append_char o c) token)
          (append_char_fits out b'\\' (omega (arith, h, long)))
        ∙ ap (λ o. append_escaped o token) (append_char_fits slash c (omega (arith, h, long, len)))
        ∙ append_escaped_fits (slash ++ (c ∷ [])) token (omega (arith, h, long, len, len'))
        ∙ append_assoc slash (c ∷ []) (escape token)
        ∙ append_assoc out (b'\\' ∷ []) (c ∷ escape token))
  | inr e ↦
      let long : length (escape (c ∷ token)) ≡ suc (length (escape token)) = rw e refl in
      let len = length-append out (c ∷ []) in
      rw e (
        ap (λ o. append_escaped o token) (append_char_fits out c (omega (arith, h, long)))
        ∙ append_escaped_fits (out ++ (c ∷ [])) token (omega (arith, h, long, len))
        ∙ append_assoc out (c ∷ []) (escape token))
]

-- One token appended to a text that is there, behind a space.
append_printed_fits :
    (spaced token : Bytes)
    → length spaced + length (printed token) ≤ max_line_len
    → (if token_needs_quotes token
        then append_char (append_escaped (append_char spaced b'"') token) b'"'
        else append_escaped spaced token)
      ≡ spaced ++ printed token
append_printed_fits spaced token h = elim (Bool-cases (token_needs_quotes token)) [
  | inl e ↦
      let long : length (printed token) ≡ suc (length (escape token) + 1) =
        rw e (ap suc (length-append (escape token) (b'"' ∷ []))) in
      let opened = spaced ++ (b'"' ∷ []) in
      let len = length-append spaced (b'"' ∷ []) in
      let len' = length-append opened (escape token) in
      rw e (
        ap (λ o. append_char (append_escaped o token) b'"')
          (append_char_fits spaced b'"' (omega (arith, h, long)))
        ∙ ap (λ o. append_char o b'"')
            (append_escaped_fits opened token (omega (arith, h, long, len)))
        ∙ append_char_fits (opened ++ escape token) b'"' (omega (arith, h, long, len, len'))
        ∙ append_assoc opened (escape token) (b'"' ∷ [])
        ∙ append_assoc spaced (b'"' ∷ []) (escape token ++ (b'"' ∷ [])))
  | inr e ↦
      let long : length (printed token) ≡ length (escape token) = rw e refl in
      rw e (append_escaped_fits spaced token (omega (arith, h, long)))
]

append_token_first :
    (token : Bytes) → length (printed token) ≤ max_line_len → append_token [] token ≡ printed token
unfolding append_token
append_token_first token h = append_printed_fits [] token (omega (arith, h))

append_token_next :
    (out token : Bytes)
    → 0 < length out
    → length out + suc (length (printed token)) ≤ max_line_len
    → append_token out token ≡ out ++ (32 ∷ printed token)
unfolding append_token
append_token_next out token some_out h =
    let room : (not (length out == 0) && ltb (length out + 1) (max_line_len + 1)) ≡ true =
      ground (arith, some_out, h) in
    rw room (
      append_printed_fits (out ++ (32 ∷ [])) token (omega (arith, h, length-append out (32 ∷ [])))
      ∙ append_assoc out (32 ∷ []) (printed token))

printed_some : (token : Bytes) → 0 < length (printed token)
printed_some [] = omega arith
printed_some (c ∷ token) = ground arith

module _ (policy : Option (Bytes → ℕ → Bytes → Bool)) (r : Resolved) where
  -- The arguments as the history shows them, from argument `i` on.
  abbrev pub shown : ℕ → List Bytes → List Bytes
  shown i [] = []
  shown i (arg ∷ args) =
      (if is_hidden policy r i arg then hidden_text else arg) ∷ shown (suc i) args

  rebuild_next :
      (i : ℕ) (args : List Bytes) (out : Bytes)
      → 0 < length out
      → length out + length (followed (shown i args)) ≤ max_line_len
      → rebuild policy r i args out ≡ out ++ followed (shown i args)
  unfolding rebuild
  rebuild_next i [] out some_out h = sym (append-nil out)
  rebuild_next i (arg ∷ args) out some_out h =
      let token : Bytes = if is_hidden policy r i arg then hidden_text else arg in
      let long = length-append (printed token) (followed (shown (suc i) args)) in
      let len = length-append out (32 ∷ printed token) in
      ap (rebuild policy r (suc i) args)
        (append_token_next out token some_out (omega (arith, h, long)))
      ∙ rebuild_next (suc i) args (out ++ (32 ∷ printed token)) (omega (arith, len))
          (omega (arith, h, long, len))
      ∙ append_assoc out (32 ∷ printed token) (followed (shown (suc i) args))

  -- What is put together fits the buffer: it is the printed text of the shown arguments.
  pub rebuild-joined :
      (args : List Bytes)
      → length (joined (shown 0 args)) ≤ max_line_len
      → rebuild policy r 0 args [] ≡ joined (shown 0 args)
  unfolding rebuild
  rebuild-joined [] h = refl
  rebuild-joined (arg ∷ args) h =
      let token : Bytes = if is_hidden policy r 0 arg then hidden_text else arg in
      let long = length-append (printed token) (followed (shown 1 args)) in
      ap (rebuild policy r 1 args) (append_token_first token (omega (arith, h, long)))
      ∙ rebuild_next 1 args (printed token) (printed_some token) (omega (arith, h, long))
