-- ===== src/Safety/ShortDraft.antt =====
-- `sh_init` of shell/src/sh_shell.c with a draft buffer that is shorter than the line, and what
-- `cancel_input_line` does with it.
use portable_c_shell.Prelude.{
  ℕ, ◌+◌, ◌<◌, true, false, not, ◌||◌, ◌==◌, Option, none, some, [], ◌∷◌, ◌≡◌, refl, sym, ap, ◌∙◌,
  subst, arith, Bytes, text, length, set, length-replicate, zero_fill, replicate,
  length-blit_behind, ltb, if◌then◌else◌,
}
use portable_c_shell.State.{Shell, Config}
use portable_c_shell.Status.{err_invalid_arg}
use portable_c_shell.Ansi
use portable_c_shell.Output.{emit}
use portable_c_shell.Output.Quiet.{emit-Quiet, prompt-Quiet}
use portable_c_shell.Editor.{finish_line, cancel_input_line}
use portable_c_shell.Session.{
  Storage, Init, refused, created, init, init_with, initial, complete_config, is_bad_size,
  is_bad_history,
}

-- Clearing `n` bytes of a shorter block writes behind it.
length-zero_fill_short : (d : Bytes) (n : ℕ) → length d < n → length (zero_fill (set d 0 0) n) ≡ n
length-zero_fill_short [] n h =
    length-blit_behind (0 ∷ []) 0 (replicate n 0) (omega arith)
      (omega (arith, h, length-replicate {A = ℕ} n 0))
    ∙ omega (arith, length-replicate {A = ℕ} n 0)
length-zero_fill_short (x ∷ d) n h =
    length-blit_behind (0 ∷ d) 0 (replicate n 0) (omega arith)
      (omega (arith, h, length-replicate {A = ℕ} n 0))
    ∙ omega (arith, length-replicate {A = ℕ} n 0)

module _ {W : Type 0} where
  -- With history switched off and the sizes in order, `sh_init` takes a draft buffer of any size.
  init-any_draft :
      (w : W) (config : Option (Config W)) (st : Storage) (line : Bytes)
      → st.line_buffer ≡ some line
      → (st.line_buffer_size == 0 || not st.argv_buffer || st.argv_capacity == 0) ≡ false
      → is_bad_size (complete_config config st) st ≡ false
      → (complete_config config st).history_depth ≡ 0
      → init w config st ≡ created (initial w (complete_config config st) st line)
  unfolding init init_with
  init-any_draft w config st line given args size off =
      let c = complete_config config st in
      let no_depth : ltb st.history_capacity c.history_depth ≡ false = ground (arith, off) in
      let no_history : is_bad_history c st ≡ false = ground (arith, off) in
      ap
        (λ o. elim o as (λ _. Init W) [
          | none ↦ refused err_invalid_arg
          | some buffer ↦
              if st.line_buffer_size == 0 || not st.argv_buffer || st.argv_capacity == 0
              then refused err_invalid_arg
              else init_with w c st buffer
        ])
        given
      ∙ rw (args, size, no_depth, no_history) refl

  -- A shell that clears secrets, with a draft `d` as it is after `sh_init`.
  Fresh : Bytes → ℕ → Shell W → Type 0
  Fresh d n s =
      (s.cfg.secure_clear_enabled ≡ true) × (s.draft ≡ some (set d 0 0)) × (s.line.capacity ≡ n)

  cancel_input_line-Fresh :
      (d : Bytes) (n : ℕ) (s : Shell W)
      → Fresh d n s
      → (cancel_input_line s).draft ≡ some (zero_fill (set d 0 0) n)
  unfolding cancel_input_line Fresh
  cancel_input_line-Fresh d n s fresh =
      let s₁ = emit s (text "^C\r\n") in
      let (secure, draft, capacity) =
        subst {A = Shell W} (Fresh d n) (sym (emit-Quiet s (text "^C\r\n"))) fresh in
      let s₂ : Shell W = record (finish_line s₁) { ansi = Ansi.reset s₁.ansi } in
      ap (λ t. t.draft) (prompt-Quiet s₂) ∙ rw (draft, secure, capacity) refl

  -- Let history be switched off and secrets be cleared, the sizes be those that `sh_init` tests, and the
  -- draft buffer be shorter than a line with its NUL. Then `sh_init` makes a shell, and Ctrl+C writes
  -- behind the draft buffer: the block that it leaves has grown to the capacity of the line.
  pub cancel_short_draft :
      (w : W) (config : Option (Config W)) (st : Storage) (line d : Bytes)
      → st.line_buffer ≡ some line
      → (st.line_buffer_size == 0 || not st.argv_buffer || st.argv_capacity == 0) ≡ false
      → is_bad_size (complete_config config st) st ≡ false
      → (complete_config config st).history_depth ≡ 0
      → (complete_config config st).secure_clear_enabled ≡ true
      → st.draft_buffer ≡ some d
      → length d < (complete_config config st).line_max + 1
      → (s : Shell W) × (init w config st ≡ created s)
        × (d' : Bytes) × ((cancel_input_line s).draft ≡ some d')
        × (length d' ≡ s.line.capacity)
        × (length d < length d')
  unfolding Fresh
  cancel_short_draft w config st line d given args size off secure draft short =
      let c = complete_config config st in
      let n = c.line_max + 1 in
      let grown = length-zero_fill_short d n short in
      (
        initial w c st line,
        init-any_draft w config st line given args size off,
        zero_fill (set d 0 0) n,
        cancel_input_line-Fresh d n (initial w c st line) (
          secure,
          ap (λ o. elim o as (λ _. Option Bytes) [ none ↦ none | some b ↦ some (set b 0 0) ]) draft,
          refl,
        ),
        grown,
        omega (arith, grown, short),
      )
