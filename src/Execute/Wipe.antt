-- ===== src/Execute/Wipe.antt =====
-- What Enter, Ctrl+C and Ctrl+U leave of the line and the draft.
use portable_c_shell.Prelude.{
  Bool-cases, inl, inr, arith, ℕ, ◌+◌, true, Option, none, some, [], ◌≡◌, refl, sym, ap, ◌∙◌, subst,
  append-nil, blit, blit-append, length-zero_fill, length-replicate, Bytes, length, ltb, replicate,
  zero_fill, text,
}
use portable_c_shell.Ansi
use portable_c_shell.State.{draft_view, max_line_len, Shell, Env}
use portable_c_shell.Output.{prompt, emit}
use portable_c_shell.Output.Quiet.{Quiet, prompt-Quiet, emit-Quiet}
use portable_c_shell.Editor.{
  wipe_draft_if_secure, clear_input_line, finish_line, wipe_line, wipe_draft, cancel_input_line,
}
use portable_c_shell.Display.{redraw, line_text}
use portable_c_shell.Display.Quiet.{redraw-Quiet}
use portable_c_shell.Execute.Kept.{
  Kept, Kept-trans, Quiet-Kept, Discreet, IsDraftOf, same_size, execute_line-Kept,
}
use portable_c_shell.Execute.{execute_line, handle_enter}

-- No byte of the block is left.
abbrev pub IsWiped : Bytes → Type 0
IsWiped b = b ≡ replicate (length b) 0

abbrev pub IsWipedDraft : Option Bytes → Type 0
IsWipedDraft none = Unit {0}
IsWipedDraft (some d) = IsWiped d

module _ {W : Type 0} where
  -- The line is empty and its whole buffer zero, and so is the draft, if there is one.
  abbrev pub Forgotten : Shell W → Type 0
  Forgotten s =
      IsWiped s.line.buffer × (s.line.len ≡ 0) × (s.line.cursor ≡ 0) × IsWipedDraft s.draft

  -- The buffers of the line and the draft have the size of the capacity.
  abbrev pub HasBuffers : Shell W → Type 0
  HasBuffers s = (length s.line.buffer ≡ s.line.capacity) × IsDraftOf s.line.capacity s.draft

zero_fill_all : (b : Bytes) (n : ℕ) → length b ≡ n → zero_fill b n ≡ replicate n 0
zero_fill_all b n e =
    ap (λ k. blit k 0 (replicate n 0)) (sym (append-nil b))
    ∙ blit-append [] b (replicate n 0) [] (e ∙ sym (length-replicate n 0))
    ∙ append-nil (replicate n 0)

zero_fill-IsWiped : (b : Bytes) (n : ℕ) → length b ≡ n → IsWiped (zero_fill b n)
zero_fill-IsWiped b n e =
    zero_fill_all b n e
    ∙ ap (λ k. replicate k 0) (sym (length-zero_fill b n (omega (arith, e)) ∙ e))

wipe_draft-IsWiped : (o : Option Bytes) (n : ℕ) → IsDraftOf n o → IsWipedDraft (wipe_draft true n o)
wipe_draft-IsWiped none n size = tt
wipe_draft-IsWiped (some b) n size = zero_fill-IsWiped b n size

wipe_draft_if_secure-IsWiped :
    (o : Option Bytes) (n : ℕ) → IsDraftOf n o → IsWipedDraft (wipe_draft_if_secure true n o)
wipe_draft_if_secure-IsWiped none n size = tt
wipe_draft_if_secure-IsWiped (some b) n size = zero_fill-IsWiped b n size

module _ {W : Type 0} where
  Forgotten-Quiet : (s s' : Shell W) → Quiet s s' → Forgotten s → Forgotten s'
  Forgotten-Quiet s s' q f = subst {A = Shell W} Forgotten (sym q) f

  finish_line-Forgotten :
      (s : Shell W) → s.cfg.secure_clear_enabled ≡ true → HasBuffers s → Forgotten (finish_line s)
  unfolding wipe_line
  finish_line-Forgotten s secure (line_size, draft_size) = rw secure (
    zero_fill-IsWiped s.line.buffer s.line.capacity line_size,
    refl,
    refl,
    wipe_draft-IsWiped s.draft s.line.capacity draft_size,
  )

  -- With `secure_clear_enabled`, Ctrl+C leaves an empty line, and zeros in the whole buffers of the
  -- line and of the draft, if these have the size of the capacity.
  pub cancel_input_line-Forgotten :
      (s : Shell W)
      → s.cfg.secure_clear_enabled ≡ true
      → HasBuffers s
      → Forgotten (cancel_input_line s)
  unfolding cancel_input_line
  cancel_input_line-Forgotten s secure buffers =
      let q : Quiet s (emit s (text "^C\r\n")) = emit-Quiet s _ in
      let s₁ = finish_line (emit s (text "^C\r\n")) in
      let s₂ : Shell W = record s₁ { ansi = Ansi.reset s₁.ansi } in
      Forgotten-Quiet s₂ (prompt s₂) (prompt-Quiet s₂) (
        finish_line-Forgotten (emit s (text "^C\r\n"))
          (subst {A = Shell W} (λ t. t.cfg.secure_clear_enabled ≡ true) (sym q) secure)
          (subst {A = Shell W} HasBuffers (sym q) buffers))

  Kept-HasBuffers : (s t : Shell W) → Kept s t → HasBuffers s → HasBuffers t
  Kept-HasBuffers s t k (line_size, size) = (
    subst (λ l. length l.buffer ≡ l.capacity) (sym k.line_is) line_size,
    same_size s.draft t.draft t.line.capacity k.size_is
        (subst (λ l. IsDraftOf l.capacity s.draft) (sym k.line_is) size),
  )

  -- If no handler changes the line, the configuration or the size of the draft, then with
  -- `secure_clear_enabled` Enter leaves an empty line, and zeros in the whole buffers of the line
  -- and of the draft, if these have the size of the capacity, whatever the line does.
  pub handle_enter-Forgotten :
      (env : Env W) (s : Shell W)
      → Discreet env
      → s.cfg.secure_clear_enabled ≡ true
      → HasBuffers s
      → Forgotten (handle_enter env s).0
  unfolding handle_enter
  handle_enter-Forgotten env s discreet secure buffers =
      let s₁ = emit s (text "\r\n") in
      let kept₁ = Quiet-Kept s s₁ (emit-Quiet s _) in
      elim (Bool-cases (ltb s.line.len (max_line_len + 1))) [
        | inl e ↦ rw e (
            enter_end s (execute_line env s₁ (line_text s)).0
              (Kept-trans s s₁ (execute_line env s₁ (line_text s)).0 kept₁ (
                execute_line-Kept env discreet s₁ (line_text s) (
                  subst {A = Shell W} (λ t. IsDraftOf t.line.capacity t.draft)
                    (sym (emit-Quiet s (text "\r\n"))) buffers.1)))
              secure buffers)
        | inr e ↦ rw e (enter_end s s₁ kept₁ secure buffers)
      ]
    where
      enter_end :
          (s t : Shell W)
          → Kept s t
          → s.cfg.secure_clear_enabled ≡ true
          → HasBuffers s
          → Forgotten (prompt (finish_line t))
      enter_end s t k secure buffers =
          Forgotten-Quiet (finish_line t) (prompt (finish_line t)) (prompt-Quiet (finish_line t)) (
            finish_line-Forgotten t (ap (λ c. c.secure_clear_enabled) k.cfg_is ∙ secure)
              (Kept-HasBuffers s t k buffers))

  -- With `secure_clear_enabled`, Ctrl+U leaves an empty line, and zeros in the whole buffers of the
  -- line and of the draft, if these have the size of the capacity.
  pub clear_input_line-Forgotten :
      (s : Shell W)
      → s.cfg.secure_clear_enabled ≡ true
      → HasBuffers s
      → Forgotten (clear_input_line s)
  unfolding clear_input_line wipe_line
  clear_input_line-Forgotten s secure (line_size, size) =
      let t : Shell W = record s {
        line = wipe_line s.cfg.secure_clear_enabled s.line;
        history_view = draft_view;
        draft = wipe_draft_if_secure s.cfg.secure_clear_enabled s.line.capacity s.draft;
      } in
      Forgotten-Quiet t (redraw t) (redraw-Quiet t) (
        rw secure (
          zero_fill-IsWiped s.line.buffer s.line.capacity line_size,
          refl,
          refl,
          wipe_draft_if_secure-IsWiped s.draft s.line.capacity size,
        ))
