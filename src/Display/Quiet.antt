-- ===== src/Display/Quiet.antt =====
-- Redrawing the line only writes.
use portable_c_shell.Prelude.{not, ◌&&◌, text, ltb, if◌then◌else◌, Bool-cases, inl, inr}
use portable_c_shell.State.{Shell}
use portable_c_shell.Output.{emit, prompt}
use portable_c_shell.Output.Quiet.{Quiet}
use portable_c_shell.Output.Emits.{
  Emits, silent, Emits-trans, Emits-Quiet, emit-Emits, emit_formatted-Emits, prompt-Emits,
}
use portable_c_shell.Display.{display_line, redraw}

module _ {W : Type 0} where
  pub redraw-Emits : (s : Shell W) → Emits s (redraw s)
  unfolding redraw
  redraw-Emits s = elim (Bool-cases (not s.echo_enabled)) [
    | inl e ↦ rw e silent
    | inr e ↦ elim (Bool-cases (s.cfg.ansi_enabled && ltb s.line.cursor s.line.len)) [
      | inl f ↦ rw (e, f) (Emits-trans s s₂ _ line_drawn (emit_formatted-Emits s₂ _))
      | inr f ↦ rw (e, f) line_drawn
    ]
  ]
    where
      s₁ : Shell W
      s₁ = emit s (if s.cfg.ansi_enabled then text "\r\u{1b}[2K" else text "\r\n")

      s₂ : Shell W
      s₂ = emit (prompt s₁) (display_line s)

      line_drawn : Emits s s₂
      line_drawn =
          Emits-trans s (prompt s₁) s₂
            (Emits-trans s s₁ (prompt s₁) (emit-Emits s _) (prompt-Emits s₁))
            (emit-Emits (prompt s₁) (display_line s))

  pub redraw-Quiet : (s : Shell W) → Quiet s (redraw s)
  redraw-Quiet s = Emits-Quiet (redraw-Emits s)
