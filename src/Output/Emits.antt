-- ===== src/Output/Emits.antt =====
-- What the output functions do to a shell: a number of calls of `sh_write`.
use portable_c_shell.Prelude.{
  Bytes, leb, length, take, if◌then◌else◌, Bool, true, false, Bool-cases, inl, inr,
}
use portable_c_shell.State.{Shell}
use portable_c_shell.Output.{write, print_formatted, emit, emit_formatted, prompt, prompt_text}
use portable_c_shell.Output.Quiet.{Quiet, Quiet-refl, Quiet-trans, write-Quiet}

module _ {W : Type 0} where
  -- `t` is what calls of `sh_write` make of `s`.
  pub data Emits (s : Shell W) : Shell W → Type 0 where
    silent : Emits s s
    wrote : {t : Shell W} → Emits s t → (bytes : Bytes) → Emits s (write t bytes).0

  pub Emits-trans : (s t u : Shell W) → Emits s t → Emits t u → Emits s u
  Emits-trans s t u p silent = p
  Emits-trans s t u p (wrote {t = v} q bytes) = wrote (Emits-trans s t v p q) bytes

  pub Emits-Quiet : {s t : Shell W} → Emits s t → Quiet s t
  Emits-Quiet {s} silent = Quiet-refl s
  Emits-Quiet {s} (wrote {t} p bytes) =
      Quiet-trans s t (write t bytes).0 (Emits-Quiet p) (write-Quiet t bytes)

  -- Any property of shells that `sh_write` keeps.
  pub Emits-keep :
      (P : Shell W → Type 0)
      → ((t : Shell W) (bytes : Bytes) → P t → P (write t bytes).0)
      → {s t : Shell W} → Emits s t
      → P s
      → P t
  Emits-keep P keep silent h = h
  Emits-keep P keep (wrote {t} p bytes) h = keep t bytes (Emits-keep P keep p h)

  -- Either answer of a test.
  pub if-Emits : (b : Bool) (s t u : Shell W) → Emits s t → Emits s u → Emits s (if b then t else u)
  if-Emits true s t u p q = p
  if-Emits false s t u p q = q

  pub emit-Emits : (s : Shell W) (bytes : Bytes) → Emits s (emit s bytes)
  unfolding emit
  emit-Emits s bytes = wrote silent bytes

  pub print_formatted-Emits : (s : Shell W) (bytes : Bytes) → Emits s (print_formatted s bytes).0
  unfolding print_formatted
  print_formatted-Emits s bytes = elim (Bool-cases (leb 256 (length bytes))) [
    | inl e ↦ rw e (wrote silent (take 255 bytes))
    | inr e ↦ rw e (wrote silent bytes)
  ]

  pub emit_formatted-Emits : (s : Shell W) (bytes : Bytes) → Emits s (emit_formatted s bytes)
  unfolding emit_formatted
  emit_formatted-Emits s bytes = print_formatted-Emits s bytes

  pub prompt-Emits : (s : Shell W) → Emits s (prompt s)
  unfolding prompt
  prompt-Emits s = emit-Emits s (prompt_text s.cfg.prompt)
