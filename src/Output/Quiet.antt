-- ===== src/Output/Quiet.antt =====
-- Output changes nothing of the shell but the state of its backend.
use portable_c_shell.Prelude.{
  Option, none, some, [], ◌∷◌, ◌≡◌, refl, ap, ◌∙◌, arith, Bytes, leb, length, take, Bool-cases, inl,
  inr, Option-cases,
}
use portable_c_shell.State.{Shell}
use portable_c_shell.Transport.{Transport}
use portable_c_shell.Output.{
  write, write_through, write_plain, print_formatted, emit, emit_formatted, prompt, prompt_text,
}

module _ {W : Type 0} where
  -- `s'` is `s` but for the backend.
  abbrev pub Quiet : Shell W → Shell W → Type 0
  Quiet s s' = s' ≡ record s { world = s'.world }

  pub Quiet-refl : (s : Shell W) → Quiet s s
  Quiet-refl s = refl

  pub Quiet-trans : (s t u : Shell W) → Quiet s t → Quiet t u → Quiet s u
  Quiet-trans s t u p q = q ∙ ap {A = Shell W} {B = Shell W} (λ r. record r { world = u.world }) p

  write_plain-Quiet :
      (s : Shell W) (call : Option (W → Bytes → W)) (bytes : Bytes)
      → Quiet s (write_plain s call bytes).0
  unfolding write_plain
  write_plain-Quiet s none bytes = refl
  write_plain-Quiet s (some call) [] = refl
  write_plain-Quiet s (some call) (b ∷ bytes) = refl

  write_through-Quiet :
      (s : Shell W) (t : Transport W) (bytes : Bytes) → Quiet s (write_through s t bytes).0
  unfolding write_through
  write_through-Quiet s t bytes = refl

  pub write-Quiet : (s : Shell W) (bytes : Bytes) → Quiet s (write s bytes).0
  unfolding write
  write-Quiet s bytes = elim (Option-cases s.cfg.transport) [
    | inl e ↦ ground (arith, write_plain-Quiet s s.cfg.write bytes)
    | inr (t, e) ↦ ground (arith, write_through-Quiet s t bytes)
  ]

  pub emit-Quiet : (s : Shell W) (bytes : Bytes) → Quiet s (emit s bytes)
  unfolding emit
  emit-Quiet s bytes = write-Quiet s bytes

  pub print_formatted-Quiet : (s : Shell W) (bytes : Bytes) → Quiet s (print_formatted s bytes).0
  unfolding print_formatted
  print_formatted-Quiet s bytes = elim (Bool-cases (leb 256 (length bytes))) [
    | inl e ↦ rw e (write-Quiet s (take 255 bytes))
    | inr e ↦ rw e (write-Quiet s bytes)
  ]

  pub emit_formatted-Quiet : (s : Shell W) (bytes : Bytes) → Quiet s (emit_formatted s bytes)
  unfolding emit_formatted
  emit_formatted-Quiet s bytes = print_formatted-Quiet s bytes

  pub prompt-Quiet : (s : Shell W) → Quiet s (prompt s)
  unfolding prompt
  prompt-Quiet s = emit-Quiet s (prompt_text s.cfg.prompt)
