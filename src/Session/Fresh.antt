-- ===== src/Session/Fresh.antt =====
-- What a shell that `sh_init` has set up does with its first input.
use portable_c_shell.Prelude.{
  ℕ, ◌+◌, ◌≤◌, ◌-◌, ◌==◌, ◌||◌, not, Bool, true, false, Option, none, some, [], ◌∷◌, ◌≡◌, refl, sym,
  ap, ◌∙◌, subst, arith, Bytes, length, set, ltb, if◌then◌else◌,
}
use portable_c_shell.Status.{Status, ok, err_invalid_arg, err_invalid_config}
use portable_c_shell.State.{Shell, Config, Env}
use portable_c_shell.Editor.Keys.{Shows}
use portable_c_shell.Input.{input}
use portable_c_shell.Input.Typing.{Ready, AllPrintable, input-Ready}
use portable_c_shell.Session.{
  Storage, Init, created, refused, init, init_with, initial, complete_config, is_bad_size,
  is_bad_history,
}

-- The line that `sh_init` sets up, in a buffer of the right size.
pub first_line :
    (b : Bytes) (n : ℕ)
    → length b ≡ n + 1
    → Shows (record { buffer = set b 0 0; capacity = n + 1; len = 0; cursor = 0 }) [] []
first_line [] n e = absurd (omega (arith, e))
first_line (x ∷ b) n e =
    (b, λ i. record { buffer = 0 ∷ b; capacity = sym e i; len = 0; cursor = 0 })

module _ {W : Type 0} where
  shell_of : Shell W → Init W → Shell W
  shell_of s (created t) = t
  shell_of s (refused status) = s

  created-injective : (s t : Shell W) → created s ≡ created t → s ≡ t
  unfolding shell_of
  created-injective s t e = ap (shell_of s) e

  -- Behind a guard that refuses, only the other branch creates a shell.
  past_guard :
      (guard : Bool) (status : Status) (k : Init W) (s : Shell W)
      → (if guard then refused status else k) ≡ created s
      → k ≡ created s
  past_guard true status k s h = absurd (ground (arith, h))
  past_guard false status k s h = h

  init_with-created :
      (w : W) (c : Config W) (st : Storage) (b : Bytes) (s : Shell W)
      → init_with w c st b ≡ created s
      → s ≡ initial w c st b
  unfolding init_with
  init_with-created w c st b s h = sym (
      created-injective _ s (
        past_guard (is_bad_history c st) err_invalid_config _ s (
          past_guard (ltb st.history_capacity c.history_depth) err_invalid_config _ s
            (past_guard (is_bad_size c st) err_invalid_config _ s h))))

  -- A shell comes from `sh_init` only with the line buffer that it was given.
  pub init-created :
      (w : W) (config : Option (Config W)) (st : Storage) (b : Bytes) (s : Shell W)
      → st.line_buffer ≡ some b
      → init w config st ≡ created s
      → s ≡ initial w (complete_config config st) st b
  unfolding init
  init-created w config st b s given h = init_with-created w (complete_config config st) st b s (
      past_guard (st.line_buffer_size == 0 || not st.argv_buffer || st.argv_capacity == 0)
        err_invalid_arg _ s
        (sym (
            ap
              (λ o. elim o [
                | none ↦ refused err_invalid_arg
                | some buffer ↦
                    if st.line_buffer_size == 0 || not st.argv_buffer || st.argv_capacity == 0
                    then refused err_invalid_arg
                    else init_with w (complete_config config st) st buffer
              ])
              given)
          ∙ h))

  -- A shell that `sh_init` creates over a line buffer of `line_max + 1` bytes, given at most
  -- `line_max` printable bytes, accepts them all and holds them as its line, with the cursor at
  -- the end.
  pub init-input :
      (env : Env W) (w : W) (config : Option (Config W)) (st : Storage) (b xs : Bytes) (s : Shell W)
      → st.line_buffer ≡ some b
      → length b ≡ (complete_config config st).line_max + 1
      → init w config st ≡ created s
      → AllPrintable xs
      → length xs ≤ (complete_config config st).line_max
      → ((input env s xs).1 ≡ ok) × Shows (input env s xs).0.line xs []
  unfolding input
  init-input env w config st b xs s given size h printable fits =
      let c = complete_config config st in
      let made : s ≡ initial w c st b = init-created w config st b s given h in
      let ready : Ready env (initial w c st b) [] [] (length xs + (c.line_max - length xs)) =
        (refl, first_line b c.line_max size, omega (arith, fits)) in
      let (fine, (_, shows, _)) = input-Ready env s xs [] [] (c.line_max - length xs) printable (
        subst {A = Shell W} (λ t. Ready env t [] [] (length xs + (c.line_max - length xs)))
          (sym made) ready) in
      (fine, shows)
