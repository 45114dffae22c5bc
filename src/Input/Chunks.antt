-- ===== src/Input/Chunks.antt =====
-- Input that arrives in pieces.
use portable_c_shell.Prelude.{
  false, not, ◌&&◌, [], ◌∷◌, ◌++◌, ◌≡◌, refl, ap, ◌∙◌, if◌then◌else◌, Bytes, Bool-cases, inl, inr,
}
use portable_c_shell.Status.{Status, ok, is_ok, is_ok_sound}
use portable_c_shell.State.{Shell, Env}
use portable_c_shell.Input.{input_byte, input_from, input}

module _ {W : Type 0} (env : Env W) where
  -- The result so far has no influence on the shell.
  input_from-state :
      (s : Shell W) (xs : Bytes) (r r' : Status)
      → (input_from env s xs r).0 ≡ (input_from env s xs r').0
  unfolding input_from
  input_from-state s [] r r' = refl
  input_from-state s (x ∷ xs) r r' = input_from-state (input_byte env s x).0 xs _ _

  keep_error : (r st : Status) → is_ok r ≡ false → (if is_ok r && not (is_ok st) then st else r) ≡ r
  keep_error r st e = rw e refl

  -- An error is kept to the end.
  input_from_error :
      (s : Shell W) (xs : Bytes) (r : Status) → is_ok r ≡ false → (input_from env s xs r).1 ≡ r
  unfolding input_from
  input_from_error s [] r e = refl
  input_from_error s (x ∷ xs) r e =
      ap (λ t. (input_from env (input_byte env s x).0 xs t).1)
        (keep_error r (input_byte env s x).1 e)
      ∙ input_from_error (input_byte env s x).0 xs r e

  input_from-append :
      (s : Shell W) (xs ys : Bytes) (r : Status)
      → input_from env s (xs ++ ys) r
        ≡ input_from env (input_from env s xs r).0 ys (input_from env s xs r).1
  unfolding input_from
  input_from-append s [] ys r = refl
  input_from-append s (x ∷ xs) ys r = input_from-append (input_byte env s x).0 xs ys _

  -- Input in two calls leaves the same shell as in one, and the one call returns the status of the
  -- first call if that is an error, else that of the second.
  pub input-append :
      (s : Shell W) (xs ys : Bytes)
      → ((input env s (xs ++ ys)).0 ≡ (input env (input env s xs).0 ys).0)
        × ((input env s (xs ++ ys)).1 ≡ (
            if is_ok (input env s xs).1
            then (input env (input env s xs).0 ys).1
            else (input env s xs).1))
  unfolding input
  input-append s xs ys =
      let r = (input_from env s xs ok).1 in
      let t = (input_from env s xs ok).0 in
      let whole = input_from-append s xs ys ok in
      (
        ap (λ p. p.0) whole ∙ input_from-state t ys r ok,
        ap (λ p. p.1) whole ∙ elim (Bool-cases (is_ok r)) [
          | inl e ↦ rw e (ap (λ q. (input_from env t ys q).1) (is_ok_sound r e))
          | inr e ↦ rw e (input_from_error t ys r e)
        ],
      )
