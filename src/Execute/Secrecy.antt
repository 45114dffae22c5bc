-- ===== src/Execute/Secrecy.antt =====
-- What the history keeps of a line with hidden arguments.
use portable_c_shell.Prelude.{
  ℕ, suc, Bool, true, ◌||◌, Option, none, some, List, [], ◌∷◌, ◌≡◌, refl, sym, ap, ap₂, ◌∙◌, inl,
  inr, ◌⊎◌, if◌then◌else◌, Bytes,
}
use portable_c_shell.State.{Shell}
use portable_c_shell.Command.Lookup.{Resolved, resolve}
use portable_c_shell.Display.{is_hidden}
use portable_c_shell.History
use portable_c_shell.Execute.{
  any_hidden, rebuild, is_unrecorded, history_line, record_line, append_token, hidden_text,
}

module _ (policy : Option (Bytes → ℕ → Bytes → Bool)) (r : Resolved) where
  -- Two argument lists, from argument `i` on, that differ in hidden arguments only.
  abbrev pub SameShown : ℕ → List Bytes → List Bytes → Type 0
  SameShown i [] [] = Unit {0}
  SameShown i [] (b ∷ bs) = ⊥
  SameShown i (a ∷ as₁) [] = ⊥
  SameShown i (a ∷ as₁) (b ∷ bs) =
      ((a ≡ b) ⊎ ((is_hidden policy r i a ≡ true) × (is_hidden policy r i b ≡ true)))
      × SameShown (suc i) as₁ bs

  any_hidden-SameShown :
      (i : ℕ) (args others : List Bytes)
      → SameShown i args others
      → any_hidden policy r i args ≡ any_hidden policy r i others
  unfolding any_hidden
  any_hidden-SameShown i [] [] same = refl
  any_hidden-SameShown i [] (b ∷ others) same = absurd same
  any_hidden-SameShown i (a ∷ args) [] same = absurd same
  any_hidden-SameShown i (a ∷ args) (b ∷ others) (inl e, same) =
      ap₂ (λ x t. is_hidden policy r i x || t) e (any_hidden-SameShown (suc i) args others same)
  any_hidden-SameShown i (a ∷ args) (b ∷ others) (inr (h, k), same) = rw (h, k) refl

  rebuild-SameShown :
      (i : ℕ) (args others : List Bytes) (out : Bytes)
      → SameShown i args others
      → rebuild policy r i args out ≡ rebuild policy r i others out
  unfolding rebuild
  rebuild-SameShown i [] [] out same = refl
  rebuild-SameShown i [] (b ∷ others) out same = absurd same
  rebuild-SameShown i (a ∷ args) [] out same = absurd same
  rebuild-SameShown i (a ∷ args) (b ∷ others) out (inl e, same) =
      ap
        (λ x.
          rebuild policy r (suc i) args
            (append_token out (if is_hidden policy r i x then hidden_text else x)))
        e
      ∙ rebuild-SameShown (suc i) args others _ same
  rebuild-SameShown i (a ∷ args) (b ∷ others) out (inr (h, k), same) =
      rw (h, k) (rebuild-SameShown (suc i) args others _ same)

  history_line-SameShown :
      (line other_line : Bytes) (args others : List Bytes)
      → SameShown 0 args others
      → any_hidden policy r 0 args ≡ true
      → history_line policy r line args ≡ history_line policy r other_line others
  unfolding history_line
  history_line-SameShown line other_line args others same hidden =
      rw (hidden, sym (any_hidden-SameShown 0 args others same) ∙ hidden)
        (ap (λ t. if is_unrecorded policy r then none else some t)
          (rebuild-SameShown 0 args others [] same))

-- Two lines that resolve to the same command and whose arguments differ in hidden ones only leave
-- the same shell behind when they are recorded, if some argument is hidden.
pub record_line-secret :
    {W : Type 0} (s : Shell W) (line other_line : Bytes) (args others : List Bytes)
    → resolve s.roots args ≡ resolve s.roots others
    → SameShown s.cfg.should_mask_arg (resolve s.roots args) 0 args others
    → any_hidden s.cfg.should_mask_arg (resolve s.roots args) 0 args ≡ true
    → record_line s line args ≡ record_line s other_line others
unfolding record_line
record_line-secret s line other_line args others same_command same hidden =
    ap (λ t. elim t [ none ↦ s | some entry ↦ record s { history = History.add s.history entry } ])
      (history_line-SameShown s.cfg.should_mask_arg (resolve s.roots args) line other_line args
          others same hidden
        ∙ ap (λ r. history_line s.cfg.should_mask_arg r other_line others) same_command)
