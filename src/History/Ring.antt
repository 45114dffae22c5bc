-- ===== src/History/Ring.antt =====
-- The slots of the history ring in the order of their age, and what writing one slot does to it.
use native.Mathlib.Nat.{mod-lt, mod-eq_of_lt, mod-add-mod, mod-eq-sub-mod}
use native.Mathlib.Decide.{dec_lt}
use portable_c_shell.Prelude.{
  ℕ, zero, suc, ◌+◌, ◌-◌, ◌%◌, ◌<◌, List, [], ◌∷◌, ◌++◌, ◌≡◌, ◌≢◌, refl, sym, ap, ap₂, ◌∙◌, arith,
  length, get_or, set, get_or-set_self, get_or-set_ne, Bytes, c_string,
}

-- Fewer than `d` steps round the ring lead to another slot.
pub mod-ne_of_lt : (x j d : ℕ) → 0 < j → j < d → x % d ≢ (x + j) % d
mod-ne_of_lt x j d hj hd = elim (dec_lt (x % d + j) d) [
  | yes p ↦ omega (arith, mod-add-mod x d j, mod-eq_of_lt p)
  | no p ↦ omega (
    arith,
    mod-add-mod x d j,
    mod-lt x {m = d} (omega arith),
    mod-eq-sub-mod {n = x % d + j} {m = d} (omega arith),
    mod-eq_of_lt {n = x % d + j - d} {m = d} (omega (arith, mod-lt x {m = d} (omega arith))),
  )
]

module _ (d : ℕ) where
  -- The entries in `n` slots from the one that `a` falls on.
  abbrev pub window : List Bytes → ℕ → ℕ → List Bytes
  window slots a zero = []
  window slots a (suc n) = c_string (get_or slots (a % d) []) ∷ window slots (suc a) n

  pub length-window : (slots : List Bytes) (a n : ℕ) → length (window slots a n) ≡ n
  length-window slots a zero = refl
  length-window slots a (suc n) = ap suc (length-window slots (suc a) n)

  -- A window that starts past the end of the ring starts at its beginning.
  pub window-mod : (slots : List Bytes) (a n : ℕ) → window slots (a % d) n ≡ window slots a n
  window-mod slots a n = window-same slots n (a % d) a (mod-mod a)
    where
      mod-mod : (k : ℕ) → k % d % d ≡ k % d
      mod-mod k =
          ap (λ t. t % d) {x = k % d} {y = k % d + 0} (omega arith)
          ∙ mod-add-mod k d 0
          ∙ ap (λ t. t % d) (omega arith)

      window-same :
          (slots : List Bytes) (n a b : ℕ) → a % d ≡ b % d → window slots a n ≡ window slots b n
      window-same slots zero a b e = refl
      window-same slots (suc n) a b e =
          ap₂ (λ i t. c_string (get_or slots i []) ∷ t) e
            (window-same slots n (suc a) (suc b) (step a ∙ ap (λ t. (t + 1) % d) e ∙ sym (step b)))
        where
          step : (k : ℕ) → suc k % d ≡ (k % d + 1) % d
          step k = ap (λ t. t % d) {x = suc k} {y = k + 1} (omega arith) ∙ sym (mod-add-mod k d 1)

  -- Writing the slot behind a window adds its text to the window.
  pub window-set :
      (slots : List Bytes) (v : Bytes) (n a i : ℕ)
      → i ≡ (a + n) % d
      → i < length slots
      → n < d
      → window (set slots i v) a (suc n) ≡ window slots a n ++ (c_string v ∷ [])
  window-set slots v zero a i e inside h =
      ap (λ t. c_string t ∷ [])
        (ap (λ k. get_or (set slots i v) k []) (omega (arith, same))
          ∙ get_or-set_self slots i v [] inside)
    where
      same : a % d ≡ i
      same = ap (λ t. t % d) (omega arith) ∙ sym e
  window-set slots v (suc n) a i e inside h =
      ap₂ ◌∷◌ (ap c_string (get_or-set_ne slots v [] inside apart))
        (window-set slots v n (suc a) i (e ∙ ap (λ t. t % d) (omega arith)) inside (omega arith))
    where
      apart : i ≢ a % d
      apart p = mod-ne_of_lt a (suc n) d (omega arith) h (sym p ∙ e)
