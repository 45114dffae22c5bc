-- ===== src/Execute/Kept.antt =====
-- Executing a line changes neither the line, the draft nor the configuration, if no handler does.
use portable_c_shell.Prelude.{
  ℕ, Option, none, some, List, ◌≡◌, refl, ap, ◌∙◌, Bytes, length, zero_fill, length-zero_fill,
  arith, subst, sym,
}
use portable_c_shell.State.{Shell, Line, Config, Env}
use portable_c_shell.History
use portable_c_shell.Output.Quiet.{Quiet, write-Quiet}
use portable_c_shell.Execute.{execute_line}
use portable_c_shell.Execute.Carries.{Carries, execute_line-Carries}

abbrev pub draft_size : Option Bytes → Option ℕ
draft_size none = none
draft_size (some d) = some (length d)

-- A draft that is there has the size `n`.
abbrev pub IsDraftOf : ℕ → Option Bytes → Type 0
IsDraftOf n none = Unit {0}
IsDraftOf n (some d) = length d ≡ n

pub same_size :
    (d d' : Option Bytes) (n : ℕ) → draft_size d' ≡ draft_size d → IsDraftOf n d → IsDraftOf n d'
same_size none none n e h = tt
same_size none (some b') n e h = absurd (ground (arith, e))
same_size (some b) none n e h = tt
same_size (some b) (some b') n e h = ground (arith, e, h)

wiped_size :
    (d : Option Bytes) (n : ℕ)
    → IsDraftOf n d
    → draft_size (elim d as (λ _. Option Bytes) [ none ↦ none | some b ↦ some (zero_fill b n) ])
      ≡ draft_size d
wiped_size none n h = refl
wiped_size (some b) n h = ap some (length-zero_fill b n (omega (arith, h)))

module _ {W : Type 0} where
  -- `s'` has the line and the configuration of `s`, and a draft of the same size.
  pub record Kept (s s' : Shell W) : Type 0 where
    pub line_is : s'.line ≡ s.line
    pub size_is : draft_size s'.draft ≡ draft_size s.draft
    pub cfg_is : s'.cfg ≡ s.cfg

  Kept-refl : (s : Shell W) → Kept s s
  Kept-refl s = record { line_is = refl; size_is = refl; cfg_is = refl }

  pub Kept-trans : (s t u : Shell W) → Kept s t → Kept t u → Kept s u
  Kept-trans s t u k l = record {
    line_is = l.line_is ∙ k.line_is;
    size_is = l.size_is ∙ k.size_is;
    cfg_is = l.cfg_is ∙ k.cfg_is;
  }

  pub Quiet-Kept : (s s' : Shell W) → Quiet s s' → Kept s s'
  Quiet-Kept s s' q = record {
    line_is = ap {A = Shell W} {B = Line} (λ t. t.line) q;
    size_is = ap {A = Shell W} {B = Option ℕ} (λ t. draft_size t.draft) q;
    cfg_is = ap {A = Shell W} {B = Config W} (λ t. t.cfg) q;
  }

  clear-Kept : (s : Shell W) → IsDraftOf s.line.capacity s.draft → Kept s (History.clear s)
  unfolding History.clear
  clear-Kept s sized = record {
    line_is = refl;
    size_is = wiped_size s.draft s.line.capacity sized;
    cfg_is = refl;
  }

module _ {W : Type 0} (env : Env W) where
  -- No handler changes the line, the configuration or the size of the draft.
  abbrev pub Discreet : Type 0
  Discreet =
      (key : ℕ) (s : Shell W) (args : List Bytes) (ctx : Option ℕ)
      → Kept s (env.handler key s args ctx).0

  -- What is kept of a shell whose draft has the size of its line.
  abbrev SizedKept : Shell W → Shell W → Type 0
  SizedKept s t = IsDraftOf s.line.capacity s.draft → Kept s t

  SizedKept-trans : (s t u : Shell W) → SizedKept s t → SizedKept t u → SizedKept s u
  SizedKept-trans s t u k l sized =
      let kept = k sized in
      Kept-trans s t u kept (
        l (
          same_size s.draft t.draft t.line.capacity kept.size_is
            (subst (λ m. IsDraftOf m.capacity s.draft) (sym kept.line_is) sized)))

  Kept-Carries : Discreet → Carries env SizedKept
  Kept-Carries discreet = record {
    carry_refl = λ s sized. Kept-refl s;
    carry_trans = SizedKept-trans;
    carry_write = λ s bytes sized. Quiet-Kept s _ (write-Quiet s bytes);
    carry_echo = λ s on sized. record { line_is = refl; size_is = refl; cfg_is = refl };
    carry_clear = clear-Kept;
    carry_add = λ s entry sized. record { line_is = refl; size_is = refl; cfg_is = refl };
    carry_handler = λ key s args ctx sized. discreet key s args ctx;
  }

  pub execute_line-Kept :
      Discreet
      → (s : Shell W) (line : Bytes) → IsDraftOf s.line.capacity s.draft
      → Kept s (execute_line env s line).0
  execute_line-Kept discreet s line sized =
      execute_line-Carries (Kept-Carries discreet) s line sized
