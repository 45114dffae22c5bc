-- ===== src/Command/Validate/Find.antt =====
-- Every command of a table that registration accepts can be found by its name.
use portable_c_shell.Prelude.{
  ℕ, Bool, true, false, ◌||◌, Option, none, some, ◌≡◌, refl, sym, ap, ◌∙◌, arith, ◌⊎◌, inl, inr,
  Bytes, equal, equal_iff, Bool-cases, if◌then◌else◌,
}
use portable_c_shell.Status.{Status, ok, is_ok, is_ok_sound}
use portable_c_shell.State.{Cmd, cmd, info, table, Cmds, nil, cons, Shell}
use portable_c_shell.Command.Lookup.{find_child, find_root, is_named}
use portable_c_shell.Command.Validate.{
  validate_level, validate_entries, validate_entry, is_repeated, register_commands,
  is_bad_descriptor,
}

-- A command stands in a table.
abbrev pub StandsIn : Cmd → Cmds → Type 0
StandsIn c nil = ⊥
StandsIn c (cons d cs) = (c ≡ d) ⊎ StandsIn c cs

equal_refl : (name : Bytes) → equal name name ≡ true
equal_refl name = ground (arith, equal_iff name name)

or_true : (a b : Bool) → b ≡ true → (a || b) ≡ true
or_true true b h = refl
or_true false b h = h

-- A name that is not repeated is not the name of a later entry.
is_repeated-StandsIn :
    (name : Bytes) (c : Cmd) (cs : Cmds)
    → StandsIn c cs
    → (info c).name ≡ some name
    → is_repeated (some name) cs ≡ true
unfolding is_repeated
is_repeated-StandsIn name c nil here named = absurd here
is_repeated-StandsIn name c (cons d cs) (inl e) named =
    rw (sym (ap {A = Cmd} (λ d. (info d).name) e), named, equal_refl name) refl
is_repeated-StandsIn name c (cons d cs) (inr later) named =
    or_true _ _ (is_repeated-StandsIn name c cs later named)

-- An accepted entry has a name, which no later entry has, and the later entries are accepted.
accepted_entry :
    (c : Cmd) (cs : Cmds) (depth : ℕ) (root builtins : Bool)
    → validate_entry c cs depth root builtins ≡ ok
    → is_repeated (info c).name cs ≡ false
unfolding validate_entry
accepted_entry (cmd i t) cs depth root builtins h =
    elim (Bool-cases (is_bad_descriptor i t root builtins)) [
      | inl e ↦ absurd (ground (arith, h, e))
      | inr e ↦ elim (Bool-cases (is_repeated i.name cs)) [
        | inl f ↦ absurd (ground (arith, h, e, f))
        | inr f ↦ f
      ]
    ]

-- A name with no later entry of that name is unlike the name of each later entry.
unlike_later :
    (o : Option Bytes) (c : Cmd) (cs : Cmds) (name : Bytes)
    → is_repeated o cs ≡ false
    → StandsIn c cs
    → (info c).name ≡ some name
    → is_named o name ≡ false
unlike_later none c cs name fresh later named = refl
unlike_later (some n) c cs name fresh later named = elim (Bool-cases (equal n name)) [
  | inl e ↦ absurd (
      ground (
        arith,
        fresh,
        is_repeated-StandsIn n c cs later (named ∙ ap some (sym ((equal_iff n name).0 e))),
      ))
  | inr e ↦ e
]

both_ok : (a b : Status) → (if is_ok a then b else a) ≡ ok → (a ≡ ok) × (b ≡ ok)
both_ok a b h = elim (Bool-cases (is_ok a)) [
  | inl e ↦ (is_ok_sound a e, ground (arith, h, e))
  | inr e ↦ absurd (ground (arith, h, e))
]

-- In a table that the check accepts, looking up a name finds the entry that has it.
pub find_child-validated :
    (cs : Cmds) (c : Cmd) (name : Bytes) (depth : ℕ) (root builtins : Bool)
    → validate_entries cs depth root builtins ≡ ok
    → StandsIn c cs
    → (info c).name ≡ some name
    → find_child cs name ≡ some c
unfolding find_child validate_entries
find_child-validated nil c name depth root builtins h here named = absurd here
find_child-validated (cons d cs) c name depth root builtins h (inl e) named =
    rw (sym (ap {A = Cmd} (λ d. (info d).name) e), named, equal_refl name) (ap some (sym e))
find_child-validated (cons d cs) c name depth root builtins h (inr later) named =
    let (here_ok, later_ok) = both_ok (validate_entry d cs depth root builtins) _ h in
    rw
      (unlike_later (info d).name c cs name (accepted_entry d cs depth root builtins here_ok) later
        named)
      (find_child-validated cs c name depth root builtins later_ok later named)

-- If registration accepts a table, every command of it is what a lookup of its name from the root
-- finds.
pub register_commands-find_root :
    {W : Type 0} (s : Shell W) (cs : Cmds) (c : Cmd) (name : Bytes)
    → (register_commands s (table cs)).1 ≡ ok
    → StandsIn c cs
    → (info c).name ≡ some name
    → find_root (register_commands s (table cs)).0.roots name ≡ some c
unfolding register_commands find_root validate_level
register_commands-find_root s cs c name h here named =
    elim (Bool-cases (is_ok (validate_level (table cs) 1 true s.cfg.builtins_enabled))) [
      | inl e ↦ rw e (
          find_child-validated cs c name 1 true s.cfg.builtins_enabled (is_ok_sound _ e) here named)
      | inr e ↦ absurd (ground (arith, h, e))
    ]
