-- ===== src/Completion/Longest.antt =====
-- What `sh_complete_line_internal` of shell/src/sh_completion.c collects of the candidates: their
-- number, and the longest text that all of them begin with.
use portable_c_shell.Prelude.{
  ℕ, zero, suc, ◌≤◌, ◌<◌, Bool, true, ◌&&◌, Option, none, some, List, [], ◌∷◌, length, take, Bytes,
  has_prefix,
}
use portable_c_shell.State.{Shell, Env}
use portable_c_shell.Completion.Candidates.{Level, absent, present, level_candidate}
use portable_c_shell.Completion.Complete.{Matches, add_match, matching}

-- Whether all names begin with a text.
abbrev pub all_begin : List Bytes → Bytes → Bool
all_begin [] p = true
all_begin (name ∷ names) p = has_prefix name p && all_begin names p

-- Whether the common part of the matches so far begins with a text.
abbrev pub common_begins : Matches → Bytes → Bool
common_begins m p = has_prefix (take m.common_len m.first) p

-- The matches count their names, and the common part of them lies in the first.
record Common (m : Matches) : Type 0 where
  some_match : 0 < m.match_count
  within : m.common_len ≤ length m.first

-- The matches of a list of names.
abbrev pub gather : Matches → List Bytes → Matches
gather m [] = m
gather m (name ∷ names) = gather (add_match m name) names

module _ {W : Type 0} (env : Env W) (s : Shell W) (level : Level) (wanted : Bytes) where
  abbrev consed : Option Bytes → List Bytes → List Bytes
  consed none names = names
  consed (some name) names = name ∷ names

  -- The names among `left` candidates from number `i` on that begin with the prefix, in their order.
  abbrev pub found : ℕ → ℕ → List Bytes
  found zero i = []
  found (suc left) i =
      let later = found left (suc i) in
      elim (level_candidate env s level i) as (λ _. List Bytes) [
        | absent ↦ []
        | present name ↦ consed (matching wanted name) later
      ]
