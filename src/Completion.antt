-- ===== src/Completion.antt =====
-- Tab completion, shell/src/sh_completion.c: the candidates of a level, the search for matches,
-- and what is done with them.
pub mod Candidates
pub mod Complete
pub mod Replace
pub mod Longest
