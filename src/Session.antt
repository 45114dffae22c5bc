-- ===== src/Session.antt =====
-- The life of a shell, shell/src/sh_shell.c: `sh_default_config`, `sh_init`, `sh_init_static`,
-- `sh_start`, `sh_stop` and `sh_set_echo_enabled`.
pub mod Fresh
use portable_c_shell.Prelude.{
  ℕ, zero, suc, ◌+◌, ◌-◌, Bool, true, false, not, ◌&&◌, ◌||◌, Option, none, some, List, [], ◌∷◌,
  length, set, ltb, leb, ◌==◌, if◌then◌else◌, Bytes, text, replicate,
}
use portable_c_shell.Status.{Status, ok, err_invalid_arg, err_invalid_config, err_busy, is_ok}
use portable_c_shell.Ansi
use portable_c_shell.Ansi.{Decoder, csi_max}
use portable_c_shell.State.{
  Shell, Config, Line, History, View, draft_view, flat, null, max_line_len, max_argc,
}
use portable_c_shell.Output.{write, flush, prompt_text}

-- What `sh_init` is given, `sh_storage_t`: buffers that may be null, and their sizes. The history
-- buffer comes as its slots of `history_slot_size` bytes.
pub record Storage : Type 0 where
  pub line_buffer : Option Bytes
  pub line_buffer_size : ℕ
  pub argv_buffer : Bool
  pub argv_capacity : ℕ
  pub history_buffer : Option (List Bytes)
  pub history_capacity : ℕ
  pub history_slot_size : ℕ
  pub draft_buffer : Option Bytes
  pub draft_buffer_size : ℕ

abbrev pub is_null {ℓ} : {A : Type ℓ} → Option A → Bool
is_null none = true
is_null (some a) = false

-- `sh_ansi_init` on a decoder that `memset` cleared.
abbrev pub fresh_decoder : Decoder
fresh_decoder = record {
  state = Ansi.idle;
  csi_length = 0;
  csi_overflow = false;
  last_byte_consumed = false;
  csi_bytes = replicate csi_max 0;
}

abbrev pub or_default : ℕ → ℕ → ℕ
or_default n default = if n == 0 then default else n

-- What an initialisation answers: a shell, or a status with the shell left as it was.
pub data Init (W : Type 0) : Type 0 where
  created : Shell W → Init W
  refused : Status → Init W

module _ {W : Type 0} where
  -- `sh_default_config`
  abbrev pub default_config : Config W
  default_config = record {
    prompt = some (text "sh> ");
    line_max = max_line_len;
    argc_max = max_argc;
    history_depth = 16;
    echo_enabled = true;
    ansi_enabled = true;
    builtins_enabled = true;
    secure_clear_enabled = true;
    write = none;
    transport = none;
    transport_write_attempts = 8;
    user_ctx = none;
    should_mask_arg = none;
  }

  -- The local configuration of `sh_init`: the defaults, or the given one with its gaps filled.
  abbrev pub complete_config : Option (Config W) → Storage → Config W
  complete_config none st = default_config
  complete_config (some c) st = record c {
    prompt = some (prompt_text c.prompt);
    line_max = or_default c.line_max (st.line_buffer_size - 1);
    argc_max = or_default c.argc_max st.argv_capacity;
    transport_write_attempts = or_default c.transport_write_attempts 8;
  }

  -- The three tests of `sh_init` that end in SH_ERR_INVALID_CONFIG.
  abbrev pub is_bad_size : Config W → Storage → Bool
  is_bad_size c st =
      c.line_max == 0
      || ltb max_line_len c.line_max
      || leb st.line_buffer_size c.line_max
      || c.argc_max == 0
      || ltb max_argc c.argc_max
      || ltb st.argv_capacity c.argc_max

  abbrev pub is_bad_history : Config W → Storage → Bool
  is_bad_history c st =
      not (c.history_depth == 0)
      && (is_null st.history_buffer
          || leb st.history_slot_size c.line_max
          || is_null st.draft_buffer
          || leb st.draft_buffer_size c.line_max)

  -- The shell that `sh_init` sets up.
  abbrev pub initial : W → Config W → Storage → Bytes → Shell W
  initial w c st buffer = record {
    cfg = c;
    roots = flat (null 0);
    line = record { buffer = set buffer 0 0; capacity = c.line_max + 1; len = 0; cursor = 0 };
    argv_capacity = c.argc_max;
    history = record {
      storage = st.history_buffer;
      depth = c.history_depth;
      slot_size = st.history_slot_size;
      entry_count = 0;
      start = 0;
    };
    history_view = draft_view;
    draft = elim st.draft_buffer [ none ↦ none | some d ↦ some (set d 0 0) ];
    echo_enabled = c.echo_enabled;
    started = false;
    ansi = fresh_decoder;
    last_input_was_cr = false;
    world = w;
  }

  unfoldable pub init_with : W → Config W → Storage → Bytes → Init W
  init_with w c st buffer =
      if is_bad_size c st
      then refused err_invalid_config
      else if ltb st.history_capacity c.history_depth
      then refused err_invalid_config
      else if is_bad_history c st
      then refused err_invalid_config
      else created (initial w c st buffer)

  -- `sh_init`, also `sh_init_static`; `w` is the backend that the callbacks write to.
  unfoldable pub init : W → Option (Config W) → Storage → Init W
  unfolding init_with
  init w config st = elim st.line_buffer [
    | none ↦ refused err_invalid_arg
    | some buffer ↦
        if st.line_buffer_size == 0 || not st.argv_buffer || st.argv_capacity == 0
        then refused err_invalid_arg
        else init_with w (complete_config config st) st buffer
  ]

  -- `sh_start`
  unfoldable pub start : Shell W → Shell W × Status
  start s =
      let (s', status) = write (record s { started = true }) (prompt_text s.cfg.prompt) in
      if s.started
      then (s, err_busy)
      else (record s' { started = if is_ok status then s'.started else false }, status)

  -- `sh_stop`
  unfoldable pub stop : Shell W → Shell W × Status
  stop s = flush (record s { started = false; ansi = Ansi.reset s.ansi })

  -- `sh_set_echo_enabled`
  abbrev pub set_echo_enabled : Shell W → Bool → Shell W
  set_echo_enabled s enabled = record s { echo_enabled = enabled }
