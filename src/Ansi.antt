-- ===== src/Ansi.antt =====
-- The incremental decoder of ANSI escape sequences, shell/src/sh_ansi.c and
-- shell/include/sh_ansi.h. The decoder pointer is never null here.
pub mod Feed
use portable_c_shell.Prelude.{
  ℕ, suc, ◌+◌, Bool, true, false, not, ◌&&◌, ◌||◌, List, get_or, set, replicate, length, ltb, leb,
  ◌==◌, if◌then◌else◌, Bytes,
}

-- `sh_ansi_event_t`; `none_event` is SH_ANSI_EVENT_NONE.
pub data Event : Type 0 where
  none_event up down left right home end delete : Event

-- The values of `decoder->state`.
pub data DecoderState : Type 0 where
  idle escape csi : DecoderState

-- SH_ANSI_CSI_MAX
abbrev pub csi_max : ℕ
csi_max = 8

-- `sh_ansi_decoder_t`; `csi_bytes` is the array `csi`.
pub record Decoder : Type 0 where
  pub state : DecoderState
  pub csi_length : ℕ
  pub csi_overflow : Bool
  pub last_byte_consumed : Bool
  pub csi_bytes : Bytes

abbrev pub esc : ℕ
esc = 0x1b

abbrev pub finish_sequence : Decoder → Decoder
finish_sequence d = record d { state = idle; csi_length = 0; csi_overflow = false }

abbrev pub is_final_byte : ℕ → Bool
is_final_byte byte = leb 0x40 byte && leb byte 0x7e

abbrev pub is_parameter_or_intermediate : ℕ → Bool
is_parameter_or_intermediate byte = leb 0x20 byte && leb byte 0x3f

-- The `switch` for a sequence with no parameter bytes.
abbrev pub plain_key : ℕ → Event
plain_key final =
    if final == b'A'
    then up
    else if final == b'B'
    then down
    else if final == b'C'
    then right
    else if final == b'D'
    then left
    else if final == b'H'
    then home
    else if final == b'F'
    then end
    else none_event

-- The `switch` for `ESC [ n ~`.
abbrev pub tilde_key : ℕ → Event
tilde_key parameter =
    if parameter == b'1'
    then home
    else if parameter == b'3'
    then delete
    else if parameter == b'4'
    then end
    else none_event

unfoldable pub decode_csi : Decoder → ℕ → Event
decode_csi d final =
    if d.csi_length == 0
    then plain_key final
    else if not (final == b'~') || not (d.csi_length == 1)
    then none_event
    else tilde_key (get_or d.csi_bytes 0 0)

abbrev pub reset : Decoder → Decoder
reset d = record d {
  state = idle;
  csi_length = 0;
  csi_overflow = false;
  last_byte_consumed = false;
}

-- The step in state SH_ANSI_STATE_IDLE.
abbrev feed_idle : Decoder → ℕ → Decoder × Event
feed_idle d byte =
    if byte == esc
    then (record d { state = escape; last_byte_consumed = true }, none_event)
    else (record d { last_byte_consumed = false }, none_event)

-- The step in state SH_ANSI_STATE_ESCAPE.
abbrev feed_escape : Decoder → ℕ → Decoder × Event
feed_escape d byte =
    if byte == b'['
    then (
      record d { state = csi; csi_length = 0; csi_overflow = false; last_byte_consumed = true },
      none_event,
    )
    else if not (byte == esc)
    then (record (finish_sequence d) { last_byte_consumed = false }, none_event)
    else (record d { last_byte_consumed = true }, none_event)

-- The step in state SH_ANSI_STATE_CSI; `last_byte_consumed` is set already.
feed_csi : Decoder → ℕ → Decoder × Event
unfolding decode_csi
feed_csi d byte =
    if byte == esc
    then (record d { state = escape; csi_length = 0; csi_overflow = false }, none_event)
    else if is_final_byte byte
    then (finish_sequence d, if d.csi_overflow then none_event else decode_csi d byte)
    else if not (is_parameter_or_intermediate byte)
    then (finish_sequence d, none_event)
    else if ltb d.csi_length csi_max
    then (
      record d { csi_bytes = set d.csi_bytes d.csi_length byte; csi_length = d.csi_length + 1 },
      none_event,
    )
    else (record d { csi_overflow = true }, none_event)

abbrev feed_in : DecoderState → Decoder → ℕ → Decoder × Event
feed_in idle d byte = feed_idle d byte
feed_in escape d byte = feed_escape d byte
feed_in csi d byte = feed_csi (record d { last_byte_consumed = true }) byte

unfoldable pub feed : Decoder → ℕ → Decoder × Event
unfolding feed_csi
feed d byte = feed_in d.state d byte

abbrev pub is_active : Decoder → Bool
is_active d = elim d.state [ idle ↦ false | _ ↦ true ]
