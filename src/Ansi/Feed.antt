-- ===== src/Ansi/Feed.antt =====
-- What the decoder makes of whole sequences, and which bytes it leaves to the editor.
use portable_c_shell.Prelude.{
  ℕ, ◌≤◌, ◌<◌, min, true, false, List, [], ◌∷◌, ◌++◌, ◌≡◌, ◌≢◌, refl, sym, ap, ap₂, ◌∙◌, arith,
  append-nil, append_assoc, length, length-append, length-set, get_or, get_or-set_self,
  get_or-set_ne, replicate, ltb, ◌==◌, if◌then◌else◌, Bytes,
}
use portable_c_shell.Ansi.{
  Event, none_event, idle, csi, csi_max, Decoder, esc, is_final_byte, is_parameter_or_intermediate,
  plain_key, tilde_key, decode_csi, feed_csi, feed,
}

-- The array has its size, and `csi_length` stays inside it.
pub record IsDecoder (d : Decoder) : Type 0 where
  pub sized : length d.csi_bytes ≡ csi_max
  pub within : d.csi_length ≤ csi_max

-- From a decoder whose array has SH_ANSI_CSI_MAX bytes and whose count is at most that, no byte is
-- written behind the array, which would make it longer, and the count stays in its bound.
pub feed-IsDecoder : (d : Decoder) (byte : ℕ) → IsDecoder d → IsDecoder (feed d byte).0
unfolding feed feed_csi
feed-IsDecoder d byte v = ground (arith, length-set d.csi_bytes d.csi_length byte)

-- A byte that the decoder does not consume comes with no event, is not ESC, and leaves the decoder
-- idle.
pub feed_unconsumed :
    (d : Decoder) (byte : ℕ)
    → (feed d byte).0.last_byte_consumed ≡ false
    → ((feed d byte).1 ≡ none_event) × ((feed d byte).0.state ≡ idle) × (byte ≢ esc)
unfolding feed feed_csi
feed_unconsumed d byte h = ground arith

-- An idle decoder leaves every byte but ESC to the editor.
pub feed_idle_passes :
    (d : Decoder) (byte : ℕ)
    → d.state ≡ idle
    → byte ≢ esc
    → ((feed d byte).0.last_byte_consumed ≡ false)
      × ((feed d byte).1 ≡ none_event)
      × ((feed d byte).0.state ≡ idle)
unfolding feed feed_csi
feed_idle_passes d byte h ne = ground arith

-- The decoder after some bytes, and the events on the way.
abbrev pub feed_bytes : Decoder → Bytes → Decoder
feed_bytes d [] = d
feed_bytes d (b ∷ bytes) = feed_bytes (feed d b).0 bytes

abbrev pub events : Decoder → Bytes → List Event
events d [] = []
events d (b ∷ bytes) = (feed d b).1 ∷ events (feed d b).0 bytes

abbrev pub AllParameters : Bytes → Type 0
AllParameters [] = Unit {0}
AllParameters (p ∷ ps) = (is_parameter_or_intermediate p ≡ true) × AllParameters ps

-- The key that `ESC [ parameters final` stands for.
abbrev pub key_of : Bytes → ℕ → Event
key_of [] final = plain_key final
key_of (p ∷ []) final = if final == b'~' then tilde_key p else none_event
key_of (p ∷ q ∷ ps) final = none_event

-- The decoder has read `ESC [` and the parameters `ps`.
record InCsi (d : Decoder) (ps : Bytes) : Type 0 where
  in_csi : d.state ≡ csi
  counted : d.csi_length ≡ min csi_max (length ps)
  overflow : d.csi_overflow ≡ ltb csi_max (length ps)
  sized : length d.csi_bytes ≡ csi_max
  first : 0 < length ps → get_or d.csi_bytes 0 0 ≡ get_or ps 0 0

get_or-append_front : (ps qs : Bytes) → 0 < length ps → get_or (ps ++ qs) 0 0 ≡ get_or ps 0 0
get_or-append_front [] qs h = absurd (omega arith)
get_or-append_front (p ∷ ps) qs h = refl

feed_parameter :
    (d : Decoder) (ps : Bytes) (p : ℕ)
    → InCsi d ps
    → is_parameter_or_intermediate p ≡ true
    → InCsi (feed d p).0 (ps ++ p ∷ []) × ((feed d p).1 ≡ none_event)
unfolding feed feed_csi
feed_parameter d [] p c h =
    ground (arith, length-set d.csi_bytes d.csi_length p, get_or-set_self d.csi_bytes 0 p 0)
feed_parameter d (q ∷ ps) p c h = ground (
  arith,
  length-append ps (p ∷ []),
  length-set d.csi_bytes d.csi_length p,
  λ (h : d.csi_length < length d.csi_bytes).
      get_or-set_ne d.csi_bytes {i = d.csi_length} {j = 0} p 0 h (omega (arith, c.counted)),
)

feed_final :
    (d : Decoder) (ps : Bytes) (final : ℕ)
    → InCsi d ps
    → is_final_byte final ≡ true
    → ((feed d final).1 ≡ key_of ps final) × ((feed d final).0.state ≡ idle)
unfolding feed feed_csi decode_csi
feed_final d [] final c h = ground arith
feed_final d (p ∷ []) final c h = ground arith
feed_final d (p ∷ q ∷ ps) final c h = ground arith

feed_start :
    (d : Decoder)
    → IsDecoder d
    → InCsi (feed_bytes d (esc ∷ b'[' ∷ [])) []
      × (events d (esc ∷ b'[' ∷ []) ≡ none_event ∷ none_event ∷ [])
unfolding feed feed_csi
feed_start d v = ground arith

-- From `ESC [` on, whatever the parameters.
feed_rest :
    (d : Decoder) (before ps : Bytes) (final : ℕ)
    → InCsi d before
    → AllParameters ps
    → is_final_byte final ≡ true
    → (events d (ps ++ final ∷ [])
        ≡ replicate (length ps) none_event ++ key_of (before ++ ps) final ∷ [])
      × ((feed_bytes d (ps ++ final ∷ [])).state ≡ idle)
feed_rest d before [] final c h k =
    let (e, i) = feed_final d before final c k in
    (ap (λ x. x ∷ []) (e ∙ ap (λ t. key_of t final) (sym (append-nil before))), i)
feed_rest d before (p ∷ ps) final c h k =
    let (c', e) = feed_parameter d before p c h.0 in
    let (later, i) = feed_rest (feed d p).0 (before ++ p ∷ []) ps final c' h.1 k in
    (
      ap₂ ◌∷◌ e (
          later
          ∙ ap (λ t. replicate (length ps) none_event ++ key_of t final ∷ [])
              (append_assoc before (p ∷ []) ps)),
      i,
    )

-- From every well-formed decoder, a complete sequence `ESC [ parameters final` gives no event at
-- its earlier bytes and that of its key at its last, and leaves the decoder idle.
pub feed_sequence :
    (d : Decoder) (ps : Bytes) (final : ℕ)
    → IsDecoder d
    → AllParameters ps
    → is_final_byte final ≡ true
    → (events d (esc ∷ b'[' ∷ (ps ++ final ∷ []))
        ≡ none_event ∷ none_event ∷ (replicate (length ps) none_event ++ key_of ps final ∷ []))
      × ((feed_bytes d (esc ∷ b'[' ∷ (ps ++ final ∷ []))).state ≡ idle)
feed_sequence d ps final v h k =
    let (c, e) = feed_start d v in
    let (later, i) = feed_rest (feed_bytes d (esc ∷ b'[' ∷ [])) [] ps final c h k in
    (ap₂ (λ x l. x ++ l) e later, i)
