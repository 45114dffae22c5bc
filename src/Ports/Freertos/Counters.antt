-- ===== src/Ports/Freertos/Counters.antt =====
-- The counters of the FreeRTOS adapter, shell/ports/freertos/sh_port_freertos.c: they never wrap and
-- never decrease, and they account for every byte.
use portable_c_shell.Prelude.{
  ℕ, ◌+◌, ◌-◌, ◌^◌, ◌≤◌, ◌<◌, ◌↔◌, Bool, true, false, ◌≡◌, arith, Bytes, Bool-cases, inl, inr,
  length, ◌==◌, if◌then◌else◌,
}
use portable_c_shell.Ports.Over.{Stable}
use portable_c_shell.Ports.Freertos.{
  uint32_max, Stats, Streams, FreertosPort, counter_add, count_received, count_sent, size_minus,
  rx_from_isr, transport_write,
}

-- A counter has not decreased, and is still a 32-bit number.
abbrev pub Moved : ℕ → ℕ → Type 0
Moved old new = (old ≤ new) × (new ≤ uint32_max)

-- No counter has decreased, and all of them are 32-bit numbers.
abbrev pub Counted : Stats → Stats → Type 0
Counted old new =
    Moved old.rx_bytes_enqueued new.rx_bytes_enqueued
    × Moved old.rx_bytes_delivered new.rx_bytes_delivered
    × Moved old.rx_overflow_bytes new.rx_overflow_bytes
    × Moved old.rx_errors new.rx_errors
    × Moved old.tx_bytes_enqueued new.tx_bytes_enqueued
    × Moved old.tx_overflow_bytes new.tx_overflow_bytes
    × Moved old.tx_errors new.tx_errors

-- A 32-bit counter saturates.
counter_add-bounds :
    (current amount : ℕ)
    → current ≤ uint32_max
    → (current ≤ counter_add current amount) × (counter_add current amount ≤ uint32_max)
unfolding counter_add
counter_add-bounds current amount h = ground (arith, h)

-- Subtraction of `size_t` that does not wrap.
size_minus-le : (a b : ℕ) → b ≤ a → a < 2 ^ 64 → size_minus a b ≡ a - b
size_minus-le a b h k = omega (arith, h, k)

counter_add-Moved :
    (old current amount : ℕ) → Moved old current → Moved old (counter_add current amount)
counter_add-Moved old current amount h = omega (arith, h, counter_add-bounds current amount h.1)

if_counter_add-Moved :
    (b : Bool) (old current amount : ℕ)
    → Moved old current
    → Moved old (if b then current else counter_add current amount)
if_counter_add-Moved true old current amount h = h
if_counter_add-Moved false old current amount h = counter_add-Moved old current amount h

count_received-Counted :
    (old st : Stats) (len sent : ℕ) → Counted old st → Counted old (count_received st len sent)
count_received-Counted old st len sent (a, b, c, d, e, f, g) = (
  counter_add-Moved old.rx_bytes_enqueued st.rx_bytes_enqueued sent a,
  b,
  if_counter_add-Moved (sent == len) old.rx_overflow_bytes st.rx_overflow_bytes
      (size_minus len sent) c,
  d,
  e,
  f,
  g,
)

count_sent-Counted :
    (old st : Stats) (len sent : ℕ) → Counted old st → Counted old (count_sent st len sent)
count_sent-Counted old st len sent (a, b, c, d, e, f, g) = (
  a,
  b,
  c,
  d,
  counter_add-Moved old.tx_bytes_enqueued st.tx_bytes_enqueued sent e,
  if_counter_add-Moved (sent == len) old.tx_overflow_bytes st.tx_overflow_bytes
      (size_minus len sent) f,
  g,
)

pub rx_error-Counted :
    (old st : Stats)
    → Counted old st
    → Counted old (record st { rx_errors = counter_add st.rx_errors 1 })
rx_error-Counted old st (a, b, c, d, e, f, g) =
    (a, b, c, counter_add-Moved old.rx_errors st.rx_errors 1 d, e, f, g)

tx_error-Counted :
    (old st : Stats)
    → Counted old st
    → Counted old (record st { tx_errors = counter_add st.tx_errors 1 })
tx_error-Counted old st (a, b, c, d, e, f, g) =
    (a, b, c, d, e, f, counter_add-Moved old.tx_errors st.tx_errors 1 g)

pub delivered-Counted :
    (old st : Stats) (n : ℕ)
    → Counted old st
    → Counted old (record st { rx_bytes_delivered = counter_add st.rx_bytes_delivered n })
delivered-Counted old st n (a, b, c, d, e, f, g) =
    (a, counter_add-Moved old.rx_bytes_delivered st.rx_bytes_delivered n b, c, d, e, f, g)

module _ {Q : Type 0} (streams : Streams Q) (old : Stats) where
  abbrev pub PortCounted : FreertosPort Q → Type 0
  PortCounted p = Counted old p.stats

  pub rx_from_isr-Counted :
      (p : FreertosPort Q) (bytes : Bytes)
      → PortCounted p
      → PortCounted (rx_from_isr streams p bytes).0
  unfolding rx_from_isr
  rx_from_isr-Counted p bytes h =
      let (q, sent) = streams.send_from_isr p.kernel bytes in
      elim (Bool-cases p.config.rx_stream) [
        | inr e ↦ rw e (rx_error-Counted old p.stats h)
        | inl e ↦ elim (Bool-cases (length bytes == 0)) [
          | inl f ↦ rw (e, f) h
          | inr f ↦ rw (e, f) (count_received-Counted old p.stats (length bytes) sent h)
        ]
      ]

  pub transport_write-Counted : Stable (transport_write streams) PortCounted
  unfolding transport_write
  transport_write-Counted p bytes h =
      let (q, sent) = streams.send p.kernel bytes p.config.write_timeout_ticks in
      elim (Bool-cases p.config.tx_stream) [
        | inr e ↦ rw e (tx_error-Counted old p.stats h)
        | inl e ↦ elim (Bool-cases (length bytes == 0)) [
          | inl f ↦ rw (e, f) h
          | inr f ↦ rw (e, f) (count_sent-Counted old p.stats (length bytes) sent h)
        ]
      ]

-- Over a stream that takes no more than it is given, the receive interrupt accounts for every byte: the
-- bytes that it counts as enqueued and as overflow are together the bytes that it was given, and it
-- answers pdPASS exactly if none of them was lost. The adapter has its receive stream, and the counters
-- have room.
rx_from_isr_accounts :
    {Q : Type 0} (streams : Streams Q) (p : FreertosPort Q) (bytes : Bytes)
    → p.config.rx_stream ≡ true
    → (streams.send_from_isr p.kernel bytes).1 ≤ length bytes
    → p.stats.rx_bytes_enqueued + length bytes ≤ uint32_max
    → p.stats.rx_overflow_bytes + length bytes ≤ uint32_max
    → let (p', pass) = rx_from_isr streams p bytes in
      (p'.stats.rx_bytes_enqueued + p'.stats.rx_overflow_bytes
        ≡ p.stats.rx_bytes_enqueued + p.stats.rx_overflow_bytes + length bytes)
      × ((pass ≡ true) ↔ (p'.stats.rx_overflow_bytes ≡ p.stats.rx_overflow_bytes))
unfolding rx_from_isr counter_add
rx_from_isr_accounts streams p bytes there taken room room' =
    let (q, sent) = streams.send_from_isr p.kernel bytes in
    let minus = size_minus-le (length bytes) sent taken (omega (arith, room)) in
    rw there (ground (arith, minus, taken, room, room'))
