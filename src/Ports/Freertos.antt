-- ===== src/Ports/Freertos.antt =====
-- The FreeRTOS adapter, shell/ports/freertos: the counters, the receive
-- interrupt and the transport. The stream buffers are parameters over the state `Q` of the kernel; a
-- critical section is one step.
pub mod Task
pub mod Counters
pub mod RunCounters
pub mod Loop
use portable_c_shell.Prelude.{
  ℕ, suc, ◌+◌, ◌-◌, ◌%◌, ◌^◌, Bool, true, false, not, ◌&&◌, ◌||◌, Option, none, some, List, [], ◌∷◌,
  length, ltb, leb, ◌==◌, if◌then◌else◌, Bytes,
}
use portable_c_shell.Status
use portable_c_shell.Status.{Status}
use portable_c_shell.Transport
use portable_c_shell.Transport.{Transport, TransportStatus}
use portable_c_shell.State.{Shell, Env}
use portable_c_shell.Output.{prompt}
use portable_c_shell.Input.{input}

-- SH_FREERTOS_MAX_READ_CHUNK, UINT32_MAX, and portMAX_DELAY of a kernel with 32-bit ticks
abbrev pub max_read_chunk : ℕ
max_read_chunk = 64

abbrev pub uint32_max : ℕ
uint32_max = 2 ^ 32 - 1

abbrev pub max_delay : ℕ
max_delay = 2 ^ 32 - 1

-- `sh_freertos_config_t`; a stream that is there or null.
pub record FreertosConfig : Type 0 where
  pub rx_stream : Bool
  pub tx_stream : Bool
  pub read_timeout_ticks : ℕ
  pub write_timeout_ticks : ℕ
  pub read_chunk_size : ℕ

-- `sh_freertos_stats_t`
pub record Stats : Type 0 where
  pub rx_bytes_enqueued : ℕ
  pub rx_bytes_delivered : ℕ
  pub rx_overflow_bytes : ℕ
  pub rx_errors : ℕ
  pub tx_bytes_enqueued : ℕ
  pub tx_overflow_bytes : ℕ
  pub tx_errors : ℕ

abbrev pub no_stats : Stats
no_stats = record {
  rx_bytes_enqueued = 0;
  rx_bytes_delivered = 0;
  rx_overflow_bytes = 0;
  rx_errors = 0;
  tx_bytes_enqueued = 0;
  tx_overflow_bytes = 0;
  tx_errors = 0;
}

-- The stream-buffer calls of the kernel: `xStreamBufferReceive` for at most a number of bytes,
-- `xStreamBufferSend`, and `xStreamBufferSendFromISR` without the flag of the woken task.
pub record Streams (Q : Type 0) : Type 0 where
  pub receive : Q → ℕ → ℕ → Q × Bytes
  pub send : Q → Bytes → ℕ → Q × ℕ
  pub send_from_isr : Q → Bytes → Q × ℕ

-- `sh_freertos_port_t` with the kernel behind its streams. It is the state of the output backend of
-- the shell.
pub record FreertosPort (Q : Type 0) : Type 0 where
  pub config : FreertosConfig
  pub stats : Stats
  pub running : Bool
  pub stop_requested : Bool
  pub kernel : Q

-- `counter_add`
unfoldable pub counter_add : ℕ → ℕ → ℕ
counter_add current amount =
    if amount == 0
    then current
    else if ltb (uint32_max - current) amount
    then uint32_max
    else current + amount

-- `sh_freertos_init`: the adapter, or SH_ERR_INVALID_CONFIG.
unfoldable pub freertos_init : {Q : Type 0} → Option FreertosConfig → Q → Option (FreertosPort Q)
freertos_init none q = none
freertos_init (some c) q =
    if not c.rx_stream
      || not c.tx_stream
      || c.read_timeout_ticks == 0
      || c.read_timeout_ticks == max_delay
      || c.read_chunk_size == 0
      || ltb max_read_chunk c.read_chunk_size
    then none
    else some (record {
      config = c;
      stats = no_stats;
      running = false;
      stop_requested = false;
      kernel = q;
    })

-- Subtraction of `size_t`.
abbrev pub size_minus : ℕ → ℕ → ℕ
size_minus a b = (a + 2 ^ 64 - b) % 2 ^ 64

-- The counts of a send of `len` bytes of which `sent` were taken, on either stream.
abbrev pub count_received : Stats → ℕ → ℕ → Stats
count_received st len sent = record st {
  rx_bytes_enqueued = counter_add st.rx_bytes_enqueued sent;
  rx_overflow_bytes =
      if sent == len
      then st.rx_overflow_bytes
      else counter_add st.rx_overflow_bytes (size_minus len sent);
}

abbrev pub count_sent : Stats → ℕ → ℕ → Stats
count_sent st len sent = record st {
  tx_bytes_enqueued = counter_add st.tx_bytes_enqueued sent;
  tx_overflow_bytes =
      if sent == len
      then st.tx_overflow_bytes
      else counter_add st.tx_overflow_bytes (size_minus len sent);
}

module _ {Q : Type 0} where
  -- `sh_freertos_request_stop`
  abbrev pub request_stop : FreertosPort Q → FreertosPort Q
  request_stop p = record p { stop_requested = true }

  -- `sh_freertos_clear_stop`
  abbrev pub clear_stop : FreertosPort Q → FreertosPort Q × Status
  clear_stop p =
      if p.running then (p, Status.err_busy) else (record p { stop_requested = false }, Status.ok)

  -- `sh_freertos_reset_stats`
  abbrev pub reset_stats : FreertosPort Q → FreertosPort Q × Status
  reset_stats p =
      if p.running then (p, Status.err_busy) else (record p { stats = no_stats }, Status.ok)

module _ {Q : Type 0} (streams : Streams Q) where
  -- `sh_freertos_rx_from_isr` with data: the adapter, and whether it answers pdPASS.
  unfoldable pub rx_from_isr : FreertosPort Q → Bytes → FreertosPort Q × Bool
  rx_from_isr p bytes =
      let (q, sent) = streams.send_from_isr p.kernel bytes in
      if not p.config.rx_stream
      then (
        record p { stats = record p.stats { rx_errors = counter_add p.stats.rx_errors 1 } },
        false,
      )
      else if length bytes == 0
      then (p, true)
      else (
        record p { kernel = q; stats = count_received p.stats (length bytes) sent },
        sent == length bytes,
      )

  -- `sh_freertos_transport_write` with data
  unfoldable pub transport_write : FreertosPort Q → Bytes → FreertosPort Q × TransportStatus × ℕ
  transport_write p bytes =
      let (q, sent) = streams.send p.kernel bytes p.config.write_timeout_ticks in
      if not p.config.tx_stream
      then (
        record p { stats = record p.stats { tx_errors = counter_add p.stats.tx_errors 1 } },
        Transport.err_invalid_argument,
        0,
      )
      else if length bytes == 0
      then (p, Transport.ok, 0)
      else (
        record p { kernel = q; stats = count_sent p.stats (length bytes) sent },
        if sent == length bytes then Transport.ok else Transport.would_block,
        sent,
      )

  -- `sh_freertos_transport`
  abbrev pub freertos_transport : Transport (FreertosPort Q)
  freertos_transport = record { write = some transport_write; flush = none }
