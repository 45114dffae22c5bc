-- ===== src/Ports/Freertos/Task.antt =====
-- The shell task, `sh_freertos_run` of shell/ports/freertos/sh_port_freertos.c. What other tasks and
-- interrupts do between two steps of its loop is a list of events.
use portable_c_shell.Prelude.{
  ℕ, Bool, true, false, not, ◌||◌, List, [], ◌∷◌, length, ltb, ◌==◌, if◌then◌else◌, Bytes,
}
use portable_c_shell.Status
use portable_c_shell.Status.{Status}
use portable_c_shell.State.{Shell, Env}
use portable_c_shell.Output.{prompt}
use portable_c_shell.Input.{input}
use portable_c_shell.Ports.Freertos.{
  max_read_chunk, FreertosConfig, FreertosPort, Streams, counter_add, request_stop, rx_from_isr,
}

-- What other tasks and interrupts may do while the loop runs.
pub data Event : Type 0 where
  request_stop_event : Event
  isr_event : Bytes → Event

-- One round of the loop: what happens before its test, and what happens during its receive call.
pub record Round : Type 0 where
  pub before_test : List Event
  pub during_receive : List Event

-- A run that has returned, or that has used up the rounds.
pub data Run (Q : Type 0) : Type 0 where
  returned : Shell (FreertosPort Q) → Status → Run Q
  unfinished : Shell (FreertosPort Q) → Run Q

-- The first test of `sh_freertos_run`.
abbrev pub is_unfit : Bool → FreertosConfig → Bool
is_unfit installed c =
    not c.rx_stream
    || not c.tx_stream
    || c.read_chunk_size == 0
    || ltb max_read_chunk c.read_chunk_size
    || not installed

module _ {Q : Type 0} (streams : Streams Q) where
  -- What happens between two steps of the loop.
  abbrev pub happens : FreertosPort Q → List Event → FreertosPort Q
  happens p [] = p
  happens p (request_stop_event ∷ events) = happens (request_stop p) events
  happens p (isr_event bytes ∷ events) = happens (rx_from_isr streams p bytes).0 events

  abbrev pub on_port : Shell (FreertosPort Q) → FreertosPort Q → Shell (FreertosPort Q)
  on_port s p = record s { world = p }

  -- The loop leaves: `running` is cleared.
  abbrev pub leave : Shell (FreertosPort Q) → Shell (FreertosPort Q)
  leave s = on_port s (record s.world { running = false })

  abbrev pub count_delivered : FreertosPort Q → ℕ → FreertosPort Q
  count_delivered p n = record p {
    stats = record p.stats { rx_bytes_delivered = counter_add p.stats.rx_bytes_delivered n };
  }

  abbrev pub count_rx_error : FreertosPort Q → FreertosPort Q
  count_rx_error p = record p {
    stats = record p.stats { rx_errors = counter_add p.stats.rx_errors 1 };
  }

  -- The receive call of a round, with what happens during it, and the bytes that it returns.
  unfoldable pub receive : FreertosPort Q → List Event → FreertosPort Q × Bytes
  receive p events =
      let p' = happens p events in
      let (q, bytes) =
        streams.receive p'.kernel p'.config.read_chunk_size p'.config.read_timeout_ticks in
      (record p' { kernel = q }, bytes)

  module _ (env : Env (FreertosPort Q)) where
    -- The loop of `sh_freertos_run`, round by round.
    unfoldable pub run_loop : Shell (FreertosPort Q) → List Round → Run Q
    run_loop s [] = unfinished s
    run_loop s (round ∷ rounds) =
        let s₁ = on_port s (happens s.world round.before_test) in
        let (p₂, bytes) = receive s₁.world round.during_receive in
        let s₂ = on_port s₁ p₂ in
        let (s₃, status) = input env (on_port s₂ (count_delivered p₂ (length bytes))) bytes in
        let quiet = run_loop s₂ rounds in
        let fed = run_loop s₃ rounds in
        if s₁.world.stop_requested
        then returned (leave s₁) Status.ok
        else if p₂.stop_requested
        then returned (leave s₂) Status.ok
        else if length bytes == 0
        then quiet
        else if Status.is_ok status
        then fed
        else returned (leave (on_port s₃ (count_rx_error s₃.world))) status

  -- The first prompt, unless a stop has been requested by then.
  abbrev pub greeted : Shell (FreertosPort Q) → List Event → Shell (FreertosPort Q)
  greeted s before =
      let s₁ = on_port s (happens (record s.world { running = true }) before) in
      if s₁.world.stop_requested then s₁ else prompt s₁

  -- `sh_freertos_run`; `installed` tells whether the shell has the transport of the adapter.
  unfoldable pub run :
      Env (FreertosPort Q) → Bool → Shell (FreertosPort Q) → List Event → List Round → Run Q
  run env installed s before rounds =
      if is_unfit installed s.world.config
      then returned s Status.err_invalid_config
      else if s.world.running
      then returned s Status.err_busy
      else run_loop env (greeted s before) rounds
