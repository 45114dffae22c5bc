-- ===== src/Ports/Freertos/RunCounters.antt =====
-- The counters over a run of the shell task, `sh_freertos_run` of
-- shell/ports/freertos/sh_port_freertos.c.
use portable_c_shell.Prelude.{
  Bool, true, false, List, [], ◌∷◌, length, ◌==◌, if◌then◌else◌, if-cases,
}
use portable_c_shell.Status
use portable_c_shell.State.{Shell, Env}
use portable_c_shell.Output.{prompt}
use portable_c_shell.Output.Emits.{prompt-Emits}
use portable_c_shell.Input.{input}
use portable_c_shell.Safety.{Sizes, IsShell, Trusted}
use portable_c_shell.Safety.Editing.{Emits-IsShell}
use portable_c_shell.Safety.Running.{input-IsShell}
use portable_c_shell.Ports.Over.{Backed, Backed-Keeps}
use portable_c_shell.Ports.Freertos.{Stats, Streams, FreertosPort, rx_from_isr, transport_write}
use portable_c_shell.Ports.Freertos.Task.{
  Event, request_stop_event, isr_event, Round, Run, returned, unfinished, happens, on_port,
  count_delivered, receive, run_loop, run, greeted, is_unfit,
}
use portable_c_shell.Ports.Freertos.Counters.{
  PortCounted, rx_error-Counted, delivered-Counted, rx_from_isr-Counted, transport_write-Counted,
}

module _ {Q : Type 0} (streams : Streams Q) (old : Stats) where
  happens-Counted :
      (p : FreertosPort Q) (events : List Event)
      → PortCounted streams old p
      → PortCounted streams old (happens streams p events)
  happens-Counted p [] h = h
  happens-Counted p (request_stop_event ∷ events) h =
      happens-Counted (record p { stop_requested = true }) events h
  happens-Counted p (isr_event bytes ∷ events) h =
      happens-Counted (rx_from_isr streams p bytes).0 events
        (rx_from_isr-Counted streams old p bytes h)

  module _ (z : Sizes) where
    -- A shell over the adapter that is well-formed, with counters that have not decreased.
    abbrev pub IsTask : Shell (FreertosPort Q) → Type 0
    IsTask s = IsShell z (Backed (transport_write streams) (PortCounted streams old)) s

    on_port-IsTask :
        (s : Shell (FreertosPort Q)) (p : FreertosPort Q)
        → IsTask s
        → PortCounted streams old p
        → IsTask (on_port streams s p)
    on_port-IsTask s p h counted = record {
      line_ok = h.line_ok;
      line_size = h.line_size;
      draft_ok = h.draft_ok;
      history_ok = h.history_ok;
      decoder_ok = h.decoder_ok;
      backed = (h.backed.0, counted);
    }

-- The shell that a run leaves.
abbrev pub left_by : {Q : Type 0} → Run Q → Shell (FreertosPort Q)
left_by (returned s st) = s
left_by (unfinished s) = s

module _ {Q : Type 0} (streams : Streams Q) (old : Stats) (env : Env (FreertosPort Q)) {z : Sizes}
    (trusted : Trusted z (Backed (transport_write streams) (PortCounted streams old)) env) where
  -- A run that leaves such a shell.
  abbrev Leaves : Run Q → Type 0
  Leaves r = IsTask streams old z (left_by r)

  run_loop-IsTask :
      (s : Shell (FreertosPort Q)) (rounds : List Round)
      → IsTask streams old z s
      → Leaves (run_loop streams env s rounds)
  unfolding run_loop receive
  run_loop-IsTask s [] h = h
  run_loop-IsTask s (round ∷ rounds) h =
      let p₁ = happens streams s.world round.before_test in
      let p' = happens streams p₁ round.during_receive in
      let (q, bytes) =
        streams.receive p'.kernel p'.config.read_chunk_size p'.config.read_timeout_ticks in
      let p₂ : FreertosPort Q = record p' { kernel = q } in
      let s' = on_port streams s (count_delivered streams p₂ (length bytes)) in
      let (s₃, status) = input env s' bytes in
      let c₁ = happens-Counted streams old s.world round.before_test h.backed.1 in
      let c₂ = happens-Counted streams old p₁ round.during_receive c₁ in
      let ok₂ = on_port-IsTask streams old z s p₂ h c₂ in
      let ok₃ : IsTask streams old z s₃ =
        input-IsShell
          (Backed-Keeps (transport_write streams) (PortCounted streams old)
            (transport_write-Counted streams old))
          env trusted s' bytes
          (on_port-IsTask streams old z s (count_delivered streams p₂ (length bytes)) h
            (delivered-Counted old p'.stats (length bytes) c₂)) in
      if-cases Leaves p₁.stop_requested _ _
        (λ e. on_port-IsTask streams old z s (record p₁ { running = false }) h c₁)
        (λ e.
          if-cases Leaves p'.stop_requested _ _
            (λ f. on_port-IsTask streams old z s (record p₂ { running = false }) h c₂)
            (λ f.
              if-cases Leaves (length bytes == 0) _ _
                (λ g. run_loop-IsTask (on_port streams s p₂) rounds ok₂)
                (λ g.
                  if-cases Leaves (Status.is_ok status) _ _ (λ k. run_loop-IsTask s₃ rounds ok₃)
                    (λ k.
                      on_port-IsTask streams old z s₃ _ ok₃
                        (rx_error-Counted old s₃.world.stats ok₃.backed.1)))))

  -- Whatever arrives, is typed and is sent during a run of the shell task, no counter of the adapter
  -- wraps or decreases, and the shell does not write behind its line buffer, its draft, its history
  -- slots or its decoder's array: these keep their sizes. The shell is well-formed over the transport
  -- of the adapter at the start, with counters in 32 bits, and the handlers keep both.
  pub run-IsTask :
      (installed : Bool) (s : Shell (FreertosPort Q)) (before : List Event) (rounds : List Round)
      → IsTask streams old z s
      → IsTask streams old z (left_by (run streams env installed s before rounds))
  unfolding run
  run-IsTask installed s before rounds h =
      let s₁ = on_port streams s (happens streams (record s.world { running = true }) before) in
      let ok₁ : IsTask streams old z s₁ =
        on_port-IsTask streams old z s _ h
          (happens-Counted streams old (record s.world { running = true }) before h.backed.1) in
      let keeps =
        Backed-Keeps (transport_write streams) (PortCounted streams old)
          (transport_write-Counted streams old) in
      let ready : IsTask streams old z (greeted streams s before) =
        if-cases (IsTask streams old z) s₁.world.stop_requested s₁ (prompt s₁) (λ e. ok₁)
          (λ e. Emits-IsShell keeps s₁ (prompt s₁) (prompt-Emits s₁) ok₁) in
      let loop = run_loop streams env (greeted streams s before) rounds in
      if-cases Leaves (is_unfit installed s.world.config) _
        (if s.world.running then returned s Status.err_busy else loop) (λ e. h)
        (λ e.
          if-cases Leaves s.world.running (returned s Status.err_busy) loop (λ f. h)
            (λ f. run_loop-IsTask (greeted streams s before) rounds ready))
