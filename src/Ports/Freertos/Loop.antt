-- ===== src/Ports/Freertos/Loop.antt =====
-- The loop of the shell task, `sh_freertos_run` of shell/ports/freertos/sh_port_freertos.c.
use portable_c_shell.Prelude.{
  Bool, true, false, ◌||◌, List, [], ◌∷◌, ◌≡◌, refl, ◌∙◌, arith, Bytes, Bool-cases, inl, inr,
  length, ◌==◌, if◌then◌else◌, if-cases,
}
use portable_c_shell.Status
use portable_c_shell.Status.{Status}
use portable_c_shell.State.{Shell, Env}
use portable_c_shell.Input.{input}
use portable_c_shell.Ports.Freertos.{Streams, FreertosPort, rx_from_isr}
use portable_c_shell.Ports.Freertos.Task.{
  Event, request_stop_event, isr_event, Round, Run, returned, unfinished, happens, on_port, receive,
  run_loop, run, greeted, is_unfit, count_delivered,
}

abbrev requests : List Event → Bool
requests [] = false
requests (request_stop_event ∷ events) = true
requests (isr_event bytes ∷ events) = requests events

-- A stop is requested in one of the rounds, before its test or during its receive call.
abbrev pub stops : List Round → Bool
stops [] = false
stops (round ∷ rounds) = requests round.before_test || requests round.during_receive || stops rounds

-- The run has returned, and the adapter is free again.
abbrev pub Released : {Q : Type 0} → Run Q → Type 0
Released (returned s st) = s.world.running ≡ false
Released (unfinished s) = false ≡ true

module _ {Q : Type 0} (streams : Streams Q) where
  rx_from_isr-stop :
      (p : FreertosPort Q) (bytes : Bytes)
      → (rx_from_isr streams p bytes).0.stop_requested ≡ p.stop_requested
  unfolding rx_from_isr
  rx_from_isr-stop p bytes = ground arith

  -- A stop that is requested stays requested while the loop does nothing.
  happens-stop :
      (p : FreertosPort Q) (events : List Event)
      → p.stop_requested ≡ true
      → (happens streams p events).stop_requested ≡ true
  happens-stop p [] h = h
  happens-stop p (request_stop_event ∷ events) h =
      happens-stop (record p { stop_requested = true }) events refl
  happens-stop p (isr_event bytes ∷ events) h =
      happens-stop (rx_from_isr streams p bytes).0 events (rx_from_isr-stop p bytes ∙ h)

  happens_requested :
      (p : FreertosPort Q) (events : List Event)
      → requests events ≡ true
      → (happens streams p events).stop_requested ≡ true
  happens_requested p [] h = ground (arith, h)
  happens_requested p (request_stop_event ∷ events) h =
      happens-stop (record p { stop_requested = true }) events refl
  happens_requested p (isr_event bytes ∷ events) h =
      happens_requested (rx_from_isr streams p bytes).0 events h

  not_requested :
      (p : FreertosPort Q) (events : List Event)
      → (happens streams p events).stop_requested ≡ false
      → requests events ≡ false
  not_requested p events h = elim (Bool-cases (requests events)) [
    | inl e ↦ absurd (ground (arith, h, happens_requested p events e))
    | inr e ↦ e
  ]

  stops_later : (a b c : Bool) → (a || b || c) ≡ true → a ≡ false → b ≡ false → c ≡ true
  stops_later a b c h e f = ground (arith, h, e, f)

  -- The loop returns if a stop is requested in one of its rounds, whatever the handlers do, and then
  -- `running` is false.
  run_loop-Released :
      (env : Env (FreertosPort Q)) (s : Shell (FreertosPort Q)) (rounds : List Round)
      → stops rounds ≡ true
      → Released (run_loop streams env s rounds)
  unfolding run_loop receive
  run_loop-Released env s [] h = h
  run_loop-Released env s (round ∷ rounds) h =
      let p₁ = happens streams s.world round.before_test in
      let p' = happens streams p₁ round.during_receive in
      let (q, bytes) =
        streams.receive p'.kernel p'.config.read_chunk_size p'.config.read_timeout_ticks in
      let p₂ : FreertosPort Q = record p' { kernel = q } in
      let (s₃, status) =
        input env (on_port streams s (count_delivered streams p₂ (length bytes))) bytes in
      if-cases Released p₁.stop_requested _ _ (λ e. refl)
        (λ e.
          if-cases Released p'.stop_requested _ _ (λ f. refl)
            (λ f.
              let later : stops rounds ≡ true =
                stops_later (requests round.before_test) (requests round.during_receive)
                  (stops rounds) h (not_requested s.world round.before_test e)
                  (not_requested p₁ round.during_receive f) in
              if-cases Released (length bytes == 0) _ _
                (λ g. run_loop-Released env (on_port streams s p₂) rounds later)
                (λ g.
                  if-cases Released (Status.is_ok status) _ _
                    (λ k. run_loop-Released env s₃ rounds later) (λ k. refl))))

  -- A run that is allowed to start returns if a stop is requested in one of its rounds, before the test
  -- of the loop or during its receive call, whatever the handlers, the interrupts and the streams do,
  -- and `running` is false then.
  pub run-Released :
      (env : Env (FreertosPort Q)) (s : Shell (FreertosPort Q)) (before : List Event)
      (rounds : List Round)
      → s.world.running ≡ false
      → stops rounds ≡ true
      → Released (run streams env true s before rounds)
  unfolding run
  run-Released env s before rounds idle h =
      let loop = run_loop streams env (greeted streams s before) rounds in
      let unless_busy = if s.world.running then returned s Status.err_busy else loop in
      if-cases Released (is_unfit true s.world.config) (returned s Status.err_invalid_config)
        unless_busy (λ e. idle)
        (λ e.
          if-cases Released s.world.running (returned s Status.err_busy) loop (λ f. idle)
            (λ f. run_loop-Released env (greeted streams s before) rounds h))
