-- ===== src/Ports/Over.antt =====
-- A shell over one write callback: what every call of it keeps, `sh_write` keeps.
use portable_c_shell.Prelude.{
  ℕ, zero, suc, ◌+◌, none, some, ◌≡◌, arith, Bytes, Bool-cases, inl, inr, drop, length, ltb,
}
use portable_c_shell.Transport.{
  TransportStatus, ok, would_block, Written, exhausted, after_attempt, write_loop, write_with,
  write_all,
}
use portable_c_shell.State.{Config}
use portable_c_shell.Output.{write, write_through}
use portable_c_shell.Safety.Editing.{Keeps}

module _ {W : Type 0} (call : W → Bytes → W × TransportStatus × ℕ) (P : W → Type 0) where
  -- A call keeps `P`, whatever it is given.
  abbrev pub Stable : Type 0
  Stable = (w : W) (bytes : Bytes) → P w → P (call w bytes).0

  exhausted-Stable : (w : W) (n : ℕ) (last : TransportStatus) → P w → P (exhausted w n last).world
  unfolding exhausted
  exhausted-Stable w n would_block h = h
  exhausted-Stable w n _ h = h

  -- An attempt ends the loop with the state that the call left, or goes on with the loop.
  after_attempt-Stable :
      (bytes : Bytes) (total : ℕ) (w : W) (status : TransportStatus) (n : ℕ)
      (again : ℕ → TransportStatus → Written W)
      → P w
      → ((m : ℕ) (st : TransportStatus) → P (again m st).world)
      → P (after_attempt bytes total w status n again).world
  unfolding after_attempt
  after_attempt-Stable bytes total w status n again h k = ground (arith, h, k (total + n) status)

  write_loop-Stable :
      Stable
      → (bytes : Bytes) (attempts : ℕ) (w : W) (total : ℕ) (last : TransportStatus) → P w
      → P (write_loop call bytes attempts w total last).world
  unfolding write_loop
  write_loop-Stable stable bytes zero w total last h = exhausted-Stable w total last h
  write_loop-Stable stable bytes (suc attempts) w total last h =
      let (w', status, n) = call w (drop total bytes) in
      let round =
        after_attempt-Stable bytes total w' status n (write_loop call bytes attempts w')
          (stable w (drop total bytes) h)
          (λ m st.
            write_loop-Stable stable bytes attempts w' m st (stable w (drop total bytes) h)) in
      elim (Bool-cases (ltb total (length bytes))) [
        | inl e ↦ rw e round
        | inr e ↦ rw e (exhausted-Stable w total last h)
      ]

  write_with-Stable :
      Stable
      → (w : W) (bytes : Bytes) (attempts : ℕ) → P w
      → P (write_with call w bytes attempts).world
  unfolding write_with
  write_with-Stable stable w bytes attempts h =
      ground (arith, h, write_loop-Stable stable bytes attempts w 0 ok h)

  -- The configuration has the transport of a port, and the state of the port meets `P`.
  abbrev pub Backed : Config W → W → Type 0
  Backed c w = (c.transport ≡ some (record { write = some call; flush = none })) × P w

  pub Backed-Keeps : Stable → Keeps Backed
  unfolding write write_through write_all
  Backed-Keeps stable s bytes (installed, h) = (
    installed,
    rw installed (write_with-Stable stable s.world bytes s.cfg.transport_write_attempts h),
  )
