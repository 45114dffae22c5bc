-- ===== src/Transport/WriteAll.antt =====
-- What `sh_transport_write_all` guarantees for every backend, and for a backend that keeps what it
-- accepts.
use portable_c_shell.Prelude.{
  ℕ, zero, suc, ◌+◌, ◌-◌, ◌≤◌, ◌<◌, true, false, Option, some, ◌++◌, ◌≡◌, refl, sym, ap, ◌∙◌, arith,
  append-nil, append_assoc, length, take, drop, length-drop, take-add, ltb, ◌==◌, Bytes, Bool-cases,
  inl, inr, ◌⊎◌, not, ◌&&◌,
}
use portable_c_shell.Transport.{
  is_callback_status, TransportStatus, ok, would_block, err_protocol, err_io, err_no_progress,
  Written, written, exhausted, after_attempt, write_loop, write_with, write_all, is_io, is_ok,
}

module _ {W : Type 0} (call : W → Bytes → W × TransportStatus × ℕ) where
  -- The total never passes the length, and success means that it has reached it.
  abbrev pub Sound : Bytes → Written W → Type 0
  Sound bytes r = (r.total ≤ length bytes) × (r.status ≡ ok → r.total ≡ length bytes)

  write_loop-Sound :
      (bytes : Bytes) (attempts : ℕ) (w : W) (total : ℕ) (last : TransportStatus)
      → total ≤ length bytes
      → Sound bytes (write_loop call bytes attempts w total last)
  unfolding write_loop after_attempt exhausted
  write_loop-Sound bytes zero w total last h = ground arith
  write_loop-Sound bytes (suc attempts) w total last h =
      let (w', status, count) = call w (drop total bytes) in
      ground (arith, write_loop-Sound bytes attempts w' (total + count) status)

  -- Every call for at least one byte accepts some of what it is given, and reports no error.
  abbrev pub Progresses : Type 0
  Progresses =
      (w : W) (bytes : Bytes)
      → 0 < length bytes
      → ((call w bytes).1 ≡ ok ⊎ (call w bytes).1 ≡ would_block)
        × (0 < (call w bytes).2)
        × ((call w bytes).2 ≤ length bytes)

  -- A backend that keeps what it accepts: `sent` is all that has arrived there.
  abbrev pub Keeps : (W → Bytes) → Type 0
  Keeps sent =
      (w : W) (bytes : Bytes)
      → (sent (call w bytes).0 ≡ sent w ++ take (call w bytes).2 bytes)
        × ((call w bytes).2 ≤ length bytes)

  -- After an attempt that accepted no more than it was given, the loop ends with the new total, or
  -- goes on from it.
  after_attempt-cases :
      (bytes : Bytes) (total : ℕ) (w : W) (status : TransportStatus) (count : ℕ)
      (again : ℕ → TransportStatus → Written W)
      → count ≤ length bytes - total
      → ((st : TransportStatus) × (after_attempt bytes total w status count again
            ≡ written w st (total + count)))
        ⊎ (after_attempt bytes total w status count again ≡ again (total + count) status)
  unfolding after_attempt
  after_attempt-cases bytes total w status count again h =
      elim (Bool-cases (not (is_callback_status status))) [
        | inl p ↦ inl (err_protocol, rw (fits, p))
        | inr p ↦ elim (Bool-cases (is_io status)) [
          | inl q ↦ inl (err_io, rw (fits, p, q))
          | inr q ↦ elim (Bool-cases (total + count == length bytes)) [
            | inl r ↦ inl (ok, rw (fits, p, q, r))
            | inr r ↦ elim (Bool-cases (is_ok status && count == 0)) [
              | inl t ↦ inl (err_no_progress, rw (fits, p, q, r, t))
              | inr t ↦ inr (rw (fits, p, q, r, t))
            ]
          ]
        ]
      ]
    where
      fits : ltb (length bytes - total) count ≡ false
      fits = ground arith

  -- What has arrived when the loop ends, started when the first `total` bytes had.
  abbrev Arrived : (W → Bytes) → Bytes → Bytes → Written W → Type 0
  Arrived sent before bytes r = sent r.world ≡ before ++ take r.total bytes

  exhausted-Arrived :
      (sent : W → Bytes) (before bytes : Bytes) (w : W) (total : ℕ) (last : TransportStatus)
      → sent w ≡ before ++ take total bytes
      → Arrived sent before bytes (exhausted w total last)
  unfolding exhausted
  exhausted-Arrived sent before bytes w total would_block e = e
  exhausted-Arrived sent before bytes w total _ e = e

  write_loop-more :
      (bytes : Bytes) (attempts : ℕ) (w : W) (total : ℕ) (last : TransportStatus)
      → ltb total (length bytes) ≡ true
      → write_loop call bytes (suc attempts) w total last
        ≡ after_attempt bytes total
            (call w (drop total bytes)).0
            (call w (drop total bytes)).1
            (call w (drop total bytes)).2
            (write_loop call bytes attempts (call w (drop total bytes)).0)
  unfolding write_loop
  write_loop-more bytes attempts w total last p = rw p

  write_loop-stop :
      (bytes : Bytes) (attempts : ℕ) (w : W) (total : ℕ) (last : TransportStatus)
      → ltb total (length bytes) ≡ false
      → write_loop call bytes (suc attempts) w total last ≡ exhausted w total last
  unfolding write_loop
  write_loop-stop bytes attempts w total last p = rw p

  write_loop-none :
      (bytes : Bytes) (w : W) (total : ℕ) (last : TransportStatus)
      → write_loop call bytes zero w total last ≡ exhausted w total last
  unfolding write_loop
  write_loop-none bytes w total last = refl

  write_loop-Arrived :
      (sent : W → Bytes) (before : Bytes)
      → Keeps sent
      → (bytes : Bytes) (attempts : ℕ) (w : W) (total : ℕ) (last : TransportStatus)
      → sent w ≡ before ++ take total bytes
      → Arrived sent before bytes (write_loop call bytes attempts w total last)
  write_loop-Arrived sent before keeps bytes zero w total last e =
      rw (write_loop-none bytes w total last) (exhausted-Arrived sent before bytes w total last e)
  write_loop-Arrived sent before keeps bytes (suc attempts) w total last e =
      elim (Bool-cases (ltb total (length bytes))) [
        | inr p ↦
            rw (write_loop-stop bytes attempts w total last p)
              (exhausted-Arrived sent before bytes w total last e)
        | inl p ↦
            rw (write_loop-more bytes attempts w total last p)
              (elim (after_attempt-cases bytes total w' status count again fits) [
                | inl (st, q) ↦ rw q arrived
                | inr q ↦ rw q (
                    write_loop-Arrived sent before keeps bytes attempts w' (total + count) status
                      arrived)
              ])
      ]
    where
      w' : W
      w' = (call w (drop total bytes)).0

      status : TransportStatus
      status = (call w (drop total bytes)).1

      count : ℕ
      count = (call w (drop total bytes)).2

      again : ℕ → TransportStatus → Written W
      again = write_loop call bytes attempts w'

      fits : count ≤ length bytes - total
      fits = omega (arith, (keeps w (drop total bytes)).1, length-drop total bytes)

      arrived : sent w' ≡ before ++ take (total + count) bytes
      arrived =
          (keeps w (drop total bytes)).0
          ∙ ap (λ k. k ++ take count (drop total bytes)) e
          ∙ append_assoc before (take total bytes) (take count (drop total bytes))
          ∙ ap (λ k. before ++ k) (take-add total count bytes)

-- For every backend: the reported total is at most the length, and SH_TRANSPORT_OK means that every
-- byte was accepted.
pub write_all-Sound :
    {W : Type 0} (call : W → Bytes → W × TransportStatus × ℕ)
    (flush : Option (W → W × TransportStatus)) (w : W) (bytes : Bytes) (max_attempts : ℕ)
    → Sound call bytes
        (write_all (some (record { write = some call; flush = flush })) w bytes max_attempts)
unfolding write_all write_with
write_all-Sound call flush w bytes max_attempts =
    ground (arith, write_loop-Sound call bytes max_attempts w 0 ok)

-- For every backend, the write returns SH_TRANSPORT_OK only if the total is the length of the
-- data.
pub write_all_complete :
    {W : Type 0} (call : W → Bytes → W × TransportStatus × ℕ)
    (flush : Option (W → W × TransportStatus)) (w : W) (bytes : Bytes) (max_attempts : ℕ)
    → (write_all (some (record { write = some call; flush = flush })) w bytes max_attempts).status
      ≡ ok
    → (write_all (some (record { write = some call; flush = flush })) w bytes max_attempts).total
      ≡ length bytes
write_all_complete call flush w bytes max_attempts h =
    (write_all-Sound call flush w bytes max_attempts).1 h

-- At a backend that keeps what it accepts, and accepts no more than it is given, exactly the first
-- `total` bytes have arrived, in order and once each, whatever the status.
pub write_all-sent :
    {W : Type 0} (call : W → Bytes → W × TransportStatus × ℕ)
    (flush : Option (W → W × TransportStatus)) (sent : W → Bytes)
    → Keeps call sent
    → (w : W) (bytes : Bytes) (max_attempts : ℕ)
    → let r = write_all (some (record { write = some call; flush = flush })) w bytes max_attempts in
      sent r.world ≡ sent w ++ take r.total bytes
unfolding write_all write_with
write_all-sent call flush sent keeps w bytes max_attempts = elim (Bool-cases (length bytes == 0)) [
  | inl p ↦ rw p (sym (append-nil (sent w)))
  | inr p ↦ elim (Bool-cases (max_attempts == 0)) [
    | inl q ↦ rw (p, q) (sym (append-nil (sent w)))
    | inr q ↦
        rw (p, q)
          (write_loop-Arrived call sent (sent w) keeps bytes max_attempts w 0 ok
            (sym (append-nil (sent w))))
  ]
]
