-- ===== src/Ports/Baremetal/Poll.antt =====
-- What a poll of the bare-metal adapter does, shell/ports/baremetal/sh_port_baremetal.c, over a
-- receive callback that hands out the bytes of a queue.
use portable_c_shell.Prelude.{
  ℕ, zero, suc, ◌+◌, ◌<◌, true, false, Option, none, some, [], ◌∷◌, ◌≡◌, ap, ◌∙◌, arith, Bytes,
  Bool-cases, inl, inr, length, take, ltb, ◌==◌, if◌then◌else◌,
}
use portable_c_shell.State.{Shell, Config, Env}
use portable_c_shell.Input.{input_byte}
use portable_c_shell.Safety.{Sizes, IsShell, Trusted}
use portable_c_shell.Safety.Editing.{Keeps}
use portable_c_shell.Safety.Running.{input_byte-IsShell}
use portable_c_shell.Ports.Over.{Backed}
use portable_c_shell.Ports.Baremetal.{
  ReadStatus, read_byte, read_no_data, WriteStatus, no_data, limit_reached, err_invalid_argument,
  Port, Polled, polled, with_shell, no_byte, poll_loop, poll, transport_write,
}

-- A queue of bytes behind the receive callback: it hands out the first of them, or reports that
-- there is none.
pub record Queue {W : Type 0} (read : W → W × ReadStatus) (incoming : W → Bytes) : Type 0 where
  pub waiting :
      (w : W) (b : ℕ) (bytes : Bytes)
      → incoming w ≡ b ∷ bytes
      → ((read w).1 ≡ read_byte b) × (incoming (read w).0 ≡ bytes)
  pub empty : (w : W) → incoming w ≡ [] → (read w).1 ≡ read_no_data

module _ {W : Type 0} (env : Env W) (read : W → W × ReadStatus) where
  -- A shell after one call of the receive callback.
  abbrev pub after_read : Shell W → Shell W
  after_read s = record s { world = (read s.world).0 }

  -- A shell that is fed a text byte by byte, with a call of the receive callback before each.
  abbrev pub fed : Shell W → Bytes → Shell W
  fed s [] = s
  fed s (b ∷ bytes) = fed (input_byte env (after_read s) b).0 bytes

  -- What a poll for `left` bytes leaves of an adapter before which `bytes` wait, `n` bytes after it
  -- began.
  abbrev pub drained : ℕ → Port W → ℕ → Bytes → Polled W
  drained left p n bytes =
      let s = fed p.shell (take left bytes) in
      if ltb (length bytes) left
      then polled (with_shell p (after_read s)) no_data (n + length bytes)
      else polled (with_shell p s) limit_reached (n + left)

  -- One byte less to go.
  drained_next :
      (left : ℕ) (p : Port W) (n b : ℕ) (bytes : Bytes)
      → drained left (with_shell p (input_byte env (after_read p.shell) b).0) (suc n) bytes
        ≡ drained (suc left) p n (b ∷ bytes)
  drained_next left p n b bytes =
      let s = fed (input_byte env (after_read p.shell) b).0 (take left bytes) in
      elim (Bool-cases (ltb (length bytes) left)) [
        | inl e ↦
            let e' : ltb (suc (length bytes)) (suc left) ≡ true = ground (arith, e) in
            rw (e, e') (ap (polled (with_shell p (after_read s)) no_data) (omega arith))
        | inr e ↦
            let e' : ltb (suc (length bytes)) (suc left) ≡ false = ground (arith, e) in
            rw (e, e') (ap (polled (with_shell p s) limit_reached) (omega arith))
      ]

module _ {W : Type 0} (env : Env W) (read : W → W × ReadStatus)
    (call : Option (W → Bytes → W × WriteStatus × ℕ)) (incoming : W → Bytes) where
  -- The shell writes over the adapter, and `bytes` are waiting.
  abbrev pub Waiting : Bytes → Config W → W → Type 0
  Waiting bytes = Backed (transport_write call) (λ w. incoming w ≡ bytes)

  poll_loop-drained :
      {z : Sizes}
      → Queue read incoming
      → ((bytes : Bytes) → Keeps (Waiting bytes))
      → ((bytes : Bytes) → Trusted z (Waiting bytes) env)
      → (left : ℕ) (p : Port W) (n : ℕ) (bytes : Bytes) → IsShell z (Waiting bytes) p.shell
      → poll_loop env read left p n ≡ drained env read left p n bytes
  unfolding poll_loop no_byte
  poll_loop-drained queue keeps trusted zero p n bytes h =
      let none_left : ltb (length bytes) 0 ≡ false = ground arith in
      rw none_left (ap (polled p limit_reached) (omega arith))
  poll_loop-drained queue keeps trusted (suc left) p n [] h =
      let some_left : ltb 0 (suc left) ≡ true = ground arith in
      rw (poll_loop, queue.empty p.shell.world h.backed.1, some_left)
        (ap (polled (with_shell p (after_read env read p.shell)) no_data) (omega arith))
  poll_loop-drained {z} queue keeps trusted (suc left) p n (b ∷ bytes) h =
      let (got, rest) = queue.waiting p.shell.world b bytes h.backed.1 in
      let s' = after_read env read p.shell in
      let next : IsShell z (Waiting bytes) (input_byte env s' b).0 =
        input_byte-IsShell (keeps bytes) env (trusted bytes) s' b (record {
          line_ok = h.line_ok;
          line_size = h.line_size;
          draft_ok = h.draft_ok;
          history_ok = h.history_ok;
          decoder_ok = h.decoder_ok;
          backed = (h.backed.0, rest);
        }) in
      rw (poll_loop, got)
        (poll_loop-drained queue keeps trusted left (with_shell p (input_byte env s' b).0) (suc n)
            bytes next
          ∙ drained_next env read left p n b bytes)

  -- A poll for at least one byte feeds the shell, in their order, as many of the bytes that wait as
  -- the limit allows, and no more: it reports SH_PORT_BAREMETAL_LIMIT_REACHED with the limit if as
  -- many were waiting, else SH_PORT_BAREMETAL_NO_DATA with their number, and counts no error. The
  -- receive callback reads from a queue, and writing and the handlers leave the queue alone.
  pub poll-drained :
      {z : Sizes}
      → Queue read incoming
      → ((bytes : Bytes) → Keeps (Waiting bytes))
      → ((bytes : Bytes) → Trusted z (Waiting bytes) env)
      → (p : Port W) (max_bytes : ℕ) (bytes : Bytes) → IsShell z (Waiting bytes) p.shell
      → p.read ≡ some read
      → 0 < max_bytes
      → poll env p max_bytes ≡ drained env read max_bytes p 0 bytes
  unfolding poll
  poll-drained queue keeps trusted p max_bytes bytes h has_read positive =
      let some_bytes : (max_bytes == 0) ≡ false = ground (arith, positive) in
      ap
        (λ o. elim o as (λ _. Polled W) [
          | none ↦ polled p err_invalid_argument 0
          | some r ↦
              if max_bytes == 0
              then polled p err_invalid_argument 0
              else poll_loop env r max_bytes p 0
        ])
        has_read
      ∙ rw some_bytes (poll_loop-drained queue keeps trusted max_bytes p 0 bytes h)
