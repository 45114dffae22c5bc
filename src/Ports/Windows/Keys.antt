-- ===== src/Ports/Windows/Keys.antt =====
-- The keys of the Windows console, shell/ports/host/sh_port_windows.c, as the shell reads them.
use portable_c_shell.Prelude.{
  ℕ, zero, suc, ◌+◌, ◌*◌, ◌-◌, ◌≤◌, true, false, Option, none, some, [], ◌∷◌, ◌++◌, ◌≡◌, refl, sym,
  ap, ap₂, ◌∙◌, arith, append-nil, append_assoc, length, length-append, get_or, blit, blit-prefix,
  drop, replicate, ltb, leb, ◌||◌, ◌==◌, if◌then◌else◌, Bytes,
}
use portable_c_shell.Ansi.{Event, none_event, Decoder}
use portable_c_shell.Ansi
use portable_c_shell.Ansi.Feed.{IsDecoder, events, feed_sequence}
use portable_c_shell.Ports.Windows.{
  Terminal, queue_size, VirtualKey, vk_up, vk_down, vk_right, vk_left, vk_home, vk_end, vk_delete,
  vk_other, queue_sequence, take_queued_byte, wrapped, special_sequence,
}

-- The bytes that up to `n` calls of `sh_host_take_queued_byte` hand out.
abbrev pub handed_out : ℕ → Terminal → Bytes
handed_out zero t = []
handed_out (suc n) t = elim (take_queued_byte t) [ none ↦ [] | some (t', b) ↦ b ∷ handed_out n t' ]

abbrev pub repeated : ℕ → Bytes → Bytes
repeated zero bytes = []
repeated (suc n) bytes = bytes ++ repeated n bytes

get_or-length : (pre : Bytes) (b : ℕ) (post : Bytes) → get_or (pre ++ (b ∷ post)) (length pre) 0 ≡ b
get_or-length [] b post = refl
get_or-length (x ∷ pre) b post = get_or-length pre b post

-- So many calls as there are bytes, and `m` more.
abbrev calls : Bytes → ℕ → ℕ
calls [] m = m
calls (b ∷ bytes) m = suc (calls bytes m)

abbrev rounds : ℕ → Bytes → ℕ → ℕ
rounds zero bytes m = m
rounds (suc k) bytes m = calls bytes (rounds k bytes m)

calls_lem : (bytes : Bytes) (m : ℕ) → calls bytes m ≡ length bytes + m
calls_lem [] m = omega arith
calls_lem (b ∷ bytes) m = omega (arith, calls_lem bytes m)

rounds_lem : (k : ℕ) (bytes : Bytes) (m : ℕ) → rounds k bytes m ≡ k * length bytes + m
rounds_lem zero bytes m = omega arith
rounds_lem (suc k) bytes m =
    calls_lem bytes (rounds k bytes m)
    ∙ ap (λ n. length bytes + n) (rounds_lem k bytes m)
    ∙ ground arith

handed-step :
    (n : ℕ) (t t' : Terminal) (b : ℕ)
    → take_queued_byte t ≡ some (t', b)
    → handed_out (suc n) t ≡ b ∷ handed_out n t'
handed-step n t t' b e =
    ap (λ o. elim o as (λ _. Bytes) [ none ↦ [] | some (u, c) ↦ c ∷ handed_out n u ]) e

module _ (t : Terminal) (sequence rest : Bytes) where
  -- The sequence waits, from a position on, for a number of rounds.
  abbrev held : ℕ → ℕ → Terminal
  held position left = record t {
    byte_queue = sequence ++ rest;
    queue_length = length sequence;
    queue_position = position;
    repeat_remaining = left;
  }

  abbrev emptied : Terminal
  emptied = record t {
    byte_queue = sequence ++ rest;
    queue_length = 0;
    queue_position = 0;
    repeat_remaining = 0;
  }

  -- What waits after a round.
  abbrev next_round : ℕ → Terminal
  next_round zero = emptied
  next_round (suc k) = held 0 (suc k)

  byte_at :
      (pre : Bytes) (b : ℕ) (post : Bytes)
      → sequence ≡ pre ++ (b ∷ post)
      → get_or (sequence ++ rest) (length pre) 0 ≡ b
  byte_at pre b post e =
      ap (λ s. get_or (s ++ rest) (length pre) 0) e
      ∙ ap (λ s. get_or s (length pre) 0) (append_assoc pre (b ∷ post) rest)
      ∙ get_or-length pre b (post ++ rest)

  take_middle :
      (pre : Bytes) (b c : ℕ) (post : Bytes) (k : ℕ)
      → sequence ≡ pre ++ (b ∷ (c ∷ post))
      → take_queued_byte (held (length pre) k) ≡ some (held (suc (length pre)) k, b)
  unfolding take_queued_byte
  take_middle pre b c post k e =
      let len = ap length e ∙ length-append pre (b ∷ (c ∷ post)) in
      let more : leb (length sequence) (length pre) ≡ false = ground (arith, len) in
      let inside : (length pre + 1 == length sequence) ≡ false = ground (arith, len) in
      rw (more, inside) (ap₂ (λ n d. some (held n k, d)) (omega arith) (byte_at pre b (c ∷ post) e))

  take_last :
      (pre : Bytes) (b k : ℕ)
      → sequence ≡ pre ++ (b ∷ [])
      → take_queued_byte (held (length pre) (suc k)) ≡ some (next_round k, b)
  unfolding take_queued_byte
  take_last pre b k e =
      let len = ap length e ∙ length-append pre (b ∷ []) in
      let more : leb (length sequence) (length pre) ≡ false = ground (arith, len) in
      let ends : (length pre + 1 == length sequence) ≡ true = ground (arith, len) in
      rw (more, ends) (ap₂ (λ u d. some (u, d)) (wraps k) (byte_at pre b [] e))
    where
      wraps : (k : ℕ) → wrapped (held (length pre + 1) (suc k)) ≡ next_round k
      wraps zero = refl
      wraps (suc k) =
          let again : ltb 1 (suc (suc k)) ≡ true = ground arith in
          rw again (ap (held 0) {x = suc (suc k) - 1} {y = suc k} (omega arith))

  -- The rest of a round is handed out in order.
  hand_round :
      (pre : Bytes) (b : ℕ) (post : Bytes) (k m : ℕ)
      → sequence ≡ pre ++ (b ∷ post)
      → handed_out (calls (b ∷ post) m) (held (length pre) (suc k))
        ≡ (b ∷ post) ++ handed_out m (next_round k)
  hand_round pre b [] k m e =
      handed-step m (held (length pre) (suc k)) (next_round k) b (take_last pre b k e)
  hand_round pre b (c ∷ post) k m e =
      let len = length-append pre (b ∷ []) in
      handed-step (calls (c ∷ post) m) (held (length pre) (suc k)) (held (suc (length pre)) (suc k))
        b (take_middle pre b c post (suc k) e)
      ∙ ap (λ n. b ∷ handed_out (calls (c ∷ post) m) (held n (suc k))) {x = suc (length pre)}
          {y = length (pre ++ (b ∷ []))} (omega (arith, len))
      ∙ ap (λ l. b ∷ l)
          (hand_round (pre ++ (b ∷ [])) c post k m (e ∙ sym (append_assoc pre (b ∷ []) (c ∷ post))))

  hand_none : (m : ℕ) → handed_out m emptied ≡ []
  unfolding take_queued_byte
  hand_none zero = refl
  hand_none (suc m) = refl

  -- All rounds.
  hand_rounds :
      (b : ℕ) (post : Bytes) (k m : ℕ)
      → sequence ≡ b ∷ post
      → handed_out (rounds (suc k) (b ∷ post) m) (held 0 (suc k)) ≡ repeated (suc k) (b ∷ post)
  hand_rounds b post zero m e = hand_round [] b post 0 m e ∙ ap (λ l. (b ∷ post) ++ l) (hand_none m)
  hand_rounds b post (suc k) m e =
      hand_round [] b post (suc k) (rounds (suc k) (b ∷ post) m) e
      ∙ ap (λ l. (b ∷ post) ++ l) (hand_rounds b post k m e)

abbrev held_with : Terminal → Bytes → ℕ → ℕ → Terminal
held_with t q n left = record t {
  byte_queue = q;
  queue_length = n;
  queue_position = 0;
  repeat_remaining = left;
}

-- How often a sequence is delivered.
abbrev pub deliveries : ℕ → ℕ
deliveries repeat_count = if repeat_count == 0 then 1 else repeat_count

deliveries-suc : (r : ℕ) → deliveries r ≡ suc (deliveries r - 1)
deliveries-suc r = ground arith

blit-front :
    (q text : Bytes) → length text ≤ length q → blit q 0 text ≡ text ++ drop (length text) q
blit-front q text h =
    ap (λ k. blit k 0 text) (sym (append-nil q))
    ∙ blit-prefix [] q text [] h
    ∙ ap (λ k. text ++ k) (append-nil (drop (length text) q))

-- A byte sequence that fits the queue of eight bytes is accepted, and is then handed out byte by byte,
-- in order, as often as the repeat count says, at least once, and nothing after it, by any number of
-- calls that is large enough.
pub queue_sequence-handed_out :
    (t : Terminal) (b : ℕ) (post : Bytes) (repeat_count n : ℕ)
    → length t.byte_queue ≡ queue_size
    → length (b ∷ post) ≤ queue_size
    → deliveries repeat_count * length (b ∷ post) ≤ n
    → (t' : Terminal) × (queue_sequence t (b ∷ post) repeat_count ≡ some t')
      × (handed_out n t' ≡ repeated (deliveries repeat_count) (b ∷ post))
unfolding queue_sequence
queue_sequence-handed_out t b post repeat_count n sized fits enough =
    let sequence = b ∷ post in
    let rest = drop (length sequence) t.byte_queue in
    let k = deliveries repeat_count in
    let accepted : (length sequence == 0 || ltb queue_size (length sequence)) ≡ false =
      ground (arith, fits) in
    let more = n - k * length sequence in
    let calls_are : n ≡ rounds (suc (k - 1)) sequence more =
      omega (arith, enough)
      ∙ sym (ap (λ j. j * length sequence + more) (sym (deliveries-suc repeat_count)))
      ∙ sym (rounds_lem (suc (k - 1)) sequence more) in
    (
      held t sequence rest 0 k,
      rw accepted (
          ap (λ q. some (held_with t q (length sequence) k))
            (blit-front t.byte_queue sequence (omega (arith, sized, fits)))),
      ap₂ (λ m j. handed_out m (held t sequence rest 0 j)) calls_are (deliveries-suc repeat_count)
          ∙ hand_rounds t sequence rest b post (k - 1) more refl
          ∙ ap (λ j. repeated j sequence) (sym (deliveries-suc repeat_count)),
    )

-- The event of a navigation key.
abbrev pub event_of : VirtualKey → Event
event_of vk_up = Ansi.up
event_of vk_down = Ansi.down
event_of vk_right = Ansi.right
event_of vk_left = Ansi.left
event_of vk_home = Ansi.home
event_of vk_end = Ansi.end
event_of vk_delete = Ansi.delete
event_of vk_other = none_event

-- The bytes that are queued for a key give its event at the last of them, and none before it.
abbrev pub Understood : Decoder → VirtualKey → Option Bytes → Type 0
Understood d key none = event_of key ≡ none_event
Understood d key (some bytes) =
    events d bytes ≡ replicate (length bytes - 1) none_event ++ (event_of key ∷ [])

-- The decoder of the shell, from every well-formed state, reads the bytes that the Windows console port
-- queues for a navigation key as exactly one event, that of the key, at the last of them.
pub special_sequence-Understood :
    (d : Decoder) (key : VirtualKey) → IsDecoder d → Understood d key (special_sequence key)
special_sequence-Understood d vk_up v = (feed_sequence d [] b'A' v tt refl).0
special_sequence-Understood d vk_down v = (feed_sequence d [] b'B' v tt refl).0
special_sequence-Understood d vk_right v = (feed_sequence d [] b'C' v tt refl).0
special_sequence-Understood d vk_left v = (feed_sequence d [] b'D' v tt refl).0
special_sequence-Understood d vk_home v = (feed_sequence d [] b'H' v tt refl).0
special_sequence-Understood d vk_end v = (feed_sequence d [] b'F' v tt refl).0
special_sequence-Understood d vk_delete v = (feed_sequence d (b'3' ∷ []) b'~' v (refl, tt) refl).0
special_sequence-Understood d vk_other v = refl
