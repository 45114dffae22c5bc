-- ===== src/Tests/Examples.antt =====
-- The theorems at concrete inputs: tokens, output, keys of the decoder, and the history.
use portable_c_shell.Prelude.{
  length, ℕ, none, some, List, [], ◌∷◌, ◌++◌, ◌≡◌, ◌≢◌, refl, sym, arith, append-nil, take,
  replicate, Bytes, text, equal,
}
use portable_c_shell.Tokenizer.{split}
use portable_c_shell.Tokenizer.Lexer.{words_of}
use portable_c_shell.Tokenizer.Split.{split_lem}
use portable_c_shell.Transport
use portable_c_shell.Transport.{
  TransportStatus, write_all, write_with, write_loop, after_attempt, exhausted,
}
use portable_c_shell.Transport.WriteAll.{Keeps, write_all_complete, write_all-sent}
use portable_c_shell.Ansi
use portable_c_shell.Ansi.{Decoder, feed, esc}
use portable_c_shell.Ansi.Feed.{
  IsDecoder, events, feed_bytes, feed-IsDecoder, feed_sequence, feed_unconsumed,
}
use portable_c_shell.State.{History}
use portable_c_shell.History
use portable_c_shell.History.Log.{IsRing, contents, get_newest-contents, add-contents, add-IsRing}
use portable_c_shell.History.Slots.{AllSized}
use portable_c_shell.Session.{fresh_decoder}

-- Words under quotes and escapes.
split_lem_example : split (text "set 'a b' c\\ d") 8 ≡ words_of 8 (text "set 'a b' c\\ d")
split_lem_example = split_lem (text "set 'a b' c\\ d") 8 (ground arith)

-- A backend that takes one byte of each call and keeps it.
abbrev one_byte : Bytes → Bytes → Bytes × TransportStatus × ℕ
one_byte w [] = (w, Transport.ok, 0)
one_byte w (b ∷ bytes) = (w ++ b ∷ [], Transport.ok, 1)

one_byte-Keeps : Keeps one_byte (λ w. w)
one_byte-Keeps w [] = (sym (append-nil w), omega arith)
one_byte-Keeps w (b ∷ bytes) = (refl, omega arith)

write_all_complete_example :
    (write_all (some (record { write = some one_byte; flush = none })) [] (text "ok>") 5).total ≡ 3
unfolding write_all write_with write_loop after_attempt exhausted
write_all_complete_example = write_all_complete one_byte none [] (text "ok>") 5 refl

-- Two attempts are not enough for three bytes.
write_all-sent_example :
    (write_all
      (some (record { write = some one_byte; flush = none }))
      (text "a")
      (text "ok>")
      2).world
    ≡ text "a"
      ++ take
          (write_all
            (some (record { write = some one_byte; flush = none }))
            (text "a")
            (text "ok>")
            2).total
          (text "ok>")
write_all-sent_example =
    write_all-sent one_byte none (λ w. w) one_byte-Keeps (text "a") (text "ok>") 2

fresh-IsDecoder : IsDecoder fresh_decoder
fresh-IsDecoder = ground arith

feed-IsDecoder_example : IsDecoder (feed fresh_decoder esc).0
feed-IsDecoder_example = feed-IsDecoder fresh_decoder esc fresh-IsDecoder

feed_unconsumed_example :
    ((feed fresh_decoder b'x').1 ≡ Ansi.none_event)
    × ((feed fresh_decoder b'x').0.state ≡ Ansi.idle)
    × (b'x' ≢ esc)
unfolding feed
feed_unconsumed_example = feed_unconsumed fresh_decoder b'x' refl

-- The delete key, `ESC [ 3 ~`.
feed_sequence_example :
    (events fresh_decoder (text "\u{1b}[3~")
      ≡ Ansi.none_event ∷ Ansi.none_event ∷ Ansi.none_event ∷ Ansi.delete ∷ [])
    × ((feed_bytes fresh_decoder (text "\u{1b}[3~")).state ≡ Ansi.idle)
feed_sequence_example = feed_sequence fresh_decoder (text "3") b'~' fresh-IsDecoder (refl, tt) refl

-- A ring of two slots that is full and has wrapped round.
abbrev two_slots : List Bytes
two_slots = (text "new" ++ replicate 5 0) ∷ (text "old" ++ replicate 5 0) ∷ []

abbrev full_ring : History
full_ring = record {
  storage = some two_slots;
  depth = 2;
  slot_size = 8;
  entry_count = 2;
  start = 1;
}

full_ring-IsRing : IsRing full_ring two_slots
full_ring-IsRing = record {
  storage_is = refl;
  room = omega arith;
  sized = (refl, (refl, tt));
  start_in = omega arith;
  count_in = omega arith;
}

get_newest-contents_example : History.get_newest full_ring 1 ≡ some (text "old")
get_newest-contents_example =
    get_newest-contents {h = full_ring} {stored = two_slots} full_ring-IsRing 1

add-contents_example :
    contents (History.add full_ring (text "last")) ≡ text "new" ∷ text "last" ∷ []
unfolding equal
add-contents_example =
    add-contents {h = full_ring} {stored = two_slots} b'l' (text "ast") full_ring-IsRing
      (ground arith) (omega arith)

add-IsRing_example :
    (s : List Bytes) × IsRing (History.add full_ring (text "last words")) s
    × AllSized full_ring.slot_size s
    × (length s ≡ length two_slots)
    × ((History.add full_ring (text "last words")).slot_size ≡ full_ring.slot_size)
add-IsRing_example =
    add-IsRing {h = full_ring} {stored = two_slots} (text "last words") full_ring-IsRing
      (omega arith)
