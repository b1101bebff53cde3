-- ===== src/Slcan/Decode/Stream.antt =====
-- Streams of lines, however the port cuts them into reads.
use diagnostic_vehicle_simul.Prelude.{
  ℕ, ◌+◌, ◌≡◌, ◌<◌, ◌≤◌, refl, sym, ◌∙◌, Bool, true, false, List, [], ◌∷◌, ◌++◌, All, IsByte, map,
  append-nil, append_assoc, if◌then◌else◌, length, arith,
}
use diagnostic_vehicle_simul.Can.Frame.{CanFrame, data_length_code}
use diagnostic_vehicle_simul.Slcan.Hex.Back.{
  digits, format_hex-digits, IsPlain, digits-IsPlain, digits-append,
}
use diagnostic_vehicle_simul.Slcan.Encode.{kind_of, encode_bytes, encode_line, encode_frame}
use diagnostic_vehicle_simul.Slcan.Decode.{
  SlcanDecoder, SlcanEvent, new_decoder, frame_event, utf8_length, push_character, decode_line,
  feed_byte, feed,
}
use diagnostic_vehicle_simul.Slcan.Decode.RoundTrip.{
  IsClassic, line_of, length-encode_bytes, encode_line-line_of, decode_line-encode_line,
}

-- The line that is being built takes at most 201 bytes.
abbrev pub IsShort : SlcanDecoder → Type 0
IsShort d = utf8_length d.partial ≤ 201

utf8_length-append : (xs ys : List ℕ) → utf8_length (xs ++ ys) ≡ utf8_length xs + utf8_length ys
unfolding utf8_length
utf8_length-append [] ys = omega arith
utf8_length-append (x ∷ xs) ys = omega (arith, utf8_length-append xs ys)

module _ {Time : Type 0} (time : Time) where
  feed_byte-IsShort : (d : SlcanDecoder) (b : ℕ) → IsShort d → IsShort (feed_byte time d b).0
  unfolding feed_byte push_character utf8_length
  feed_byte-IsShort d b h = ground (arith, utf8_length-append d.partial (b ∷ []))

  -- A device that never ends a line does not make the decoder grow: whatever bytes arrive, the
  -- line that is kept takes at most 201 bytes.
  pub feed-IsShort : (bs : List ℕ) (d : SlcanDecoder) → IsShort d → IsShort (feed time d bs).0
  unfolding feed
  feed-IsShort [] d h = h
  feed-IsShort (b ∷ bs) d h = feed-IsShort bs (feed_byte time d b).0 (feed_byte-IsShort d b h)

  feed-append :
      (xs ys : List ℕ) (d : SlcanDecoder)
      → feed time d (xs ++ ys) ≡ (
        (feed time (feed time d xs).0 ys).0,
        (feed time d xs).1 ++ (feed time (feed time d xs).0 ys).1,
      )
  unfolding feed
  feed-append [] ys d = refl
  feed-append (x ∷ xs) ys d = simp (feed-append xs ys (feed_byte time d x).0, append_assoc)

  feed_byte-plain :
      (d : SlcanDecoder) (c : ℕ)
      → IsPlain c
      → utf8_length d.partial < 200
      → feed_byte time d c ≡ (record d { partial = d.partial ++ c ∷ [] }, [])
  unfolding feed_byte push_character
  feed_byte-plain d c h l = ground arith

  -- Plain characters gather in the line that is being built.
  feed-plain :
      (cs rest : List ℕ) (d : SlcanDecoder)
      → All IsPlain cs
      → utf8_length d.partial + length cs ≤ 200
      → feed time d (cs ++ rest) ≡ feed time (record d { partial = d.partial ++ cs }) rest
  unfolding feed utf8_length
  feed-plain [] rest d h l = rw (append-nil d.partial) refl
  feed-plain (c ∷ cs) rest d (h, hs) l = rw (feed_byte-plain d c h (omega arith)) (
      feed-plain cs rest (record d { partial = d.partial ++ c ∷ [] }) hs
        (ground (arith, utf8_length-append d.partial (c ∷ [])))
      ∙ rw (append_assoc d.partial (c ∷ []) cs) refl)

encode_bytes-IsPlain : (bs : List ℕ) → All IsByte bs → All IsPlain (encode_bytes bs)
unfolding encode_bytes
encode_bytes-IsPlain [] h = tt
encode_bytes-IsPlain (b ∷ bs) (h, hs) =
    rw (format_hex-digits 2 b h (omega arith), digits-append 2 b [] (encode_bytes bs))
      (digits-IsPlain 2 b (encode_bytes bs) (encode_bytes-IsPlain bs hs))

kind_of-IsPlain : (is_extended is_remote : Bool) → IsPlain (kind_of is_extended is_remote)
unfolding kind_of
kind_of-IsPlain false false = omega arith
kind_of-IsPlain true false = omega arith
kind_of-IsPlain false true = omega arith
kind_of-IsPlain true true = omega arith

line_of-IsPlain :
    (is_extended is_remote : Bool) (id n : ℕ) (rest : List ℕ)
    → All IsPlain rest
    → All IsPlain (line_of is_extended is_remote id n rest)
unfolding kind_of
line_of-IsPlain is_extended is_remote id n rest h =
    rw
      (
        digits-append 1 n [] rest,
        digits-append (if is_extended then 8 else 3) id [] (digits 1 n rest),
      )
      (
        kind_of-IsPlain is_extended is_remote,
        digits-IsPlain (if is_extended then 8 else 3) id (digits 1 n rest)
            (digits-IsPlain 1 n rest h),
      )

length-line_of :
    (is_extended is_remote : Bool) (id n : ℕ) (rest : List ℕ)
    → length (line_of is_extended is_remote id n rest) ≤ 10 + length rest
unfolding digits
length-line_of false is_remote id n rest = omega arith
length-line_of true is_remote id n rest = omega arith

-- What a port's reads hold together.
unfoldable pub concat : List (List ℕ) → List ℕ
concat [] = []
concat (read ∷ reads) = read ++ concat reads

module _ {Time : Type 0} (time : Time) where
  encode_line-IsPlain :
      (frame : CanFrame Time) → IsClassic time frame → All IsPlain (encode_line frame)
  encode_line-IsPlain frame c = rw (encode_line-line_of time frame c) (
      line_of-IsPlain frame.is_extended frame.is_remote frame.can_id (data_length_code frame)
        (encode_bytes frame.data_bytes) (encode_bytes-IsPlain frame.data_bytes c.bytes))

  length-encode_line :
      (frame : CanFrame Time) → IsClassic time frame → length (encode_line frame) ≤ 200
  length-encode_line frame c = rw (encode_line-line_of time frame c) (
      omega (
        arith,
        length-line_of frame.is_extended frame.is_remote frame.can_id (data_length_code frame)
            (encode_bytes frame.data_bytes),
        length-encode_bytes frame.data_bytes c.bytes,
        c.bounded,
      ))

  -- A decoder between two lines.
  abbrev idle : ℕ → SlcanDecoder
  idle n = record { partial = []; discarded_lines = n }

  feed-terminator :
      (line rest : List ℕ) (n : ℕ)
      → feed time (record { partial = line; discarded_lines = n }) (13 ∷ rest)
        ≡ ((feed time (idle n) rest).0, decode_line time line ∷ (feed time (idle n) rest).1)
  unfolding feed feed_byte
  feed-terminator line rest n = refl

  -- One line completes one frame, and leaves the decoder ready for the next.
  feed-encode_frame :
      (frame : CanFrame Time) (rest : List ℕ) (n : ℕ)
      → IsClassic time frame
      → feed time (idle n) (encode_frame frame ++ rest)
        ≡ ((feed time (idle n) rest).0, frame_event frame ∷ (feed time (idle n) rest).1)
  unfolding encode_frame utf8_length
  feed-encode_frame frame rest n c = rw (append_assoc (encode_line frame) (13 ∷ []) rest) (
      feed-plain time (encode_line frame) (13 ∷ rest) (idle n) (encode_line-IsPlain frame c)
        (omega (arith, length-encode_line frame c))
      ∙ (feed-terminator (encode_line frame) rest n
          ∙ rw (decode_line-encode_line time frame c) refl))

  unfoldable pub encode_all : List (CanFrame Time) → List ℕ
  encode_all [] = []
  encode_all (f ∷ fs) = encode_frame f ++ encode_all fs

  feed-encode_all :
      (frames : List (CanFrame Time)) (n : ℕ)
      → All (IsClassic time) frames
      → feed time (idle n) (encode_all frames) ≡ (idle n, map frame_event frames)
  unfolding encode_all feed
  feed-encode_all [] n h = refl
  feed-encode_all (f ∷ fs) n (h, hs) =
      feed-encode_frame f (encode_all fs) n h ∙ rw (feed-encode_all fs n hs) refl

  -- The reads of a port, one after the other.
  unfoldable pub feed_reads : SlcanDecoder → List (List ℕ) → SlcanDecoder × List (SlcanEvent Time)
  feed_reads d [] = (d, [])
  feed_reads d (read ∷ reads) =
      let (after, events) = feed time d read in
      let (final, later) = feed_reads after reads in (final, events ++ later)

  feed_reads-concat :
      (reads : List (List ℕ)) (d : SlcanDecoder) → feed_reads d reads ≡ feed time d (concat reads)
  unfolding feed_reads feed concat
  feed_reads-concat [] d = refl
  feed_reads-concat (read ∷ reads) d =
      rw (feed_reads-concat reads (feed time d read).0)
        (sym (feed-append time read (concat reads) d))

  -- However the port cuts a stream of lines into reads, within a line or across several, the
  -- decoder gives exactly the frames that were encoded, in order, discards nothing and ends between
  -- two lines. The frames are classic, with identifiers that fit into the digits of a line.
  pub feed_reads-encode_all :
      (frames : List (CanFrame Time)) (reads : List (List ℕ))
      → All (IsClassic time) frames
      → concat reads ≡ encode_all frames
      → feed_reads new_decoder reads ≡ (new_decoder, map frame_event frames)
  unfolding new_decoder
  feed_reads-encode_all frames reads h e =
      feed_reads-concat reads (idle 0) ∙ rw e (feed-encode_all frames 0 h)
