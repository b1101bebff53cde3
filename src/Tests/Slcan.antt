-- ===== src/Tests/Slcan.antt =====
-- Two frames in one stream, cut inside the first line.
use diagnostic_vehicle_simul.Prelude.{
  ℕ, ◌≡◌, refl, true, false, none, inl, inr, List, [], ◌∷◌, arith,
}
use diagnostic_vehicle_simul.Can.Frame.{CanFrame, data_length_code}
use diagnostic_vehicle_simul.Slcan.Hex.{hex_digit, write_hex, format_hex}
use diagnostic_vehicle_simul.Slcan.Encode.{kind_of, encode_bytes, encode_line, encode_frame}
use diagnostic_vehicle_simul.Slcan.Decode.{frame_event, utf8_length, new_decoder, feed}
use diagnostic_vehicle_simul.Slcan.Decode.RoundTrip.{IsClassic}
use diagnostic_vehicle_simul.Slcan.Decode.Stream.{
  IsShort, feed-IsShort, concat, encode_all, feed_reads, feed_reads-encode_all,
}

abbrev request : CanFrame ℕ
request = record {
  timestamp_sec = 5;
  can_id = 0x7E0;
  is_extended = false;
  is_fd = false;
  data_bytes = 0x02 ∷ 0x3E ∷ [];
  is_remote = false;
  remote_length = 0;
  is_request = none;
}

abbrev remote : CanFrame ℕ
remote = record {
  timestamp_sec = 5;
  can_id = 0x18DA00F1;
  is_extended = true;
  is_fd = false;
  data_bytes = [];
  is_remote = true;
  remote_length = 8;
  is_request = none;
}

request-IsClassic : IsClassic 5 request
request-IsClassic = record {
  stamped = refl;
  undirected = refl;
  classic = refl;
  identified = omega arith;
  bounded = omega arith;
  bytes = omega arith;
  asked = omega arith;
  either = inl (refl, refl);
}

remote-IsClassic : IsClassic 5 remote
remote-IsClassic = record {
  stamped = refl;
  undirected = refl;
  classic = refl;
  identified = omega arith;
  bounded = omega arith;
  bytes = tt;
  asked = omega arith;
  either = inr (refl, refl);
}

-- "t7E0" and "2023E", a terminator, then "R18DA00F18" with its own.
abbrev reads : List (List ℕ)
reads =
    (b't' ∷ b'7' ∷ b'E' ∷ b'0' ∷ [])
    ∷ (b'2' ∷ b'0' ∷ b'2' ∷ b'3' ∷ b'E' ∷ 13 ∷ b'R' ∷ b'1' ∷ [])
    ∷ (b'8' ∷ b'D' ∷ b'A' ∷ b'0' ∷ b'0' ∷ b'F' ∷ b'1' ∷ b'8' ∷ 13 ∷ [])
    ∷ []

feed_reads-encode_all_example :
    feed_reads 5 new_decoder reads ≡ (new_decoder, frame_event request ∷ frame_event remote ∷ [])
unfolding encode_all encode_frame encode_line kind_of encode_bytes format_hex write_hex hex_digit
    data_length_code concat
feed_reads-encode_all_example =
    feed_reads-encode_all 5 (request ∷ remote ∷ []) reads
      (request-IsClassic, (remote-IsClassic, tt)) refl

feed-IsShort_example : IsShort (feed {Time = ℕ} 5 new_decoder (b't' ∷ b'7' ∷ [])).0
unfolding new_decoder utf8_length
feed-IsShort_example = feed-IsShort {Time = ℕ} 5 (b't' ∷ b'7' ∷ []) new_decoder (omega arith)
