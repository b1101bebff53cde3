-- ===== src/Slcan/Commands.antt =====
-- The commands of an adapter and its answers to them (engine/crates/slcan/src/lib.rs).
pub mod Rates
use Prim.Native.String.{String}
use diagnostic_vehicle_simul.Prelude.{
  ℕ, ◌+◌, Bool, true, false, not, ◌&&◌, ◌||◌, Option, none, some, List, [], ◌∷◌, if◌then◌else◌, leb,
  ◌==◌, length,
}
use diagnostic_vehicle_simul.Uds.Dtcs.{and_bits}

abbrev pub terminator : ℕ
terminator = 13

abbrev pub bell : ℕ
bell = 0x07

abbrev pub max_line_length : ℕ
max_line_length = 200

pub data SlcanBitrate : Type 0 where
  kbit10 kbit20 kbit50 kbit100 kbit125 kbit250 kbit500 kbit800 mbit1 : SlcanBitrate

unfoldable pub bitrate_digit : SlcanBitrate → ℕ
bitrate_digit kbit10 = b'0'
bitrate_digit kbit20 = b'1'
bitrate_digit kbit50 = b'2'
bitrate_digit kbit100 = b'3'
bitrate_digit kbit125 = b'4'
bitrate_digit kbit250 = b'5'
bitrate_digit kbit500 = b'6'
bitrate_digit kbit800 = b'7'
bitrate_digit mbit1 = b'8'

unfoldable pub bitrate_bits_per_second : SlcanBitrate → ℕ
bitrate_bits_per_second kbit10 = 10000
bitrate_bits_per_second kbit20 = 20000
bitrate_bits_per_second kbit50 = 50000
bitrate_bits_per_second kbit100 = 100000
bitrate_bits_per_second kbit125 = 125000
bitrate_bits_per_second kbit250 = 250000
bitrate_bits_per_second kbit500 = 500000
bitrate_bits_per_second kbit800 = 800000
bitrate_bits_per_second mbit1 = 1000000

abbrev pub all_bitrates : List SlcanBitrate
all_bitrates =
    kbit10 ∷ kbit20 ∷ kbit50 ∷ kbit100 ∷ kbit125 ∷ kbit250 ∷ kbit500 ∷ kbit800 ∷ mbit1 ∷ []

-- `find` of the first that has a speed.
unfoldable pub find_rate : {R : Type 0} → (R → ℕ) → List R → ℕ → Option R
find_rate speed [] bits_per_second = none
find_rate speed (r ∷ rs) bits_per_second =
    if speed r == bits_per_second then some r else find_rate speed rs bits_per_second

unfoldable pub bitrate_from_bits_per_second : ℕ → Option SlcanBitrate
bitrate_from_bits_per_second = find_rate bitrate_bits_per_second all_bitrates

pub data SlcanLineSpeed : Type 0 where
  baud230400 baud115200 baud57600 baud38400 baud19200 baud9600 baud2400 : SlcanLineSpeed

unfoldable pub line_speed_digit : SlcanLineSpeed → ℕ
line_speed_digit baud230400 = b'0'
line_speed_digit baud115200 = b'1'
line_speed_digit baud57600 = b'2'
line_speed_digit baud38400 = b'3'
line_speed_digit baud19200 = b'4'
line_speed_digit baud9600 = b'5'
line_speed_digit baud2400 = b'6'

unfoldable pub line_speed_bits_per_second : SlcanLineSpeed → ℕ
line_speed_bits_per_second baud230400 = 230400
line_speed_bits_per_second baud115200 = 115200
line_speed_bits_per_second baud57600 = 57600
line_speed_bits_per_second baud38400 = 38400
line_speed_bits_per_second baud19200 = 19200
line_speed_bits_per_second baud9600 = 9600
line_speed_bits_per_second baud2400 = 2400

abbrev pub all_line_speeds : List SlcanLineSpeed
all_line_speeds =
    baud230400 ∷ baud115200 ∷ baud57600 ∷ baud38400 ∷ baud19200 ∷ baud9600 ∷ baud2400 ∷ []

unfoldable pub line_speed_from_bits_per_second : ℕ → Option SlcanLineSpeed
line_speed_from_bits_per_second = find_rate line_speed_bits_per_second all_line_speeds

unfoldable pub line_speed_command : SlcanLineSpeed → List ℕ
line_speed_command speed = b'U' ∷ line_speed_digit speed ∷ terminator ∷ []

-- `Some(true)` is an acknowledgement and `Some(false)` a rejection.
unfoldable pub read_acknowledgement : List ℕ → Option Bool
read_acknowledgement [] = none
read_acknowledgement (b ∷ bs) =
    if b == terminator then some true else if b == bell then some false else read_acknowledgement bs

unfoldable pub open_commands : SlcanBitrate → List (List ℕ)
open_commands bitrate =
    (b'C' ∷ terminator ∷ [])
    ∷ (b'S' ∷ bitrate_digit bitrate ∷ terminator ∷ [])
    ∷ (b'O' ∷ terminator ∷ [])
    ∷ []

abbrev pub close_command : List ℕ
close_command = b'C' ∷ terminator ∷ []

abbrev pub status_command : List ℕ
status_command = b'F' ∷ terminator ∷ []

abbrev pub identity_commands : List (List ℕ)
identity_commands =
    (b'V' ∷ terminator ∷ []) ∷ (b'N' ∷ terminator ∷ []) ∷ (b'F' ∷ terminator ∷ []) ∷ []

-- `is_ascii_hexdigit`.
unfoldable pub is_hex_digit : ℕ → Bool
is_hex_digit c =
    (leb b'0' c && leb c b'9') || ((leb b'A' c && leb c b'F') || (leb b'a' c && leb c b'f'))

unfoldable pub all_hex_digits : List ℕ → Bool
all_hex_digits [] = true
all_hex_digits (c ∷ cs) = is_hex_digit c && all_hex_digits cs

unfoldable pub expected_digits : ℕ → Option ℕ
expected_digits c =
    if (c == b'V') || (c == b'N') then some 4 else if c == b'F' then some 2 else none

unfoldable pub is_reply_of : Option ℕ → List ℕ → Bool
is_reply_of none rest = false
is_reply_of (some digits) rest = if not (length rest == digits) then false else all_hex_digits rest

unfoldable pub is_identity_reply : List ℕ → Bool
is_identity_reply [] = false
is_identity_reply (c ∷ rest) = is_reply_of (expected_digits c) rest

abbrev pub status_bits : List (ℕ × String)
status_bits =
    (0x01, "receive FIFO full")
    ∷ (0x02, "transmit FIFO full")
    ∷ (0x04, "error warning")
    ∷ (0x08, "data overrun")
    ∷ (0x20, "error passive")
    ∷ (0x40, "arbitration lost")
    ∷ (0x80, "bus off")
    ∷ []

unfoldable pub describe_bits : ℕ → List (ℕ × String) → List String
describe_bits flags [] = []
describe_bits flags ((mask, name) ∷ rest) =
    let later = describe_bits flags rest in
    if not (and_bits 8 flags mask == 0) then name ∷ later else later

unfoldable pub describe_status_flags : ℕ → List String
describe_status_flags flags = describe_bits flags status_bits
