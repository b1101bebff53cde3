-- ===== src/Slcan/Commands/Rates.antt =====
-- The tables of bit rates and line speeds.
use diagnostic_vehicle_simul.Prelude.{◌≡◌, refl, some}
use diagnostic_vehicle_simul.Slcan.Commands.{
  SlcanBitrate, kbit10, kbit20, kbit50, kbit100, kbit125, kbit250, kbit500, kbit800, mbit1,
  bitrate_bits_per_second, find_rate, bitrate_from_bits_per_second, SlcanLineSpeed, baud230400,
  baud115200, baud57600, baud38400, baud19200, baud9600, baud2400, line_speed_bits_per_second,
  line_speed_from_bits_per_second,
}

bitrate_back :
    (r : SlcanBitrate) → bitrate_from_bits_per_second (bitrate_bits_per_second r) ≡ some r
unfolding bitrate_from_bits_per_second bitrate_bits_per_second find_rate
bitrate_back kbit10 = refl
bitrate_back kbit20 = refl
bitrate_back kbit50 = refl
bitrate_back kbit100 = refl
bitrate_back kbit125 = refl
bitrate_back kbit250 = refl
bitrate_back kbit500 = refl
bitrate_back kbit800 = refl
bitrate_back mbit1 = refl

line_speed_back :
    (s : SlcanLineSpeed) → line_speed_from_bits_per_second (line_speed_bits_per_second s) ≡ some s
unfolding line_speed_from_bits_per_second line_speed_bits_per_second find_rate
line_speed_back baud230400 = refl
line_speed_back baud115200 = refl
line_speed_back baud57600 = refl
line_speed_back baud38400 = refl
line_speed_back baud19200 = refl
line_speed_back baud9600 = refl
line_speed_back baud2400 = refl
