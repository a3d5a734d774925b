-- ===== src/RealTimeClock/Tests.antt =====
-- The clock at a concrete time.
use cutiecoco.Base.{◌≡◌, refl, false, ◌*◌, ◌/◌, ◌%◌, ◌^◌}
use cutiecoco.RealTimeClock.{SystemTime, Clock, cookie, load_time, pack_time, shift_in}
use cutiecoco.RealTimeClock.Bits.{read_bits, low_bits, read_bits-load_time}

abbrev moment : SystemTime
moment = record {
  year = 2024;
  month = 12;
  day_of_week = 3;
  day = 25;
  hour = 17;
  minute = 30;
  second = 59;
  milliseconds = 7;
}

abbrev silent : Clock
silent = record {
  now = moment;
  in_buffer = 0;
  out_buffer = 0;
  bit_counter = 0;
  temp_hour = 0;
  am_pm_bit = 0;
  format_bit = 0;
  cookie_received = false;
  write_enabled = false;
}

read_bits-load_time_example :
    read_bits moment 64 (load_time moment silent) ≡ low_bits 64 (pack_time 0 moment)
read_bits-load_time_example = read_bits-load_time moment moment silent

-- The last bit of the pattern loads the time.
cookie_test : (shift_in moment 0 (record silent { in_buffer = cookie * 2 })).0.bit_counter ≡ 63
unfolding shift_in load_time
cookie_test = refl

-- Milliseconds from 160 on do not fit their two digits and change the digit of the seconds above.
milliseconds_test : pack_time 0 (record moment { milliseconds = 160; second = 0 }) / 2 ^ 8 % 16 ≡ 1
unfolding pack_time
milliseconds_test = refl
