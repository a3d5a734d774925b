-- ===== src/RealTimeClock.antt =====
-- emulation/libcommon/src/devices/rtc/ds1315.cpp: the clock chip that answers to a pattern of 64 bits
-- on the address lines. The time of the host is an argument, as `GetLocalTime` gives it, and a call of
-- `SetLocalTime` is a result.
pub mod Bits
mod Tests
use Prim.Native.Nat.{bit_and, bit_or}
use cutiecoco.Base.{
  ℕ, ◌+◌, ◌-◌, ◌*◌, ◌/◌, ◌%◌, ◌^◌, Bool, true, false, ◌&&◌, Option, none, some, ltb, ◌==◌,
  if◌then◌else◌,
}
use cutiecoco.Base.Bits.{u8, u16}

-- The fields of `SYSTEMTIME`.
pub record SystemTime : Type 0 where
  pub year : ℕ
  pub month : ℕ
  pub day_of_week : ℕ
  pub day : ℕ
  pub hour : ℕ
  pub minute : ℕ
  pub second : ℕ
  pub milliseconds : ℕ

pub record Clock : Type 0 where
  pub now : SystemTime
  pub in_buffer : ℕ
  pub out_buffer : ℕ
  pub bit_counter : ℕ
  pub temp_hour : ℕ
  pub am_pm_bit : ℕ
  pub format_bit : ℕ
  pub cookie_received : Bool
  pub write_enabled : Bool

abbrev pub u64 : ℕ → ℕ
u64 v = v % 2 ^ 64

abbrev pub cookie : ℕ
cookie = 0x5ca33ac55ca33ac5

-- A digit of `InBuffer`, as the shifts by four bring it down.
abbrev pub digit : ℕ → ℕ → ℕ
digit k buffer = buffer / 16 ^ k % 16

abbrev pub two_digits : ℕ → ℕ → ℕ
two_digits k buffer = digit k buffer + digit (k + 1) buffer * 10

-- The hour of the digits 6 and 7: in the 12-hour mode digit 7 has the flag of the afternoon.
unfoldable pub hour_of : ℕ → ℕ
hour_of buffer =
    let high = digit 7 buffer in
    if high / 8 % 2 == 1
    then digit 6 buffer + high % 2 * 10 + (if high / 2 % 2 == 1 then 12 else 0)
    else digit 6 buffer + high % 4 * 10

unfoldable pub set_time : Clock → Clock × Option SystemTime
set_time c =
    let buffer = c.in_buffer in
    let high = digit 7 buffer in
    let time : SystemTime = record {
      year = u16 (two_digits 14 buffer + 1900);
      month = two_digits 12 buffer;
      day_of_week = digit 8 buffer;
      day = two_digits 10 buffer;
      hour = hour_of buffer;
      minute = two_digits 4 buffer;
      second = two_digits 2 buffer;
      milliseconds = two_digits 0 buffer;
    } in
    (
      record c {
        now = time;
        in_buffer = buffer / 16 ^ 15;
        temp_hour = high;
        format_bit = high / 8 % 2;
        am_pm_bit = if high / 8 % 2 == 1 then high / 2 % 2 * 2 else c.am_pm_bit;
      },
      if c.write_enabled then some time else none,
    )

-- `OutBuffer <<= 4; OutBuffer |= d;`.
abbrev pub push_digit : ℕ → ℕ → ℕ
push_digit out d = bit_or (u64 (out * 16)) d

-- The hour and the flag of the afternoon that are shown.
abbrev pub shows_afternoon : ℕ → ℕ → Bool
shows_afternoon format hour = (format == 1) && ltb 12 hour

-- The time in digits, in the order of the shifts.
unfoldable pub pack_time : ℕ → SystemTime → ℕ
pack_time format t =
    let afternoon = shows_afternoon format (u8 t.hour) in
    let hour = if afternoon then u8 t.hour - 12 else u8 t.hour in
    let year = push_digit (t.year % 100 / 10 + 10) (t.year % 10) in
    let month = push_digit (push_digit year (t.month / 10)) (t.month % 10) in
    let day = push_digit (push_digit month (t.day / 10)) (t.day % 10) in
    let week = push_digit (u64 (day * 16)) t.day_of_week in
    let hours =
      push_digit (push_digit week (bit_and 3 (bit_or (hour / 10) (if afternoon then 2 else 0))))
        (hour % 10) in
    let minutes = push_digit (push_digit hours (t.minute / 10)) (t.minute % 10) in
    let seconds = push_digit (push_digit minutes (t.second / 10)) (t.second % 10) in
    push_digit (push_digit seconds (t.milliseconds / 10)) (t.milliseconds % 10)

-- The pattern has come in: the time is loaded for the reads.
unfoldable pub load_time : SystemTime → Clock → Clock
unfolding pack_time
load_time host c =
    let afternoon = shows_afternoon c.format_bit (u8 host.hour) in
    record c {
      now = host;
      out_buffer = pack_time c.format_bit host;
      temp_hour = if afternoon then u8 host.hour - 12 else u8 host.hour;
      am_pm_bit = if afternoon then 2 else 0;
      in_buffer = 0;
      bit_counter = 63;
      cookie_received = true;
    }

-- Ports 0x78 and 0x79: a bit comes in from the top. The counter of a byte wraps around.
unfoldable pub shift_in : SystemTime → ℕ → Clock → Clock × Option SystemTime
unfolding set_time load_time
shift_in host bit c =
    let shifted = record c { in_buffer = c.in_buffer / 2 + bit * 2 ^ 63 } in
    let ended = c.cookie_received && (c.bit_counter == 0) in
    let (set, call) = if ended then set_time shifted else (shifted, none) in
    let counted = record set {
      bit_counter = if c.cookie_received then u8 (c.bit_counter + 255) else c.bit_counter;
      cookie_received = if ended then false else c.cookie_received;
    } in
    (if counted.in_buffer == cookie then load_time host counted else counted, call)

-- Port 0x7C: the low bit of the time, which moves down while the counter runs.
unfoldable pub shift_out : Clock → ℕ × Clock
shift_out c = (
  c.out_buffer % 2,
  if ltb 0 c.bit_counter
      then record c { out_buffer = c.out_buffer / 2; bit_counter = c.bit_counter - 1 }
      else record c { cookie_received = false },
)

unfoldable pub read_port : SystemTime → ℕ → Clock → ℕ × Clock × Option SystemTime
unfolding shift_in shift_out
read_port host port c =
    let (low, after_low) = shift_in host 0 c in
    let (high, after_high) = shift_in host 1 c in
    let (v, next) = shift_out c in
    if port == 0x78
    then (0, low, after_low)
    else if port == 0x79
    then (0, high, after_high)
    else if port == 0x7c
    then (v, next, none)
    else (0, c, none)

-- The argument goes to `WriteEnabled` as it is.
unfoldable pub set_read_only : Bool → Clock → Clock
set_read_only value c = record c { write_enabled = value }
