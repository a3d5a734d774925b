-- ===== src/RealTimeClock/Bits.antt =====
-- The bits that the clock of emulation/libcommon/src/devices/rtc/ds1315.cpp takes in and gives out.
use cutiecoco.Base.{
  ℕ, zero, suc, ◌-◌, ◌/◌, ◌%◌, ◌≤◌, ◌≡◌, refl, ap, true, List, [], ◌∷◌, ltb, arith,
}
use cutiecoco.RealTimeClock.{SystemTime, Clock, shift_out, read_port, load_time, pack_time}

-- The first `n` reads of port 0x7C.
abbrev pub read_bits : SystemTime → ℕ → Clock → List ℕ
read_bits host zero c = []
read_bits host (suc n) c = let (v, next, call) = read_port host 0x7c c in v ∷ read_bits host n next

-- The low bits of a number, from the lowest on.
abbrev pub low_bits : ℕ → ℕ → List ℕ
low_bits zero v = []
low_bits (suc n) v = v % 2 ∷ low_bits n (v / 2)

-- While the counter runs the reads of port 0x7C give the bits of the loaded time, the lowest first.
pub read_bits_lem :
    (host : SystemTime) (n : ℕ) (c : Clock)
    → n ≤ c.bit_counter
    → read_bits host (suc n) c ≡ low_bits (suc n) c.out_buffer
unfolding read_port shift_out
read_bits_lem host zero c h = refl
read_bits_lem host (suc n) c h = rw running (
    ap (λ l. c.out_buffer % 2 ∷ l)
      (read_bits_lem host n
        (record c { out_buffer = c.out_buffer / 2; bit_counter = c.bit_counter - 1 })
        (omega arith)))
  where
    running : ltb 0 c.bit_counter ≡ true
    running = ground arith

-- After the pattern, 64 reads of port 0x7C give the 64 bits of the packed time of the host, the lowest
-- first, whatever the time of the host is by then.
pub read_bits-load_time :
    (host later : SystemTime) (c : Clock)
    → read_bits later 64 (load_time host c) ≡ low_bits 64 (pack_time c.format_bit host)
unfolding load_time
read_bits-load_time host later c = read_bits_lem later 63 (load_time host c) (omega arith)
