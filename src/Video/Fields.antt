-- ===== src/Video/Fields.antt =====
-- The pixels of a word of the RAM as the pixels of its two bytes, for the graphics modes of
-- emulation/tcc1014graphics.cpp.
use cutiecoco.Base.{
  ℕ, zero, suc, ◌+◌, ◌-◌, ◌*◌, ◌/◌, ◌%◌, ◌^◌, ◌<◌, ◌≡◌, ltb, if◌then◌else◌, get_or, arith,
}
use cutiecoco.Video.Raster.{ones, twos, fours}
use cutiecoco.Video.Shapes.{Width, one, two, four, bits, per_word, fields}

abbrev pub per_byte : Width → ℕ
per_byte one = 8
per_byte two = 4
per_byte four = 2

-- The `p`-th pixel of a byte, from its highest bits on.
abbrev pub pixel_of_byte : Width → (byte p : ℕ) → ℕ
pixel_of_byte w byte p = byte / 2 ^ (8 - bits w - p * bits w) % 2 ^ bits w

fields-one :
    (lo hi p : ℕ)
    → lo < 256
    → hi < 256
    → p < 16
    → get_or (fields one (lo + 256 * hi)) p 0
      ≡ pixel_of_byte one (if ltb p 8 then lo else hi) (p % 8)
unfolding fields ones
fields-one lo hi zero l h below = omega arith
fields-one lo hi (suc zero) l h below = omega arith
fields-one lo hi (suc (suc zero)) l h below = omega arith
fields-one lo hi (suc (suc (suc zero))) l h below = omega arith
fields-one lo hi (suc (suc (suc (suc zero)))) l h below = omega arith
fields-one lo hi (suc (suc (suc (suc (suc zero))))) l h below = omega arith
fields-one lo hi (suc (suc (suc (suc (suc (suc zero)))))) l h below = omega arith
fields-one lo hi (suc (suc (suc (suc (suc (suc (suc zero))))))) l h below = omega arith
fields-one lo hi (suc (suc (suc (suc (suc (suc (suc (suc zero)))))))) l h below = omega arith
fields-one lo hi (suc (suc (suc (suc (suc (suc (suc (suc (suc zero))))))))) l h below = omega arith
fields-one lo hi (suc (suc (suc (suc (suc (suc (suc (suc (suc (suc zero)))))))))) l h below =
    omega arith
fields-one lo hi (suc (suc (suc (suc (suc (suc (suc (suc (suc (suc (suc zero))))))))))) l h below =
    omega arith
fields-one lo hi (suc (suc (suc (suc (suc (suc (suc (suc (suc (suc (suc (suc zero)))))))))))) l h
      below =
    omega arith
fields-one lo hi (suc (suc (suc (suc (suc (suc (suc (suc (suc (suc (suc (suc (suc zero)))))))))))))
      l h below =
    omega arith
fields-one lo hi
      (suc (suc (suc (suc (suc (suc (suc (suc (suc (suc (suc (suc (suc (suc zero)))))))))))))) l h
      below =
    omega arith
fields-one lo hi
      (suc (suc (suc (suc (suc (suc (suc (suc (suc (suc (suc (suc (suc (suc (suc zero)))))))))))))))
      l h below =
    omega arith
fields-one lo hi
      (suc
        (suc (suc (suc (suc (suc (suc (suc (suc (suc (suc (suc (suc (suc (suc (suc p))))))))))))))))
      l h below =
    absurd (omega arith)

fields-two :
    (lo hi p : ℕ)
    → lo < 256
    → hi < 256
    → p < 8
    → get_or (fields two (lo + 256 * hi)) p 0
      ≡ pixel_of_byte two (if ltb p 4 then lo else hi) (p % 4)
unfolding fields twos
fields-two lo hi zero l h below = omega arith
fields-two lo hi (suc zero) l h below = omega arith
fields-two lo hi (suc (suc zero)) l h below = omega arith
fields-two lo hi (suc (suc (suc zero))) l h below = omega arith
fields-two lo hi (suc (suc (suc (suc zero)))) l h below = omega arith
fields-two lo hi (suc (suc (suc (suc (suc zero))))) l h below = omega arith
fields-two lo hi (suc (suc (suc (suc (suc (suc zero)))))) l h below = omega arith
fields-two lo hi (suc (suc (suc (suc (suc (suc (suc zero))))))) l h below = omega arith
fields-two lo hi (suc (suc (suc (suc (suc (suc (suc (suc p)))))))) l h below = absurd (omega arith)

fields-four :
    (lo hi p : ℕ)
    → lo < 256
    → hi < 256
    → p < 4
    → get_or (fields four (lo + 256 * hi)) p 0
      ≡ pixel_of_byte four (if ltb p 2 then lo else hi) (p % 2)
unfolding fields fours
fields-four lo hi zero l h below = omega arith
fields-four lo hi (suc zero) l h below = omega arith
fields-four lo hi (suc (suc zero)) l h below = omega arith
fields-four lo hi (suc (suc (suc zero))) l h below = omega arith
fields-four lo hi (suc (suc (suc (suc p)))) l h below = absurd (omega arith)

-- The pixel `p` of a word is one of its first or of its second byte.
pub fields-pixel :
    (w : Width) (lo hi p : ℕ)
    → lo < 256
    → hi < 256
    → p < per_word w
    → get_or (fields w (lo + 256 * hi)) p 0
      ≡ pixel_of_byte w (if ltb p (per_byte w) then lo else hi) (p % per_byte w)
fields-pixel one lo hi p l h below = fields-one lo hi p l h below
fields-pixel two lo hi p l h below = fields-two lo hi p l h below
fields-pixel four lo hi p l h below = fields-four lo hi p l h below
