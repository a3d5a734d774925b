-- ===== src/Video/Pixels.antt =====
-- The colour of a column of a graphics mode of emulation/tcc1014graphics.cpp: bits of the byte of
-- the line that the column belongs to.
use Prim.Native.Nat.{bit_and}
use native.Mathlib.Nat.{div-div-eq-div-mul, mod-lt, div-lt_iff_lt-mul, div-add-mod}
use cutiecoco.Base.{
  ℕ, ◌+◌, ◌*◌, ◌/◌, ◌%◌, ◌<◌, ◌≡◌, refl, ap, ap₂, sym, ◌∙◌, List, ltb, Bool, true, false,
  if◌then◌else◌, length, get_or, arith, subst,
}
use cutiecoco.Base.Bits.{u8}
use cutiecoco.Base.BitLaws.{bit_and_halves}
use cutiecoco.Video.{Video, Host}
use cutiecoco.Video.Raster.{u32, stretched, wide_pixel, ones, twos, fours}
use cutiecoco.Video.Drawing.{picture}
use cutiecoco.Video.Shapes.{Shape, Width, one, two, four, per_word, fields, paint_of, color_of}
use cutiecoco.Video.Fields.{per_byte, pixel_of_byte, fields-pixel}
use cutiecoco.Video.Pictures.{
  get_or-map, length-map, get_or-stretched, length-stretched, get_or-picture,
}

-- The byte of the RAM that the `b`-th byte of the line comes from.
abbrev pub line_byte : Video → Host → (b : ℕ) → ℕ
line_byte v h b = h.ram_buffer (bit_and v.vid_mask (u32 (v.start + u8 (v.hoffset + b))))

-- A line starts at an even address.
unfoldable pub IsAligned : Video → Type 0
IsAligned v = (v.start % 2 ≡ 0) × (v.hoffset % 2 ≡ 0) × (v.vid_mask % 2 ≡ 1)

unfoldable pub AreBytes : (ℕ → ℕ) → Type 0
AreBytes f = (i : ℕ) → f i < 256

mask_pair :
    (m a : ℕ)
    → m % 2 ≡ 1
    → a % 2 ≡ 0
    → (2 * (bit_and m a / 2) ≡ bit_and m a) × (2 * (bit_and m a / 2) + 1 ≡ bit_and m (a + 1))
mask_pair m a odd even =
    let low = bit_and_halves m a in
    let high = bit_and_halves m (a + 1) in
    let half : (a + 1) / 2 ≡ a / 2 = omega arith in
    let same = ap (bit_and (m / 2)) half in (omega arith, omega arith)

wide_pixel_lem :
    (v : Video) (h : Host) (a : ℕ)
    → IsAligned v
    → wide_pixel v h (2 * a) ≡ line_byte v h (2 * a) + 256 * line_byte v h (2 * a + 1)
unfolding wide_pixel IsAligned
wide_pixel_lem v h a (even, offset, odd) =
    let first = u32 (v.start + u8 (v.hoffset + 2 * a)) in
    let next : first + 1 ≡ u32 (v.start + u8 (v.hoffset + (2 * a + 1))) = omega arith in
    let (low, high) = mask_pair v.vid_mask first odd (omega arith) in
    ap₂ (λ i j. h.ram_buffer i + 256 * h.ram_buffer j) low (high ∙ ap (bit_and v.vid_mask) next)

-- The `q`-th pixel of the line.
abbrev pub source_pixel : Width → Video → Host → (q : ℕ) → ℕ
source_pixel w v h q = pixel_of_byte w (line_byte v h (q / per_byte w)) (q % per_byte w)

abbrev pub line_picture : Shape → (palette : ℕ → ℕ) → Video → Host → (count : ℕ) → List ℕ
line_picture s palette v h count = picture (λ b. paint_of s palette v (wide_pixel v h b)) count 0 2

length-fields : (w : Width) (n : ℕ) → length (fields w n) ≡ per_word w
unfolding fields ones twos fours
length-fields one n = refl
length-fields two n = refl
length-fields four n = refl

pub length-paint_of :
    (s : Shape) (palette : ℕ → ℕ) (v : Video) (n : ℕ)
    → length (paint_of s palette v n) ≡ per_word s.width * s.repeat
unfolding paint_of
length-paint_of s palette v n =
    length-map (color_of s palette v) (stretched s.repeat (fields s.width n))
    ∙ length-stretched s.repeat (fields s.width n)
    ∙ ap (λ k. k * s.repeat) (length-fields s.width n)

choose :
    (f : ℕ → ℕ) (test : Bool) (x y z : ℕ)
    → (test ≡ true → x ≡ z)
    → (test ≡ false → y ≡ z)
    → (if test then f x else f y) ≡ f z
choose f true x y z left right = ap f (left refl)
choose f false x y z left right = ap f (right refl)

-- Of the two bytes of a word, the one that the pixel `q` of the line is in.
byte_of :
    (w : Width) (f : ℕ → ℕ) (q : ℕ)
    → pixel_of_byte w
        (if ltb (q % per_word w) (per_byte w)
          then f (2 * (q / per_word w))
          else f (2 * (q / per_word w) + 1))
        (q % per_word w % per_byte w)
      ≡ pixel_of_byte w (f (q / per_byte w)) (q % per_byte w)
byte_of one f q =
    ap₂ (pixel_of_byte one)
      (choose f (ltb (q % 16) 8) (2 * (q / 16)) (2 * (q / 16) + 1) (q / 8) (λ e. ground (arith, e))
        (λ e. ground (arith, e)))
      (omega arith)
byte_of two f q =
    ap₂ (pixel_of_byte two)
      (choose f (ltb (q % 8) 4) (2 * (q / 8)) (2 * (q / 8) + 1) (q / 4) (λ e. ground (arith, e))
        (λ e. ground (arith, e)))
      (omega arith)
byte_of four f q =
    ap₂ (pixel_of_byte four)
      (choose f (ltb (q % 4) 2) (2 * (q / 4)) (2 * (q / 4) + 1) (q / 2) (λ e. ground (arith, e))
        (λ e. ground (arith, e)))
      (omega arith)

place-lt : (w : Width) (q : ℕ) → q % per_word w < per_word w
place-lt one q = omega arith
place-lt two q = omega arith
place-lt four q = omega arith

-- The pixel `q` of the line stands in the word `q / per_word w`.
word-pixel :
    (w : Width) (v : Video) (h : Host) (q : ℕ)
    → IsAligned v
    → AreBytes h.ram_buffer
    → get_or (fields w (wide_pixel v h (2 * (q / per_word w)))) (q % per_word w) 0
      ≡ source_pixel w v h q
unfolding AreBytes
word-pixel w v h q aligned bytes =
    let a = q / per_word w in
    ap (λ n. get_or (fields w n) (q % per_word w) 0) (wide_pixel_lem v h a aligned)
    ∙ fields-pixel w (line_byte v h (2 * a)) (line_byte v h (2 * a + 1)) (q % per_word w) (bytes _)
        (bytes _) (place-lt w q)
    ∙ byte_of w (line_byte v h) q

regroup : (per n a p m : ℕ) → n * (per * a + p) + m ≡ a * (per * n) + (p * n + m)
regroup per n a p m = grind arith

-- Where the column `j` stands among words of `per` pixels, each `n` columns wide.
column : (per n j : ℕ) → 0 < per → 0 < n → j ≡ j / n / per * (per * n) + (j / n % per * n + j % n)
column per n j some_pixels some_width =
    sym (div-add-mod j n)
    ∙ ap (λ b. n * b + j % n) (sym (div-add-mod (j / n) per))
    ∙ regroup per n (j / n / per) (j / n % per) (j % n)

within_word : (per n j : ℕ) → 0 < per → 0 < n → j / n % per * n + j % n < per * n
within_word per n j some_pixels some_width =
    let low = mod-lt (j / n) some_pixels in
    let rest = mod-lt j some_width in grind (arith, low, rest)

word-lt : (per n j count : ℕ) → 0 < per → 0 < n → j < count * (per * n) → j / n / per < count
word-lt per n j count some_pixels some_width inside =
    let size : 0 < n * per = grind arith in
    let enough : j < count * (n * per) = grind arith in
    subst (λ k. k < count) (sym (div-div-eq-div-mul j n per)) ((div-lt_iff_lt-mul size).1 enough)

per_word-pos : (w : Width) → 0 < per_word w
per_word-pos one = omega arith
per_word-pos two = omega arith
per_word-pos four = omega arith

-- The column `j` of the picture shows the pixel `j / repeat` of the line.
pub line_picture-pixel :
    (s : Shape) (palette : ℕ → ℕ) (v : Video) (h : Host) (count j : ℕ)
    → IsAligned v
    → AreBytes h.ram_buffer
    → 0 < s.repeat
    → j < count * (per_word s.width * s.repeat)
    → get_or (line_picture s palette v h count) j 0
      ≡ color_of s palette v (source_pixel s.width v h (j / s.repeat))
unfolding paint_of
line_picture-pixel s palette v h count j aligned bytes some_width inside =
    let w = s.width in
    let n = s.repeat in
    let per = per_word w in
    let a = j / n / per in
    let p = j / n % per in
    let paint = λ (b : ℕ). paint_of s palette v (wide_pixel v h b) in
    let values = λ (b : ℕ). fields w (wide_pixel v h b) in
    let twice : 0 + a * 2 ≡ 2 * a = omega arith in
    let position = within_word per n j (per_word-pos w) some_width in
    ap (λ k. get_or (picture paint count 0 2) k 0) (column per n j (per_word-pos w) some_width)
    ∙ get_or-picture paint (per * n) count 0 2 a (p * n + j % n)
        (λ b. length-paint_of s palette v (wide_pixel v h b))
        (word-lt per n j count (per_word-pos w) some_width inside) position
    ∙ get_or-map (color_of s palette v) (stretched n (values (0 + a * 2))) (p * n + j % n) (
        subst (λ k. p * n + j % n < k)
          (sym (length-stretched n (values (0 + a * 2)) ∙ ap (λ k. k * n) (length-fields w _)))
          position)
    ∙ ap (color_of s palette v) (
        get_or-stretched n (values (0 + a * 2)) p (j % n) (mod-lt j some_width)
        ∙ ap (λ b. get_or (values b) p 0) twice
        ∙ word-pixel w v h (j / n) aligned bytes)
