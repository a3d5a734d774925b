-- ===== src/Video/Shapes.antt =====
-- The graphics modes of emulation/tcc1014graphics.cpp by what they have in common: the bits of a
-- pixel, its width, and whether its colours start at `PalleteIndex`. The three functions that draw
-- a line are the same loop for a mode, with their own palette and surface.
use cutiecoco.Base.{
  ℕ, ◌+◌, ◌≡◌, refl, ap, ◌∙◌, Bool, true, false, Option, none, some, List, map, if◌then◌else◌,
}
use cutiecoco.Video.{Video, Host}
use cutiecoco.Video.Raster.{Cursor, bare, video_array, words, stretched, ones, twos, fours}
use cutiecoco.Video.Cases.{
  Case, width_80, width_40, unfinished_text, width_32, plain_1x1, plain_1x2, plain_1x4, plain_1x8,
  plain_2x1, plain_2x2, plain_2x4, plain_2x8, plain_2x16, plain_4x1, plain_4x2, plain_4x4,
  plain_4x8, plain_4x16, compat_1x1, compat_1x4, compat_1x8, compat_2x1, compat_2x2, compat_2x4,
  compat_2x8, compat_2x16, artifacts, plain_3, compat_rest,
}
use cutiecoco.Video.Screen8
use cutiecoco.Video.Screen16
use cutiecoco.Video.Screen32

pub data Width : Type 0 where
  one two four : Width

abbrev pub bits : Width → ℕ
bits one = 1
bits two = 2
bits four = 4

-- The pixels of a word.
abbrev pub per_word : Width → ℕ
per_word one = 16
per_word two = 8
per_word four = 4

unfoldable pub fields : Width → ℕ → List ℕ
fields one w = ones w
fields two w = twos w
fields four w = fours w

pub record Shape : Type 0 where
  pub indexed : Bool
  pub width : Width
  pub repeat : ℕ

abbrev of : Bool → Width → ℕ → Shape
of indexed width repeat = record { indexed = indexed; width = width; repeat = repeat }

-- The other modes draw text, artifacts or nothing.
abbrev pub shape : Case → Option Shape
shape plain_1x1 = some (of false one 1)
shape plain_1x2 = some (of false one 2)
shape plain_1x4 = some (of false one 4)
shape plain_1x8 = some (of false one 8)
shape plain_2x1 = some (of false two 1)
shape plain_2x2 = some (of false two 2)
shape plain_2x4 = some (of false two 4)
shape plain_2x8 = some (of false two 8)
shape plain_2x16 = some (of false two 16)
shape plain_4x1 = some (of false four 1)
shape plain_4x2 = some (of false four 2)
shape plain_4x4 = some (of false four 4)
shape plain_4x8 = some (of false four 8)
shape plain_4x16 = some (of false four 16)
shape compat_1x1 = some (of true one 1)
shape compat_1x4 = some (of true one 4)
shape compat_1x8 = some (of true one 8)
shape compat_2x1 = some (of true two 1)
shape compat_2x2 = some (of true two 2)
shape compat_2x4 = some (of true two 4)
shape compat_2x8 = some (of true two 8)
shape compat_2x16 = some (of true two 16)
shape _ = none

-- The colour of a value, from a palette.
unfoldable pub color_of : Shape → (palette : ℕ → ℕ) → Video → ℕ → ℕ
color_of s palette v i = if s.indexed then palette (v.pallete_index + i) else palette i

unfoldable pub paint_of : Shape → (palette : ℕ → ℕ) → Video → ℕ → List ℕ
paint_of s palette v w = map (color_of s palette v) (stretched s.repeat (fields s.width w))

abbrev by_shape {ℓ} : {A : Type ℓ} → Option Shape → (Shape → A) → A → A
by_shape none f other = other
by_shape (some s) f other = f s

either8 :
    (v : Video) (h : Host) (k : Case) (c : Cursor)
    → Screen8.draw v h k c
      ≡ by_shape
          (shape k)
          (λ s. words bare v h (paint_of s v.pallete_8bit v) c)
          (Screen8.draw v h k c)
unfolding Screen8.draw paint_of color_of fields Screen8.draw_plain_1x1 Screen8.draw_plain_1x2
    Screen8.draw_plain_1x4 Screen8.draw_plain_1x8 Screen8.draw_plain_2x1 Screen8.draw_plain_2x2
    Screen8.draw_plain_2x4 Screen8.draw_plain_2x8 Screen8.draw_plain_2x16 Screen8.draw_plain_4x1
    Screen8.draw_plain_4x2 Screen8.draw_plain_4x4 Screen8.draw_plain_4x8 Screen8.draw_plain_4x16
    Screen8.draw_compat_1x1 Screen8.draw_compat_1x4 Screen8.draw_compat_1x8 Screen8.draw_compat_2x1
    Screen8.draw_compat_2x2 Screen8.draw_compat_2x4 Screen8.draw_compat_2x8 Screen8.draw_compat_2x16
either8 v h width_80 c = refl
either8 v h width_40 c = refl
either8 v h unfinished_text c = refl
either8 v h width_32 c = refl
either8 v h plain_1x1 c = refl
either8 v h plain_1x2 c = refl
either8 v h plain_1x4 c = refl
either8 v h plain_1x8 c = refl
either8 v h plain_2x1 c = refl
either8 v h plain_2x2 c = refl
either8 v h plain_2x4 c = refl
either8 v h plain_2x8 c = refl
either8 v h plain_2x16 c = refl
either8 v h plain_4x1 c = refl
either8 v h plain_4x2 c = refl
either8 v h plain_4x4 c = refl
either8 v h plain_4x8 c = refl
either8 v h plain_4x16 c = refl
either8 v h compat_1x1 c = refl
either8 v h compat_1x4 c = refl
either8 v h compat_1x8 c = refl
either8 v h compat_2x1 c = refl
either8 v h compat_2x2 c = refl
either8 v h compat_2x4 c = refl
either8 v h compat_2x8 c = refl
either8 v h compat_2x16 c = refl
either8 v h artifacts c = refl
either8 v h plain_3 c = refl
either8 v h compat_rest c = refl

pub draw8_lem :
    (v : Video) (h : Host) (k : Case) (s : Shape) (c : Cursor)
    → shape k ≡ some s
    → Screen8.draw v h k c ≡ words bare v h (paint_of s v.pallete_8bit v) c
draw8_lem v h k s c e =
    either8 v h k c
    ∙ ap
        (λ o.
          by_shape o (λ t. words bare v h (paint_of t v.pallete_8bit v) c) (Screen8.draw v h k c))
        e

either16 :
    (v : Video) (h : Host) (k : Case) (c : Cursor)
    → Screen16.draw v h k c
      ≡ by_shape
          (shape k)
          (λ s. words bare v h (paint_of s v.pallete_16bit v) c)
          (Screen16.draw v h k c)
unfolding Screen16.draw paint_of color_of fields Screen16.draw_plain_1x1 Screen16.draw_plain_1x2
    Screen16.draw_plain_1x4 Screen16.draw_plain_1x8 Screen16.draw_plain_2x1 Screen16.draw_plain_2x2
    Screen16.draw_plain_2x4 Screen16.draw_plain_2x8 Screen16.draw_plain_2x16 Screen16.draw_plain_4x1
    Screen16.draw_plain_4x2 Screen16.draw_plain_4x4 Screen16.draw_plain_4x8 Screen16.draw_plain_4x16
    Screen16.draw_compat_1x1 Screen16.draw_compat_1x4 Screen16.draw_compat_1x8
    Screen16.draw_compat_2x1 Screen16.draw_compat_2x2 Screen16.draw_compat_2x4
    Screen16.draw_compat_2x8 Screen16.draw_compat_2x16
either16 v h width_80 c = refl
either16 v h width_40 c = refl
either16 v h unfinished_text c = refl
either16 v h width_32 c = refl
either16 v h plain_1x1 c = refl
either16 v h plain_1x2 c = refl
either16 v h plain_1x4 c = refl
either16 v h plain_1x8 c = refl
either16 v h plain_2x1 c = refl
either16 v h plain_2x2 c = refl
either16 v h plain_2x4 c = refl
either16 v h plain_2x8 c = refl
either16 v h plain_2x16 c = refl
either16 v h plain_4x1 c = refl
either16 v h plain_4x2 c = refl
either16 v h plain_4x4 c = refl
either16 v h plain_4x8 c = refl
either16 v h plain_4x16 c = refl
either16 v h compat_1x1 c = refl
either16 v h compat_1x4 c = refl
either16 v h compat_1x8 c = refl
either16 v h compat_2x1 c = refl
either16 v h compat_2x2 c = refl
either16 v h compat_2x4 c = refl
either16 v h compat_2x8 c = refl
either16 v h compat_2x16 c = refl
either16 v h artifacts c = refl
either16 v h plain_3 c = refl
either16 v h compat_rest c = refl

pub draw16_lem :
    (v : Video) (h : Host) (k : Case) (s : Shape) (c : Cursor)
    → shape k ≡ some s
    → Screen16.draw v h k c ≡ words bare v h (paint_of s v.pallete_16bit v) c
draw16_lem v h k s c e =
    either16 v h k c
    ∙ ap
        (λ o.
          by_shape o (λ t. words bare v h (paint_of t v.pallete_16bit v) c) (Screen16.draw v h k c))
        e

either32 :
    (v : Video) (h : Host) (k : Case) (c : Cursor)
    → Screen32.draw v h k c
      ≡ by_shape
          (shape k)
          (λ s. words video_array v h (paint_of s v.pallete_32bit v) c)
          (Screen32.draw v h k c)
unfolding Screen32.draw paint_of color_of fields Screen32.draw_plain_1x1 Screen32.draw_plain_1x2
    Screen32.draw_plain_1x4 Screen32.draw_plain_1x8 Screen32.draw_plain_2x1 Screen32.draw_plain_2x2
    Screen32.draw_plain_2x4 Screen32.draw_plain_2x8 Screen32.draw_plain_2x16 Screen32.draw_plain_4x1
    Screen32.draw_plain_4x2 Screen32.draw_plain_4x4 Screen32.draw_plain_4x8 Screen32.draw_plain_4x16
    Screen32.draw_compat_1x1 Screen32.draw_compat_1x4 Screen32.draw_compat_1x8
    Screen32.draw_compat_2x1 Screen32.draw_compat_2x2 Screen32.draw_compat_2x4
    Screen32.draw_compat_2x8 Screen32.draw_compat_2x16
either32 v h width_80 c = refl
either32 v h width_40 c = refl
either32 v h unfinished_text c = refl
either32 v h width_32 c = refl
either32 v h plain_1x1 c = refl
either32 v h plain_1x2 c = refl
either32 v h plain_1x4 c = refl
either32 v h plain_1x8 c = refl
either32 v h plain_2x1 c = refl
either32 v h plain_2x2 c = refl
either32 v h plain_2x4 c = refl
either32 v h plain_2x8 c = refl
either32 v h plain_2x16 c = refl
either32 v h plain_4x1 c = refl
either32 v h plain_4x2 c = refl
either32 v h plain_4x4 c = refl
either32 v h plain_4x8 c = refl
either32 v h plain_4x16 c = refl
either32 v h compat_1x1 c = refl
either32 v h compat_1x4 c = refl
either32 v h compat_1x8 c = refl
either32 v h compat_2x1 c = refl
either32 v h compat_2x2 c = refl
either32 v h compat_2x4 c = refl
either32 v h compat_2x8 c = refl
either32 v h compat_2x16 c = refl
either32 v h artifacts c = refl
either32 v h plain_3 c = refl
either32 v h compat_rest c = refl

pub draw32_lem :
    (v : Video) (h : Host) (k : Case) (s : Shape) (c : Cursor)
    → shape k ≡ some s
    → Screen32.draw v h k c ≡ words video_array v h (paint_of s v.pallete_32bit v) c
draw32_lem v h k s c e =
    either32 v h k c
    ∙ ap
        (λ o.
          by_shape o (λ t. words video_array v h (paint_of t v.pallete_32bit v) c)
            (Screen32.draw v h k c))
        e
