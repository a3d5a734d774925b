-- ===== src/Video/Cases.antt =====
-- emulation/tcc1014graphics.cpp: the groups of `case` labels in the switch on `MasterMode`, which
-- are the same in `UpdateScreen8`, `UpdateScreen16` and `UpdateScreen32`. A label is
-- (GraphicsMode << 7) | (CompatMode << 6) | ((Bpp & 3) << 4) | (Stretch & 15).
use cutiecoco.Base.{ℕ, leb, if◌then◌else◌}

pub data Case : Type 0 where
  width_80 width_40 unfinished_text width_32 : Case
  plain_1x1 plain_1x2 plain_1x4 plain_1x8 : Case
  plain_2x1 plain_2x2 plain_2x4 plain_2x8 plain_2x16 : Case
  plain_4x1 plain_4x2 plain_4x4 plain_4x8 plain_4x16 : Case
  compat_1x1 artifacts compat_1x4 compat_1x8 : Case
  compat_2x1 compat_2x2 compat_2x4 compat_2x8 compat_2x16 : Case
  plain_3 compat_rest : Case

-- The labels 192 to 255.
unfoldable pub compat_case : ℕ → Case
compat_case mode =
    if leb mode 192
    then compat_1x1
    else if leb mode 194
    then artifacts
    else if leb mode 198
    then compat_1x4
    else if leb mode 206
    then compat_1x8
    else if leb mode 208
    then compat_2x1
    else if leb mode 210
    then compat_2x2
    else if leb mode 214
    then compat_2x4
    else if leb mode 222
    then compat_2x8
    else if leb mode 223
    then compat_2x16
    else compat_rest

-- The labels 128 to 191.
unfoldable pub plain_case : ℕ → Case
plain_case mode =
    if leb mode 128
    then plain_1x1
    else if leb mode 130
    then plain_1x2
    else if leb mode 134
    then plain_1x4
    else if leb mode 142
    then plain_1x8
    else if leb mode 144
    then plain_2x1
    else if leb mode 146
    then plain_2x2
    else if leb mode 150
    then plain_2x4
    else if leb mode 158
    then plain_2x8
    else if leb mode 159
    then plain_2x16
    else if leb mode 160
    then plain_4x1
    else if leb mode 162
    then plain_4x2
    else if leb mode 166
    then plain_4x4
    else if leb mode 174
    then plain_4x8
    else if leb mode 175
    then plain_4x16
    else plain_3

unfoldable pub text_case : ℕ → Case
text_case mode =
    if leb mode 0
    then width_80
    else if leb mode 2
    then width_40
    else if leb mode 63
    then unfinished_text
    else width_32

unfoldable pub case_of : ℕ → Case
unfolding text_case plain_case compat_case
case_of mode =
    if leb mode 127
    then text_case mode
    else if leb mode 191
    then plain_case mode
    else compat_case mode
