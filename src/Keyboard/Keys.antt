-- ===== src/Keyboard/Keys.antt =====
-- The enumeration `CocoKey`, by its underlying `uint8_t`, and `mapCharToCoco`.
use cutiecoco.Base.{
  ℕ, ◌+◌, ◌-◌, Bool, true, false, ◌&&◌, Option, some, none, leb, ◌==◌, if◌then◌else◌,
}

abbrev pub CocoKey : Type 0
CocoKey = ℕ

abbrev pub key_at : CocoKey
key_at = 0

abbrev pub key_a : CocoKey
key_a = 1

abbrev pub key_space : CocoKey
key_space = 31

abbrev pub key_0 : CocoKey
key_0 = 32

abbrev pub key_1 : CocoKey
key_1 = 33

abbrev pub key_2 : CocoKey
key_2 = 34

abbrev pub key_3 : CocoKey
key_3 = 35

abbrev pub key_4 : CocoKey
key_4 = 36

abbrev pub key_5 : CocoKey
key_5 = 37

abbrev pub key_6 : CocoKey
key_6 = 38

abbrev pub key_7 : CocoKey
key_7 = 39

abbrev pub key_8 : CocoKey
key_8 = 40

abbrev pub key_9 : CocoKey
key_9 = 41

abbrev pub colon : CocoKey
colon = 42

abbrev pub semicolon : CocoKey
semicolon = 43

abbrev pub comma : CocoKey
comma = 44

abbrev pub minus : CocoKey
minus = 45

abbrev pub period : CocoKey
period = 46

abbrev pub slash : CocoKey
slash = 47

-- `CocoKey::Count`.
abbrev pub count : CocoKey
count = 56

pub record CocoKeyCombo : Type 0 where
  pub key : CocoKey
  pub shift : Bool

abbrev pub combo : CocoKey → Bool → Option CocoKeyCombo
combo k s = some (record { key = k; shift = s })

-- The `switch` of `mapCharToCoco`: punctuation without shift.
plain_punctuation : ℕ → Option CocoKeyCombo → Option CocoKeyCombo
plain_punctuation ch rest =
    if ch == b'@'
    then combo key_at false
    else if ch == b':'
    then combo colon false
    else if ch == b';'
    then combo semicolon false
    else if ch == b','
    then combo comma false
    else if ch == b'-'
    then combo minus false
    else if ch == b'.'
    then combo period false
    else if ch == b'/'
    then combo slash false
    else if ch == b' '
    then combo key_space false
    else rest

-- And punctuation with shift.
shifted_punctuation : ℕ → Option CocoKeyCombo
shifted_punctuation ch =
    if ch == b'!'
    then combo key_1 true
    else if ch == 34
    then combo key_2 true
    else if ch == b'#'
    then combo key_3 true
    else if ch == b'$'
    then combo key_4 true
    else if ch == b'%'
    then combo key_5 true
    else if ch == b'&'
    then combo key_6 true
    else if ch == 39
    then combo key_7 true
    else if ch == b'('
    then combo key_8 true
    else if ch == b')'
    then combo key_9 true
    else if ch == b'*'
    then combo colon true
    else if ch == b'+'
    then combo semicolon true
    else if ch == b'<'
    then combo comma true
    else if ch == b'='
    then combo minus true
    else if ch == b'>'
    then combo period true
    else if ch == b'?'
    then combo slash true
    else none

-- `char32_t` code points.
unfoldable pub map_char_to_coco : ℕ → Option CocoKeyCombo
unfolding plain_punctuation shifted_punctuation
map_char_to_coco ch =
    if leb b'a' ch && leb ch b'z'
    then combo (key_a + (ch - b'a')) false
    else if leb b'A' ch && leb ch b'Z'
    then combo (key_a + (ch - b'A')) true
    else if leb b'0' ch && leb ch b'9'
    then combo (key_0 + (ch - b'0')) false
    else plain_punctuation ch (shifted_punctuation ch)
