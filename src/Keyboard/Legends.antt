-- ===== src/Keyboard/Legends.antt =====
-- `mapCharToCoco` against the legends that are printed on the keys of the machine.
use Prim.Native.Char.{code}
use Prim.Native.String.{String}
use cutiecoco.Base.{
  ℕ, ◌≤◌, ◌<◌, ◌≡◌, refl, Bool, true, ◌&&◌, Option, some, none, List, [], ◌∷◌, arith, ltb, ◌==◌,
  if◌then◌else◌, get_or,
}
use native.Mathlib.Decide.{dec_lt}
use cutiecoco.Base.Tables.{scan_below, scan_below_lem}
use cutiecoco.Keyboard.Keys.{CocoKeyCombo, count, map_char_to_coco}

abbrev codes : String → List ℕ
codes String.[] = []
codes (String.◌∷◌ c s) = code c ∷ codes s

-- The legend of each key in the order of the matrix; `~` where the key types no character.
abbrev pub plain_legends : List ℕ
plain_legends = codes "@abcdefghijklmnopqrstuvwxyz~~~~ 0123456789:;,-./"

abbrev pub shifted_legends : List ℕ
shifted_legends = codes "~ABCDEFGHIJKLMNOPQRSTUVWXYZ~~~~~~!\"#$%&'()*+<=>?"

unfoldable pub legend : CocoKeyCombo → ℕ
legend c = if c.shift then get_or shifted_legends c.key 0 else get_or plain_legends c.key 0

agrees : ℕ → Option CocoKeyCombo → Bool
agrees ch none = true
agrees ch (some c) = legend c == ch && ltb c.key count

agrees_below : scan_below (λ ch. agrees ch (map_char_to_coco ch)) 123 ≡ true
unfolding scan_below agrees legend map_char_to_coco
agrees_below = refl

unmapped : (ch : ℕ) → 123 ≤ ch → map_char_to_coco ch ≡ none
unfolding map_char_to_coco
unmapped ch h = ground arith

agrees_lem :
    (ch : ℕ) (o : Option CocoKeyCombo) (c : CocoKeyCombo)
    → o ≡ some c
    → agrees ch o ≡ true
    → (legend c ≡ ch) × (c.key < count)
unfolding agrees
agrees_lem ch none c e h = cc
agrees_lem ch (some d) c e h = ground arith

-- A character that is mapped is mapped to a key of the matrix, and the combination types that
-- character: the key's legend, with shift where the mapping asks for it, is the character.
pub legend-map_char_to_coco :
    (ch : ℕ) (c : CocoKeyCombo) → map_char_to_coco ch ≡ some c → (legend c ≡ ch) × (c.key < count)
legend-map_char_to_coco ch c e = elim (dec_lt ch 123) [
  | yes small ↦ agrees_lem ch (map_char_to_coco ch) c e (scan_below_lem _ ch 123 small agrees_below)
  | no large ↦ absurd (ground (arith, unmapped ch))
]
