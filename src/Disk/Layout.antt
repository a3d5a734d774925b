-- ===== src/Disk/Layout.antt =====
-- Where the sectors of an image lie.
use cutiecoco.Base.{
  ℕ, suc, ◌+◌, ◌-◌, ◌*◌, ◌<◌, ◌≡◌, inl, inr, ap, true, false, arith, ltb, ◌==◌, Bool-cases, lt→ltb,
  ltb→lt,
}
use native.Mathlib.Nat.{add-mul, mul_assoc, mul_comm, suc-mul, mul-le-mul_right}
use cutiecoco.Disk.Image.{
  Image, Address, check_address, success, is_valid_disk_head, is_valid_disk_track,
  is_valid_sector_record, calculate_sector_offset,
}

-- The address of a sector by head, track and place in its track, with the ids that its record has.
abbrev pub address_of : Image → ℕ → ℕ → ℕ → Address
address_of i head track place = record {
  disk_head = head;
  disk_track = track;
  head_id = head;
  track_id = track;
  sector_id = i.first_valid_sector_id + place;
}

-- A sector of the image's geometry.
pub record IsSector (i : Image) (head track place : ℕ) : Type 0 where
  pub head_in : head < i.head_count
  pub track_in : track < i.track_count
  pub place_in : place < i.sector_count

-- The images that the constructor builds.
abbrev pub IsFormatted : Image → Type 0
IsFormatted i = i.track_size ≡ i.sector_count * i.sector_size

-- The number of a sector in the image.
abbrev pub sector_index : Image → ℕ → ℕ → ℕ → ℕ
sector_index i head track place = (track * i.head_count + head) * i.sector_count + place

place_of : (first place : ℕ) → first + place - first ≡ place
place_of first place = omega arith

pub check_address_lem :
    (i : Image) (head track place : ℕ)
    → IsSector i head track place
    → check_address i (address_of i head track place) ≡ success
unfolding is_valid_disk_head is_valid_disk_track is_valid_sector_record
check_address_lem i head track place h = rw (
  lt→ltb head i.head_count h.head_in,
  lt→ltb track i.track_count h.track_in,
  ==-refl head,
  ==-refl track,
  not_below,
  place_of i.first_valid_sector_id place,
  lt→ltb place i.sector_count h.place_in,
)
  where
    not_below : ltb (i.first_valid_sector_id + place) i.first_valid_sector_id ≡ false
    not_below = ground arith

    ==-refl : (n : ℕ) → (n == n) ≡ true
    ==-refl n = ground arith

-- Sectors follow each other by number: tracks alternate between the heads.
pub offset_lem :
    (i : Image) (head track place : ℕ)
    → IsFormatted i
    → calculate_sector_offset i (address_of i head track place)
      ≡ i.track_data_offset + sector_index i head track place * i.sector_size
unfolding calculate_sector_offset
offset_lem i head track place f =
    rw (f, place_of i.first_valid_sector_id place)
      (omega (
        arith,
        add-mul ((track * i.head_count + head) * i.sector_count) place i.sector_size,
        mul_assoc (track * i.head_count + head) i.sector_count i.sector_size,
        add-mul (track * i.head_count) head (i.sector_count * i.sector_size),
        ap (λ z. z * (i.sector_count * i.sector_size)) (mul_comm track i.head_count),
      ))

pub below_row : (n x y a : ℕ) → a < n → x < y → x * n + a < y * n
below_row n x y a h k =
    omega (arith, suc-mul x n, mul-le-mul_right {m = suc x} {n = y} n (omega arith))

-- Two numbers below `n` in rows of `n`.
pub row_injective : (n x y a b : ℕ) → a < n → b < n → x * n + a ≡ y * n + b → (x ≡ y) × (a ≡ b)
row_injective n x y a b ha hb e = elim (Bool-cases (ltb x y)) [
  | inl less ↦ absurd (omega (arith, below_row n x y a ha (ltb→lt x y less)))
  | inr not_less ↦ elim (Bool-cases (ltb y x)) [
    | inl more ↦ absurd (omega (arith, below_row n y x b hb (ltb→lt y x more)))
    | inr not_more ↦
        (same not_less not_more, omega (arith, ap (λ z. z * n) (same not_less not_more)))
  ]
]
  where
    same : ltb x y ≡ false → ltb y x ≡ false → x ≡ y
    same l m = ground (arith, l, m)

-- Different sectors have different numbers.
pub sector_index_injective :
    (i : Image) (h t p h' t' p' : ℕ)
    → IsSector i h t p
    → IsSector i h' t' p'
    → sector_index i h t p ≡ sector_index i h' t' p'
    → (h ≡ h') × (t ≡ t') × (p ≡ p')
sector_index_injective i h t p h' t' p' s s' e =
    let (rows, places) =
      row_injective i.sector_count (t * i.head_count + h) (t' * i.head_count + h') p p' s.place_in
        s'.place_in e in
    let (tracks, heads) = row_injective i.head_count t t' h h' s.head_in s'.head_in rows in
    (heads, tracks, places)
