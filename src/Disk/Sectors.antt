-- ===== src/Disk/Sectors.antt =====
-- Reading and writing the sectors of an image: the image is a map from sectors to their bytes.
use cutiecoco.Base.{
  ℕ, zero, suc, ◌+◌, ◌-◌, ◌*◌, ◌≤◌, ◌<◌, ◌≡◌, ◌⊎◌, inl, inr, refl, ◌∙◌, ap, ap₂, sym, true, false,
  ◌&&◌, arith, List, [], ◌∷◌, ltb, leb, if◌then◌else◌, Bool-cases, length, get_or, take, ltb→lt,
}
use native.Mathlib.Nat.{suc-mul, mul-le-mul_right}
use cutiecoco.Disk.Image.{
  Image, Stream, ok, success, read_sector, write_sector, read_bytes, write_bytes,
  calculate_sector_offset,
}
use cutiecoco.Disk.Layout.{
  address_of, IsSector, IsFormatted, sector_index, check_address_lem, offset_lem,
  sector_index_injective,
}

-- The bytes of a buffer from an index on, zeros past its end.
window : List ℕ → ℕ → ℕ → List ℕ
window bs zero at = []
window bs (suc n) at = get_or bs at 0 ∷ window bs n (suc at)

window-shift : (b : ℕ) (bs : List ℕ) (n at : ℕ) → window (b ∷ bs) n (suc at) ≡ window bs n at
unfolding window
window-shift b bs zero at = refl
window-shift b bs (suc n) at = ap (λ xs. get_or bs at 0 ∷ xs) (window-shift b bs n (suc at))

window-take : (bs : List ℕ) (n : ℕ) → n ≤ length bs → window bs n 0 ≡ take n bs
unfolding window
window-take bs zero h = refl
window-take [] (suc n) h = absurd (omega arith)
window-take (b ∷ bs) (suc n) h =
    ap (λ xs. b ∷ xs) (window-shift b bs n 0 ∙ window-take bs n (omega arith))

read_written :
    (s : Stream) (position size n at : ℕ) (bs buffer : List ℕ)
    → at + n ≤ size
    → read_bytes (write_bytes s position size bs) position n at buffer ≡ window bs n at
unfolding read_bytes write_bytes window
read_written s position size zero at bs buffer h = refl
read_written s position size (suc n) at bs buffer h =
    ap₂ (λ x xs. x ∷ xs) (rw (in_size, from, below, offset))
      (read_written s position size n (suc at) bs buffer (omega arith))
  where
    in_size :
        ltb (position + at) (if ltb s.size (position + size) then position + size else s.size)
        ≡ true
    in_size = ground arith

    from : leb position (position + at) ≡ true
    from = ground arith

    below : ltb (position + at) (position + size) ≡ true
    below = ground arith

    offset : position + at - position ≡ at
    offset = omega arith

-- Ranges that do not overlap, the one read within the file.
read_elsewhere :
    (s : Stream) (position size n at position' : ℕ) (bs buffer : List ℕ)
    → (position' + (at + n) ≤ position) ⊎ (position + size ≤ position' + at)
    → position' + (at + n) ≤ s.size
    → read_bytes (write_bytes s position size bs) position' n at buffer
      ≡ read_bytes s position' n at buffer
unfolding read_bytes write_bytes
read_elsewhere s position size zero at position' bs buffer apart inside = refl
read_elsewhere s position size (suc n) at position' bs buffer apart inside =
    ap₂ (λ x xs. x ∷ xs) (rw (in_size, old_size, other))
      (read_elsewhere s position size n (suc at) position' bs buffer rest (omega arith))
  where
    in_size :
        ltb (position' + at) (if ltb s.size (position + size) then position + size else s.size)
        ≡ true
    in_size = ground arith

    old_size : ltb (position' + at) s.size ≡ true
    old_size = ground arith

    other : leb position (position' + at) && ltb (position' + at) (position + size) ≡ false
    other = elim apart [ inl before ↦ ground (arith, before) | inr behind ↦ ground (arith, behind) ]

    rest : (position' + (suc at + n) ≤ position) ⊎ (position + size ≤ position' + suc at)
    rest = elim apart [
      | inl before ↦ inl (omega (arith, before))
      | inr behind ↦ inr (omega (arith, behind))
    ]

-- The image after a successful write.
abbrev pub written : Image → ℕ → ℕ → ℕ → List ℕ → Image
written i head track place bs = record i {
  stream =
      write_bytes i.stream (calculate_sector_offset i (address_of i head track place)) i.sector_size
        bs;
}

-- On a writable image with a working device, a sector of the geometry takes a buffer of at least
-- its size.
pub write_sector_lem :
    (i : Image) (head track place : ℕ) (bs : List ℕ)
    → IsSector i head track place
    → i.stream.broken ≡ false
    → i.is_write_protected ≡ false
    → i.sector_size ≤ length bs
    → write_sector i (address_of i head track place) bs
      ≡ ok (success, written i head track place bs)
unfolding write_sector
write_sector_lem i head track place bs h works unlocked long =
    rw (check_address_lem i head track place h, long_enough, works, unlocked)
  where
    long_enough : ltb (length bs) i.sector_size ≡ false
    long_enough = ground arith

-- A read of a sector of the geometry, with a working device.
pub read_sector_lem :
    (i : Image) (head track place : ℕ) (buffer : List ℕ)
    → IsSector i head track place
    → i.stream.broken ≡ false
    → read_sector i (address_of i head track place) buffer
      ≡ ok (
        success,
        read_bytes i.stream
            (calculate_sector_offset i (address_of i head track place))
            i.sector_size
            0
            buffer,
      )
unfolding read_sector
read_sector_lem i head track place buffer h works =
    rw (check_address_lem i head track place h, works)

-- A sector that is written is read back, whatever the buffer of the read held before.
pub read_sector-write_sector :
    (i : Image) (head track place : ℕ) (bs buffer : List ℕ)
    → IsSector i head track place
    → i.stream.broken ≡ false
    → i.is_write_protected ≡ false
    → i.sector_size ≤ length bs
    → (i' : Image) × (write_sector i (address_of i head track place) bs ≡ ok (success, i'))
      × (read_sector i' (address_of i head track place) buffer
          ≡ ok (success, take i.sector_size bs))
unfolding calculate_sector_offset
read_sector-write_sector i head track place bs buffer h works unlocked long = (
  written i head track place bs,
  write_sector_lem i head track place bs h works unlocked long,
  read_sector_lem (written i head track place bs) head track place buffer
        (record { head_in = h.head_in; track_in = h.track_in; place_in = h.place_in })
        (unfold write_bytes in works)
      ∙ ap (λ r. ok (success, r))
          (read_written i.stream (calculate_sector_offset i (address_of i head track place))
              i.sector_size i.sector_size 0 bs buffer (omega arith)
            ∙ window-take bs i.sector_size long),
)

-- The end of a sector in the file.
abbrev pub sector_end : Image → ℕ → ℕ → ℕ → ℕ
sector_end i head track place =
    i.track_data_offset + (sector_index i head track place * i.sector_size + i.sector_size)

apart_of_index : (x y size : ℕ) → x < y → x * size + size ≤ y * size
apart_of_index x y size h =
    omega (arith, suc-mul x size, mul-le-mul_right {m = suc x} {n = y} size (omega arith))

equal : (x y : ℕ) → ltb x y ≡ false → ltb y x ≡ false → x ≡ y
equal x y l m = ground (arith, l, m)

-- A write of one sector leaves every other sector that lies in the file as it was.
pub read_sector-write_sector_ne :
    (i : Image) (h t p h' t' p' : ℕ) (bs buffer : List ℕ)
    → IsFormatted i
    → IsSector i h t p
    → IsSector i h' t' p'
    → ¬ ((h ≡ h') × (t ≡ t') × (p ≡ p'))
    → i.stream.broken ≡ false
    → i.is_write_protected ≡ false
    → i.sector_size ≤ length bs
    → sector_end i h' t' p' ≤ i.stream.size
    → (i' : Image) × (write_sector i (address_of i h t p) bs ≡ ok (success, i'))
      × (read_sector i' (address_of i h' t' p') buffer
          ≡ read_sector i (address_of i h' t' p') buffer)
unfolding calculate_sector_offset
read_sector-write_sector_ne i h t p h' t' p' bs buffer f s s' other works unlocked long inside = (
  written i h t p bs,
  write_sector_lem i h t p bs s works unlocked long,
  read_sector_lem (written i h t p bs) h' t' p' buffer
        (record { head_in = s'.head_in; track_in = s'.track_in; place_in = s'.place_in })
        (unfold write_bytes in works)
      ∙ ap (λ r. ok (success, r))
          (read_elsewhere i.stream position i.sector_size i.sector_size 0 position' bs buffer apart
            (omega (arith, offset_lem i h' t' p' f, inside)))
      ∙ sym (read_sector_lem i h' t' p' buffer s' works),
)
  where
    position : ℕ
    position = calculate_sector_offset i (address_of i h t p)

    position' : ℕ
    position' = calculate_sector_offset i (address_of i h' t' p')

    x : ℕ
    x = sector_index i h t p

    y : ℕ
    y = sector_index i h' t' p'

    apart :
        (position' + (0 + i.sector_size) ≤ position) ⊎ (position + i.sector_size ≤ position' + 0)
    apart = elim (Bool-cases (ltb x y)) [
      | inl less ↦ inr (
          omega (
            arith,
            offset_lem i h t p f,
            offset_lem i h' t' p' f,
            apart_of_index x y i.sector_size (ltb→lt x y less),
          ))
      | inr not_less ↦ elim (Bool-cases (ltb y x)) [
        | inl more ↦ inl (
            omega (
              arith,
              offset_lem i h t p f,
              offset_lem i h' t' p' f,
              apart_of_index y x i.sector_size (ltb→lt y x more),
            ))
        | inr not_more ↦
            absurd
              (other (sector_index_injective i h t p h' t' p' s s' (equal x y not_less not_more)))
      ]
    ]
