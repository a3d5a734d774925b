-- ===== src/Disk/Fits.antt =====
-- The geometries against the size of the file.
use cutiecoco.Base.{
  ℕ, suc, ◌+◌, ◌-◌, ◌*◌, ◌/◌, ◌%◌, ◌≤◌, ◌<◌, ◌≡◌, ◌⊎◌, inl, inr, refl, ◌∙◌, ap, sym, subst, Bool,
  true, false, not, ◌||◌, arith, Option, some, none, ltb, ◌==◌, if◌then◌else◌, Bool-cases,
}
use native.Mathlib.Nat.{div-add-mod', suc-mul, mul-le-mul_right, mul_comm, mul_assoc}
use cutiecoco.Base.Bits.{bit}
use cutiecoco.Disk.Geometry.{
  Geometry, Calculated, Calculation, result, division_by_zero, Header, default_geometry,
  raw_calculate, os9_calculate, jvc_calculate, vdk_calculate, floppy_calculate, os9_total_sectors,
  sided, jvc_header_size,
}
use cutiecoco.Disk.Image.{Image, Stream, Outcome, ok, throw, generic_disk_image}
use cutiecoco.Disk.Load.{
  read_only, read_write, Loaded, no_image, crashed, constructed, construct, load_stream,
  load_disk_image,
}
use cutiecoco.Disk.Layout.{IsSector, below_row, sector_index}
use cutiecoco.Disk.Sectors.{sector_end}

-- The size of a file that holds every sector of a geometry after its header.
abbrev pub covers : Calculated → ℕ
covers c =
    c.image_file_data_offset
    + c.geometry.track_count
      * c.geometry.head_count
      * (c.geometry.sector_count * c.geometry.sector_size)

-- What a calculation promises if it finds a geometry.
abbrev Promises : (Calculated → Type 0) → Calculation → Type 0
Promises P (result (some c)) = P c
Promises P (result none) = Unit {0}
Promises P division_by_zero = Unit {0}

branch :
    (P : Calculated → Type 0) (b : Bool) (x y : Calculation)
    → (b ≡ true → Promises P x)
    → (b ≡ false → Promises P y)
    → Promises P (if b then x else y)
branch P true x y h k = h refl
branch P false x y h k = k refl

-- A whole number of rows of `n`.
whole : (x n : ℕ) → (x % n == 0) ≡ true → x / n * n ≡ x
whole x n h = ground (arith, div-add-mod' x n, h)

raw_covers : (g : Geometry) (size : ℕ) → Promises (λ c. covers c ≡ size) (raw_calculate g size)
unfolding raw_calculate
raw_covers g size =
    branch P (track_size == 0) _ _ (λ z. tt)
      λ nonzero.
        branch P (not (size % track_size == 0)) _ _ (λ z. tt)
          λ fits.
            branch P (ltb (size / track_size) 35) _ _ (λ z. tt)
              λ enough.
                branch P (ltb 255 (sided g (size / track_size)).track_count) _ _ (λ z. tt)
                  λ few. elim (Bool-cases (ltb tracks 70 || bit tracks 0)) [
                    | inl one ↦ rw one (
                        omega (
                          arith,
                          ap (λ t. t * track_size) (one_side tracks),
                          whole size track_size (exact fits),
                        ))
                    | inr two ↦ rw two (
                        omega (
                          arith,
                          ap (λ t. t * track_size) (two_sides tracks two),
                          whole size track_size (exact fits),
                        ))
                  ]
  where
    track_size : ℕ
    track_size = g.sector_count * g.sector_size

    tracks : ℕ
    tracks = size / track_size

    P : Calculated → Type 0
    P c = covers c ≡ size

    exact : not (size % track_size == 0) ≡ false → (size % track_size == 0) ≡ true
    exact h = ground (arith, h)

    one_side : (t : ℕ) → t * 1 ≡ t
    one_side t = omega arith

    two_sides : (t : ℕ) → (ltb t 70 || bit t 0) ≡ false → t / 2 * 2 ≡ t
    two_sides t h = ground (arith, h)

jvc_covers :
    (g : Geometry) (h : Header) (size : ℕ)
    → 2 ≤ size
    → Promises (λ c. covers c ≡ size) (jvc_calculate g h size)
unfolding jvc_calculate
jvc_covers g h size two =
    branch P (h 1 == 0) _ _ (λ z. tt)
      λ heads.
        branch P (track_size == 0) _ _ (λ z. tt)
          λ nonzero.
            branch P (not (image_size % track_size == 0)) _ _ (λ z. tt)
              λ fits. omega (
                arith,
                mul_assoc tracks (h 1) (h 0 * g.sector_size),
                ap (λ z. tracks * z) (mul_comm (h 1) (h 0 * g.sector_size)),
                whole image_size track_size (exact fits),
              )
  where
    track_size : ℕ
    track_size = h 0 * g.sector_size * h 1

    image_size : ℕ
    image_size = size - jvc_header_size

    tracks : ℕ
    tracks = image_size / track_size

    P : Calculated → Type 0
    P c = covers c ≡ size

    exact : not (image_size % track_size == 0) ≡ false → (image_size % track_size == 0) ≡ true
    exact e = ground (arith, e)

-- Where the header is not one of OS-9, the geometry that is found for a floppy image fills its
-- file exactly: header, and every sector of every track of every side.
pub floppy_calculate-covers :
    (h : Header) (size : ℕ) (c : Calculated)
    → os9_calculate default_geometry h ≡ none
    → floppy_calculate default_geometry h size ≡ result (some c)
    → covers c ≡ size
unfolding floppy_calculate vdk_calculate
floppy_calculate-covers h size c raw found = subst (Promises P) found promised
  where
    P : Calculated → Type 0
    P d = covers d ≡ size

    promised : Promises P (floppy_calculate default_geometry h size)
    promised =
        branch P (size % 256 == 0) _ _ (λ e. rw raw (raw_covers default_geometry size))
          λ e.
            branch P (size % 256 == 2) _ _
              (λ e'. jvc_covers default_geometry h size (ground (arith, e')))
              λ e'. branch P (size % 256 == 12) _ _ (λ e''. tt) (λ e''. tt)

abbrev OptionPromises : (Calculated → Type 0) → Option Calculated → Type 0
OptionPromises P (some c) = P c
OptionPromises P none = Unit {0}

-- Where the header is one of OS-9, the geometry takes as many sectors from each side as the header
-- gives the whole disk, whatever the size of the file.
pub os9_calculate-covers :
    (h : Header) (c : Calculated)
    → os9_calculate default_geometry h ≡ some c
    → covers c ≡ (h 16 % 2 + 1) * (os9_total_sectors h * 256)
unfolding os9_calculate
os9_calculate-covers h c found = subst (OptionPromises P) found promised
  where
    P : Calculated → Type 0
    P d = covers d ≡ (h 16 % 2 + 1) * (os9_total_sectors h * 256)

    sizes :
        (total heads : ℕ)
        → heads ≡ 1 ⊎ heads ≡ 2
        → (total % (heads * 18) == 0) ≡ true
        → 0 + total / 18 * heads * (18 * 256) ≡ heads * (total * 256)
    sizes total heads (inl one) e = rw one (ground (arith, (rw one at e)))
    sizes total heads (inr two) e = rw two (ground (arith, (rw two at e)))

    sides : (n : ℕ) → n % 2 + 1 ≡ 1 ⊎ n % 2 + 1 ≡ 2
    sides n = ground arith

    promised : OptionPromises P (os9_calculate default_geometry h)
    promised =
        elim (Bool-cases
          (not (h 3 == 18) || not (os9_total_sectors h % ((h 16 % 2 + 1) * 18) == 0))) [
            | inl bad ↦ rw bad tt
            | inr good ↦
                rw good
                  (sizes (os9_total_sectors h) (h 16 % 2 + 1) (sides (h 16)) (ground (arith, good)))
          ]

-- Every sector of a geometry ends within its extent.
end_in_extent :
    (i : Image) (head track place : ℕ)
    → IsSector i head track place
    → sector_end i head track place
      ≤ i.track_data_offset + i.track_count * i.head_count * (i.sector_count * i.sector_size)
end_in_extent i head track place s = omega (
  arith,
  suc-mul index i.sector_size,
  mul-le-mul_right {m = suc index} {n = i.track_count * i.head_count * i.sector_count} i.sector_size
      (omega (arith, last)),
  mul_assoc (i.track_count * i.head_count) i.sector_count i.sector_size,
)
  where
    index : ℕ
    index = sector_index i head track place

    row : track * i.head_count + head < i.track_count * i.head_count
    row = below_row i.head_count track i.track_count head s.head_in s.track_in

    last : index < i.track_count * i.head_count * i.sector_count
    last =
        below_row i.sector_count (track * i.head_count + head) (i.track_count * i.head_count) place
          s.place_in row

-- What a load promises if it constructs an image.
abbrev LoadPromises : (Image → Type 0) → Loaded → Type 0
LoadPromises P no_image = Unit {0}
LoadPromises P crashed = Unit {0}
LoadPromises P (constructed (throw fault)) = Unit {0}
LoadPromises P (constructed (ok i)) = P i

load_branch :
    (P : Image → Type 0) (b : Bool) (x y : Loaded)
    → LoadPromises P x
    → LoadPromises P y
    → LoadPromises P (if b then x else y)
load_branch P true x y h k = h
load_branch P false x y h k = k

construct_promises :
    (P : Image → Type 0) (b : Bool) (x y : Outcome Image)
    → LoadPromises P (constructed x)
    → LoadPromises P (constructed y)
    → LoadPromises P (constructed (if b then x else y))
construct_promises P true x y h k = h
construct_promises P false x y h k = k

-- An image without an OS-9 header, once it is loaded, has all its sectors within its file.
pub load_disk_image-fits :
    (protected : Bool) (stream : Stream) (i : Image) (head track place : ℕ)
    → load_disk_image (if protected then read_only stream else read_write stream)
      ≡ constructed (ok i)
    → os9_calculate default_geometry stream.bytes ≡ none
    → IsSector i head track place
    → sector_end i head track place ≤ stream.size
unfolding load_disk_image
load_disk_image-fits protected stream i head track place loaded raw s = omega (
  arith,
  end_in_extent i head track place s,
  subst (LoadPromises P) (same protected ∙ loaded) promised,
)
  where
    P : Image → Type 0
    P j =
        j.track_data_offset + j.track_count * j.head_count * (j.sector_count * j.sector_size)
        ≡ stream.size

    same :
        (b : Bool)
        → load_stream b stream ≡ load_disk_image (if b then read_only stream else read_write stream)
    same true = refl
    same false = refl

    geometry :
        (c : Calculation)
        → c ≡ floppy_calculate default_geometry stream.bytes stream.size
        → LoadPromises P (construct protected stream c)
    geometry division_by_zero e = tt
    geometry (result none) e = tt
    geometry (result (some c)) e =
        unfold generic_disk_image in
        construct_promises P (c.geometry.head_count == 0) _ _ tt (
          construct_promises P (c.geometry.track_count == 0) _ _ tt
            (floppy_calculate-covers stream.bytes stream.size c raw (sym e)))

    promised : LoadPromises P (load_stream protected stream)
    promised =
        load_branch P (ltb stream.size 32) _ _ tt
          (load_branch P stream.broken _ _ tt (geometry _ refl))
