-- ===== src/Disk/Tests.antt =====
-- The theorems of the disk library at images of 35 tracks, and at a two-sided OS-9 header.
use cutiecoco.Base.{
  ℕ, zero, suc, ◌+◌, ◌-◌, ◌*◌, ◌%◌, ◌≤◌, ◌≡◌, refl, true, false, some, none, List, [], ◌∷◌, arith,
  ◌==◌, if◌then◌else◌, min, length, take,
}
use cutiecoco.Disk.Drive.{
  Drive, image, inward, outward, track_count, seek_to_track, drive_read_sector, drive_write_sector,
}
use cutiecoco.Disk.Fits.{
  covers, floppy_calculate-covers, os9_calculate-covers, load_disk_image-fits,
}
use cutiecoco.Disk.Geometry.{
  Calculated, Header, result, default_geometry, floppy_calculate, os9_calculate, raw_calculate,
  os9_total_sectors,
}
use cutiecoco.Disk.Heads.{steps, steps_lem, drive_read_sector-drive_write_sector}
use cutiecoco.Disk.Image.{Image, Stream, ok, success, generic_disk_image, read_sector, write_sector}
use cutiecoco.Disk.Layout.{IsSector, address_of}
use cutiecoco.Disk.Load.{read_write, constructed, load_disk_image}
use cutiecoco.Disk.Sectors.{sector_end, read_sector-write_sector, read_sector-write_sector_ne}

abbrev blank : Stream
blank = record { bytes = λ i. 0; size = 161280; broken = false }

abbrev disk : Image
disk = record {
  head_count = 1;
  track_count = 35;
  first_valid_sector_id = 1;
  is_write_protected = false;
  stream = blank;
  track_data_offset = 0;
  sector_count = 18;
  track_size = 4608;
  sector_size = 256;
}

loaded : load_disk_image (read_write blank) ≡ constructed (ok disk)
unfolding load_disk_image floppy_calculate os9_calculate raw_calculate generic_disk_image
loaded = refl

no_os9 : os9_calculate default_geometry blank.bytes ≡ none
unfolding os9_calculate
no_os9 = refl

last-IsSector : IsSector disk 0 34 17
last-IsSector = record { head_in = omega arith; track_in = omega arith; place_in = omega arith }

first-IsSector : IsSector disk 0 0 0
first-IsSector = record { head_in = omega arith; track_in = omega arith; place_in = omega arith }

load_disk_image-fits_example : sector_end disk 0 34 17 ≤ blank.size
load_disk_image-fits_example =
    load_disk_image-fits false blank disk 0 34 17 loaded no_os9 last-IsSector

abbrev raw : Calculated
raw = record { image_file_data_offset = 0; geometry = default_geometry }

found_raw : floppy_calculate default_geometry blank.bytes 161280 ≡ result (some raw)
unfolding floppy_calculate os9_calculate raw_calculate
found_raw = refl

floppy_calculate-covers_example : covers raw ≡ 161280
floppy_calculate-covers_example = floppy_calculate-covers blank.bytes 161280 raw no_os9 found_raw

-- 1440 sectors on two sides, as on a disk of 40 tracks.
abbrev two_sided : Header
two_sided i =
    if i == 1 then 5 else if i == 2 then 0xa0 else if i == 3 then 18 else if i == 16 then 1 else 0

abbrev doubled : Calculated
doubled = record {
  image_file_data_offset = 0;
  geometry = record default_geometry { head_count = 2; track_count = 80 };
}

found_doubled : os9_calculate default_geometry two_sided ≡ some doubled
unfolding os9_calculate
found_doubled = refl

os9_calculate-covers_example :
    covers doubled ≡ (two_sided 16 % 2 + 1) * (os9_total_sectors two_sided * 256)
os9_calculate-covers_example = os9_calculate-covers two_sided doubled found_doubled

zeros : ℕ → List ℕ
zeros zero = []
zeros (suc n) = 0 ∷ zeros n

length-zeros : (n : ℕ) → length (zeros n) ≡ n
unfolding zeros
length-zeros zero = refl
length-zeros (suc n) = omega (arith, length-zeros n)

long : 256 ≤ length (zeros 256)
long = omega (arith, length-zeros 256)

read_sector-write_sector_example :
    (i' : Image) × (write_sector disk (address_of disk 0 34 17) (zeros 256) ≡ ok (success, i'))
    × (read_sector i' (address_of disk 0 34 17) [] ≡ ok (success, take 256 (zeros 256)))
read_sector-write_sector_example =
    read_sector-write_sector disk 0 34 17 (zeros 256) [] last-IsSector refl refl long

apart : ¬ ((◌≡◌ {A = ℕ} 0 0) × (◌≡◌ {A = ℕ} 34 0) × (◌≡◌ {A = ℕ} 17 0))
apart (a, b, c) = omega (arith, b)

read_sector-write_sector_ne_example :
    (i' : Image) × (write_sector disk (address_of disk 0 34 17) (zeros 256) ≡ ok (success, i'))
    × (read_sector i' (address_of disk 0 0 0) [] ≡ read_sector disk (address_of disk 0 0 0) [])
read_sector-write_sector_ne_example =
    read_sector-write_sector_ne disk 0 34 17 0 0 0 (zeros 256) [] refl last-IsSector first-IsSector
      apart refl refl long (omega arith)

abbrev drive : Drive
drive = record {
  placeholder_disk = record { geometry = default_geometry; first_valid_sector_id = 1 };
  disk_image = image disk;
  has_disk = true;
  head_position = 30;
}

steps_lem_example :
    ((steps inward 9 drive).head_position ≡ min (30 + 9) (track_count drive - 1))
    × ((steps outward 9 drive).head_position ≡ 30 - 9)
steps_lem_example = steps_lem 9 drive (unfold track_count in omega arith)

drive_read_sector-drive_write_sector_example :
    (d' : Drive) × (drive_write_sector (seek_to_track 34 drive) 0 0 34 18 (zeros 256)
      ≡ ok (success, d'))
    × (drive_read_sector d' 0 0 34 18 [] ≡ ok (success, take 256 (zeros 256)))
    × (d'.head_position ≡ 34)
drive_read_sector-drive_write_sector_example =
    drive_read_sector-drive_write_sector drive disk 0 34 17 (zeros 256) [] refl last-IsSector refl
      refl long
