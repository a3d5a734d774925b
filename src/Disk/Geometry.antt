-- ===== src/Disk/Geometry.antt =====
-- emulation/libcommon/src/media/geometry_calculators: the geometry of an image from its header
-- and the size of its file.
use cutiecoco.Base.{
  ℕ, ◌+◌, ◌-◌, ◌*◌, ◌/◌, ◌%◌, not, ◌||◌, Option, some, none, ltb, ◌==◌, if◌then◌else◌,
}
use cutiecoco.Base.Bits.{bit}

pub record Geometry : Type 0 where
  pub head_count : ℕ
  pub track_count : ℕ
  pub sector_count : ℕ
  pub sector_size : ℕ

-- The initial values of the members of `disk_geometry` and `generic_disk_geometry`.
abbrev pub default_geometry : Geometry
default_geometry = record { head_count = 1; track_count = 35; sector_count = 18; sector_size = 256 }

pub record Calculated : Type 0 where
  pub image_file_data_offset : ℕ
  pub geometry : Geometry

-- What a calculator does: the optional result, or a division by zero.
pub data Calculation : Type 0 where
  result : Option Calculated → Calculation
  division_by_zero : Calculation

-- The header buffer is a function from an index below 32.
abbrev pub Header : Type 0
Header = ℕ → ℕ

abbrev pub raw_header_size : ℕ
raw_header_size = 0

abbrev pub jvc_header_size : ℕ
jvc_header_size = 2

abbrev pub vdk_header_size : ℕ
vdk_header_size = 12

-- One or two sides, by the total number of tracks.
abbrev pub sided : Geometry → ℕ → Geometry
sided g tracks =
    if ltb tracks 70 || bit tracks 0
    then record g { track_count = tracks; head_count = 1 }
    else record g { track_count = tracks / 2; head_count = 2 }

unfoldable pub raw_calculate : Geometry → ℕ → Calculation
raw_calculate default file_size =
    let track_size = default.sector_count * default.sector_size in
    if track_size == 0
    then division_by_zero
    else if not (file_size % track_size == 0)
    then result none
    else if ltb (file_size / track_size) 35
    then result none
    else (let g = sided default (file_size / track_size) in
        if ltb 255 g.track_count
        then result none
        else result (some (record { image_file_data_offset = 0; geometry = g })))

-- The total number of sectors that an OS-9 header names.
abbrev pub os9_total_sectors : Header → ℕ
os9_total_sectors h = h 0 * 65536 + h 1 * 256 + h 2

unfoldable pub os9_calculate : Geometry → Header → Option Calculated
os9_calculate default h =
    let heads = h 16 % 2 + 1 in
    if not (h 3 == 18) || not (os9_total_sectors h % (heads * 18) == 0)
    then none
    else some (record {
      image_file_data_offset = 0;
      geometry = record default {
        head_count = heads;
        track_count = os9_total_sectors h / 18;
        sector_count = 18;
      };
    })

-- Called for a file of at least two bytes: its size leaves the remainder 2.
unfoldable pub jvc_calculate : Geometry → Header → ℕ → Calculation
jvc_calculate default h file_size =
    if h 1 == 0
    then result none
    else (let track_size = h 0 * default.sector_size * h 1 in
        let image_size = file_size - jvc_header_size in
        if track_size == 0
        then division_by_zero
        else if not (image_size % track_size == 0)
        then result none
        else result (
            some (record {
              image_file_data_offset = jvc_header_size;
              geometry = record default {
                head_count = h 1;
                sector_count = h 0;
                track_count = image_size / track_size;
              };
            })))

unfoldable pub vdk_calculate : Geometry → Header → ℕ → Calculation
vdk_calculate default h file_size = result none

-- The OS-9 geometry where there is one, and else the raw one.
abbrev pub os9_or_raw : Geometry → ℕ → Option Calculated → Calculation
os9_or_raw default file_size (some c) = result (some c)
os9_or_raw default file_size none = raw_calculate default file_size

unfoldable pub floppy_calculate : Geometry → Header → ℕ → Calculation
floppy_calculate default h file_size =
    if default.sector_size == 0
    then division_by_zero
    else if file_size % default.sector_size == raw_header_size
    then os9_or_raw default file_size (os9_calculate default h)
    else if file_size % default.sector_size == jvc_header_size
    then jvc_calculate default h file_size
    else if file_size % default.sector_size == vdk_header_size
    then vdk_calculate default h file_size
    else result none
