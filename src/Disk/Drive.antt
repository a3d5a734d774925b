-- ===== src/Disk/Drive.antt =====
-- emulation/libcommon/src/peripherals/disk_drives/generic_disk_drive.cpp, and the placeholder that
-- a drive holds without a disk (media/disk_images/placeholder_disk_image.cpp). Methods that only
-- pass a question on to the image are left out. The path of a disk is whether there is one.
use cutiecoco.Base.{
  ℕ, ◌+◌, ◌-◌, Bool, true, false, Option, some, none, List, ltb, if◌then◌else◌, min,
}
use cutiecoco.Disk.Geometry.{Geometry}
use cutiecoco.Disk.Image.{
  Image, Outcome, ok, throw, invalid_argument, fatal_io_error, ErrorId, empty, Address,
  SectorHeader, read_sector, write_sector, read_track, write_track,
}

pub record Placeholder : Type 0 where
  pub geometry : Geometry
  pub first_valid_sector_id : ℕ

-- A disk in the drive: the placeholder, or an image.
pub data Disk : Type 0 where
  placeholder : Placeholder → Disk
  image : Image → Disk

abbrev pub tracks_of : Disk → ℕ
tracks_of (placeholder p) = p.geometry.track_count
tracks_of (image i) = i.track_count

pub record Drive : Type 0 where
  pub placeholder_disk : Placeholder
  pub disk_image : Disk
  pub has_disk : Bool
  pub head_position : ℕ

unfoldable pub track_count : Drive → ℕ
track_count d = tracks_of d.disk_image

unfoldable pub eject : Drive → Drive
eject d = record d { disk_image = placeholder d.placeholder_disk; has_disk = false }

-- `insert`, given the image if the pointer is not null, and whether the path is empty.
unfoldable pub insert : Option Disk → Bool → Drive → Outcome Drive
insert none empty_path d = throw invalid_argument
insert (some disk) empty_path d =
    if empty_path
    then throw invalid_argument
    else ok (record (eject d) { disk_image = disk; has_disk = true })

pub data StepDirection : Type 0 where
  inward outward : StepDirection

unfoldable pub step_in : Drive → Drive
step_in d =
    if ltb (d.head_position + 1) (track_count d)
    then record d { head_position = d.head_position + 1 }
    else d

unfoldable pub step_out : Drive → Drive
step_out d = if ltb 0 d.head_position then record d { head_position = d.head_position - 1 } else d

unfoldable pub step : StepDirection → Drive → Drive
step inward d = step_in d
step outward d = step_out d

unfoldable pub seek_to_track : ℕ → Drive → Drive
seek_to_track track d = record d { head_position = min track (track_count d - 1) }

-- The address under the head: the drive's side and the head's track.
abbrev pub under_head : Drive → ℕ → ℕ → ℕ → ℕ → Address
under_head d head head_id track_id sector_id = record {
  disk_head = head;
  disk_track = d.head_position;
  head_id = head_id;
  track_id = track_id;
  sector_id = sector_id;
}

abbrev read_disk : Disk → Address → List ℕ → Outcome (ErrorId × List ℕ)
read_disk (placeholder p) a buffer = ok (empty, buffer)
read_disk (image i) a buffer = read_sector i a buffer

unfoldable pub drive_read_sector : Drive → ℕ → ℕ → ℕ → ℕ → List ℕ → Outcome (ErrorId × List ℕ)
drive_read_sector d head head_id track_id sector_id buffer =
    read_disk d.disk_image (under_head d head head_id track_id sector_id) buffer

abbrev pub with_image : Drive → Outcome (ErrorId × Image) → Outcome (ErrorId × Drive)
with_image d (throw fault) = throw fault
with_image d (ok (error, i)) = ok (error, record d { disk_image = image i })

abbrev write_disk : Drive → Disk → Address → List ℕ → Outcome (ErrorId × Drive)
write_disk d (placeholder p) a buffer = ok (empty, d)
write_disk d (image i) a buffer = with_image d (write_sector i a buffer)

unfoldable pub drive_write_sector : Drive → ℕ → ℕ → ℕ → ℕ → List ℕ → Outcome (ErrorId × Drive)
drive_write_sector d head head_id track_id sector_id buffer =
    write_disk d d.disk_image (under_head d head head_id track_id sector_id) buffer

abbrev write_disk_track : Drive → Disk → ℕ → List (SectorHeader × List ℕ) → Outcome Drive
write_disk_track d (placeholder p) head sectors = throw fatal_io_error
write_disk_track d (image i) head sectors = wrap (write_track i head d.head_position sectors)
  where
    wrap : Outcome Image → Outcome Drive
    wrap (throw fault) = throw fault
    wrap (ok i') = ok (record d { disk_image = image i' })

pub drive_write_track : Drive → ℕ → List (SectorHeader × List ℕ) → Outcome Drive
drive_write_track d head sectors = write_disk_track d d.disk_image head sectors

abbrev read_disk_track : Disk → ℕ → ℕ → Outcome (List (SectorHeader × List ℕ))
read_disk_track (placeholder p) head track = throw fatal_io_error
read_disk_track (image i) head track = read_track i head track

pub drive_read_track : Drive → ℕ → Outcome (List (SectorHeader × List ℕ))
drive_read_track d head = read_disk_track d.disk_image head d.head_position
