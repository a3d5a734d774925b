-- ===== src/Disk/Load.antt =====
-- emulation/libcommon/src/utils/load_disk_image.cpp: opening the image in a file, writable if the
-- file allows it. The calculator is the one for floppies.
use cutiecoco.Base.{ℕ, Bool, true, false, some, none, ltb, if◌then◌else◌}
use cutiecoco.Disk.Geometry.{
  Calculation, result, division_by_zero, default_geometry, floppy_calculate,
}
use cutiecoco.Disk.Image.{Image, Stream, opened, Outcome, generic_disk_image}

-- A path as the file system answers for it.
pub data DiskFile : Type 0 where
  absent : DiskFile
  read_only : Stream → DiskFile
  read_write : Stream → DiskFile

-- No image, a division by zero in a calculator, or what the constructor of the image does.
pub data Loaded : Type 0 where
  no_image crashed : Loaded
  constructed : Outcome Image → Loaded

abbrev pub header_buffer_size : ℕ
header_buffer_size = 32

abbrev pub first_valid_id : ℕ
first_valid_id = 1

abbrev pub construct : Bool → Stream → Calculation → Loaded
construct protected stream division_by_zero = crashed
construct protected stream (result none) = no_image
construct protected stream (result (some c)) = constructed (
    generic_disk_image (opened stream) c.geometry c.image_file_data_offset first_valid_id protected)

abbrev pub load_stream : Bool → Stream → Loaded
load_stream protected stream =
    if ltb stream.size header_buffer_size
    then no_image
    else if stream.broken
    then no_image
    else construct protected stream (floppy_calculate default_geometry stream.bytes stream.size)

unfoldable pub load_disk_image : DiskFile → Loaded
load_disk_image absent = no_image
load_disk_image (read_only stream) = load_stream true stream
load_disk_image (read_write stream) = load_stream false stream
