-- ===== src/Disk/Image.antt =====
-- emulation/libcommon/src/media/disk_image.cpp and disk_images/generic_disk_image.cpp: a disk
-- image in a stream. The stream is a file of bytes, or a device that fails at each operation. An
-- operation that throws gives the exception's type; its messages are left out.
use cutiecoco.Base.{
  ℕ, zero, suc, ◌+◌, ◌-◌, ◌*◌, Bool, true, false, not, ◌&&◌, ◌||◌, List, [], ◌∷◌, ltb, leb, ◌==◌,
  if◌then◌else◌, length, get_or,
}
use cutiecoco.Disk.Geometry.{Geometry}

pub record Stream : Type 0 where
  pub bytes : ℕ → ℕ
  pub size : ℕ
  pub broken : Bool

-- What the constructor can be given: no stream, a closed one, one whose size is not known.
pub data Source : Type 0 where
  no_stream closed unsized : Source
  opened : Stream → Source

pub data Fault : Type 0 where
  invalid_argument runtime_error fatal_io_error buffer_size_error write_protect_error : Fault
  sector_record_error : Fault

-- A value, or an exception.
pub data Outcome {ℓ} (A : Type ℓ) : Type ℓ where
  ok : A → Outcome A
  throw : Fault → Outcome A

-- `disk_error_id`.
pub data ErrorId : Type 0 where
  success empty invalid_head invalid_track invalid_sector write_protected : ErrorId

pub record Image : Type 0 where
  pub head_count : ℕ
  pub track_count : ℕ
  pub first_valid_sector_id : ℕ
  pub is_write_protected : Bool
  pub stream : Stream
  pub track_data_offset : ℕ
  pub sector_count : ℕ
  pub track_size : ℕ
  pub sector_size : ℕ

unfoldable pub generic_disk_image : Source → Geometry → ℕ → ℕ → Bool → Outcome Image
generic_disk_image source g offset first protected =
    if g.head_count == 0
    then throw invalid_argument
    else if g.track_count == 0
    then throw invalid_argument
    else construct source
  where
    construct : Source → Outcome Image
    construct no_stream = throw invalid_argument
    construct closed = throw invalid_argument
    construct unsized = throw runtime_error
    construct (opened stream) = ok (record {
      head_count = g.head_count;
      track_count = g.track_count;
      first_valid_sector_id = first;
      is_write_protected = protected;
      stream = stream;
      track_data_offset = offset;
      sector_count = g.sector_count;
      track_size = g.sector_count * g.sector_size;
      sector_size = g.sector_size;
    })

unfoldable pub is_valid_disk_head : Image → ℕ → Bool
is_valid_disk_head i head = ltb head i.head_count

unfoldable pub is_valid_disk_track : Image → ℕ → Bool
is_valid_disk_track i track = ltb track i.track_count

pub get_sector_count : Image → ℕ → ℕ → Outcome ℕ
get_sector_count i head track =
    if not (is_valid_disk_head i head)
    then throw invalid_argument
    else if not (is_valid_disk_track i track)
    then throw invalid_argument
    else ok i.sector_count

pub is_valid_track_sector : Image → ℕ → ℕ → ℕ → Bool
is_valid_track_sector i head track sector =
    is_valid_disk_head i head && (is_valid_disk_track i track && ltb sector i.sector_count)

-- Where a drive reads: the head and track of the drive, and the ids that the sector's record has.
pub record Address : Type 0 where
  pub disk_head : ℕ
  pub disk_track : ℕ
  pub head_id : ℕ
  pub track_id : ℕ
  pub sector_id : ℕ

unfoldable pub is_valid_sector_record : Image → Address → Bool
is_valid_sector_record i a =
    if not (a.disk_head == a.head_id) || not (a.disk_track == a.track_id)
    then false
    else if ltb a.sector_id i.first_valid_sector_id
    then false
    else ltb (a.sector_id - i.first_valid_sector_id) i.sector_count

pub get_sector_size : Image → Address → Outcome ℕ
get_sector_size i a =
    if not (is_valid_disk_head i a.disk_head)
    then throw invalid_argument
    else if not (is_valid_disk_track i a.disk_track)
    then throw invalid_argument
    else if not (is_valid_sector_record i a)
    then throw invalid_argument
    else ok i.sector_size

pub record SectorHeader : Type 0 where
  pub head_id : ℕ
  pub track_id : ℕ
  pub sector_id : ℕ
  pub sector_length : ℕ

unfoldable pub query_sector_header_by_index : Image → ℕ → ℕ → ℕ → Outcome SectorHeader
query_sector_header_by_index i head track sector =
    if not (is_valid_disk_head i head)
    then throw invalid_argument
    else if not (is_valid_disk_track i track)
    then throw invalid_argument
    else if leb (i.sector_count + i.first_valid_sector_id) sector
    then throw invalid_argument
    else ok (record {
      head_id = head;
      track_id = track;
      sector_id = sector;
      sector_length = i.sector_size;
    })

unfoldable pub calculate_sector_offset : Image → Address → ℕ
calculate_sector_offset i a =
    let base_offset = i.head_count * a.disk_track * i.track_size in
    let track_offset = a.disk_head * i.track_size in
    let sector_offset = (a.sector_id - i.first_valid_sector_id) * i.sector_size in
    i.track_data_offset + (base_offset + track_offset + sector_offset)

-- `n` bytes from `position`. Past the end of the file the buffer keeps what it had, and zeros
-- where it had to grow.
unfoldable pub read_bytes : Stream → ℕ → ℕ → ℕ → List ℕ → List ℕ
read_bytes s position zero at buffer = []
read_bytes s position (suc n) at buffer =
    (if ltb (position + at) s.size then s.bytes (position + at) else get_or buffer at 0)
    ∷ read_bytes s position n (suc at) buffer

-- The first `n` bytes of a buffer to `position`; a gap after the old end reads as zeros.
unfoldable pub write_bytes : Stream → ℕ → ℕ → List ℕ → Stream
write_bytes s position n buffer = record s {
  bytes = λ i.
      if leb position i && ltb i (position + n)
      then get_or buffer (i - position) 0
      else if ltb i s.size
      then s.bytes i
      else 0;
  size = if ltb s.size (position + n) then position + n else s.size;
}

-- The checks that `read_sector` and `write_sector` begin with.
abbrev pub check_address : Image → Address → ErrorId
check_address i a =
    if not (is_valid_disk_head i a.disk_head) || not (is_valid_disk_head i a.head_id)
    then invalid_head
    else if not (is_valid_disk_track i a.disk_track) || not (is_valid_disk_track i a.track_id)
    then invalid_track
    else if not (is_valid_sector_record i a)
    then invalid_sector
    else success

-- The rest of `read_sector`, after the checks.
abbrev pub read_checked : Image → Address → List ℕ → ErrorId → Outcome (ErrorId × List ℕ)
read_checked i a buffer success =
    if i.stream.broken
    then throw fatal_io_error
    else ok (success, read_bytes i.stream (calculate_sector_offset i a) i.sector_size 0 buffer)
read_checked i a buffer error = ok (error, buffer)

unfoldable pub read_sector : Image → Address → List ℕ → Outcome (ErrorId × List ℕ)
read_sector i a buffer = read_checked i a buffer (check_address i a)

-- The rest of `write_sector`, after the checks.
abbrev pub write_checked : Image → Address → List ℕ → ErrorId → Outcome (ErrorId × Image)
write_checked i a buffer success =
    if ltb (length buffer) i.sector_size
    then throw buffer_size_error
    else if i.stream.broken
    then throw fatal_io_error
    else if i.is_write_protected
    then ok (write_protected, i)
    else ok (
      success,
      record i { stream = write_bytes i.stream (calculate_sector_offset i a) i.sector_size buffer },
    )
write_checked i a buffer error = ok (error, i)

unfoldable pub write_sector : Image → Address → List ℕ → Outcome (ErrorId × Image)
write_sector i a buffer = write_checked i a buffer (check_address i a)

-- `read_track`, which is not implemented beyond its checks.
pub read_track : Image → ℕ → ℕ → Outcome (List (SectorHeader × List ℕ))
read_track i head track =
    if not (is_valid_disk_head i head)
    then throw invalid_argument
    else if not (is_valid_disk_track i track)
    then throw invalid_argument
    else throw runtime_error

abbrev have_length : ℕ → List (SectorHeader × List ℕ) → Bool
have_length size [] = true
have_length size ((header, contents) ∷ rest) =
    (header.sector_length == size) && have_length size rest

-- The loop over the sectors; an error of one sector does not stop it, an exception does.
pub write_sectors : Image → ℕ → ℕ → List (SectorHeader × List ℕ) → Outcome Image
write_sectors i head track [] = ok i
write_sectors i head track ((header, contents) ∷ rest) =
    continue (λ i'. write_sectors i' head track rest) (write_sector i address contents)
  where
    address : Address
    address = record {
      disk_head = head;
      disk_track = track;
      head_id = header.head_id;
      track_id = header.track_id;
      sector_id = header.sector_id;
    }

    continue : (Image → Outcome Image) → Outcome (ErrorId × Image) → Outcome Image
    continue next (throw fault) = throw fault
    continue next (ok (error, i')) = next i'

pub write_track : Image → ℕ → ℕ → List (SectorHeader × List ℕ) → Outcome Image
write_track i head track sectors =
    if not (is_valid_disk_head i head)
    then throw invalid_argument
    else if not (is_valid_disk_track i track)
    then throw invalid_argument
    else if i.is_write_protected
    then throw write_protect_error
    else if not (have_length i.sector_size sectors)
    then throw sector_record_error
    else write_sectors i head track sectors
