-- ===== src/Disk/Heads.antt =====
-- The head of a drive, and reads and writes under it.
use cutiecoco.Base.{
  ℕ, zero, suc, ◌+◌, ◌-◌, ◌≤◌, ◌<◌, ◌≡◌, refl, ◌∙◌, ap, false, arith, ltb, if◌then◌else◌,
  Bool-cases, inl, inr, List, length, take, min,
}
use cutiecoco.Disk.Drive.{
  Drive, image, StepDirection, inward, outward, track_count, step, step_in, step_out, seek_to_track,
  drive_read_sector, drive_write_sector, with_image, tracks_of,
}
use cutiecoco.Disk.Image.{Image, ok, success}
use cutiecoco.Disk.Layout.{IsSector}
use cutiecoco.Disk.Sectors.{read_sector-write_sector}

-- A sequence of steps.
pub steps : StepDirection → ℕ → Drive → Drive
steps direction zero d = d
steps direction (suc n) d = step direction (steps direction n d)

steps_keep :
    (direction : StepDirection) (n : ℕ) (d : Drive)
    → (steps direction n d).disk_image ≡ d.disk_image
unfolding steps step step_in step_out
steps_keep direction zero d = refl
steps_keep inward (suc n) d =
    elim (Bool-cases
      (ltb ((steps inward n d).head_position + 1) (track_count (steps inward n d)))) [
        | inl e ↦ rw e (steps_keep inward n d)
        | inr e ↦ rw e (steps_keep inward n d)
      ]
steps_keep outward (suc n) d = elim (Bool-cases (ltb 0 (steps outward n d).head_position)) [
  | inl e ↦ rw e (steps_keep outward n d)
  | inr e ↦ rw e (steps_keep outward n d)
]

step_in_head :
    (d : Drive)
    → (step inward d).head_position
      ≡ (if ltb (d.head_position + 1) (track_count d) then d.head_position + 1 else d.head_position)
unfolding step step_in
step_in_head d = elim (Bool-cases (ltb (d.head_position + 1) (track_count d))) [
  | inl e ↦ rw e
  | inr e ↦ rw e
]

step_out_head : (d : Drive) → (step outward d).head_position ≡ d.head_position - 1
unfolding step step_out
step_out_head d = elim (Bool-cases (ltb 0 d.head_position)) [
  | inl e ↦ rw e
  | inr e ↦ rw e (ground (arith, e))
]

-- `n` steps inward stop at the last track of the disk, `n` steps outward at track 0.
pub steps_lem :
    (n : ℕ) (d : Drive)
    → d.head_position < track_count d
    → ((steps inward n d).head_position ≡ min (d.head_position + n) (track_count d - 1))
      × ((steps outward n d).head_position ≡ d.head_position - n)
unfolding steps
steps_lem zero d h = (omega arith, omega arith)
steps_lem (suc n) d h =
    let (inner, outer) = steps_lem n d h in
    (
      step_in_head (steps inward n d) ∙ ground (arith, inner, same_count),
      step_out_head (steps outward n d) ∙ omega (arith, outer),
    )
  where
    same_count : track_count (steps inward n d) ≡ track_count d
    same_count = unfold track_count in ap tracks_of (steps_keep inward n d)

-- After a seek, a sector that is written under the head is the one of that track: it is read back
-- through the drive whole, with the drive otherwise as it was.
pub drive_read_sector-drive_write_sector :
    (d : Drive) (i : Image) (head track place : ℕ) (bs buffer : List ℕ)
    → d.disk_image ≡ image i
    → IsSector i head track place
    → i.stream.broken ≡ false
    → i.is_write_protected ≡ false
    → i.sector_size ≤ length bs
    → let id = i.first_valid_sector_id + place in
      (d' : Drive) × (drive_write_sector (seek_to_track track d) head head track id bs
        ≡ ok (success, d'))
      × (drive_read_sector d' head head track id buffer ≡ ok (success, take i.sector_size bs))
      × (d'.head_position ≡ track)
unfolding drive_write_sector drive_read_sector seek_to_track track_count
drive_read_sector-drive_write_sector d i head track place bs buffer e s works unlocked long =
    let (i', wrote, reads) =
      read_sector-write_sector i head track place bs buffer s works unlocked long in
    (
      record d { disk_image = image i'; head_position = track },
      rw (e, there)
          (ap (with_image (record d { disk_image = image i; head_position = track })) wrote),
      reads,
      refl,
    )
  where
    there : min track (i.track_count - 1) ≡ track
    there = omega (arith, s.track_in)
