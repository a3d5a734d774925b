-- ===== src/Video/Obey.antt =====
-- The calls that the GIME, the SAM, the MMU and the PIA make of the video unit
-- (emulation/tcc1014graphics.cpp), as the operations that they name. Calls of other units leave it
-- alone.
use cutiecoco.Base.{◌%◌, Bool, true, List, [], ◌∷◌, ltb, ◌==◌}
use cutiecoco.Calls.{
  Call, set_vid_mask, set_video_bank, set_compat_mode, set_gime_vmode, set_gime_vres,
  set_gime_border_color, set_gime_pallet, set_gime_horz_offset, set_vertical_offset_register,
  set_gime_vdg_offset, set_gime_vdg_mode, set_gime_vdg_mode2,
}
use cutiecoco.Video.{Video}
use cutiecoco.Video.Registers

unfoldable pub obey : Call → Video → Video
obey (set_vid_mask mask) v = Registers.set_vid_mask mask v
obey (set_video_bank bank) v = Registers.set_video_bank bank v
obey (set_compat_mode mode) v = Registers.set_compat_mode mode v
obey (set_gime_vmode mode) v = Registers.set_gime_vmode mode v
obey (set_gime_vres res) v = Registers.set_gime_vres res v
obey (set_gime_border_color color) v = Registers.set_gime_border_color color v
obey (set_gime_pallet index color) v = Registers.set_gime_pallet index color v
obey (set_gime_horz_offset offset) v = Registers.set_gime_horz_offset offset v
obey (set_vertical_offset_register register) v = Registers.set_vertical_offset_register register v
obey (set_gime_vdg_offset offset) v = Registers.set_gime_vdg_offset offset v
obey (set_gime_vdg_mode mode) v = Registers.set_gime_vdg_mode mode v
obey (set_gime_vdg_mode2 mode) v = Registers.set_gime_vdg_mode2 mode v
obey _ v = v

unfoldable pub obey_all : List Call → Video → Video
obey_all [] v = v
obey_all (call ∷ calls) v = obey_all calls (obey call v)

-- The three bits of a SAM mode index a table of eight; a mask of the RAM has only low ones.
abbrev pub is_allowed : Call → Bool
is_allowed (set_gime_vdg_mode mode) = ltb mode 8
is_allowed (set_vid_mask mask) = mask % 2 == 1
is_allowed _ = true
