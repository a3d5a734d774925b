-- ===== src/Gime/Effects.antt =====
-- What the register file and the SAM do to the MMU.
use cutiecoco.Base.{
  ℕ, ◌<◌, ◌≡◌, refl, Bool, true, false, ◌&&◌, ◌||◌, arith, leb, ◌==◌, if◌then◌else◌,
}
use cutiecoco.Gime.{
  Gime, Effect, dispatch, gime_write, sam_write, set_init0, set_init1, set_gime_steering, set_timer,
}
use cutiecoco.Mmu.{Mmu, Page}
use cutiecoco.Mmu.Reach.{Reach, next, register, task, enabled, rom_map, map_type, vectors, disto}

-- The MMU after an effect is one that its own operations reach, and the SAM's pointer stays.
pub record IsOrderly (s : Mmu) (pointer : Page) (x : Effect) : Type 0 where
  pub reaches : Reach s x.1
  pub keeps : x.0.sam_rom ≡ pointer

branch :
    {s : Mmu} {pointer : Page} (b : Bool) (x y : Effect)
    → IsOrderly s pointer x
    → IsOrderly s pointer y
    → IsOrderly s pointer (if b then x else y)
branch true x y h k = h
branch false x y h k = k

-- A write of a byte to a register of the GIME takes an MMU that its own operations reach to one
-- that they reach, and keeps the SAM's pointer.
pub gime_write-IsOrderly :
    (port byte : ℕ) (g : Gime) {s m : Mmu}
    → byte < 256
    → Reach s m
    → IsOrderly s g.sam_rom (gime_write port byte g m)
unfolding gime_write dispatch set_init0 set_init1 set_gime_steering set_timer
gime_write-IsOrderly port byte g {s} {m} lt r =
    branch (port == 0x90) _ _
      (record {
        reaches = next (next (next r (enabled _ _)) (rom_map _ _)) (vectors _ _);
        keeps = refl;
      })
      (branch (port == 0x91) _ _
        (record { reaches = next r (task _ _ (omega arith)); keeps = refl })
        (branch (port == 0x92) _ _ (record { reaches = r; keeps = refl })
          (branch (port == 0x93) _ _ (record { reaches = r; keeps = refl })
            (branch (port == 0x94) _ _ (record { reaches = r; keeps = refl })
              (branch (port == 0x95) _ _ (record { reaches = r; keeps = refl })
                (branch (port == 0x96) _ _ (record { reaches = r; keeps = refl })
                  (branch (port == 0x98) _ _ (record { reaches = r; keeps = refl })
                    (branch (port == 0x99) _ _ (record { reaches = r; keeps = refl })
                      (branch (port == 0x9a) _ _ (record { reaches = r; keeps = refl })
                        (branch (port == 0x9b) _ _
                          (record { reaches = next r (disto _ _); keeps = refl })
                          (branch ((port == 0x9d) || (port == 0x9e)) _ _
                            (record { reaches = r; keeps = refl })
                            (branch (port == 0x9f) _ _ (record { reaches = r; keeps = refl })
                              (branch (leb 0xa0 port && leb port 0xaf) _ _
                                (record {
                                  reaches = next r (register _ port byte lt);
                                  keeps = refl;
                                })
                                (branch (leb 0xb0 port && leb port 0xbf) _ _
                                  (record { reaches = r; keeps = refl })
                                  (record { reaches = r; keeps = refl })))))))))))))))

-- So does a write to the SAM.
pub sam_write-IsOrderly :
    (port : ℕ) (g : Gime) {s m : Mmu} → Reach s m → IsOrderly s g.sam_rom (sam_write port g m)
unfolding sam_write
sam_write-IsOrderly port g {s} {m} r =
    branch (leb 0xc6 port && leb port 0xd3) _ _ (record { reaches = r; keeps = refl })
      (branch (leb 0xc0 port && leb port 0xc5) _ _ (record { reaches = r; keeps = refl })
        (branch ((port == 0xde) || (port == 0xdf)) _ _
          (record { reaches = next r (map_type _ _); keeps = refl })
          (branch (port == 0xd9) _ _ (record { reaches = r; keeps = refl })
            (branch (port == 0xd8) _ _ (record { reaches = r; keeps = refl })
              (record { reaches = r; keeps = refl })))))
