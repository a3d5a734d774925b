-- ===== src/Video/Writes.antt =====
-- A write to the register file of emulation/tcc1014registers.cpp, with the calls of the video unit
-- (emulation/tcc1014graphics.cpp) that it makes.
use cutiecoco.Base.{
  ℕ, ◌+◌, ◌*◌, ◌%◌, ◌≡◌, ◌≢◌, refl, sym, ap₂, ◌∙◌, subst, Bool, true, false, ◌&&◌, ◌||◌, List, leb,
  ◌==◌, if◌then◌else◌, arith, ==_iff,
}
use cutiecoco.Base.Maps.{update, update_self, update_ne}
use cutiecoco.Calls.{
  Call, set_video_bank, set_compat_mode, set_gime_border_color, set_gime_pallet, set_gime_vmode,
  set_gime_vres, set_vertical_offset_register, set_gime_horz_offset,
}
use cutiecoco.Gime.{
  Gime, Effect, gime_write, dispatch, set_init0, set_init1, set_gime_steering, set_timer,
}
use cutiecoco.Mmu.{Mmu, set_disto_ram_bank}
use cutiecoco.Video.{Video}
use cutiecoco.Video.Obey.{obey, obey_all}
use cutiecoco.Video.Mirror.{
  Copies, other-Copies, vmode-Copies, vres-Copies, vertical-Copies, horizontal-Copies,
}

-- The video unit's copies are the registers.
unfoldable pub Mirrors : Gime → Video → Type 0
Mirrors g v =
    Copies (g.registers 0x98) (g.registers 0x99) (g.registers 0x9d * 256 + g.registers 0x9e)
      (g.registers 0x9f) v

-- The effect of a write, with its calls obeyed.
Leaves : Video → Effect → Type 0
Leaves v x = Mirrors x.0 (obey_all x.2 v)

fork :
    (v : Video) (test : Bool) (x y : Effect)
    → (test ≡ true → Leaves v x)
    → (test ≡ false → Leaves v y)
    → Leaves v (if test then x else y)
fork v true x y left right = left refl
fork v false x y left right = right refl

moved :
    (a b c d a' b' c' d' : ℕ) (w : Video)
    → a ≡ a'
    → b ≡ b'
    → c ≡ c'
    → d ≡ d'
    → Copies a b c d w
    → Copies a' b' c' d' w
unfolding Copies
moved a b c d a' b' c' d' w ea eb ec ed (p, q, r, s) = (p ∙ ea, q ∙ eb, r ∙ ec, s ∙ ed)

-- The ports that have copies.
abbrev has_copy : ℕ → Bool
has_copy k = (k == 0x98) || ((k == 0x99) || ((k == 0x9d) || ((k == 0x9e) || (k == 0x9f))))

-- Before and after a write to a port, of a byte.
module _ (f : ℕ → ℕ) (port byte : ℕ) where
  abbrev Before : Video → Type 0
  Before w = Copies (f 0x98) (f 0x99) (f 0x9d * 256 + f 0x9e) (f 0x9f) w

  abbrev After : Video → Type 0
  After w =
      Copies (update f port byte 0x98) (update f port byte 0x99)
        (update f port byte 0x9d * 256 + update f port byte 0x9e) (update f port byte 0x9f) w

  same_at : (i : ℕ) → i ≢ port → f i ≡ update f port byte i
  same_at i far = sym (update_ne f port i byte far)

  byte_at : (i : ℕ) → (port == i) ≡ true → byte ≡ update f port byte i
  byte_at i e =
      sym (subst (λ j. update f port byte j ≡ byte) ((==_iff port i).0 e) (update_self f port byte))

  offset_at :
      0x9d ≢ port
      → 0x9e ≢ port
      → f 0x9d * 256 + f 0x9e ≡ update f port byte 0x9d * 256 + update f port byte 0x9e
  offset_at far near = ap₂ (λ hi lo. hi * 256 + lo) (same_at 0x9d far) (same_at 0x9e near)

  elsewhere : (w : Video) → has_copy port ≡ false → Before w → After w
  elsewhere w far p =
      moved _ _ _ _ _ _ _ _ w (same_at 0x98 (ground (arith, far)))
        (same_at 0x99 (ground (arith, far))) (offset_at (ground (arith, far)) (ground (arith, far)))
        (same_at 0x9f (ground (arith, far))) p

  wrote_vmode :
      (v : Video) → (port == 0x98) ≡ true → Before v → After (obey (set_gime_vmode byte) v)
  wrote_vmode v e p =
      moved _ _ _ _ _ _ _ _ _ (byte_at 0x98 e) (same_at 0x99 (ground (arith, e)))
        (offset_at (ground (arith, e)) (ground (arith, e))) (same_at 0x9f (ground (arith, e)))
        (vmode-Copies _ _ _ _ byte v p)

  wrote_vres : (v : Video) → (port == 0x99) ≡ true → Before v → After (obey (set_gime_vres byte) v)
  wrote_vres v e p =
      moved _ _ _ _ _ _ _ _ _ (same_at 0x98 (ground (arith, e))) (byte_at 0x99 e)
        (offset_at (ground (arith, e)) (ground (arith, e))) (same_at 0x9f (ground (arith, e)))
        (vres-Copies _ _ _ _ byte v p)

  wrote_vertical :
      (v : Video)
      → ((port == 0x9d) || (port == 0x9e)) ≡ true
      → Before v
      → After (
          obey
            (set_vertical_offset_register (update f port byte 0x9d * 256 + update f port byte 0x9e))
            v)
  wrote_vertical v e p =
      moved _ _ _ _ _ _ _ _ _ (same_at 0x98 (ground (arith, e))) (same_at 0x99 (ground (arith, e)))
        refl (same_at 0x9f (ground (arith, e))) (vertical-Copies _ _ _ _ _ v p)

  wrote_horizontal :
      (v : Video) → (port == 0x9f) ≡ true → Before v → After (obey (set_gime_horz_offset byte) v)
  wrote_horizontal v e p =
      moved _ _ _ _ _ _ _ _ _ (same_at 0x98 (ground (arith, e))) (same_at 0x99 (ground (arith, e)))
        (offset_at (ground (arith, e)) (ground (arith, e))) (byte_at 0x9f e)
        (horizontal-Copies _ _ _ _ byte v p)

bank-Copies :
    (a b c d byte : ℕ) (m : Mmu) (v : Video)
    → Copies a b c d v
    → Copies a b c d (obey_all (set_disto_ram_bank byte m).1 v)
unfolding set_disto_ram_bank obey_all
bank-Copies a b c d byte m v p = pick (m.current_ram_config == 0) _ _ p (
    pick (m.current_ram_config == 1) _ _ p (
      pick (m.current_ram_config == 2) _ _
        (other-Copies a b c d (set_video_bank (byte % 4)) v refl p)
        (pick (m.current_ram_config == 3) _ _
          (other-Copies a b c d (set_video_bank (byte % 16)) v refl p) p)))
  where
    pick :
        (test : Bool) (x y : Mmu × List Call)
        → Copies a b c d (obey_all x.1 v)
        → Copies a b c d (obey_all y.1 v)
        → Copies a b c d (obey_all (if test then x else y).1 v)
    pick true x y q r = q
    pick false x y q r = r

-- Whatever the port and the byte: when the video unit's mode, resolution, vertical offset and
-- horizontal offset are the registers $FF98, $FF99, $FF9D and $FF9E, and $FF9F of the file, they
-- are again after GimeWrite and the calls that it makes.
pub gime_write-Mirrors :
    (port byte : ℕ) (g : Gime) (m : Mmu) (v : Video)
    → Mirrors g v
    → Mirrors (gime_write port byte g m).0 (obey_all (gime_write port byte g m).2 v)
unfolding gime_write dispatch set_init0 set_init1 set_gime_steering set_timer Mirrors Leaves
    obey_all obey
gime_write-Mirrors port byte g m v p =
    fork v (port == 0x90) _ _
      (λ e.
        elsewhere g.registers port byte _ (ground (arith, e))
          (other-Copies _ _ _ _ (set_compat_mode _) v refl p))
      λ _.
        (fork v (port == 0x91) _ _ (λ e. elsewhere g.registers port byte _ (ground (arith, e)) p)
          λ _.
            (fork v (port == 0x92) _ _
              (λ e. elsewhere g.registers port byte _ (ground (arith, e)) p)
              λ _.
                (fork v (port == 0x93) _ _
                  (λ e. elsewhere g.registers port byte _ (ground (arith, e)) p)
                  λ _.
                    (fork v (port == 0x94) _ _
                      (λ e. elsewhere g.registers port byte _ (ground (arith, e)) p)
                      λ _.
                        (fork v (port == 0x95) _ _
                          (λ e. elsewhere g.registers port byte _ (ground (arith, e)) p)
                          λ _.
                            (fork v (port == 0x96) _ _
                              (λ e. elsewhere g.registers port byte _ (ground (arith, e)) p)
                              λ _.
                                (fork v (port == 0x98) _ _
                                  (λ e. wrote_vmode g.registers port byte v e p)
                                  λ n98.
                                    (fork v (port == 0x99) _ _
                                      (λ e. wrote_vres g.registers port byte v e p)
                                      λ n99.
                                        (fork v (port == 0x9a) _ _
                                          (λ e.
                                            elsewhere g.registers port byte _ (ground (arith, e)) (
                                              other-Copies _ _ _ _ (set_gime_border_color byte) v
                                                refl p))
                                          λ _.
                                            (fork v (port == 0x9b) _ _
                                              (λ e.
                                                elsewhere g.registers port byte _
                                                  (ground (arith, e))
                                                  (bank-Copies _ _ _ _ byte m v p))
                                              λ _.
                                                (fork v ((port == 0x9d) || (port == 0x9e)) _ _
                                                  (λ e. wrote_vertical g.registers port byte v e p)
                                                  λ n9d.
                                                    (fork v (port == 0x9f) _ _
                                                      (λ e.
                                                        wrote_horizontal g.registers port byte v e
                                                          p)
                                                      λ n9f.
                                                        (fork v (leb 0xa0 port && leb port 0xaf) _ _
                                                          (λ e.
                                                            elsewhere g.registers port byte _
                                                            (ground (arith, e)) p)
                                                          λ _.
                                                            (fork v (leb 0xb0 port && leb port 0xbf)
                                                            _ _
                                                            (λ e.
                                                            elsewhere g.registers port byte _
                                                            (ground (arith, e))
                                                            (other-Copies _ _ _ _
                                                            (set_gime_pallet _ _) v refl p))
                                                            λ _.
                                                            (elsewhere g.registers port byte _
                                                            (ground (arith, n98, n99, n9d, n9f))
                                                            p)))))))))))))))
