-- ===== src/IoBus/Reach.antt =====
-- Port accesses keep the machine valid.
use cutiecoco.Base.{
  ℕ, ◌+◌, ◌%◌, ◌<◌, ◌≡◌, refl, Bool, true, false, ◌&&◌, ◌||◌, Option, some, List, arith, leb,
  if◌then◌else◌, Bool-cases, inl, inr, lt→ltb, ◌∙◌, ap,
}
use cutiecoco.Calls.{Call}
use cutiecoco.Gime.{Gime, Effect, gime_read, sam_read}
use cutiecoco.Gime.Effects.{IsOrderly, gime_write-IsOrderly, sam_write-IsOrderly}
use cutiecoco.IoBus.{Machine, port_read, port_write, is_pia0, is_pia1, is_sam, is_vector, is_gime}
use cutiecoco.Mmu.{Mmu, rom, load}
use cutiecoco.Mmu.Reach.{Reach, here, Step-IsValid, next}
use cutiecoco.Mmu.Validity.{IsValid}

-- The MMU is valid and the SAM has been reset since `MmuInit`, which frees the ROM that the SAM's
-- pointer names; the emulator calls `mc6883_reset` after it.
pub record IsReady (s : Machine) : Type 0 where
  pub mmu_valid : IsValid s.mmu
  pub sam_reset : s.gime.sam_rom ≡ rom 0

pub steps-IsValid : {m n : Mmu} → Reach m n → IsValid m → IsValid n
steps-IsValid here h = h
steps-IsValid (next r s) h = Step-IsValid s (steps-IsValid r h)

-- A read answers and leaves the machine ready, with the same MMU.
pub record Answers (s : Machine) (r : Option (ℕ × Machine)) : Type 0 where
  pub value : ℕ
  pub after : Machine
  pub answer : r ≡ some (value, after)
  pub ready : IsReady after
  pub same_mmu : after.mmu ≡ s.mmu

branch :
    {s : Machine} (b : Bool) (x y : Option (ℕ × Machine))
    → Answers s x
    → Answers s y
    → Answers s (if b then x else y)
branch true x y h k = h
branch false x y h k = k

pub sam_read_total :
    (port : ℕ) (g : Gime) (m : Mmu)
    → port < 256
    → g.sam_rom ≡ rom 0
    → sam_read port g m
      ≡ some (if leb 0xf0 port && leb port 0xff then m.internal_rom (0x7f00 + port) else 0)
unfolding sam_read load
sam_read_total port g m lt e = rw e (elim (Bool-cases (leb 0xf0 port && leb port 0xff)) [
  | inl h ↦
      rw (h, lt→ltb (0 + (0x7f00 + port)) 0x8000 (omega arith))
        (ap (λ i. some (m.internal_rom i)) (omega arith))
  | inr h ↦ rw h
])

gime_read-sam_rom : (port : ℕ) (g : Gime) → (gime_read port g).1.sam_rom ≡ g.sam_rom
unfolding gime_read
gime_read-sam_rom port g = ground arith

-- A port can be read in every ready machine, and leaves it ready with the same MMU.
pub port_read-Answers : (address : ℕ) (s : Machine) → IsReady s → Answers s (port_read address s)
unfolding port_read
port_read-Answers address s h =
    branch (is_pia0 port) _ _
      (record {
        value = _;
        after = _;
        answer = refl;
        ready = record { mmu_valid = h.mmu_valid; sam_reset = h.sam_reset };
        same_mmu = refl;
      })
      (branch (is_pia1 port) _ _
        (record {
          value = _;
          after = _;
          answer = refl;
          ready = record { mmu_valid = h.mmu_valid; sam_reset = h.sam_reset };
          same_mmu = refl;
        })
        (branch (is_sam port || is_vector port) _ _
          (record {
            value =
                if leb 0xf0 port && leb port 0xff then s.mmu.internal_rom (0x7f00 + port) else 0;
            after = s;
            answer = rw (sam_read_total port s.gime s.mmu (omega arith) h.sam_reset) refl;
            ready = h;
            same_mmu = refl;
          })
          (branch (is_gime port) _ _
            (record {
              value = _;
              after = _;
              answer = refl;
              ready = record {
                mmu_valid = h.mmu_valid;
                sam_reset = gime_read-sam_rom port s.gime ∙ h.sam_reset;
              };
              same_mmu = refl;
            })
            (record { value = _; after = s; answer = refl; ready = h; same_mmu = refl }))))
  where
    port : ℕ
    port = address % 256

write_branch :
    (b : Bool) (x y : Machine × List Call)
    → IsReady x.0
    → IsReady y.0
    → IsReady (if b then x else y).0
write_branch true x y h k = h
write_branch false x y h k = k

-- A write to a port leaves a ready machine ready.
pub port_write-IsReady :
    (byte address : ℕ) (s : Machine)
    → byte < 256
    → IsReady s
    → IsReady (port_write byte address s).0
unfolding port_write
port_write-IsReady byte address s lt h =
    write_branch (is_pia0 port) _ _ (record { mmu_valid = h.mmu_valid; sam_reset = h.sam_reset })
      (write_branch (is_pia1 port) _ _ (record { mmu_valid = h.mmu_valid; sam_reset = h.sam_reset })
        (write_branch (is_sam port) _ _ (chip (sam_write-IsOrderly port s.gime here)) (
          write_branch (is_gime port) _ _ (chip (gime_write-IsOrderly port byte s.gime lt here))
            (record { mmu_valid = h.mmu_valid; sam_reset = h.sam_reset }))))
  where
    port : ℕ
    port = address % 256

    chip :
        {x : Effect}
        → IsOrderly s.mmu s.gime.sam_rom x
        → IsReady (record s { gime = x.0; mmu = x.1 })
    chip o = record {
      mmu_valid = steps-IsValid o.reaches h.mmu_valid;
      sam_reset = o.keeps ∙ h.sam_reset;
    }
