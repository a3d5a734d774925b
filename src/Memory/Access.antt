-- ===== src/Memory/Access.antt =====
-- Every access of a ready machine stays within its buffers.
use cutiecoco.Base.{
  ℕ, ◌+◌, ◌*◌, ◌%◌, ◌<◌, ◌≡◌, refl, ap, Bool, true, false, some, List, [], ltb, if◌then◌else◌,
}
use cutiecoco.Calls.{Call}
use cutiecoco.Cartridge.{read_pak}
use cutiecoco.IoBus.{Machine}
use cutiecoco.IoBus.Reach.{IsReady, Answers, port_read-Answers, port_write-IsReady}
use cutiecoco.Memory.{Read, Write, reading, writing, paged_read, mem_read8, mem_write8}
use cutiecoco.Base.Maps.{update}
use cutiecoco.Mmu.{Mmu, vector_mask, mapped_write, load, store, vector_page}
use cutiecoco.Mmu.Access.{mapped_read_lem, mapped_write_lem, vector_page_in_ram}
use cutiecoco.Mmu.Validity.{store-IsValid, mapped_write-IsValid}

paged_read-Answers : (address : ℕ) (s : Machine) → IsReady s → Answers s (paged_read address s)
paged_read-Answers address s h = record {
  value = _;
  after = s;
  answer = ap (reading s) (mapped_read_lem s.mmu (λ a. read_pak a s.cartridge) address h.mmu_valid);
  ready = h;
  same_mmu = refl;
}

vector_read-Answers :
    (address : ℕ) (s : Machine)
    → IsReady s
    → Answers s (reading s (load s.mmu (vector_page s.mmu) (address % 0x2000)))
unfolding load
vector_read-Answers address s h = record {
  value = s.mmu.memory (0x2000 * vector_mask s.mmu.current_ram_config + address % 0x2000);
  after = s;
  answer = rw (vector_page_in_ram s.mmu address h.mmu_valid);
  ready = h;
  same_mmu = refl;
}

branch :
    {s : Machine} (b : Bool) (x y : Read)
    → Answers s x
    → Answers s y
    → Answers s (if b then x else y)
branch true x y h k = h
branch false x y h k = k

-- In a ready machine every address can be read: the read stays within the buffers and leaves the
-- machine ready with the same MMU.
pub mem_read8-Answers : (address : ℕ) (s : Machine) → IsReady s → Answers s (mem_read8 address s)
unfolding mem_read8
mem_read8-Answers address s h = branch (ltb address 0xfe00) _ _ (paged_read-Answers address s h) (
    branch (ltb 0xfeff address) _ _ (port_read-Answers address s h) (
      branch s.mmu.ram_vectors _ _ (vector_read-Answers address s h)
        (paged_read-Answers address s h)))

-- A write is done and leaves the machine ready.
pub record Accepts (r : Write) : Type 0 where
  pub after : Machine
  pub calls : List Call
  pub done : r ≡ some (after, calls)
  pub ready : IsReady after

write_branch : (b : Bool) (x y : Write) → Accepts x → Accepts y → Accepts (if b then x else y)
write_branch true x y h k = h
write_branch false x y h k = k

paged_write-Accepts :
    (byte address : ℕ) (s : Machine)
    → IsReady s
    → Accepts (writing s (mapped_write s.mmu byte address))
paged_write-Accepts byte address s h =
    let (m, done, reads) = mapped_write_lem s.mmu byte address h.mmu_valid in
    record {
      after = record s { mmu = m };
      calls = [];
      done = ap (writing s) done;
      ready = record {
        mmu_valid = mapped_write-IsValid byte address s.mmu m h.mmu_valid done;
        sam_reset = h.sam_reset;
      };
    }

vector_write-Accepts :
    (byte address : ℕ) (s : Machine)
    → IsReady s
    → Accepts (writing s (store s.mmu (vector_page s.mmu) (address % 0x2000) byte))
unfolding store
vector_write-Accepts byte address s h = record {
  after = record s { mmu = stored };
  calls = [];
  done = rw (vector_page_in_ram s.mmu address h.mmu_valid);
  ready = record {
    mmu_valid =
        store-IsValid (vector_page s.mmu) (address % 0x2000) byte s.mmu stored h.mmu_valid
          (rw (vector_page_in_ram s.mmu address h.mmu_valid));
    sam_reset = h.sam_reset;
  };
}
  where
    stored : Mmu
    stored = record s.mmu {
      memory =
          update s.mmu.memory (0x2000 * vector_mask s.mmu.current_ram_config + address % 0x2000)
            byte;
    }

-- In a ready machine a byte below 256 can be written to every address: the write stays within the buffers and
-- leaves the machine ready.
pub mem_write8-Accepts :
    (byte address : ℕ) (s : Machine) → byte < 256 → IsReady s → Accepts (mem_write8 byte address s)
unfolding mem_write8
mem_write8-Accepts byte address s lt h =
    write_branch (ltb address 0xfe00) _ _ (paged_write-Accepts byte address s h) (
      write_branch (ltb 0xfeff address) _ _
        (record {
          after = _;
          calls = _;
          done = refl;
          ready = port_write-IsReady byte address s lt h;
        })
        (write_branch s.mmu.ram_vectors _ _ (vector_write-Accepts byte address s h)
          (paged_write-Accepts byte address s h)))
