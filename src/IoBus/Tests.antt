-- ===== src/IoBus/Tests.antt =====
-- A machine of 128K after its initialisation, and the theorems of the bus on it.
use cutiecoco.Base.{refl, true, false, none, [], arith}
use cutiecoco.IoBus.{Machine}
use cutiecoco.IoBus.Reach.{IsReady}
use cutiecoco.Joystick
use cutiecoco.Keyboard
use cutiecoco.Mmu.{Mmu, null, rom, mmu_init}
use cutiecoco.Mmu.Validity.{mmu_init-IsValid}
use cutiecoco.Pia.Capture.{stopped}

abbrev blank : Mmu
blank = record {
  memory = λ i. 0;
  internal_rom = λ i. 0;
  mem_pages = λ i. null;
  mem_page_offsets = λ i. 0;
  registers = λ t i. 0;
  mmu_task = 0;
  mmu_enabled = 0;
  ram_vectors = false;
  mmu_state = 0;
  rom_map = 0;
  map_type = 0;
  current_ram_config = 0;
  mmu_prefix = 0;
  ram_size = 0;
}

abbrev pub fresh : Machine
fresh = record {
  mmu = (mmu_init 0 none blank).0;
  gime = record {
    registers = λ port. 0;
    vdg_mode = 0;
    dis_offset = 0;
    enhanced_firq = false;
    enhanced_irq = false;
    last_irq = 0;
    last_firq = 0;
    keyboard_interrupt_enabled = false;
    sam_rom = rom 0;
  };
  pia = record {
    rega = λ n. 0;
    regb = λ n. 0;
    rega_dd = λ n. 0;
    regb_dd = λ n. 0;
    a_sample = 0;
    s_sample = 0;
    c_sample = 0;
    cart_inserted = false;
    cart_auto_start = true;
    printer = stopped;
  };
  keyboard = Keyboard.init;
  joystick = Joystick.init;
  cartridge = record { rom = []; bank_select = 0; last_error = none };
}

pub fresh-IsReady : IsReady fresh
fresh-IsReady = record { mmu_valid = mmu_init-IsValid 0 none blank (omega arith); sam_reset = refl }
