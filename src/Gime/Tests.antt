-- ===== src/Gime/Tests.antt =====
-- The theorems of the GIME at concrete registers.
use cutiecoco.Base.{◌≡◌, refl, true, false, ◌&&◌, [], ◌∷◌, arith, ltb, ◌==◌, if◌then◌else◌}
use cutiecoco.Base.Bits.{bit}
use cutiecoco.Calls.{irq, firq, assert_interrupt}
use cutiecoco.Gime.{Gime, gime_read, gime_write}
use cutiecoco.Gime.Settings.{gime_write-Reflects}
use cutiecoco.Gime.Offset.{program, program_offset}
use cutiecoco.Gime.Steering.{timer, handler, handler_lem, to_firq, to_irq, raised}
use cutiecoco.Mmu.{Mmu, rom, null}
use cutiecoco.Mmu.Settings.{Reflects}

abbrev blank : Mmu
blank = record {
  memory = λ i. 0;
  internal_rom = λ i. 0;
  mem_pages = λ i. null;
  mem_page_offsets = λ i. 0;
  registers = λ t i. 0;
  mmu_task = 0;
  mmu_enabled = 0;
  ram_vectors = false;
  mmu_state = 0;
  rom_map = 0;
  map_type = 0;
  current_ram_config = 0;
  mmu_prefix = 0;
  ram_size = 0;
}

-- The vertical and timer interrupts go to the IRQ, the timer to the FIRQ too.
abbrev steered : Gime
steered = record {
  registers = λ port. if port == 0x92 then 0x28 else if port == 0x93 then 0x20 else 0;
  vdg_mode = 0;
  dis_offset = 0x80;
  enhanced_firq = true;
  enhanced_irq = true;
  last_irq = 0;
  last_firq = 0;
  keyboard_interrupt_enabled = false;
  sam_rom = rom 0;
}

handler_lem_example :
    let (g', calls) = handler timer steered in
    (calls ≡ (
      if to_firq timer steered && true
      then assert_interrupt firq 0 ∷ []
      else if to_irq timer steered && true
      then assert_interrupt irq 0 ∷ []
      else []))
    × (bit (gime_read 0x93 g').0 5 ≡ raised timer (to_firq timer steered) 0 5)
    × (bit (gime_read 0x92 g').0 5 ≡ raised timer (to_irq timer steered) 0 5)
handler_lem_example = handler_lem timer steered 5

program_offset_example :
    bit (program 0xc6 7 0x55 (steered, blank)).0.dis_offset 4
    ≡ (if ltb 4 7 then bit 0x55 4 else bit 0x80 4)
program_offset_example = program_offset 0x55 4 7 (steered, blank) (omega arith)

-- The settings of an MMU that is off, on task 0.
abbrev at_rest : Mmu
at_rest = record blank { mmu_state = 2 }

at_rest-Reflects : Reflects steered.registers at_rest
at_rest-Reflects = record {
  enabled = refl;
  rom_map = refl;
  vectors = refl;
  task = refl;
  state = refl;
  prefix = refl;
  pages = λ task bank t b. ground arith;
}

gime_write-Reflects_example :
    Reflects
      (gime_write 0x90 0x4b steered at_rest).0.registers
      (gime_write 0x90 0x4b steered at_rest).1
gime_write-Reflects_example =
    gime_write-Reflects 0x90 0x4b steered at_rest (omega arith) at_rest-Reflects
