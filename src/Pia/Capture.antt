-- ===== src/Pia/Capture.antt =====
-- `CaptureBit` of emulation/mc6821.cpp: the serial line to the printer, decoded bit by bit.
use cutiecoco.Base.{ℕ, ◌+◌, Bool, true, false, not, ◌&&◌, List, [], ◌∷◌, ◌++◌, ◌==◌, if◌then◌else◌}
use cutiecoco.Base.Bits.{bit, set_bit}

pub record Printer : Type 0 where
  -- Whether `hPrintFile` is open, and the bytes written to it.
  pub is_open : Bool
  pub written : List ℕ
  -- The statics of `CaptureBit`: `BitMask` is `1 << place`.
  pub place : ℕ
  pub start_wait : Bool
  pub byte : ℕ
  -- `AddLF`, an unsigned char of which the lowest bit counts.
  pub add_lf : ℕ

unfoldable pub stopped : Printer
stopped = record {
  is_open = false;
  written = [];
  place = 0;
  start_wait = true;
  byte = 0;
  add_lf = 0;
}

-- A byte is complete: carriage return may take a line feed along.
abbrev pub finish_byte : Printer → Printer
finish_byte p = record p {
  place = 0;
  start_wait = true;
  byte = 0;
  written = p.written ++ (p.byte ∷ (if (p.byte == 0x0d) && bit p.add_lf 0 then 0x0a ∷ [] else []));
}

unfoldable pub capture_bit : ℕ → Printer → Printer
capture_bit sample p =
    if not p.is_open
    then p
    else if p.start_wait
    then (if sample == 0 then record p { start_wait = false } else p)
    else (let q = record p { byte = if sample == 0 then p.byte else set_bit p.byte p.place } in
        if p.place == 7 then finish_byte q else record q { place = p.place + 1 })

-- `OpenPrintFile`, where `fopen` answers whether it could create the file, and `ClosePrintFile`.
pub open_print_file : Bool → Printer → Bool × Printer
open_print_file created p =
    (created, record p { is_open = created; written = if created then [] else p.written })

pub close_print_file : Printer → Printer
close_print_file p = record p { is_open = false }

-- `SetSerialParams`.
pub set_serial_params : ℕ → Printer → Printer
set_serial_params text_mode p = record p { add_lf = text_mode }
