-- ===== src/Lib.antt =====
-- CutieCoCo emulates a Color Computer 3. This library models the 6809, the machine around it and the
-- disk library with its clock chip, and proves what they promise.
--
-- The parts and how they interact. The processor reaches everything through MemRead8, MemWrite8 and
-- their kin. Below $FE00 these go through the page table of the MMU to RAM, to the internal ROM or to
-- the cartridge; from $FF00 on they go to the ports, which iobus.cpp hands to the two PIAs, the GIME
-- registers, the SAM and the cartridge; between lies the page of the RAM vectors. The first PIA
-- reads the keyboard and the joysticks and takes the sync interrupts; the second drives the DAC, the
-- printer line and the cassette and takes the cartridge interrupt. The GIME registers steer the MMU
-- and the interrupts of the chip, and with the SAM and the second PIA the video generator, which
-- draws the lines of the display from the RAM. The disk library stands beside the machine.
--
-- Files and what they model, by path from the repository's root:
--   Keyboard     emulation/src/keyboard.cpp; Keyboard/Keys: emulation/src/keymapping.cpp
--                and the CocoKey of emulation/include/cutie/keyboard.h
--   Joystick     emulation/src/joystick.cpp
--   Mmu          emulation/tcc1014mmu.cpp without the functions of Memory
--   Memory       MemRead8, SafeMemRead8, MemWrite8, MemRead16, MemWrite16 of the same file
--   Pia          emulation/mc6821.cpp; Pia/Capture: its CaptureBit
--   Gime         emulation/tcc1014registers.cpp; Gime/Settings and Mmu/Settings compare the MMU with
--                the register file
--   Cartridge    emulation/src/cartridge.cpp
--   RealTimeClock  emulation/libcommon/src/devices/rtc/ds1315.cpp
--   IoBus        emulation/iobus.cpp, with the record of the whole machine
--   Disk         emulation/libcommon: Disk/Geometry models src/media/geometry_calculators,
--                Disk/Image models src/media/disk_image.cpp and disk_images/generic_disk_image.cpp,
--                Disk/Load models src/utils/load_disk_image.cpp, and Disk/Drive models
--                src/peripherals/disk_drives/generic_disk_drive.cpp and its placeholder
--   Cpu          emulation/mc6809.cpp: Cpu/Registers its statics, Cpu/Alu the arithmetic,
--                Cpu/Address CalculateEA, Cpu/Stack the stack and the interrupts,
--                Cpu/Operations and Cpu/Transfers the bodies of the instructions, Cpu/Rows the
--                rows of Do_Opcode, P2_Opcode and P3_Opcode, Cpu/Exec the loop of MC6809Exec;
--                Cpu/Bus the memory that the processor works on, as an interface, and Cpu/Board
--                the machine as that memory, on which Cpu/Lifo/OnBoard and
--                Cpu/Progress/Stuck/OnBoard show the laws that Cpu/Lifo and
--                Cpu/Progress/Stuck ask of a memory
--   Video        emulation/tcc1014graphics.cpp and .h: Video/Registers the operations, Video/Setup
--                SetupDisplay with SetLinesperScreen of coco3.cpp, Video/Palettes the tables of
--                colours, Video/Screen8, Screen16 and Screen32 the cases of UpdateScreen8, 16 and
--                32, made of Video/Raster, Text, Artifacts, Ntsc and Lines, Video/Borders the
--                borders; Video/Obey the calls of the other units as its operations
--   Calls        what the parts ask of one another and of the units that are not modelled
--   Base         arithmetic of bits and bytes, tables, lists, Boolean tests
--
-- Correspondence. A function of the source is a definition of the same name in snake case; the
-- file's static variables are the fields of a record, passed in and out. A table is a function from
-- its index. A call of a unit outside the model is a value of Calls.Call, and an operation returns
-- the calls that it makes, in order. An access through a pointer gives none where it would leave the
-- buffer, so that a theorem can say that it never does. The SAM's pointer to the ROM stands for the
-- buffer of the last MmuInit, which frees the one before: a machine is ready only once mc6883_reset
-- has followed, as it does in the emulator. Bytes and words keep their wrap-around as a
-- remainder. The disk library's size_t has no bound: sizes of images stay far below 2^64. The stream
-- of an image is a file of bytes or a device that fails. The bodies that the source repeats for each
-- addressing mode of the processor are written once, over the mode. Only the loop of MC6809Exec has
-- fuel, one for each round; a slice of n cycles of instructions that take cycles has at most n rounds
-- and a last test, so n + 1 is enough.
--
-- Not modelled: the 6309 (emulation/hd6309.cpp), the scan-line scheduler
-- (coco3.cpp, but for SetLinesperScreen), sound, the OKI clock, the serial port, the ROM images of
-- libcommon, program loading, the emulator's class interface, the platforms and all third-party code.
-- Of the 6809, tracing and the haltpoints, which the stub debugger of emulation/include/cutie/debugger.h
-- never uses, and MC6809GetState. Calls of the video unit and of the scheduler appear as values of
-- Calls.Call. Of the video unit, the functions of 24 bits, which do nothing, and the report of the
-- mode that UpdateScreen32 logs; its two fonts are tables of the host. Logging, message boxes and locks are left out everywhere.
pub mod Base
pub mod Calls
pub mod Joystick
pub mod Keyboard
pub mod Mmu
pub mod Pia
pub mod RealTimeClock
pub mod Video
pub mod Gime
pub mod Cartridge
pub mod IoBus
pub mod Memory
pub mod Disk
pub mod Cpu
