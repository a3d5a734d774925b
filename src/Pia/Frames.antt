-- ===== src/Pia/Frames.antt =====
-- The printer's decoder against the frames that a program sends.
use cutiecoco.Base.{
  ℕ, zero, suc, ◌+◌, ◌*◌, ◌/◌, ◌%◌, ◌^◌, ◌≤◌, ◌<◌, ◌≡◌, refl, ◌∙◌, ap, sym, subst, true, false,
  ◌&&◌, List, [], ◌∷◌, ◌++◌, arith, ◌==◌, if◌then◌else◌,
}
use cutiecoco.Base.Bits.{bit, set_bit}
use mathlib.Core.List.{append-nil, append_assoc}
use native.Mathlib.Nat.{pow-suc}
use native.Mathlib.Numerals.{add-one}
use cutiecoco.Base.BitLaws.{mod-pow_suc}
use cutiecoco.Base.BitOps.{bit_of_lt}
use cutiecoco.Pia.Capture.{Printer, capture_bit}

-- The samples of a run of bits, in order.
unfoldable pub capture_all : List ℕ → Printer → Printer
capture_all [] p = p
capture_all (sample ∷ samples) p = capture_all samples (capture_bit sample p)

-- The frame of a byte: a start bit, and eight bits from the lowest.
abbrev pub bits_from : ℕ → ℕ → List ℕ
bits_from zero b = []
bits_from (suc n) b = b % 2 ∷ bits_from n (b / 2)

abbrev pub frame : ℕ → List ℕ
frame b = 0 ∷ bits_from 8 b

-- The decoder between two frames.
pub record IsIdle (p : Printer) : Type 0 where
  pub opened : p.is_open ≡ true
  pub waiting : p.start_wait ≡ true
  pub first : p.place ≡ 0
  pub empty : p.byte ≡ 0

-- In a frame, with `place` bits taken.
abbrev taking : Printer → ℕ → ℕ → Printer
taking p place byte = record p { start_wait = false; place = place; byte = byte }

take_bit :
    (p : Printer) (place byte sample : ℕ)
    → p.is_open ≡ true
    → place < 7
    → sample < 2
    → byte < 2 ^ place
    → capture_bit sample (taking p place byte) ≡ taking p (place + 1) (byte + sample * 2 ^ place)
unfolding capture_bit
take_bit p place byte zero o h s b = ground arith
take_bit p place byte (suc zero) o h s b = ground (arith, bit_of_lt place byte b)
take_bit p place byte (suc (suc n)) o h s b = absurd (omega arith)

-- The line feed that follows a carriage return where the user asks for it.
abbrev pub printed_byte : ℕ → ℕ → List ℕ
printed_byte add_lf b = b ∷ (if (b == 0x0d) && bit add_lf 0 then 0x0a ∷ [] else [])

abbrev printed_on : Printer → ℕ → Printer
printed_on p b = record p {
  place = 0;
  start_wait = true;
  byte = 0;
  written = p.written ++ printed_byte p.add_lf b;
}

take_last :
    (p : Printer) (byte sample : ℕ)
    → p.is_open ≡ true
    → sample < 2
    → byte < 2 ^ 7
    → capture_bit sample (taking p 7 byte) ≡ printed_on p (byte + sample * 2 ^ 7)
unfolding capture_bit
take_last p byte sample o s b = ground arith ∙ ap (printed_on p) value
  where
    value : (if sample == 0 then byte else set_bit byte 7) ≡ byte + sample * 2 ^ 7
    value = ground (arith, bit_of_lt 7 byte b)

pow_next : (k : ℕ) → 2 ^ (k + 1) ≡ 2 * 2 ^ k
pow_next k = rw add-one (omega (arith, pow-suc 2 k))

one_bit-le : (x q : ℕ) → x < 2 → x * q ≤ q
one_bit-le zero q h = omega arith
one_bit-le (suc zero) q h = omega arith
one_bit-le (suc (suc x)) q h = absurd (omega arith)

-- The bits that are left of a frame complete the byte.
take_bits :
    (n : ℕ) (p : Printer) (place byte b : ℕ)
    → p.is_open ≡ true
    → place + suc n ≡ 8
    → byte < 2 ^ place
    → capture_all (bits_from (suc n) b) (taking p place byte)
      ≡ printed_on p (byte + b % 2 ^ suc n * 2 ^ place)
unfolding capture_all
take_bits zero p place byte b o e lt =
    let seven : place ≡ 7 = omega arith in
    rw seven (take_last p byte (b % 2) o (omega arith) (subst (λ q. byte < 2 ^ q) seven lt))
take_bits (suc n) p place byte b o e lt =
    ap (capture_all (bits_from (suc n) (b / 2)))
      (take_bit p place byte (b % 2) o (omega arith) (omega arith) lt)
    ∙ (take_bits n p (place + 1) (byte + b % 2 * 2 ^ place) (b / 2) o (omega arith)
          (omega (arith, pow_next place, one_bit-le (b % 2) (2 ^ place) (omega arith)))
        ∙ ap (printed_on p) (sums))
  where
    sums :
        byte + b % 2 * 2 ^ place + b / 2 % 2 ^ suc n * 2 ^ (place + 1)
        ≡ byte + b % 2 ^ suc (suc n) * 2 ^ place
    sums = omega (
      arith,
      ap (λ (q : ℕ). b / 2 % 2 ^ suc n * q) (pow_next place),
      ap (λ (q : ℕ). q * 2 ^ place) (mod-pow_suc (suc n) b),
    )

-- A frame on the line prints its byte and leaves the decoder waiting for the next.
take_frame :
    (p : Printer) (b : ℕ)
    → IsIdle p
    → b < 256
    → capture_all (frame b) p ≡ record p { written = p.written ++ printed_byte p.add_lf b }
unfolding capture_all
take_frame p b idle lt =
    ap (capture_all (bits_from 8 b)) start
    ∙ take_bits 7 p 0 0 b idle.opened refl (omega arith)
    ∙ finish
  where
    start : capture_bit 0 p ≡ taking p 0 0
    start = unfold capture_bit in ground (arith, idle.opened, idle.waiting, idle.first, idle.empty)

    finish :
        printed_on p (0 + b % 2 ^ 8 * 2 ^ 0)
        ≡ record p { written = p.written ++ printed_byte p.add_lf b }
    finish =
        ap (printed_on p) {y = b} (omega arith)
        ∙ ground (arith, idle.opened, idle.waiting, idle.first, idle.empty)

-- The line at rest, between two frames, is 1.
pub capture_rest : (p : Printer) → IsIdle p → capture_bit 1 p ≡ p
unfolding capture_bit
capture_rest p idle = ground (arith, idle.opened, idle.waiting)

abbrev pub AreBytes : List ℕ → Type 0
AreBytes [] = Unit {0}
AreBytes (b ∷ bs) = (b < 256) × AreBytes bs

-- A text on the line, each frame with one stop bit.
abbrev pub stream : List ℕ → List ℕ
stream [] = []
stream (b ∷ bs) = frame b ++ 1 ∷ stream bs

abbrev pub printed : ℕ → List ℕ → List ℕ
printed add_lf [] = []
printed add_lf (b ∷ bs) = printed_byte add_lf b ++ printed add_lf bs

capture_all-append :
    (xs ys : List ℕ) (p : Printer) → capture_all (xs ++ ys) p ≡ capture_all ys (capture_all xs p)
unfolding capture_all
capture_all-append [] ys p = refl
capture_all-append (x ∷ xs) ys p = capture_all-append xs ys (capture_bit x p)

-- An open printer that waits decodes the frames of a text to the bytes of that text, in order,
-- with a line feed after each carriage return where it is asked for, and waits again.
pub capture_stream :
    (bs : List ℕ) (p : Printer)
    → IsIdle p
    → AreBytes bs
    → capture_all (stream bs) p ≡ record p { written = p.written ++ printed p.add_lf bs }
unfolding capture_all
capture_stream [] p idle h = ap (λ w. record p { written = w }) (sym (append-nil p.written))
capture_stream (b ∷ bs) p idle h =
    capture_all-append (frame b) (1 ∷ stream bs) p
    ∙ ap (capture_all (1 ∷ stream bs)) (take_frame p b idle h.0)
    ∙ ap (capture_all (stream bs)) (capture_rest q idle_q)
    ∙ capture_stream bs q idle_q h.1
    ∙ ap (λ w. record p { written = w })
        (append_assoc p.written (printed_byte p.add_lf b) (printed p.add_lf bs))
  where
    q : Printer
    q = record p { written = p.written ++ printed_byte p.add_lf b }

    idle_q : IsIdle q
    idle_q = record {
      opened = idle.opened;
      waiting = idle.waiting;
      first = idle.first;
      empty = idle.empty;
    }
