-- ===== src/Video/Drawing.antt =====
-- What the loop of a graphics mode of emulation/tcc1014graphics.cpp draws: one picture of the line,
-- on its first row and, without scan lines, on its second.
use cutiecoco.Base.{
  ℕ, zero, suc, ◌+◌, ◌-◌, ◌*◌, ◌^◌, ◌≤◌, ◌<◌, ◌≡◌, refl, ap, ap₂, sym, ◌∙◌, List, [], ◌∷◌, ◌++◌,
  ◌==◌, if◌then◌else◌, length, length-append, arith, inl, inr, Bool-cases, subst,
}
use cutiecoco.Base.Maps.{update}
use cutiecoco.Video.{Host}
use cutiecoco.Video.Raster.{Cursor, u32, put, puts, second_row, block, beams}
use cutiecoco.Video.Overlay.{overlay, overlay-append, overlay_comm}

-- The next pixel goes to the index `base`, and the surface shows `f`.
unfoldable pub Shows : ℕ → (ℕ → ℕ) → Cursor → Type 0
Shows base f c = (c.stride < 2 ^ 32) × (u32 (c.stride + 1) ≡ base) × (c.surface ≡ f)

-- The pixels of the words from `beam` on, in the order of drawing.
unfoldable pub picture : (paint : ℕ → List ℕ) (count beam step : ℕ) → List ℕ
picture paint zero beam step = []
picture paint (suc count) beam step = paint beam ++ picture paint count (beam + step) step

pub length-picture :
    (paint : ℕ → List ℕ) (k count beam step : ℕ)
    → ((b : ℕ) → length (paint b) ≡ k)
    → length (picture paint count beam step) ≡ count * k
unfolding picture
length-picture paint k zero beam step same = omega arith
length-picture paint k (suc count) beam step same =
    length-append (paint beam) (picture paint count (beam + step) step)
    ∙ grind (arith, same beam, length-picture paint k count (beam + step) step same)

-- The pixels on the first row, and on the second unless the scan lines are on.
unfoldable pub lay : Host → (base : ℕ) → List ℕ → (ℕ → ℕ) → ℕ → ℕ
lay h base xs f =
    if h.scan_lines == 0
    then overlay (base + h.surface_pitch) xs (overlay base xs f)
    else overlay base xs f

lay-nil : (h : Host) (base : ℕ) (f : ℕ → ℕ) → lay h base [] f ≡ f
unfolding lay overlay
lay-nil h base f = elim (Bool-cases (h.scan_lines == 0)) [
  | inl double ↦ rw double refl
  | inr single ↦ rw single refl
]

-- Two pictures side by side are one picture, when they fit a row.
pub lay-append :
    (h : Host) (base : ℕ) (xs ys : List ℕ) (f : ℕ → ℕ)
    → length xs + length ys ≤ h.surface_pitch
    → lay h (base + length xs) ys (lay h base xs f) ≡ lay h base (xs ++ ys) f
unfolding lay
lay-append h base xs ys f fits =
    let upper = overlay-append base xs ys f in
    let lower = overlay-append (base + h.surface_pitch) xs ys (overlay base (xs ++ ys) f) in
    let swap =
      overlay_comm (base + length xs) (base + h.surface_pitch) ys xs (overlay base xs f)
        (omega arith) in
    let place : base + length xs + h.surface_pitch ≡ base + h.surface_pitch + length xs =
      omega arith in
    elim (Bool-cases (h.scan_lines == 0)) [
      | inl double ↦ rw double (
          ap
            (λ b. overlay b ys (
              overlay (base + length xs) ys
                (overlay (base + h.surface_pitch) xs (overlay base xs f))))
            place
          ∙ ap (overlay (base + h.surface_pitch + length xs) ys) swap
          ∙ ap
              (λ g.
                overlay (base + h.surface_pitch + length xs) ys
                  (overlay (base + h.surface_pitch) xs g))
              (sym upper)
          ∙ sym lower)
      | inr single ↦ rw single (sym upper)
    ]

module _ (element : ℕ → ℕ) (limit : ℕ) (small : limit < 2 ^ 31)
    (within : (i : ℕ) → i < limit → element i ≡ i) where
  put-Shows :
      (base x : ℕ) (f : ℕ → ℕ) (c : Cursor)
      → Shows base f c
      → base < limit
      → Shows (suc base) (update f base x) (put element x c)
  unfolding Shows put
  put-Shows base x f c (bound, here, shows) fits = (
    omega arith,
    omega arith,
    ap₂ (λ g i. update g i x) shows (ap element here ∙ within base fits),
  )

  puts-Shows :
      (base : ℕ) (xs : List ℕ) (f : ℕ → ℕ) (c : Cursor)
      → Shows base f c
      → base + length xs ≤ limit
      → Shows (base + length xs) (overlay base xs f) (puts element xs c)
  unfolding puts overlay
  puts-Shows base [] f c at fits = subst (λ b. Shows b f c) (omega arith) at
  puts-Shows base (x ∷ xs) f c at fits =
      subst (λ b. Shows b (overlay base (x ∷ xs) f) (puts element (x ∷ xs) c)) (omega arith)
        (puts-Shows (suc base) xs (update f base x) (put element x c)
          (put-Shows base x f c at (omega arith)) (omega arith))

  second_row-Shows :
      (base pitch : ℕ) (xs : List ℕ) (f : ℕ → ℕ) (c : Cursor)
      → Shows (base + length xs) f c
      → base + pitch + length xs ≤ limit
      → Shows (base + length xs) (overlay (base + pitch) xs f) (second_row element pitch xs c)
  unfolding second_row Shows
  second_row-Shows base pitch xs f c (bound, here, shows) fits =
      let start = record c { stride = u32 (c.stride + 2 ^ 32 - length xs + pitch) } in
      let (low, there, drawn) =
        puts-Shows (base + pitch) xs f start (omega arith, omega arith, shows) fits in
      (omega arith, omega arith, drawn)

  block-Shows :
      (base : ℕ) (h : Host) (xs : List ℕ) (f : ℕ → ℕ) (c : Cursor)
      → Shows base f c
      → base + h.surface_pitch + length xs ≤ limit
      → Shows (base + length xs) (lay h base xs f) (block element h xs c)
  unfolding block lay
  block-Shows base h xs f c at fits =
      let first = puts-Shows base xs f c at (omega arith) in
      elim (Bool-cases (h.scan_lines == 0)) [
        | inl double ↦ rw double (
            second_row-Shows base h.surface_pitch xs (overlay base xs f) (puts element xs c) first
              fits)
        | inr single ↦ rw single first
      ]

  -- The loop of a mode lays the picture of the line.
  pub beams-Shows :
      (h : Host) (paint : ℕ → List ℕ) (count beam step base : ℕ) (f : ℕ → ℕ) (c : Cursor)
      → Shows base f c
      → length (picture paint count beam step) ≤ h.surface_pitch
      → base + h.surface_pitch + length (picture paint count beam step) ≤ limit
      → Shows
          (base + length (picture paint count beam step))
          (lay h base (picture paint count beam step) f)
          (beams count beam step (λ b. block element h (paint b)) c)
  unfolding beams picture
  beams-Shows h paint zero beam step base f c at row fits =
      subst (λ b. Shows b (lay h base [] f) c) (omega arith)
        (subst (λ g. Shows base g c) (sym (lay-nil h base f)) at)
  beams-Shows h paint (suc count) beam step base f c at row fits =
      let rest = picture paint count (beam + step) step in
      let sizes = length-append (paint beam) rest in
      let one = block-Shows base h (paint beam) f c at (omega arith) in
      let all =
        beams-Shows h paint count (beam + step) step (base + length (paint beam))
          (lay h base (paint beam) f) (block element h (paint beam) c) one (omega arith)
          (omega arith) in
      let joined = lay-append h base (paint beam) rest f (omega arith) in
      let place : base + length (paint beam) + length rest ≡ base + length (paint beam ++ rest) =
        omega arith in
      let run =
        beams count (beam + step) step (λ b. block element h (paint b))
          (block element h (paint beam) c) in
      subst (λ g. Shows (base + length (paint beam ++ rest)) g run) joined
        (subst
          (λ b. Shows b (lay h (base + length (paint beam)) rest (lay h base (paint beam) f)) run)
          place all)
