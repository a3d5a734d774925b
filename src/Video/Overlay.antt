-- ===== src/Video/Overlay.antt =====
-- What the writes of emulation/tcc1014graphics.cpp leave on the surface: a sequence of pixels laid
-- over a stretch of it.
use cutiecoco.Base.{
  ℕ, zero, suc, ◌+◌, ◌-◌, ◌≤◌, ◌<◌, ◌≡◌, refl, ap, ◌∙◌, fun_ext, List, [], ◌∷◌, ◌++◌, Bool, ◌&&◌,
  ltb, leb, ◌==◌, if◌then◌else◌, length, get_or, arith, ◌⊎◌,
}
use cutiecoco.Base.Maps.{update, update_lem}

-- The pixels `xs` from the index `base` on.
unfoldable pub overlay : (base : ℕ) → List ℕ → (ℕ → ℕ) → ℕ → ℕ
overlay base [] f = f
overlay base (x ∷ xs) f = overlay (suc base) xs (update f base x)

-- The test that an index lies under the pixels.
abbrev pub covers : (base count i : ℕ) → Bool
covers base count i = leb base i && ltb i (base + count)

get_or-cons :
    (x : ℕ) (xs : List ℕ) (k : ℕ)
    → get_or (x ∷ xs) k 0 ≡ (if k == 0 then x else get_or xs (k - 1) 0)
get_or-cons x xs zero = refl
get_or-cons x xs (suc k) =
    let same : k ≡ suc k - 1 = omega arith in ap (λ j. get_or xs j 0) same ∙ ground arith

-- Reading an index: under the pixels the pixel, elsewhere what was there.
pub overlay_lem :
    (base : ℕ) (xs : List ℕ) (f : ℕ → ℕ) (i : ℕ)
    → overlay base xs f i ≡ (if covers base (length xs) i then get_or xs (i - base) 0 else f i)
unfolding overlay
overlay_lem base [] f i = ground arith
overlay_lem base (x ∷ xs) f i =
    let shift : i - base - 1 ≡ i - suc base = omega arith in
    overlay_lem (suc base) xs (update f base x) i
    ∙ ground
        (arith, update_lem f base i x, get_or-cons x xs (i - base), ap (λ k. get_or xs k 0) shift)

pub overlay-append :
    (base : ℕ) (xs ys : List ℕ) (f : ℕ → ℕ)
    → overlay base (xs ++ ys) f ≡ overlay (base + length xs) ys (overlay base xs f)
unfolding overlay
overlay-append base [] ys f = ap (λ b. overlay b ys f) (omega arith)
overlay-append base (x ∷ xs) ys f =
    overlay-append (suc base) xs ys (update f base x)
    ∙ ap (λ b. overlay b ys (overlay (suc base) xs (update f base x))) (omega arith)

-- Pixels on disjoint stretches may be laid in either order.
pub overlay_comm :
    (a b : ℕ) (xs ys : List ℕ) (f : ℕ → ℕ)
    → a + length xs ≤ b
    → overlay a xs (overlay b ys f) ≡ overlay b ys (overlay a xs f)
overlay_comm a b xs ys f disjoint = fun_ext λ i.
    overlay_lem a xs (overlay b ys f) i
    ∙ ground
        (arith, overlay_lem a xs f i, overlay_lem b ys f i, overlay_lem b ys (overlay a xs f) i)

pub overlay-hit :
    (base : ℕ) (xs : List ℕ) (f : ℕ → ℕ) (i x : ℕ)
    → i ≡ base + x
    → x < length xs
    → overlay base xs f i ≡ get_or xs x 0
overlay-hit base xs f i x e inside =
    let shift : i - base ≡ x = omega arith in
    overlay_lem base xs f i ∙ ground (arith, e, inside) ∙ ap (λ k. get_or xs k 0) shift

pub overlay-miss :
    (base : ℕ) (xs : List ℕ) (f : ℕ → ℕ) (i : ℕ)
    → (i < base) ⊎ (base + length xs ≤ i)
    → overlay base xs f i ≡ f i
overlay-miss base xs f i outside = overlay_lem base xs f i ∙ ground (arith, outside)
