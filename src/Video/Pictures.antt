-- ===== src/Video/Pictures.antt =====
-- Reading the picture of a line: which value of the RAM a column of a graphics mode of
-- emulation/tcc1014graphics.cpp shows.
use cutiecoco.Base.{
  ℕ, zero, suc, ◌+◌, ◌*◌, ◌<◌, ◌≡◌, refl, ap, sym, ◌∙◌, List, [], ◌∷◌, ◌++◌, map, length,
  length-append, get_or, arith,
}
use cutiecoco.Video.Raster.{replicate, stretched}
use cutiecoco.Video.Drawing.{picture}

get_or-append_left :
    (xs ys : List ℕ) (i : ℕ) → i < length xs → get_or (xs ++ ys) i 0 ≡ get_or xs i 0
get_or-append_left [] ys i h = absurd (omega arith)
get_or-append_left (x ∷ xs) ys zero h = refl
get_or-append_left (x ∷ xs) ys (suc i) h = get_or-append_left xs ys i (omega arith)

get_or-append_right :
    (xs ys : List ℕ) (n i : ℕ) → n ≡ length xs → get_or (xs ++ ys) (n + i) 0 ≡ get_or ys i 0
get_or-append_right [] ys n i e = ap (λ k. get_or ys k 0) (omega arith)
get_or-append_right (x ∷ xs) ys zero i e = absurd (omega arith)
get_or-append_right (x ∷ xs) ys (suc n) i e =
    let next : suc n + i ≡ suc (n + i) = omega arith in
    ap (λ k. get_or (x ∷ xs ++ ys) k 0) next ∙ get_or-append_right xs ys n i (omega arith)

length-replicate : (n x : ℕ) → length (replicate n x) ≡ n
length-replicate zero x = refl
length-replicate (suc n) x = ap suc (length-replicate n x)

get_or-replicate : (n x i : ℕ) → i < n → get_or (replicate n x) i 0 ≡ x
get_or-replicate zero x i h = absurd (omega arith)
get_or-replicate (suc n) x zero h = refl
get_or-replicate (suc n) x (suc i) h = get_or-replicate n x i (omega arith)

pub get_or-map :
    (f : ℕ → ℕ) (xs : List ℕ) (i : ℕ) → i < length xs → get_or (map f xs) i 0 ≡ f (get_or xs i 0)
get_or-map f [] i h = absurd (omega arith)
get_or-map f (x ∷ xs) zero h = refl
get_or-map f (x ∷ xs) (suc i) h = get_or-map f xs i (omega arith)

pub length-map : (f : ℕ → ℕ) (xs : List ℕ) → length (map f xs) ≡ length xs
length-map f [] = refl
length-map f (x ∷ xs) = ap suc (length-map f xs)

pub length-stretched : (n : ℕ) (xs : List ℕ) → length (stretched n xs) ≡ length xs * n
unfolding stretched
length-stretched n [] = omega arith
length-stretched n (x ∷ xs) =
    length-append (replicate n x) (stretched n xs)
    ∙ grind (arith, length-replicate n x, length-stretched n xs)

-- The `q`-th pixel fills the columns from `q * n` on.
pub get_or-stretched :
    (n : ℕ) (xs : List ℕ) (q m : ℕ) → m < n → get_or (stretched n xs) (q * n + m) 0 ≡ get_or xs q 0
unfolding stretched
get_or-stretched n [] q m h = refl
get_or-stretched n (x ∷ xs) zero m h =
    let place : 0 * n + m ≡ m = omega arith in
    ap (λ k. get_or (replicate n x ++ stretched n xs) k 0) place
    ∙ get_or-append_left (replicate n x) (stretched n xs) m (omega (arith, length-replicate n x))
    ∙ get_or-replicate n x m h
get_or-stretched n (x ∷ xs) (suc q) m h =
    let place : suc q * n + m ≡ n + (q * n + m) = grind arith in
    ap (λ k. get_or (replicate n x ++ stretched n xs) k 0) place
    ∙ get_or-append_right (replicate n x) (stretched n xs) n (q * n + m)
        (sym (length-replicate n x))
    ∙ get_or-stretched n xs q m h

-- The block of the `a`-th word starts at the column `a * size`.
pub get_or-picture :
    (paint : ℕ → List ℕ) (size count beam step a m : ℕ)
    → ((b : ℕ) → length (paint b) ≡ size)
    → a < count
    → m < size
    → get_or (picture paint count beam step) (a * size + m) 0 ≡ get_or (paint (beam + a * step)) m 0
unfolding picture
get_or-picture paint size zero beam step a m same below inside = absurd (omega arith)
get_or-picture paint size (suc count) beam step zero m same below inside =
    let place : 0 * size + m ≡ m = omega arith in
    let first : beam ≡ beam + 0 * step = omega arith in
    ap (λ k. get_or (paint beam ++ picture paint count (beam + step) step) k 0) place
    ∙ get_or-append_left (paint beam) (picture paint count (beam + step) step) m
        (omega (arith, same beam))
    ∙ ap (λ b. get_or (paint b) m 0) first
get_or-picture paint size (suc count) beam step (suc a) m same below inside =
    let place : suc a * size + m ≡ size + (a * size + m) = grind arith in
    let next : beam + step + a * step ≡ beam + suc a * step = grind arith in
    ap (λ k. get_or (paint beam ++ picture paint count (beam + step) step) k 0) place
    ∙ get_or-append_right (paint beam) (picture paint count (beam + step) step) size (a * size + m)
        (sym (same beam))
    ∙ get_or-picture paint size count (beam + step) step a m same (omega arith) inside
    ∙ ap (λ b. get_or (paint b) m 0) next
