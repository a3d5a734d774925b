-- ===== src/Base/Maps.antt =====
-- Memories and tables as functions from an index.
use Prim.Native.Nat.{ℕ}
use mathlib.Core.Path.{◌≡◌, refl, ap, sym}
use mathlib.Core.Logic.{◌≢◌, inl, inr}
use mathlib.Core.Bool.{◌&&◌}
use native.Mathlib.Omega.{arith}
use cutiecoco.Base.Tests.{◌==◌, if◌then◌else◌, Bool-cases, ==_iff}

module _ {ℓ} {A : Type ℓ} where
  -- `f[i] = v`.
  unfoldable pub update : (ℕ → A) → ℕ → A → ℕ → A
  update f i v j = if j == i then v else f j

  pub update_lem : (f : ℕ → A) (i j : ℕ) (v : A) → update f i v j ≡ (if j == i then v else f j)
  unfolding update
  update_lem f i j v = refl

  pub update_self : (f : ℕ → A) (i : ℕ) (v : A) → update f i v i ≡ v
  unfolding update
  update_self f i v = ground arith

  pub update_ne : (f : ℕ → A) (i j : ℕ) (v : A) → j ≢ i → update f i v j ≡ f j
  unfolding update
  update_ne f i j v h = ground arith

-- `f[i][j] = v` for a table of two indices.
pub update_row {ℓ} :
    {A : Type ℓ} (f : ℕ → ℕ → A) (i j : ℕ) (v : A) (a b : ℕ)
    → update f i (update (f i) j v) a b ≡ (if (a == i) && (b == j) then v else f a b)
unfolding update
update_row f i j v a b = elim (Bool-cases (a == i)) [
  | inl here ↦ rw here (ap (λ r. if b == j then v else f r b) (sym ((==_iff a i).0 here)))
  | inr there ↦ rw there
]
