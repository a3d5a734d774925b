-- ===== src/Cpu/Progress/Pages.antt =====
-- The second and third pages of opcodes of emulation/mc6809.cpp move the cycle counter.
use cutiecoco.Base.{ℕ, ◌≡◌, refl, Bool, true, false, ltb, ◌==◌, if◌then◌else◌}
use cutiecoco.Cpu.Bus.{Bus, Act}
use cutiecoco.Cpu.Registers.{Reg16}
use cutiecoco.Cpu.Keeps.Steps.{Keeps}
use cutiecoco.Cpu.Progress.Clock.{AtLeast, clock-Stable, Passes, passing_rules}
use cutiecoco.Cpu.Progress.Timed.{page2_left_timed, page2_right_timed, page2_timed, page3_timed}
use cutiecoco.Cpu.Progress.Bodies.{passing_bodies}
use cutiecoco.Cpu.Keeps.Modes.{mode_rules}
use cutiecoco.Cpu.Keeps.Bodies.{body_rules}
use cutiecoco.Cpu.Rows.Pages.{
  compare_word, load_word, store_at, page2_branch, page2_left, page2_right, page2, break_point,
  page3,
}

five_or_six : (b : Bool) → ltb 0 (if b then 6 else 5) ≡ true
five_or_six true = refl
five_or_six false = refl

module _ {M : Type 0} {k : ℕ} ⦃bus : Bus M⦄ where
  pub Passes-compare_word :
      (m : Act M ℕ) (r : Reg16) (n : ℕ)
      → Keeps (AtLeast k) m
      → ltb 0 n ≡ true
      → Passes {M = M} k true (compare_word m r n)
  unfolding compare_word
  Passes-compare_word m r n h0 h1 =
      search (passing_rules, passing_bodies, mode_rules, body_rules) depth 30

  pub Passes-load_word :
      (m : Act M ℕ) (r : Reg16) (n : ℕ)
      → Keeps (AtLeast k) m
      → ltb 0 n ≡ true
      → Passes {M = M} k true (load_word m r n)
  unfolding load_word
  Passes-load_word m r n h0 h1 =
      search (passing_rules, passing_bodies, mode_rules, body_rules) depth 30

  pub Passes-store_at :
      (m : Act M ℕ) (r : Reg16) (n : ℕ)
      → Keeps (AtLeast k) m
      → ltb 0 n ≡ true
      → Passes {M = M} k true (store_at m r n)
  unfolding store_at
  Passes-store_at m r n h0 h1 =
      search (passing_rules, passing_bodies, mode_rules, body_rules) depth 30

  pub Passes-page2_branch :
      (n : ℕ) → Passes {M = M} k (if n == 0 then false else true) (page2_branch n)
  unfolding page2_branch
  Passes-page2_branch n =
      search (five_or_six, passing_rules, passing_bodies, mode_rules, body_rules) depth 30

  pub Passes-page2_left : (n : ℕ) → Passes {M = M} k (page2_left_timed n) (page2_left n)
  unfolding page2_left
  Passes-page2_left n =
      search
        (
          passing_rules, passing_bodies, mode_rules, body_rules, Passes-compare_word,
          Passes-load_word, Passes-store_at,
        )
        depth 30

  pub Passes-page2_right : (n : ℕ) → Passes {M = M} k (page2_right_timed n) (page2_right n)
  unfolding page2_right
  Passes-page2_right n =
      search
        (passing_rules, passing_bodies, mode_rules, body_rules, Passes-load_word, Passes-store_at)
        depth 30

  pub Passes-page2 : (n : ℕ) → Passes {M = M} k (page2_timed n) (page2 n)
  unfolding page2
  Passes-page2 n =
      search
        (
          passing_rules, passing_bodies, mode_rules, body_rules, Passes-page2_branch,
          Passes-page2_left, Passes-page2_right,
        )
        depth 30

  pub Passes-break_point : Passes {M = M} k true break_point
  unfolding break_point
  Passes-break_point = search (passing_rules, passing_bodies, mode_rules, body_rules) depth 30

  pub Passes-page3 : (n : ℕ) → Passes {M = M} k (page3_timed n) (page3 n)
  unfolding page3
  Passes-page3 n =
      search
        (
          passing_rules, passing_bodies, mode_rules, body_rules, Passes-compare_word,
          Passes-break_point,
        )
        depth 30

pub ruleset passing_pages = (
  Passes-compare_word, Passes-load_word, Passes-store_at, Passes-page2_branch, Passes-page2_left,
  Passes-page2_right, Passes-page2, Passes-break_point, Passes-page3,
)
