-- ===== src/Kdebug.antt =====
-- kern/kdebug.c: stab_binsearch. An index stands for the index of the source and one, so that the
-- source's -1 is 0; the middle of two indices is then again the half of their sum.
pub mod Scans
pub mod Inv
pub mod Result
mod Tests
use jos_kernel.Base.{
  Bool, Option, false, if◌then◌else◌, leb, ltb, none, some, suc, true, zero, ℕ, ◌%◌, ◌*◌, ◌+◌, ◌-◌,
  ◌/◌, ◌==◌, ◌||◌,
}
use jos_kernel.Kernel.Layout.{u32_mod}

-- struct Stab, as far as it is used
pub record Stab : Type 0 where
  pub n_type : ℕ
  pub n_value : ℕ

-- The variables of stab_binsearch, `*region_left` and `*region_right` among them.
pub record Search : Type 0 where
  pub region_left : ℕ
  pub region_right : ℕ
  pub l : ℕ
  pub r : ℕ
  pub addr : ℕ
  pub any_matches : Bool

module _ (stabs : ℕ → Stab) (type : ℕ) where
  abbrev pub has_type : ℕ → Bool
  has_type i = (stabs i).n_type == type

  -- `while (m >= l && stabs[m].n_type != type) m--;`
  unfoldable pub earliest : ℕ → ℕ → ℕ
  earliest l zero = zero
  earliest l (suc m) =
      let rest = earliest l m in if ltb (suc m) l || has_type (suc m) then suc m else rest

  -- A round of the loop, with the middle and the stab of the type that was found.
  unfoldable pub narrow : ℕ → ℕ → Search → Search
  narrow true_m m s =
      if ltb (stabs m).n_value s.addr
      then record s { any_matches = true; region_left = m; l = true_m + 1 }
      else if ltb s.addr (stabs m).n_value
      then record s { any_matches = true; region_right = m - 1; r = m - 1 }
      else record s { any_matches = true; region_left = m; l = m; addr = (s.addr + 1) % u32_mod }

  unfoldable pub round : ℕ → ℕ → Search → Search
  unfolding narrow
  round true_m m s = if ltb m s.l then record s { l = true_m + 1 } else narrow true_m m s

  -- The loop on fuel.
  unfoldable pub search_loop : ℕ → Search → Option Search
  unfolding earliest round
  search_loop zero s = none
  search_loop (suc fuel) s =
      let true_m : ℕ = (s.l + s.r) / 2 in
      let rest = search_loop fuel (round true_m (earliest s.l true_m) s) in
      if ltb s.r s.l then some s else rest

  -- The loop at the end, from `*region_right` down.
  unfoldable pub rightmost : ℕ → ℕ → ℕ
  rightmost left zero = zero
  rightmost left (suc l) =
      let rest = rightmost left l in if leb (suc l) left || has_type (suc l) then suc l else rest

  -- The final `*region_left` and `*region_right`.
  unfoldable pub regions : Search → ℕ × ℕ
  unfolding rightmost
  regions s =
      if s.any_matches
      then (rightmost s.region_left s.region_right, s.region_right)
      else (s.region_left, s.region_left - 1)

  abbrev pub finish : Option Search → Option (ℕ × ℕ)
  finish none = none
  finish (some s) = some (regions s)

  -- Each round but one shortens the range.
  unfoldable pub stab_binsearch : ℕ → ℕ → ℕ → Option (ℕ × ℕ)
  unfolding search_loop regions
  stab_binsearch first last addr = finish (
      search_loop (2 * (last + 1 - first) + 2) (record {
        region_left = first;
        region_right = last;
        l = first;
        r = last;
        addr = addr;
        any_matches = false;
      }))
