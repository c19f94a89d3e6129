-- ===== src/Fork/Tests.antt =====
-- Environment 1 with a writable page 3, a shared page 4 and a page 5 that is only read; 2 is its child.
use jos_kernel.Base.{[], false, if◌then◌else◌, none, not, refl, some, ℕ, ◌+◌, ◌==◌, ◌∷◌, ◌≡◌}
use jos_kernel.Fork.{World}
use jos_kernel.Fork.Copies.{for_child}

abbrev parent_sample : World
parent_sample = record {
  pages = λ a j.
      if not (a == 1)
      then none
      else if j == 3
      then some (record { frame = 10; perm = 7 })
      else if j == 4
      then some (record { frame = 11; perm = 0x407 })
      else if j == 5
      then some (record { frame = 12; perm = 5 })
      else none;
  mem = λ g o. g + o;
  free = 20 ∷ 21 ∷ [];
  map_fails = λ a j. false;
}

-- What the child has of the three pages.
for_child_runs :
    (for_child (parent_sample.pages 1 3) none ≡ some (record { frame = 10; perm = 0x805 }))
    × (for_child (parent_sample.pages 1 4) none ≡ some (record { frame = 11; perm = 0x407 }))
    × (for_child (parent_sample.pages 1 5) none ≡ some (record { frame = 12; perm = 5 }))
for_child_runs = (refl, refl, refl)

parent_memory : ℕ → ℕ → ℕ → ℕ
parent_memory b k i = k + 7 + i
