-- ===== src/Fds/Tests.antt =====
-- Descriptor 0 is a pipe, with a data page, and descriptor 1 a file; the pipe unmaps both of its pages when
-- it is closed.
use jos_kernel.Base.{
  ==_ne, Bool-cases, List, [], arith, if◌then◌else◌, inl, inr, none, refl, some, ℕ, ◌==◌, ◌∷◌, ◌≡◌,
  ◌≢◌, ◌⊎◌,
}
use jos_kernel.Fds.{
  Dev, Space, close, close_all, close_fd, data_page, dup, dup_pages, fd_alloc, fd_close, fd_lookup,
  page_unmap,
}
use jos_kernel.Fds.Dup.{Duplicated, dup_lem}
use jos_kernel.Fds.Laws.{Devices, IsClose, close_all_lem}
use jos_kernel.Serv.{e_inval, negative}

abbrev close_pipe : ℕ → Space → ℕ × Space
close_pipe fd s = (0, page_unmap fd (page_unmap (data_page fd) s))

close_pipe-IsClose : IsClose close_pipe
close_pipe-IsClose = record {
  others = λ fd j s a b. let x = ==_ne j fd a in let y = ==_ne j (data_page fd) b in rw (x, y) refl;
  maps_none = λ fd j s e. elim (Bool-cases (j == fd)) [
    | inl here ↦ rw here refl
    | inr other ↦ elim (Bool-cases (j == data_page fd)) [
      | inl there ↦ rw (other, there) refl
      | inr apart ↦ rw (other, apart) e
    ]
  ];
}

abbrev devices : List Dev
devices =
    record { dev_id = 112; dev_close = some close_pipe }
    ∷ record { dev_id = 102; dev_close = none }
    ∷ []

devices-Devices : Devices devices
devices-Devices = (close_pipe-IsClose, (tt, tt))

abbrev two_open : Space
two_open = record {
  pages = λ i.
      if i == 0
      then some (record { frame = 5; perm = 0x407 })
      else if i == 1
      then some (record { frame = 6; perm = 0x407 })
      else if i == 32
      then some (record { frame = 7; perm = 0x467 })
      else none;
  fd_at =
      λ f. record { fd_dev_id = if f == 5 then 112 else 102; fd_offset = 0; fd_omode = 2; id = 9 };
}

close_all_lem_example :
    ((fdnum : ℕ) → fd_lookup fdnum (close_all devices two_open) ≡ none)
    × (fd_alloc (close_all devices two_open) ≡ some 0)
close_all_lem_example = close_all_lem devices devices-Devices two_open

dup_lem_example :
    let old : ℕ = 0 in
    ((fd_lookup 0 two_open ≡ none) × (dup devices 0 1 two_open ≡ (negative e_inval, two_open)))
    ⊎ ((old ≢ 1) × (t : Space) × (dup devices 0 1 two_open ≡ (1, t)) × Duplicated 0 1 two_open t)
    ⊎ ((old ≡ 1)
        × (t : Space) × (dup devices 0 1 two_open ≡ (negative e_inval, t))
        × (fd_lookup 0 t ≡ none))
dup_lem_example = dup_lem devices 0 1 two_open devices-Devices (omega arith)

-- A descriptor's number beyond the table is not refused: the Fd page goes over the data page of another.
dup_over_data : (dup devices 1 32 two_open).1.pages 32 ≡ some (record { frame = 6; perm = 0x407 })
unfolding dup fd_lookup close dup_pages
dup_over_data = refl

dup_to_itself : (dup devices 1 1 two_open).0 ≡ negative e_inval
unfolding dup fd_lookup close fd_close close_fd dup_pages
dup_to_itself = refl
