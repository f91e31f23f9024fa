-- ===== src/FileTable/Examples.antt =====
-- A table of three descriptors, two of which are open on one file: tests, and the theorems at it.
use csci_402_operating_syste.Prelude.{
  ℕ, ◌+◌, ◌-◌, ◌<◌, ◌≡◌, ◌≢◌, ◌⊎◌, refl, ap, inl, inr, Option, none, some, [], ◌∷◌, ◌||◌, true,
  false, arith,
}
use csci_402_operating_syste.FileTable.{
  Counts, FileOps, Files, fd, error, ebadf, emfile, slot, is_bad, out_of_range, do_close, do_dup,
  do_dup2, dup_file, dup_into, get_empty_fd, empty_from, count_loop,
}
use csci_402_operating_syste.FileTable.Slots.{hit, hit_other, hit-none}
use csci_402_operating_syste.FileTable.Calls.{
  IsFileOps, IsFiles, Changed, do_close_lem, do_dup_lem, do_dup2_lem,
}

abbrev taken : Option ℕ → Counts → Option ℕ × Counts
taken none c = (none, c)
taken (some f) c = (some f, λ g. c g + hit g (some f))

abbrev counting : FileOps
counting = record { fget = λ xs d c. taken (slot xs d) c; fput = λ f c g. c g - hit g (some f) }

hit_le : (f g : ℕ) (c : Counts) → 0 < c f → c g - hit g (some f) + hit g (some f) ≡ c g
hit_le f g c h = elim (hit_other g f) [
  | inl (e, k) ↦ omega (arith, k, ap c e)
  | inr k ↦ omega (arith, k)
]

counting-IsFileOps : IsFileOps counting
counting-IsFileOps = record {
  fget_file = λ xs d f c e. rw e;
  fget_count = λ xs d f g c e. rw e;
  fput_count = hit_le;
}

abbrev two_open : Files
two_open = record {
  p_files = some 7 ∷ none ∷ some 7 ∷ [];
  f_refcount = λ g. hit g (some 7) + hit g (some 7);
}

two_open-IsFiles : IsFiles 3 (λ g. 0) two_open
two_open-IsFiles = record { size = refl; counted = λ g. omega (arith, hit-none g) }

lowest_free : (do_dup counting two_open 2).0 ≡ fd 1
unfolding do_dup dup_file dup_into get_empty_fd empty_from count_loop
lowest_free = refl

not_open : (do_dup counting two_open 1).0 ≡ error ebadf
unfolding do_dup
not_open = refl

closed_twice : (do_close counting (do_close counting two_open 0).1 0).0 ≡ error ebadf
unfolding do_close
closed_twice = refl

do_close_lem_example :
    ((is_bad two_open.p_files 0 ≡ true) × (do_close counting two_open 0 ≡ (error ebadf, two_open)))
    ⊎ ((s' : Files) × (is_bad two_open.p_files 0 ≡ false)
        × (do_close counting two_open 0 ≡ (fd 0, s'))
        × Changed 0 none two_open s'
        × IsFiles 3 (λ g. 0) s')
do_close_lem_example =
    do_close_lem counting 3 (λ g. 0) two_open 0 counting-IsFileOps two_open-IsFiles

do_dup_lem_example :
    ((is_bad two_open.p_files 2 ≡ true) × (do_dup counting two_open 2 ≡ (error ebadf, two_open)))
    ⊎ ((is_bad two_open.p_files 2 ≡ false)
        × ((s' : Files) × IsFiles 3 (λ g. 0) s'
            × (((new : ℕ) × (do_dup counting two_open 2 ≡ (fd new, s'))
                  × (slot two_open.p_files new ≡ none)
                  × ((j : ℕ) → j < new → slot two_open.p_files j ≢ none)
                  × Changed new (some 7) two_open s')
                ⊎ ((do_dup counting two_open 2 ≡ (error emfile, s'))
                    × ((j : ℕ) → j < 3 → slot two_open.p_files j ≢ none)
                    × (s'.p_files ≡ two_open.p_files)))))
do_dup_lem_example = do_dup_lem counting 3 (λ g. 0) two_open 2 counting-IsFileOps two_open-IsFiles

do_dup2_lem_example :
    (((is_bad two_open.p_files 0 || out_of_range two_open.p_files 2) ≡ true)
      × (do_dup2 counting two_open 0 2 ≡ (error ebadf, two_open)))
    ⊎ ((s' : Files) × ((is_bad two_open.p_files 0 || out_of_range two_open.p_files 2) ≡ false)
        × (do_dup2 counting two_open 0 2 ≡ (fd 2, s'))
        × Changed 2 (some 7) two_open s'
        × IsFiles 3 (λ g. 0) s')
do_dup2_lem_example =
    do_dup2_lem counting 3 (λ g. 0) two_open 0 2 counting-IsFileOps two_open-IsFiles
