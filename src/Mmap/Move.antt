-- ===== src/Mmap/Move.antt =====
-- `do_brk`: the pages that it maps and takes away.
use csci_402_operating_syste.Prelude.{ℕ, ◌+◌, ◌≡◌, ◌⊎◌, Option, none, some, List, if◌then◌else◌}
use csci_402_operating_syste.Prelude.Run.{Run, ok}
use csci_402_operating_syste.Vmmap.{Platform, Area, Effect}
use csci_402_operating_syste.Vmmap.Chain.{Free}
use csci_402_operating_syste.Vmmap.Remove.Pages.{Page, page, page_of, in_range}
use csci_402_operating_syste.Vmmap.Remove.Main.{IsSpace}
use csci_402_operating_syste.Mmap.Brk.{Break, Broke, no_memory, ends}

-- The pages after the break has moved from the page `init` to the page `final`, where `h` is the area of
-- the break: those above are its next pages, or are not mapped.
abbrev pub moved_page : List Area → Area → (init final x : ℕ) → Option Page
moved_page m h init final x =
    if in_range (init + 1) (final + 1) x
    then some (page_of x h)
    else if in_range (final + 1) (init + 1) x
    then none
    else page m x

-- 0, with the break at `addr`; or -ENOMEM, if a page up to that of `addr` is mapped.
abbrev pub Moves : Platform → Area → (addr init final : ℕ) → Break → Run Broke → Type 0
Moves l h addr init final b r =
    ((r ≡ ok no_memory) × ¬ Free b.areas (init + 1) (final + 1))
    ⊎ ((m : List Area) × (log : List Effect) × (r ≡ ok (ends addr b m log))
        × IsSpace l m
        × ((x : ℕ) → page m x ≡ moved_page b.areas h init final x))
