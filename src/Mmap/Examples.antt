-- ===== src/Mmap/Examples.antt =====
-- munmap(2) and brk(2) in a small address space: tests, and the theorems at it.
use csci_402_operating_syste.Prelude.{
  ℕ, ◌≡◌, ◌⊎◌, refl, true, false, none, List, [], arith, if◌then◌else◌,
}
use csci_402_operating_syste.Prelude.Run.{Run, ok}
use csci_402_operating_syste.Vmmap.{Removed, Area}
use csci_402_operating_syste.Vmmap.Examples.{i386, i386-IsPlatform, space, space-IsSpace}
use csci_402_operating_syste.Vmmap.Remove.Pages.{page, in_range}
use csci_402_operating_syste.Vmmap.Remove.Main.{IsSpace}
use csci_402_operating_syste.Mmap.{refuses_munmap, invalid, unmapped, do_munmap}
use csci_402_operating_syste.Mmap.Brk.{Break, Mapped, failed, no_memory, broke, do_brk}
use csci_402_operating_syste.Mmap.Munmap.{Accepts, do_munmap_lem}

unaligned : refuses_munmap i386 0x408001 0x1000 ≡ true
unfolding refuses_munmap
unaligned = refl

no_length : refuses_munmap i386 0x408000 0 ≡ true
unfolding refuses_munmap
no_length = refl

above_user_memory : refuses_munmap i386 0xbffff000 0x2000 ≡ true
unfolding refuses_munmap
above_user_memory = refl

-- The end of this range wraps around to a user address, and the call is accepted.
wrapped_end : refuses_munmap i386 0x408000 0xfffff000 ≡ false
unfolding refuses_munmap
wrapped_end = refl

do_munmap_lem_example :
    ((¬ Accepts i386 0x409000 0x1234) × (do_munmap i386 space 0x409000 0x1234 ≡ ok invalid))
    ⊎ (Accepts i386 0x409000 0x1234
        × ((r : Removed) × (do_munmap i386 space 0x409000 0x1234 ≡ ok (unmapped r))
            × IsSpace i386 r.areas
            × ((x : ℕ) → page r.areas x ≡ (if in_range 0x409 0x40b x then none else page space x))))
do_munmap_lem_example =
    do_munmap_lem i386 space 0x409000 0x1234 i386-IsPlatform space-IsSpace (omega arith)
      (omega arith)

-- The heap ends with page 0x43f.
abbrev breaks : Break
breaks = record { p_start_brk = 0x420010; p_brk = 0x43f800; areas = space }

abbrev no_mmap : ℕ → ℕ → List Area → Run Mapped
no_mmap addr len m = ok (failed 22)

asks_for_break : do_brk i386 no_mmap 0 breaks ≡ ok (broke 0x43f800 breaks [])
unfolding do_brk
asks_for_break = refl

below_first_break : do_brk i386 no_mmap 0x420000 breaks ≡ ok no_memory
unfolding do_brk
below_first_break = refl
