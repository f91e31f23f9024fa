-- ===== src/Access/Examples.antt =====
-- Permissions in a small address space: tests, and the theorems at it.
use csci_402_operating_syste.Prelude.{◌+◌, ◌≡◌, ◌↔◌, refl, true, false, some, arith}
use csci_402_operating_syste.Vmmap.{Area, lookup}
use csci_402_operating_syste.Vmmap.Examples.{i386, i386-IsPlatform, space, space-IsSpace}
use csci_402_operating_syste.Access.{
  addr_to_pn, allows, addr_perm, range_perm, addr_perm_loop, range_perm_loop,
}
use csci_402_operating_syste.Access.Perm.{Touches, Permits, addr_perm_iff, range_perm_iff}

readable : addr_perm i386 space 0x408123 1 ≡ true
unfolding addr_perm addr_perm_loop
readable = refl

not_executable : addr_perm i386 space 0x408123 4 ≡ false
unfolding addr_perm addr_perm_loop
not_executable = refl

unmapped : addr_perm i386 space 0x411000 1 ≡ false
unfolding addr_perm addr_perm_loop
unmapped = refl

-- Pages 0x410 to 0x41f of this range are not mapped.
over_hole : range_perm i386 space 0x40f000 0x12000 3 ≡ true
unfolding range_perm range_perm_loop
over_hole = refl

addr_at_text :
    (addr_perm i386 space 0x408123 1 ≡ true)
    ↔ ((a : Area) × (lookup space (addr_to_pn i386 0x408123) ≡ some a) × (allows 1 a ≡ true))
addr_at_text = addr_perm_iff i386 space 0x408123 1

range_perm_iff_example : (range_perm i386 space 0x40f000 0x12000 3 ≡ true) ↔ (
    Touches (addr_to_pn i386 0x40f000) (addr_to_pn i386 (0x40f000 + 0x12000) + 1) space
    × Permits (addr_to_pn i386 0x40f000) (addr_to_pn i386 (0x40f000 + 0x12000) + 1) 3 space)
range_perm_iff_example =
    range_perm_iff i386 space 0x40f000 0x12000 3 i386-IsPlatform space-IsSpace.chain (omega arith)
