-- ===== src/Access.antt =====
-- vm-submit/kernel/api/access.c: whether a process may use addresses of its address space.
pub mod Perm
mod Examples
use csci_402_operating_syste.Prelude.{
  ℕ, ◌+◌, ◌/◌, Bool, true, false, ◌&&◌, List, [], ◌∷◌, ◌==◌, ltb, leb, if◌then◌else◌, add32,
  bit_and,
}
use csci_402_operating_syste.Vmmap.{Platform, Area}

-- `ADDR_TO_PN`
abbrev pub addr_to_pn : Platform → ℕ → ℕ
addr_to_pn l addr = addr / l.page_size

-- The protection of an area has every bit of `perm`.
abbrev pub allows : ℕ → Area → Bool
allows perm a = bit_and a.vma_prot perm == perm

pub addr_perm_loop : (page_no perm : ℕ) → List Area → Bool
addr_perm_loop page_no perm [] = false
addr_perm_loop page_no perm (a ∷ m) =
    if leb a.vma_start page_no && ltb page_no a.vma_end
    then allows perm a
    else addr_perm_loop page_no perm m

pub addr_perm : Platform → List Area → (vaddr perm : ℕ) → Bool
unfolding addr_perm_loop
addr_perm l m vaddr perm = addr_perm_loop (addr_to_pn l vaddr) perm m

-- The iteration of `range_perm`, with the variable `found`.
pub range_perm_loop : (initial final perm : ℕ) → (found : Bool) → List Area → Bool
range_perm_loop initial final perm found [] = found
range_perm_loop initial final perm found (a ∷ m) =
    if leb a.vma_end initial
    then range_perm_loop initial final perm found m
    else if leb final a.vma_start
    then found
    else if allows perm a
    then range_perm_loop initial final perm true m
    else false

pub range_perm : Platform → List Area → (avaddr len perm : ℕ) → Bool
unfolding range_perm_loop
range_perm l m avaddr len perm =
    range_perm_loop (addr_to_pn l avaddr) (addr_to_pn l (add32 avaddr len) + 1) perm false m
