-- ===== src/Pagefault.antt =====
-- vm-submit/kernel/vm/pagefault.c: what a page fault of a program comes to.
pub mod Rights
pub mod Serve
mod Examples
use csci_402_operating_syste.Prelude.{
  ℕ, ◌≡◌, Bool, true, false, Option, none, some, List, if◌then◌else◌, add32, sub32, bit_or,
}
use csci_402_operating_syste.Prelude.Run.{Run, ok, panic}
use csci_402_operating_syste.Vmmap.{Platform, Area, lookup}
use csci_402_operating_syste.Access.{addr_to_pn, addr_perm}
use csci_402_operating_syste.Mmap.{pn_to_addr}

-- The bits of `cause`.
pub record Cause : Type 0 where
  pub fault_write : Bool
  pub fault_exec : Bool
  pub fault_reserved : Bool
  pub fault_present : Bool

-- PROT_NONE and so on, of a header outside of the repository.
pub record Prots : Type 0 where
  pub prot_none : ℕ
  pub prot_read : ℕ
  pub prot_write : ℕ
  pub prot_exec : ℕ

-- The values that they have there.
pub record IsProts (k : Prots) : Type 0 where
  pub none_value : k.prot_none ≡ 0
  pub read_value : k.prot_read ≡ 1
  pub write_value : k.prot_write ≡ 2
  pub exec_value : k.prot_exec ≡ 4

-- One of the four tests.
abbrev pub add_right : Bool → ℕ → ℕ → ℕ
add_right true prot right = bit_or prot right
add_right false prot right = right

-- `accessRight`
abbrev pub access_right : Prots → Cause → ℕ
access_right k c = add_right c.fault_present k.prot_read (
    add_right c.fault_reserved k.prot_none
      (add_right c.fault_exec k.prot_exec (add_right c.fault_write k.prot_write 0)))

-- The thread exits, with EFAULT as the status of its process; or a page frame is mapped at the address,
-- writable or not.
pub data Fault : Type 0 where
  killed : Fault
  served : (frame addr : ℕ) → (writable : Bool) → Fault

-- The pages of objects: which objects have mmo_shadowed set, and the page frame that pframe_get and the
-- lookuppage of an object find for a page, or none.
pub record Objects : Type 0 where
  pub mmo_shadowed : ℕ → Bool
  pub pframe_get : (object pagenum : ℕ) → Option ℕ
  pub lookuppage : (object pagenum : ℕ) → (forwrite : Bool) → Option ℕ

-- `pt_map` of the page frame. Without one, `tempPageframe->pf_addr` reads through NULL.
abbrev pub map_frame : Platform → (vaddr : ℕ) → Cause → Option ℕ → Run Fault
map_frame l vaddr c none = panic
map_frame l vaddr c (some frame) =
    ok (served frame (pn_to_addr l (addr_to_pn l vaddr)) c.fault_write)

-- The use of `vma_obj`, the last argument.
unfoldable pub serve : Platform → Objects → (vaddr : ℕ) → Cause → Area → Option ℕ → Run Fault
serve l g vaddr c a none = panic
serve l g vaddr c a (some o) =
    let pagenum = sub32 (add32 a.vma_off (addr_to_pn l vaddr)) a.vma_start in
    map_frame l vaddr c
      (if g.mmo_shadowed o then g.lookuppage o pagenum c.fault_write else g.pframe_get o pagenum)

unfoldable pub fault_at :
    Platform → Prots → Objects → List Area → (vaddr : ℕ) → Cause → Option Area → Run Fault
unfolding serve
fault_at l k g m vaddr c none = ok killed
fault_at l k g m vaddr c (some a) =
    if addr_perm l m vaddr (access_right k c) then serve l g vaddr c a a.vma_obj else ok killed

unfoldable pub handle_pagefault :
    Platform → Prots → Objects → List Area → (vaddr : ℕ) → Cause → Run Fault
unfolding fault_at
handle_pagefault l k g m vaddr c = fault_at l k g m vaddr c (lookup m (addr_to_pn l vaddr))
