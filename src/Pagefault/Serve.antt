-- ===== src/Pagefault/Serve.antt =====
-- `handle_pagefault`: which faults are served, and with which page.
use mathlib.Core.Option
use csci_402_operating_syste.Prelude.{
  ℕ, ◌<◌, ◌≡◌, ◌⊎◌, ◌∙◌, refl, ap, sym, inl, inr, Bool, Option, none, some, List, [], ◌∷◌, All,
  arith, subst, if◌then◌else◌, if_true, if_false, Bool-cases, Option-cases, ◌&&◌, leb, ltb,
}
use csci_402_operating_syste.Prelude.Run.{Run, ok, panic}
use csci_402_operating_syste.Vmmap.{Platform, Area, lookup}
use csci_402_operating_syste.Vmmap.Remove.{IsAttached}
use csci_402_operating_syste.Vmmap.Remove.Pages.{Page, page, page_of}
use csci_402_operating_syste.Vmmap.Remove.Main.{IsSpace}
use csci_402_operating_syste.Access.{addr_to_pn, addr_perm}
use csci_402_operating_syste.Access.Perm.{addr_perm_iff}
use csci_402_operating_syste.Mmap.{pn_to_addr}
use csci_402_operating_syste.Pagefault.{
  Cause, Prots, IsProts, access_right, Objects, Fault, killed, served, map_frame, serve, fault_at,
  handle_pagefault,
}
use csci_402_operating_syste.Pagefault.Rights.{Permits, right-Permits, Permits-right}

-- The area of an address has every right that the fault needs.
abbrev pub Permitted : Platform → List Area → (vaddr : ℕ) → Cause → Type 0
Permitted l m vaddr c = (a : Area) × (lookup m (addr_to_pn l vaddr) ≡ some a) × Permits c a.vma_prot

-- The protections of areas have no other bits, as vmmap_map asserts.
abbrev pub IsProt : Area → Type 0
IsProt a = a.vma_prot < 8

-- The frame of a page of an object.
abbrev pub frame_of : Objects → (object pagenum : ℕ) → (forwrite : Bool) → Option ℕ
frame_of g o n forwrite = if g.mmo_shadowed o then g.lookuppage o n forwrite else g.pframe_get o n

-- The page that the address space has at the address is mapped there, if it has a frame; if it has none
-- the kernel faults.
pub record Served (l : Platform) (g : Objects) (m : List Area) (vaddr : ℕ) (c : Cause)
    (r : Run Fault) : Type 0 where
  pub behind : Page
  pub object : ℕ
  pub is_page : page m (addr_to_pn l vaddr) ≡ some behind
  pub is_object : behind.object ≡ some object
  pub result :
      ((frame : ℕ) × (frame_of g object behind.index c.fault_write ≡ some frame)
        × (r ≡ ok (served frame (pn_to_addr l (addr_to_pn l vaddr)) c.fault_write)))
      ⊎ ((frame_of g object behind.index c.fault_write ≡ none) × (r ≡ panic))

not_mapped : (a : Area) → none ≡ some a → ⊥
not_mapped a q = cc

found : {b a : Area} → some b ≡ some a → b ≡ a
found q = cc

lookup-IsAttached :
    (m : List Area) (v : ℕ) (a : Area) → All IsAttached m → lookup m v ≡ some a → IsAttached a
unfolding lookup
lookup-IsAttached [] v a s e = cc
lookup-IsAttached (b ∷ m) v a s e = elim (Bool-cases (leb b.vma_start v && ltb v b.vma_end)) [
  | inl t ↦ subst IsAttached (found (sym (if_true _ _ _ t) ∙ e)) s.0
  | inr f ↦ lookup-IsAttached m v a s.1 (sym (if_false _ _ _ f) ∙ e)
]

lookup-IsProt : (m : List Area) (v : ℕ) (a : Area) → All IsProt m → lookup m v ≡ some a → IsProt a
unfolding lookup
lookup-IsProt [] v a s e = cc
lookup-IsProt (b ∷ m) v a s e = elim (Bool-cases (leb b.vma_start v && ltb v b.vma_end)) [
  | inl t ↦ subst IsProt (found (sym (if_true _ _ _ t) ∙ e)) s.0
  | inr f ↦ lookup-IsProt m v a s.1 (sym (if_false _ _ _ f) ∙ e)
]

map_frame-result :
    (l : Platform) (vaddr : ℕ) (c : Cause) (o : Option ℕ)
    → ((frame : ℕ) × (o ≡ some frame)
        × (map_frame l vaddr c o
            ≡ ok (served frame (pn_to_addr l (addr_to_pn l vaddr)) c.fault_write)))
      ⊎ ((o ≡ none) × (map_frame l vaddr c o ≡ panic))
map_frame-result l vaddr c none = inr (refl, refl)
map_frame-result l vaddr c (some frame) = inl (frame, refl, refl)

after :
    {r : Run Fault} (l : Platform) (vaddr : ℕ) (c : Cause) (o : Option ℕ)
    → r ≡ map_frame l vaddr c o
    → ((frame : ℕ) × (o ≡ some frame)
        × (r ≡ ok (served frame (pn_to_addr l (addr_to_pn l vaddr)) c.fault_write)))
      ⊎ ((o ≡ none) × (r ≡ panic))
after l vaddr c o e = elim (map_frame-result l vaddr c o) [
  | inl (frame, p, q) ↦ inl (frame, p, e ∙ q)
  | inr (p, q) ↦ inr (p, e ∙ q)
]

-- In an address space in order, whose areas have objects and protections of the three known bits:
-- `handle_pagefault` ends the thread exactly if the address is not mapped, or a write hits an area without
-- PROT_WRITE, a fetch of an instruction one without PROT_EXEC, or a fault on a page in the page table one
-- without PROT_READ. Otherwise it gets the page of the object that the address space has at the address,
-- and maps its frame there, writable exactly if the fault was a write; if the page gets no frame, the
-- kernel reads through NULL.
pub handle_pagefault_lem :
    (l : Platform) (k : Prots) (g : Objects) (m : List Area) (vaddr : ℕ) (c : Cause)
    → IsSpace l m
    → All IsProt m
    → IsProts k
    → ((handle_pagefault l k g m vaddr c ≡ ok killed) × ¬ Permitted l m vaddr c)
      ⊎ (Permitted l m vaddr c × Served l g m vaddr c (handle_pagefault l k g m vaddr c))
unfolding handle_pagefault fault_at serve
handle_pagefault_lem l k g m vaddr c s ps kp =
    let v = addr_to_pn l vaddr in
    let iff = addr_perm_iff l m vaddr (access_right k c) in
    elim (Option-cases (lookup m v)) [
      | inl e ↦ inl (ap (fault_at l k g m vaddr c) e, λ (a, e', q). not_mapped a (sym e ∙ e'))
      | inr (a, e) ↦
          let small = lookup-IsProt m v a ps e in
          elim (Bool-cases (addr_perm l m vaddr (access_right k c))) [
            | inl t ↦
                let at = lookup-IsAttached m v a s.attached e in
                let (b, e', q) = iff.0 t in
                inr (
                  (b, e', right-Permits k c b.vma_prot kp (lookup-IsProt m v b ps e') q),
                  record {
                    behind = page_of v a;
                    object = at.1.0;
                    is_page = ap (Option.map (page_of v)) e;
                    is_object = at.1.1;
                    result = after l vaddr c (frame_of g at.1.0 (page_of v a).index c.fault_write) (
                        ap (fault_at l k g m vaddr c) e
                        ∙ if_true _ _ _ t
                        ∙ ap (serve l g vaddr c a) at.1.1);
                  },
                )
            | inr f ↦ inl (
              ap (fault_at l k g m vaddr c) e ∙ if_false _ _ _ f,
              λ (b, e', q). ground (
                arith,
                f,
                iff.1 (b, e', Permits-right k c b.vma_prot kp (lookup-IsProt m v b ps e') q),
              ),
            )
          ]
    ]
