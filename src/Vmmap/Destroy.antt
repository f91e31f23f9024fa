-- ===== src/Vmmap/Destroy.antt =====
-- `vmmap_destroy` and `vmmap_clone`, on a whole address space.
use mathlib.Core.Option
use csci_402_operating_syste.Prelude.{
  ℕ, ◌≤◌, ◌<◌, ◌≡◌, refl, ◌∙◌, true, none, some, List, [], ◌∷◌, ◌++◌, arith, All, sub32, is_some,
  append_assoc, append-nil,
}
use csci_402_operating_syste.Prelude.Run.{ok}
use csci_402_operating_syste.Vmmap.{
  Platform, IsPlatform, Area, Effect, lookup, whole_log, overlap, whole, remove, clone_area, clone,
  destroy_loop, destroy,
}
use csci_402_operating_syste.Vmmap.Chain.{Chain, IsMap, Chain-le, Chain-mono}
use csci_402_operating_syste.Vmmap.Remove.{IsAttached, obj_or_zero}
use csci_402_operating_syste.Vmmap.Remove.Cases.{cut-whole, log-whole}
use csci_402_operating_syste.Vmmap.Remove.Loop.{cut_above, cut_log_above}
use csci_402_operating_syste.Vmmap.Remove.Pages.{
  unmaps, unmaps-append, unmaps-whole_log, mapped-cons,
}
use csci_402_operating_syste.Vmmap.Remove.Refs.{
  mentions, refs, puts, refs-append, puts-append, refs-whole_log, holds_of,
}
use csci_402_operating_syste.Vmmap.Remove.Main.{IsSpace, remove-cut}

abbrev destroy_log : Platform → List Area → List Effect
destroy_log l [] = []
destroy_log l (a ∷ m) = whole_log l (obj_or_zero a.vma_obj) a ++ destroy_log l m

overlap_self : (a : Area) → a.vma_start < a.vma_end → overlap a.vma_start a.vma_end a ≡ whole
unfolding overlap
overlap_self a h = ground arith

obj_or_zero-some : (a : Area) (o : ℕ) → a.vma_obj ≡ some o → obj_or_zero a.vma_obj ≡ o
obj_or_zero-some a o e = ground arith

module _ (l : Platform) (p : IsPlatform l) where
  -- Removing the pages of the first area takes that area away.
  remove_first :
      (lo : ℕ) (a : Area) (m : List Area)
      → l.low ≤ lo
      → Chain lo l.high (a ∷ m)
      → All IsAttached (a ∷ m)
      → (k : ℕ) × (remove l (a ∷ m) a.vma_start (sub32 a.vma_end a.vma_start)
          ≡ ok (record { areas = m; log = whole_log l (obj_or_zero a.vma_obj) a; count = k }))
  remove_first lo a m h c t =
      let n = sub32 a.vma_end a.vma_start in
      let top : a.vma_end ≤ l.high = Chain-le a.vma_end l.high m c.2 in
      let whole = Chain-mono lo l.low l.high (a ∷ m) h c in
      let (k, run) =
        remove-cut l (a ∷ m) a.vma_start n a.vma_end p (record { chain = whole; attached = t })
          (omega (arith, p.high_bound)) c.1 (omega (arith, p.high_bound)) in
      (
        k,
        run
            ∙ rw (
              cut-whole a.vma_start a.vma_end c.1 a c.1 m (omega arith) (omega arith),
              log-whole l a.vma_start a.vma_end a m t.0.1.0 (overlap_self a c.1) t.0.1.1,
              cut_above a.vma_start a.vma_end a.vma_end l.high m c.1 (omega arith) c.2,
              cut_log_above l a.vma_start a.vma_end a.vma_end l.high m c.1 (omega arith) c.2,
              append-nil,
              obj_or_zero-some a t.0.1.0 t.0.1.1,
            ),
      )

  destroy_loop_lem :
      (lo : ℕ) (m : List Area) (log : List Effect)
      → l.low ≤ lo
      → Chain lo l.high m
      → All IsAttached m
      → destroy_loop l (m, log) m ≡ ok ([], log ++ destroy_log l m)
  unfolding destroy_loop
  destroy_loop_lem lo [] log h c t = simp append-nil
  destroy_loop_lem lo (a ∷ m) log h c t =
      let (k, run) = remove_first lo a m h c t in
      rw run (destroy_loop_lem a.vma_end m _ (omega (arith, c.1)) c.2 t.1 ∙ rw append_assoc)

unmaps-destroy_log :
    (l : Platform) (m : List Area) (x : ℕ) → unmaps (destroy_log l m) x ≡ is_some (lookup m x)
unmaps-destroy_log l [] x = unfold lookup in refl
unmaps-destroy_log l (a ∷ m) x =
    rw (unmaps-append, unmaps-whole_log, mapped-cons a m x, unmaps-destroy_log l m x)

puts-destroy_log :
    (l : Platform) (o : ℕ)
    → l.has_ref o ≡ true
    → l.has_put o ≡ true
    → (m : List Area) → All IsAttached m
    → (puts o (destroy_log l m) ≡ mentions o m) × (refs o (destroy_log l m) ≡ 0)
puts-destroy_log l o r p [] t = (refl, refl)
puts-destroy_log l o r p (a ∷ m) (t, ts) =
    let q = t.1.0 in
    let log = whole_log l q a in
    rw (obj_or_zero-some a q t.1.1) (
      omega (
        arith,
        puts-append o log (destroy_log l m),
        refs-append o log (destroy_log l m),
        refs-whole_log l o r p q a,
        holds_of o q a t.1.1,
        puts-destroy_log l o r p m ts,
      ))

-- `vmmap_destroy` of an address space returns, leaves no area, drops exactly the mapped pages from the
-- page table, and puts an object that has `ref` and `put` once for every area that used it.
pub destroy_lem :
    (l : Platform) (m : List Area) (o : ℕ)
    → IsPlatform l
    → IsSpace l m
    → l.has_ref o ≡ true
    → l.has_put o ≡ true
    → (log : List Effect) × (destroy l m ≡ ok ([], log))
      × ((x : ℕ) → unmaps log x ≡ is_some (lookup m x))
      × (puts o log ≡ mentions o m)
      × (refs o log ≡ 0)
unfolding destroy
destroy_lem l m o p s r q =
    let (put_all, ref_none) = puts-destroy_log l o r q m s.attached in
    (
      destroy_log l m,
      destroy_loop_lem l p l.low m [] (omega arith) s.chain s.attached,
      unmaps-destroy_log l m,
      put_all,
      ref_none,
    )

clone-Chain : (lo hi : ℕ) (m : List Area) → Chain lo hi m → Chain lo hi (clone m)
unfolding clone clone_area
clone-Chain lo hi [] c = c
clone-Chain lo hi (a ∷ m) c = (c.0, c.1, clone-Chain a.vma_end hi m c.2)

lookup-clone : (m : List Area) (v : ℕ) → lookup (clone m) v ≡ Option.map clone_area (lookup m v)
unfolding clone clone_area lookup
lookup-clone [] v = refl
lookup-clone (a ∷ m) v = ground (arith, lookup-clone m v)

-- `vmmap_clone` keeps the areas in order, and at every page the copy has the area that covers it
-- there, with the same bounds, offset, protection and flags and with no object yet.
pub clone_lem :
    (l : Platform) (m : List Area)
    → IsMap l m
    → IsMap l (clone m)
      × ((v : ℕ)
          → lookup (clone m) v
            ≡ Option.map (λ (a : Area). record a { vma_vmmap = true; vma_obj = none }) (lookup m v))
unfolding clone_area
clone_lem l m c = (clone-Chain l.low l.high m c, lookup-clone m)
