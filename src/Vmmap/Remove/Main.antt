-- ===== src/Vmmap/Remove/Main.antt =====
-- What `vmmap_remove` does to a map, to the page table and to the reference counts.
use csci_402_operating_syste.Prelude.{
  ℕ, ◌+◌, ◌^◌, ◌<◌, ◌≡◌, true, ◌&&◌, none, List, arith, All, add32, is_some, if◌then◌else◌,
}
use csci_402_operating_syste.Prelude.Run.{ok}
use csci_402_operating_syste.Vmmap.{Platform, IsPlatform, Area, lookup, Removed, remove}
use csci_402_operating_syste.Vmmap.Chain.{IsMap}
use csci_402_operating_syste.Vmmap.Remove.{IsAttached, cut, cut_log}
use csci_402_operating_syste.Vmmap.Remove.Loop.{remove_loop-cut}
use csci_402_operating_syste.Vmmap.Remove.Pages.{
  in_range, page, unmaps, cut-Chain, page-cut, unmaps-cut_log,
}
use csci_402_operating_syste.Vmmap.Remove.Refs.{mentions, refs, puts, balance-cut, cut-IsAttached}

-- The map of a process: areas in order within user memory, each pointing back to its map and with
-- an object.
pub record IsSpace (l : Platform) (m : List Area) : Type 0 where
  pub chain : IsMap l m
  pub attached : All IsAttached m

abbrev pub removed : Platform → (lo fin : ℕ) → List Area → ℕ → Removed
removed l lo fin m n = record { areas = cut lo fin m; log = cut_log l lo fin m; count = n }

module _ (l : Platform) (m : List Area) (lo n fin : ℕ) (p : IsPlatform l) (s : IsSpace l m)
    (e : lo + n ≡ fin) (u : lo < fin) (w : fin < 2 ^ 32) where
  -- `vmmap_remove` passes its assertions, and returns the areas cut down to what lies outside of the
  -- range, with the calls that belong to the areas that change.
  pub remove-cut : (k : ℕ) × (remove l m lo n ≡ ok (removed l lo fin m k))
  unfolding remove
  remove-cut =
      let t : add32 lo n ≡ fin = omega arith in
      rw t (remove_loop-cut l p lo fin u l.low m _ (omega arith) s.chain s.attached)

  -- In an address space in order, whose areas have objects, `vmmap_remove` of a non-empty range that
  -- does not wrap returns, keeps the areas in order and attached to objects, leaves no page of the
  -- range mapped, and leaves what every other page stands for as it was: the same page of the same
  -- object, with the same protection and flags.
  pub remove-page :
      (r : Removed) × (remove l m lo n ≡ ok r)
      × IsSpace l r.areas
      × ((x : ℕ) → page r.areas x ≡ (if in_range lo fin x then none else page m x))
  remove-page =
      let (k, run) = remove-cut in
      (
        removed l lo fin m k,
        run,
        record {
          chain = cut-Chain lo fin l.low l.high m u s.chain;
          attached = cut-IsAttached lo fin m s.attached;
        },
        λ x. page-cut lo fin l.low l.high x m u (omega (arith, p.high_bound)) s.chain,
      )

  -- In such an address space, for such a range, the pages that `vmmap_remove` drops from the page table
  -- are those of the range that were mapped, and no others: no translation of a removed page is left
  -- behind.
  pub remove-unmaps :
      (r : Removed) × (remove l m lo n ≡ ok r)
      × ((x : ℕ) → unmaps r.log x ≡ (is_some (lookup m x) && in_range lo fin x))
  remove-unmaps =
      let (k, run) = remove-cut in
      (
        removed l lo fin m k,
        run,
        λ x. unmaps-cut_log l lo fin l.low l.high x m u s.chain s.attached,
      )

  -- In such an address space, for such a range and an object with `ref` and `put`, the areas that use
  -- the object after `vmmap_remove` are those before, plus one for each `ref` and less one for each
  -- `put` that it made.
  pub remove-refs :
      (o : ℕ)
      → l.has_ref o ≡ true
      → l.has_put o ≡ true
      → (r : Removed) × (remove l m lo n ≡ ok r)
        × (mentions o r.areas + puts o r.log ≡ mentions o m + refs o r.log)
  remove-refs o hr hp =
      let (k, run) = remove-cut in
      (removed l lo fin m k, run, balance-cut l o hr hp lo fin l.low l.high m u s.chain s.attached)
