-- ===== src/Vmmap/Insert.antt =====
-- `vmmap_insert` against the pages of the map.
use csci_402_operating_syste.Prelude.{
  ℕ, ◌≤◌, ◌<◌, ◌≡◌, refl, ◌↔◌, ◌⊎◌, inl, inr, Bool, true, false, some, List, [], ◌∷◌, arith, lt→ltb,
  le→leb, Bool-cases, ltb, leb, sub32, ◌&&◌, if◌then◌else◌,
}
use csci_402_operating_syste.Prelude.Run.{ok}
use csci_402_operating_syste.Vmmap.{Platform, IsPlatform, Area, lookup, insert_at, insert}
use csci_402_operating_syste.Vmmap.Chain.{Chain, IsMap, Free, Free-Clear, Free-tail}
use csci_402_operating_syste.Vmmap.Range.{is_range_empty-Free}

-- What the assertions of `vmmap_insert` ask of the new area.
pub record IsNew (l : Platform) (v : Area) : Type 0 where
  pub unset : v.vma_vmmap ≡ false
  pub nonempty : v.vma_start < v.vma_end
  pub above : l.low ≤ v.vma_start
  pub below : v.vma_end ≤ l.high

abbrev pub covers : Area → ℕ → Bool
covers v x = leb v.vma_start x && ltb x v.vma_end

pub insert_at-Chain :
    (lo hi : ℕ) (v : Area) (m : List Area)
    → Chain lo hi m
    → lo ≤ v.vma_start
    → v.vma_start < v.vma_end
    → v.vma_end ≤ hi
    → Free m v.vma_start v.vma_end
    → Chain lo hi (insert_at v m)
unfolding insert_at
insert_at-Chain lo hi v [] c h k u f = (h, k, u)
insert_at-Chain lo hi v (a ∷ m) c h k u f = ground (
  arith,
  Free-Clear a m v.vma_start v.vma_end k c.1 f,
  λ (g : a.vma_end ≤ v.vma_start).
      insert_at-Chain a.vma_end hi v m c.2 g k u (Free-tail lo hi a m _ _ c k f),
)

pub lookup-insert_at :
    (lo hi : ℕ) (v : Area) (m : List Area) (x : ℕ)
    → Chain lo hi m
    → v.vma_start < v.vma_end
    → Free m v.vma_start v.vma_end
    → lookup (insert_at v m) x ≡ (if covers v x then some v else lookup m x)
unfolding insert_at lookup
lookup-insert_at lo hi v [] x c k f = refl
lookup-insert_at lo hi v (a ∷ m) x c k f = ground (
  arith,
  Free-Clear a m v.vma_start v.vma_end k c.1 f,
  lookup-insert_at a.vma_end hi v m x c.2 k (Free-tail lo hi a m _ _ c k f),
)

abbrev pub linked : Area → Area
linked v = record v { vma_vmmap = true }

-- The run of `vmmap_insert`, by the test that it makes.
pub insert_run :
    (l : Platform) (m : List Area) (v : Area)
    → IsPlatform l
    → IsMap l m
    → IsNew l v
    → (b : Bool) × (insert l m v ≡ ok (if b then insert_at (linked v) m else m))
      × ((b ≡ true) ↔ Free m v.vma_start v.vma_end)
unfolding insert
insert_run l m v p c w =
    let n = sub32 v.vma_end v.vma_start in
    let (b, run, meaning) =
      is_range_empty-Free l m v.vma_start n v.vma_end p c
        (omega (arith, w.nonempty, w.below, p.high_bound)) w.above w.nonempty w.below in
    (
      b,
      rw (w.unset, lt→ltb _ _ w.nonempty, le→leb _ _ w.above, le→leb _ _ w.below, run) refl,
      meaning,
    )

-- Into a range with no mapped page `vmmap_insert` puts the area, marked as belonging to the map. The
-- result is again in order, the area's pages are mapped by it, and every other page as before. Where
-- a page of the range is mapped the map stays as it was.
pub insert_lem :
    (l : Platform) (m : List Area) (v : Area)
    → IsPlatform l
    → IsMap l m
    → IsNew l v
    → (Free m v.vma_start v.vma_end
        × ((m' : List Area) × (insert l m v ≡ ok m')
            × IsMap l m'
            × ((x : ℕ) → lookup m' x ≡ (if covers v x then some (linked v) else lookup m x))))
      ⊎ ((¬ Free m v.vma_start v.vma_end) × (insert l m v ≡ ok m))
insert_lem l m v p c w =
    let (b, run, meaning) = insert_run l m v p c w in
    elim (Bool-cases b) [
      | inl t ↦
          let f = meaning.0 t in
          inl (
            f,
            (
              insert_at (linked v) m,
              rw (run, t),
              insert_at-Chain l.low l.high (linked v) m c w.above w.nonempty w.below f,
              λ x. lookup-insert_at l.low l.high (linked v) m x c w.nonempty f,
            ),
          )
      | inr f ↦ inr (λ g. cc (meaning.1 g), rw (run, f))
    ]
