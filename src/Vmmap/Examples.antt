-- ===== src/Vmmap/Examples.antt =====
-- The address space of a small process: tests of the model, and the theorems at it.
use mathlib.Core.List.{Mem}
use mathlib.Core.Option
use csci_402_operating_syste.Prelude.{
  ℕ, ◌+◌, ◌^◌, ◌≤◌, ◌<◌, ◌≡◌, ◌↔◌, ◌⊎◌, refl, Bool, true, false, ◌&&◌, none, some, List, [], ◌∷◌,
  arith, is_some, if◌then◌else◌,
}
use csci_402_operating_syste.Prelude.Run.{ok}
use csci_402_operating_syste.Vmmap.{
  Platform, IsPlatform, Area, Effect, unmap_range, lohi, hilo, minus_one, lookup, is_range_empty,
  insert, find_range, Removed, remove, clone, destroy, overlap, remove_loop, remove_inside,
  upper_part, lower_part, inside_log, call_if, obj_of, insert_at, is_range_empty_loop,
}
use csci_402_operating_syste.Vmmap.Chain.{IsMap, Free}
use csci_402_operating_syste.Vmmap.Range.{is_range_empty-Free}
use csci_402_operating_syste.Vmmap.FindRange.{IsGap, find_range-lohi, find_range-hilo}
use csci_402_operating_syste.Vmmap.Lookup.{lookup_iff}
use csci_402_operating_syste.Vmmap.Insert.{IsNew, covers, linked, insert_lem}
use csci_402_operating_syste.Vmmap.Remove.Pages.{page, in_range, unmaps}
use csci_402_operating_syste.Vmmap.Remove.Refs.{mentions, refs, puts}
use csci_402_operating_syste.Vmmap.Remove.Main.{IsSpace, remove-page, remove-unmaps, remove-refs}
use csci_402_operating_syste.Vmmap.Destroy.{destroy_lem, clone_lem}

abbrev pub i386 : Platform
i386 = record {
  low = 0x400;
  high = 0xc0000;
  page_size = 4096;
  has_ref = λ o. true;
  has_put = λ o. true;
}

pub i386-IsPlatform : IsPlatform i386
i386-IsPlatform = record {
  low_pos = omega arith;
  low-high = omega arith;
  high_bound = omega arith;
  page = refl;
}

abbrev pub area : (s e off o : ℕ) → Area
area s e off o = record {
  vma_start = s;
  vma_end = e;
  vma_off = off;
  vma_prot = 3;
  vma_flags = 2;
  vma_vmmap = true;
  vma_obj = some o;
}

abbrev pub text : Area
text = area 0x408 0x410 0 7

abbrev heap : Area
heap = area 0x420 0x440 5 8

abbrev pub space : List Area
space = text ∷ heap ∷ []

pub space-IsSpace : IsSpace i386 space
space-IsSpace = record {
  chain = omega arith;
  attached = ((refl, (7, refl)), ((refl, (8, refl)), tt));
}

abbrev fresh : Area
fresh = record (area 0x410 0x414 0 9) { vma_vmmap = false }

fresh-IsNew : IsNew i386 fresh
fresh-IsNew = record {
  unset = refl;
  nonempty = omega arith;
  above = omega arith;
  below = omega arith;
}

-- Unmapping the middle of the heap leaves its two ends, the upper one further into the object.
remove_middle :
    remove i386 space 0x428 8
    ≡ ok (record {
      areas = text ∷ area 0x420 0x428 5 8 ∷ area 0x430 0x440 21 8 ∷ [];
      log = Effect.link_bottom 8 ∷ Effect.ref 8 ∷ unmap_range 0x428 0x430 ∷ [];
      count = 8;
    })
unfolding remove remove_loop overlap remove_inside upper_part lower_part inside_log call_if obj_of
    insert insert_at is_range_empty is_range_empty_loop
remove_middle = refl

range_of_space :
    (b : Bool) × (is_range_empty i386 space 0x410 4 ≡ ok b) × ((b ≡ true) ↔ Free space 0x410 0x414)
range_of_space =
    is_range_empty-Free i386 space 0x410 4 0x414 i386-IsPlatform space-IsSpace.chain refl
      (omega arith) (omega arith) (omega arith)

-- The gap between the two areas is just too small, so the lowest gap is behind the heap.
find_range-lohi_example :
    (r : ℕ) × (find_range i386 space 17 lohi ≡ ok r)
    × ((IsGap i386 space 17 r × ((s : ℕ) → IsGap i386 space 17 s → r ≤ s))
        ⊎ ((r ≡ minus_one) × ((s : ℕ) → ¬ IsGap i386 space 17 s)))
find_range-lohi_example =
    find_range-lohi i386 i386-IsPlatform 17 (omega arith) (omega arith) space space-IsSpace.chain

find_range-hilo_example :
    (r : ℕ) × (find_range i386 space 17 hilo ≡ ok r)
    × ((IsGap i386 space 17 r × ((s : ℕ) → IsGap i386 space 17 s → s ≤ r))
        ⊎ ((2 ^ 31 ≤ r) × ((s : ℕ) → ¬ IsGap i386 space 17 s)))
find_range-hilo_example =
    find_range-hilo i386 i386-IsPlatform 17 (omega arith) (omega arith) space space-IsSpace.chain

lookup_at_text :
    (lookup space 0x409 ≡ some text) ↔ (Mem text space × (0x408 ≤ 0x409) × (0x409 < 0x410))
lookup_at_text = lookup_iff i386 space 0x409 text space-IsSpace.chain

insert_lem_example :
    (Free space 0x410 0x414
      × ((m' : List Area) × (insert i386 space fresh ≡ ok m')
          × IsMap i386 m'
          × ((x : ℕ)
              → lookup m' x ≡ (if covers fresh x then some (linked fresh) else lookup space x))))
    ⊎ ((¬ Free space 0x410 0x414) × (insert i386 space fresh ≡ ok space))
insert_lem_example = insert_lem i386 space fresh i386-IsPlatform space-IsSpace.chain fresh-IsNew

remove-page_example :
    (r : Removed) × (remove i386 space 0x428 8 ≡ ok r)
    × IsSpace i386 r.areas
    × ((x : ℕ) → page r.areas x ≡ (if in_range 0x428 0x430 x then none else page space x))
remove-page_example =
    remove-page i386 space 0x428 8 0x430 i386-IsPlatform space-IsSpace refl (omega arith)
      (omega arith)

remove-unmaps_example :
    (r : Removed) × (remove i386 space 0x40c 0x20 ≡ ok r)
    × ((x : ℕ) → unmaps r.log x ≡ (is_some (lookup space x) && in_range 0x40c 0x42c x))
remove-unmaps_example =
    remove-unmaps i386 space 0x40c 0x20 0x42c i386-IsPlatform space-IsSpace refl (omega arith)
      (omega arith)

remove-refs_example :
    (r : Removed) × (remove i386 space 0x428 8 ≡ ok r)
    × (mentions 8 r.areas + puts 8 r.log ≡ mentions 8 space + refs 8 r.log)
remove-refs_example =
    remove-refs i386 space 0x428 8 0x430 i386-IsPlatform space-IsSpace refl (omega arith)
      (omega arith) 8 refl refl

destroy_lem_example :
    (log : List Effect) × (destroy i386 space ≡ ok ([], log))
    × ((x : ℕ) → unmaps log x ≡ is_some (lookup space x))
    × (puts 7 log ≡ 1)
    × (refs 7 log ≡ 0)
destroy_lem_example = destroy_lem i386 space 7 i386-IsPlatform space-IsSpace refl refl

clone_of_space :
    IsMap i386 (clone space)
    × ((v : ℕ)
        → lookup (clone space) v
          ≡ Option.map
              (λ (a : Area). record a { vma_vmmap = true; vma_obj = none })
              (lookup space v))
clone_of_space = clone_lem i386 space space-IsSpace.chain
