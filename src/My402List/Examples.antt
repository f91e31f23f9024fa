-- ===== src/My402List/Examples.antt =====
-- A list with two elements: tests, and the theorems at it.
use csci_402_operating_syste.Prelude.{
  ℕ, ◌≡◌, refl, true, false, ◌==◌, ◌||◌, [], ◌∷◌, arith, if◌then◌else◌,
}
use csci_402_operating_syste.Prelude.Run.{ok}
use csci_402_operating_syste.My402List.{
  list_unlink, list_unlink_all, list_insert_after, list_insert_before, list_first, list_last,
  list_next, list_prev, list_empty, list_length, list_find,
}
use csci_402_operating_syste.My402List.Memory.{null, Store, Action, ◌>>=◌, pure}
use csci_402_operating_syste.My402List.Links.{Cells, IsList, has}
use csci_402_operating_syste.My402List.Insert.{Answer, insert_beside_lem}
use csci_402_operating_syste.My402List.Unlink.{unlink_lem}
use csci_402_operating_syste.My402List.Walks.{unlink_all_lem, find_lem}

-- The elements at 20 and 30, with the objects 7 and 8.
abbrev two : Store
two = record {
  num_members = 2;
  live = λ a. a == 1 || a == 20 || a == 30;
  obj = λ a. if a == 20 then 7 else (if a == 30 then 8 else 0);
  next = λ a. if a == 1 then 20 else (if a == 20 then 30 else 1);
  prev = λ a. if a == 1 then 30 else (if a == 30 then 20 else 1);
}

abbrev cells : Cells
cells = (20, 7) ∷ (30, 8) ∷ []

two-IsList : IsList two cells
two-IsList = record {
  links = (refl, refl, refl, (refl, refl, refl, (refl, refl)));
  distinct = (refl, (refl, tt));
  no_anchor = refl;
  is_live = (refl, (refl, tt));
  anchor_live = refl;
  null_dead = refl;
  count = refl;
  small = omega arith;
}

-- Forwards from the first element, and backwards from the last.
walk_forward : Action (ℕ × ℕ)
walk_forward = do a ← list_first; b ← list_next a; pure (a, b)

walk_backward : Action (ℕ × ℕ × ℕ)
walk_backward = do a ← list_last; b ← list_prev a; c ← list_prev b; pure (a, b, c)

two_forward : walk_forward two ≡ ok ((20, 30), two)
unfolding walk_forward list_first list_next
two_forward = refl

two_backward : walk_backward two ≡ ok ((30, 20, null), two)
unfolding walk_backward list_last list_prev
two_backward = refl

two_length : list_length two ≡ ok (2, two)
two_length = refl

two_empty : list_empty two ≡ ok (false, two)
two_empty = refl

find_8 : list_find 8 two ≡ ok (30, two)
find_8 = find_lem two cells 8 two-IsList

insert_beside_lem_example :
    Answer two 40 (list_insert_after 40 9 20) ((20, 7) ∷ (40, 9) ∷ (30, 8) ∷ [])
    × Answer two 40 (list_insert_before 40 9 20) ((40, 9) ∷ (20, 7) ∷ (30, 8) ∷ [])
insert_beside_lem_example =
    insert_beside_lem two 40 9 refl [] ((30, 8) ∷ []) 20 7 two-IsList (omega arith)

unlink_lem_example :
    (t : Store) × (list_unlink 20 two ≡ ok (tt, t)) × IsList t ((30, 8) ∷ []) × (t.live 20 ≡ false)
unlink_lem_example = unlink_lem two [] ((30, 8) ∷ []) 20 7 two-IsList

unlink_all_lem_example :
    (t : Store) × (list_unlink_all two ≡ ok (true, t))
    × IsList t []
    × ((a : ℕ) → has a cells ≡ true → t.live a ≡ false)
unlink_all_lem_example = unlink_all_lem two cells two-IsList
