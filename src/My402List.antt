-- ===== src/My402List.antt =====
-- warmup1/my402list.c: a circular list with links both ways and an anchor.
pub mod Memory
pub mod Links
pub mod Between
pub mod Insert
pub mod Unlink
pub mod Walks
mod Examples
use csci_402_operating_syste.Prelude.{
  ℕ, zero, suc, ◌+◌, Bool, true, false, ◌==◌, if◌then◌else◌, add32, sub32,
}
use csci_402_operating_syste.My402List.Memory.{
  null, anchor, Store, Action, ◌>>=◌, ◌>>◌, pure, get_next, get_prev, get_obj, set_next, set_prev,
  set_obj, get_num, set_num, alloc, free,
}

abbrev pub list_length : Action ℕ
list_length = get_num

abbrev pub list_empty : Action Bool
list_empty = do n ← get_num; pure (n == 0)

pub list_init : Action Bool
list_init = do
  set_num 0
  set_obj anchor null
  set_next anchor anchor
  set_prev anchor anchor
  pure true

pub list_first : Action ℕ
list_first = do n ← get_num; if n == 0 then pure null else get_next anchor

pub list_last : Action ℕ
list_last = do n ← get_num; if n == 0 then pure null else get_prev anchor

pub list_next : ℕ → Action ℕ
list_next elem = do n ← get_next elem; if n == anchor then pure null else get_next elem

pub list_prev : ℕ → Action ℕ
list_prev elem = do n ← get_prev elem; if n == anchor then pure null else get_prev elem

abbrev pub count_up : Action (Unit {0})
count_up = do n ← get_num; set_num (add32 n 1)

-- The rest of `My402ListAppend` once `malloc` has answered `fresh`.
append_fresh : (fresh obj : ℕ) → Action Bool
append_fresh fresh obj = do
  count_up
  set_obj fresh obj
  set_next fresh anchor
  l ← get_prev anchor
  set_prev fresh l
  set_prev anchor fresh
  p ← get_prev fresh
  set_next p fresh
  pure true

-- `fresh` is what `malloc` answers, here and below.
pub list_append : (fresh obj : ℕ) → Action Bool
unfolding append_fresh
list_append fresh obj = if fresh == null then pure false else do alloc fresh; append_fresh fresh obj

-- The rest of `My402ListPrepend`.
prepend_fresh : (fresh obj : ℕ) → Action Bool
prepend_fresh fresh obj = do
  count_up
  set_obj fresh obj
  f ← get_next anchor
  set_next fresh f
  set_prev fresh anchor
  set_next anchor fresh
  n ← get_next fresh
  set_prev n fresh
  pure true

pub list_prepend : (fresh obj : ℕ) → Action Bool
unfolding prepend_fresh
list_prepend fresh obj =
    if fresh == null then pure false else do alloc fresh; prepend_fresh fresh obj

pub list_unlink : ℕ → Action (Unit {0})
list_unlink elem = do
  p ← get_prev elem
  n ← get_next elem
  set_next p n
  n ← get_next elem
  p ← get_prev elem
  set_prev n p
  set_next elem null
  set_prev elem null
  set_obj elem null
  free elem
  m ← get_num
  set_num (sub32 m 1)

-- The loop of `My402ListUnlinkAll`, over at most so many rounds; whether it has ended.
unlink_loop : ℕ → (elem temp : ℕ) → Action Bool
unlink_loop zero elem temp = pure false
unlink_loop (suc k) elem temp = if elem == anchor then pure true else do
  set_next elem null
  set_prev elem null
  set_obj elem null
  free elem
  next ← get_next temp
  unlink_loop k temp next

pub list_unlink_all : Action Bool
unfolding unlink_loop list_init
list_unlink_all = do
  elem ← get_next anchor
  temp ← get_next elem
  rounds ← get_num
  ended ← unlink_loop (suc rounds) elem temp
  if ended then list_init else pure false

-- The rest of `My402ListInsertAfter`.
insert_after_fresh : (fresh obj elem : ℕ) → Action Bool
insert_after_fresh fresh obj elem = do
  count_up
  set_obj fresh obj
  n ← get_next elem
  set_next fresh n
  n ← get_next elem
  p ← get_prev n
  set_prev fresh p
  n ← get_next elem
  set_prev n fresh
  set_next elem fresh
  pure true

pub list_insert_after : (fresh obj elem : ℕ) → Action Bool
unfolding list_append insert_after_fresh
list_insert_after fresh obj elem =
    if elem == null
    then list_append fresh obj
    else (if fresh == null then pure false else do alloc fresh; insert_after_fresh fresh obj elem)

-- The rest of `My402ListInsertBefore`.
insert_before_fresh : (fresh obj elem : ℕ) → Action Bool
insert_before_fresh fresh obj elem = do
  count_up
  set_obj fresh obj
  set_next fresh elem
  p ← get_prev elem
  set_prev fresh p
  p ← get_prev elem
  set_next p fresh
  set_prev elem fresh
  pure true

pub list_insert_before : (fresh obj elem : ℕ) → Action Bool
unfolding list_prepend insert_before_fresh
list_insert_before fresh obj elem =
    if elem == null
    then list_prepend fresh obj
    else (if fresh == null then pure false else do alloc fresh; insert_before_fresh fresh obj elem)

-- The loop of `My402ListFind`, over `length` rounds.
find_loop : ℕ → (obj elem : ℕ) → Action ℕ
find_loop zero obj elem = pure null
find_loop (suc length) obj elem = do
  o ← get_obj elem
  if o == obj then pure elem else do next ← get_next elem; find_loop length obj next

pub list_find : ℕ → Action ℕ
unfolding find_loop list_first
list_find obj = do length ← list_length; elem ← list_first; find_loop length obj elem
