-- ===== src/FileTable/Seek/Position.antt =====
-- Where `do_lseek` moves a file to.
use csci_402_operating_syste.Prelude.{
  ℕ, ◌+◌, ◌-◌, ◌^◌, ◌<◌, ◌≡◌, ◌≢◌, ◌⊎◌, refl, sym, ap, ◌∙◌, inl, inr, Option, none, some, leb, ltb,
  if◌then◌else◌, add32, arith, true, false, Bool-cases, if_true, if_false,
}
use csci_402_operating_syste.FileTable.{einval, slot, out_of_range}
use csci_402_operating_syste.FileTable.Seek.{
  Whence, seek_set, seek_cur, seek_end, other, Open, Sought, refused, position, target, moved,
  seek_file, seek_slot, seek_fd, do_lseek,
}

-- Where the offset counts from.
abbrev pub origin : Open → ℕ → Whence → ℕ
origin s f seek_set = 0
origin s f seek_cur = s.f_pos f
origin s f seek_end = s.vn_len f
origin s f other = 0

-- `from` moved by an offset that is negative from 2 ^ 31 on, where the sum is an `int` that is not
-- negative.
abbrev pub shift : (from offset : ℕ) → Option ℕ
shift from offset =
    if ltb offset (2 ^ 31)
    then (if ltb (from + offset) (2 ^ 31) then some (from + offset) else none)
    else (if leb (2 ^ 32 - offset) from then some (from + offset - 2 ^ 32) else none)

abbrev pub outcome : Open → ℕ → Option ℕ → Sought × Open
outcome s f none = (refused einval, s)
outcome s f (some pos) = (position pos, moved s f pos)

shift-add32 :
    (from offset : ℕ)
    → from < 2 ^ 31
    → offset < 2 ^ 32
    → ((leb (2 ^ 31) (add32 from offset) ≡ false) × (shift from offset ≡ some (add32 from offset)))
      ⊎ ((leb (2 ^ 31) (add32 from offset) ≡ true) × (shift from offset ≡ none))
shift-add32 from offset h k = elim (Bool-cases (ltb offset (2 ^ 31))) [
  | inl t ↦ elim (Bool-cases (ltb (from + offset) (2 ^ 31))) [
    | inl u ↦ inl (ground arith, if_true _ _ _ t ∙ if_true _ _ _ u ∙ ap some (ground arith))
    | inr u ↦ inr (ground arith, if_true _ _ _ t ∙ if_false _ _ _ u)
  ]
  | inr t ↦ elim (Bool-cases (leb (2 ^ 32 - offset) from)) [
    | inl u ↦ inl (ground arith, if_false _ _ _ t ∙ if_true _ _ _ u ∙ ap some (ground arith))
    | inr u ↦ inr (ground arith, if_false _ _ _ t ∙ if_false _ _ _ u)
  ]
]

seek_file-shift :
    (s : Open) (f from offset : ℕ)
    → from < 2 ^ 31
    → offset < 2 ^ 32
    → seek_file s f (add32 from offset) ≡ outcome s f (shift from offset)
unfolding seek_file
seek_file-shift s f from offset h k = elim (shift-add32 from offset h k) [
  | inl (t, e) ↦ if_false _ _ _ t ∙ ap (outcome s f) (sym e)
  | inr (t, e) ↦ if_true _ _ _ t ∙ ap (outcome s f) (sym e)
]

-- The origin is an `int` that is not negative, and the target is its sum with the offset.
target-origin :
    (s : Open) (f offset : ℕ) (w : Whence)
    → w ≢ other
    → offset < 2 ^ 32
    → s.f_pos f < 2 ^ 31
    → s.vn_len f < 2 ^ 31
    → (origin s f w < 2 ^ 31) × (target s f offset w ≡ add32 (origin s f w) offset)
target-origin s f offset seek_set ne h p l = (omega arith, omega arith)
target-origin s f offset seek_cur ne h p l = (p, refl)
target-origin s f offset seek_end ne h p l = (l, omega arith)
target-origin s f offset other ne h p l = absurd (ne refl)

do_lseek-seek_fd :
    (s : Open) (fd offset : ℕ) (w : Whence)
    → w ≢ other
    → do_lseek s fd offset w ≡ seek_fd s fd offset w
unfolding do_lseek
do_lseek-seek_fd s fd offset seek_set ne = refl
do_lseek-seek_fd s fd offset seek_cur ne = refl
do_lseek-seek_fd s fd offset seek_end ne = refl
do_lseek-seek_fd s fd offset other ne = absurd (ne refl)

-- For an open descriptor, a valid `whence`, and a file with a position and a length that are not
-- negative, `do_lseek` moves the file to the sum of the origin and the offset and returns it; where
-- that sum is negative or above the largest `int`, it returns -EINVAL and changes nothing.
pub do_lseek_lem :
    (s : Open) (fd f offset : ℕ) (w : Whence)
    → out_of_range s.p_files fd ≡ false
    → slot s.p_files fd ≡ some f
    → w ≢ other
    → offset < 2 ^ 32
    → s.f_pos f < 2 ^ 31
    → s.vn_len f < 2 ^ 31
    → do_lseek s fd offset w ≡ outcome s f (shift (origin s f w) offset)
unfolding seek_fd seek_slot
do_lseek_lem s fd f offset w r e ne ho hp hl =
    let (b, t) = target-origin s f offset w ne ho hp hl in
    do_lseek-seek_fd s fd offset w ne
    ∙ if_false _ _ _ r
    ∙ ap (seek_slot s offset w) e
    ∙ ap (seek_file s f) t
    ∙ seek_file-shift s f (origin s f w) offset b ho
