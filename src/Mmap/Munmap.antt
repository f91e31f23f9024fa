-- ===== src/Mmap/Munmap.antt =====
-- `do_munmap`: the arguments that it refuses, and the pages that the others name.
use csci_402_operating_syste.Prelude.{
  ℕ, ◌+◌, ◌*◌, ◌^◌, ◌<◌, ◌≡◌, ◌⊎◌, ◌∙◌, ap, subst, inl, inr, true, false, none, List, arith,
  if◌then◌else◌, if_true, if_false, Bool-cases, sym, ==→eq, ◌==◌, ◌%◌, ◌/◌, ◌-◌, ◌≤◌, Bool, ◌||◌,
  ltb, add32, refl,
}
use csci_402_operating_syste.Prelude.Run.{ok, ◌>>=◌}
use csci_402_operating_syste.Vmmap.{Platform, IsPlatform, Area, Removed, remove}
use csci_402_operating_syste.Vmmap.Remove.Pages.{page, in_range}
use csci_402_operating_syste.Vmmap.Remove.Main.{IsSpace, remove-page}
use csci_402_operating_syste.Access.{addr_to_pn}
use csci_402_operating_syste.Mmap.{
  page_aligned, round_len, refuses_munmap, invalid, unmapped, do_munmap,
}

-- Rounding to whole pages of 4 KiB.
abbrev rounded : ℕ → ℕ
rounded len = if len % 4096 == 0 then len else (len / 4096 + 1) * 4096 % 2 ^ 32

rounded-pages :
    (len : ℕ)
    → len < 2 ^ 32
    → (rounded len == 0) ≡ false
    → (rounded len / 4096 ≡ (len + 4095) / 4096) × (0 < rounded len / 4096)
rounded-pages len h e = elim (Bool-cases (len % 4096 == 0)) [
  | inl t ↦ (ground arith, ground arith)
  | inr t ↦ (ground arith, ground arith)
]

round_len-rounded : (l : Platform) (len : ℕ) → IsPlatform l → round_len l len ≡ rounded len
round_len-rounded l len p = rw p.page

accepted_page :
    (l : Platform) (addr len : ℕ) → refuses_munmap l addr len ≡ false → page_aligned l addr ≡ true
unfolding refuses_munmap
accepted_page l addr len r = ground arith

accepted_len :
    (l : Platform) (addr len : ℕ)
    → refuses_munmap l addr len ≡ false
    → (round_len l len == 0) ≡ false
unfolding refuses_munmap
accepted_len l addr len r = ground arith

sum_pages :
    (addr len : ℕ)
    → (addr % 2 ^ 12 == 0) ≡ true
    → addr / 4096 + (len + 4095) / 4096 ≡ (addr + len + 4095) / 4096
sum_pages addr len h = ground arith

-- The pages of an accepted call.
accepted-pages :
    (l : Platform) (addr len : ℕ)
    → IsPlatform l
    → len < 2 ^ 32
    → refuses_munmap l addr len ≡ false
    → (addr_to_pn l addr ≡ addr / 4096)
      × (0 < addr_to_pn l (round_len l len))
      × (addr_to_pn l addr + addr_to_pn l (round_len l len) ≡ (addr + len + 4095) / 4096)
accepted-pages l addr len p h r =
    let e = round_len-rounded l len p in
    let k = rounded-pages len h (subst (λ z. (z == 0) ≡ false) e (accepted_len l addr len r)) in
    let al = subst (λ z. (addr % z == 0) ≡ true) p.page (accepted_page l addr len r) in
    let pages : addr_to_pn l (round_len l len) ≡ (len + 4095) / 4096 =
      ap (addr_to_pn l) e ∙ ap (λ z. rounded len / z) p.page ∙ k.0 in
    let page : addr_to_pn l addr ≡ addr / 4096 = ap (λ z. addr / z) p.page in
    (page, rw pages (rw (← k.0) k.1), rw page (rw pages (sum_pages addr len al)))

-- The calls that are accepted: the address is that of a page of user memory or its end, the length is
-- positive and, in whole pages, below 2 ^ 32, and the end of the range, modulo 2 ^ 32, is not above user
-- memory.
pub record Accepts (l : Platform) (addr len : ℕ) : Type 0 where
  pub aligned : addr % 4096 ≡ 0
  pub above : l.low * 4096 ≤ addr
  pub below : addr ≤ l.high * 4096
  pub positive : 0 < len
  pub long : len ≤ 2 ^ 32 - 4096
  pub end_below : (addr + (len + 4095) / 4096 * 4096) % 2 ^ 32 ≤ l.high * 4096

refuses : (low high addr len : ℕ) → Bool
refuses low high addr len =
    if addr % 4096 == 0
    then (rounded len == 0
        || ltb (high * 4096) (add32 addr (rounded len))
        || ltb (high * 4096) addr
        || ltb addr (low * 4096))
    else true

refuses-eq :
    (l : Platform) (addr len : ℕ)
    → IsPlatform l
    → refuses_munmap l addr len ≡ refuses l.low l.high addr len
unfolding refuses_munmap refuses
refuses-eq l addr len p = rw p.page refl

rounded-long : (len : ℕ) → len < 2 ^ 32 → 2 ^ 32 - 4096 < len → rounded len ≡ 0
rounded-long len h k = ground arith

rounded-short : (len : ℕ) → 0 < len → len ≤ 2 ^ 32 - 4096 → rounded len ≡ (len + 4095) / 4096 * 4096
rounded-short len h k = ground arith

Accepts-refuses :
    (l : Platform) (addr len : ℕ)
    → len < 2 ^ 32
    → Accepts l addr len
    → refuses l.low l.high addr len ≡ false
unfolding refuses
Accepts-refuses l addr len h a =
    let r = rounded-short len a.positive a.long in
    let same = ap (λ z. (addr + z) % 2 ^ 32) r in
    ground (arith, a.aligned, a.above, a.below, a.positive, r, same, a.end_below)

refuses-Accepts :
    (l : Platform) (addr len : ℕ)
    → addr < 2 ^ 32
    → len < 2 ^ 32
    → refuses l.low l.high addr len ≡ false
    → Accepts l addr len
unfolding refuses
refuses-Accepts l addr len ha h e =
    let nz : (rounded len == 0) ≡ false = ground (arith, e) in
    let pos : 0 < len = elim (Bool-cases (len == 0)) [
      | inl t ↦ ground (arith, nz, t, ap rounded (==→eq len 0 t))
      | inr n ↦ ground (arith, n)
    ] in
    let long : len ≤ 2 ^ 32 - 4096 = elim (Bool-cases (ltb (2 ^ 32 - 4096) len)) [
      | inl t ↦ ground (arith, nz, rounded-long len h (ground (arith, t)))
      | inr n ↦ ground (arith, n)
    ] in
    let same = ap (λ z. (addr + z) % 2 ^ 32) (rounded-short len pos long) in
    record {
      aligned = ground (arith, e);
      above = ground (arith, e);
      below = ground (arith, e);
      positive = pos;
      long = long;
      end_below = ground (arith, e, same);
    }

do_munmap-cases :
    (l : Platform) (m : List Area) (addr len : ℕ)
    → IsPlatform l
    → IsSpace l m
    → addr < 2 ^ 32
    → len < 2 ^ 32
    → ((refuses_munmap l addr len ≡ true) × (do_munmap l m addr len ≡ ok invalid))
      ⊎ ((refuses_munmap l addr len ≡ false)
          × ((r : Removed) × (do_munmap l m addr len ≡ ok (unmapped r))
              × IsSpace l r.areas
              × ((x : ℕ)
                  → page r.areas x ≡ (
                      if in_range (addr / 4096) ((addr + len + 4095) / 4096) x
                      then none
                      else page m x))))
unfolding do_munmap
do_munmap-cases l m addr len p s ha hl = elim (Bool-cases (refuses_munmap l addr len)) [
  | inl t ↦ inl (t, if_true _ _ _ t)
  | inr t ↦
      let (u, v, w) = accepted-pages l addr len p hl t in
      let (r, e, q, k) =
        remove-page l m (addr / 4096) (addr_to_pn l (round_len l len)) ((addr + len + 4095) / 4096)
          p s (omega (arith, u, w)) (omega (arith, u, v, w)) (omega arith) in
      inr (
        t,
        (
          r,
          if_false _ _ _ t
              ∙ ap (λ x. remove l m x (addr_to_pn l (round_len l len)) >>= λ r'. ok (unmapped r')) u
              ∙ ap (λ z. z >>= λ r'. ok (unmapped r')) e,
          q,
          k,
        ),
      )
]

-- munmap(2) returns 0, and exactly the pages that the bytes of the range touch are no longer mapped, for
-- the address of a user page or the end of user memory, a length that is positive and in whole pages
-- below 2 ^ 32, and a range whose end, modulo 2 ^ 32, is not above user memory. For all others it returns
-- -EINVAL, and does not touch the map.
pub do_munmap_lem :
    (l : Platform) (m : List Area) (addr len : ℕ)
    → IsPlatform l
    → IsSpace l m
    → addr < 2 ^ 32
    → len < 2 ^ 32
    → ((¬ Accepts l addr len) × (do_munmap l m addr len ≡ ok invalid))
      ⊎ (Accepts l addr len
          × ((r : Removed) × (do_munmap l m addr len ≡ ok (unmapped r))
              × IsSpace l r.areas
              × ((x : ℕ)
                  → page r.areas x ≡ (
                      if in_range (addr / 4096) ((addr + len + 4095) / 4096) x
                      then none
                      else page m x))))
do_munmap_lem l m addr len p s ha hl =
    let eq = refuses-eq l addr len p in
    elim (do_munmap-cases l m addr len p s ha hl) [
      | inl (t, e) ↦ inl (λ a. ground (arith, t, eq, Accepts-refuses l addr len hl a), e)
      | inr (t, r) ↦ inr (refuses-Accepts l addr len ha hl (sym eq ∙ t), r)
    ]
