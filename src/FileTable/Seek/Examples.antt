-- ===== src/FileTable/Seek/Examples.antt =====
-- Positions of an open file: tests, and the theorem at it.
use csci_402_operating_syste.Prelude.{◌-◌, ◌^◌, ◌≡◌, ◌≢◌, refl, none, some, [], ◌∷◌, arith}
use csci_402_operating_syste.FileTable.{einval}
use csci_402_operating_syste.FileTable.Seek.{
  Open, position, refused, moved, seek_cur, seek_end, other, do_lseek, seek_fd, seek_slot,
  seek_file,
}
use csci_402_operating_syste.FileTable.Seek.Position.{do_lseek_lem}

abbrev at_start : Open
at_start = record { p_files = none ∷ some 7 ∷ []; f_pos = λ g. 10; vn_len = λ g. 100 }

back_from_end : (do_lseek at_start 1 (2 ^ 32 - 1) seek_end).0 ≡ position 99
unfolding do_lseek seek_fd seek_slot seek_file
back_from_end = refl

before_start : (do_lseek at_start 1 (2 ^ 32 - 11) seek_cur).0 ≡ refused einval
unfolding do_lseek seek_fd seek_slot seek_file
before_start = refl

no_whence : seek_cur ≢ other
no_whence e = cc

do_lseek_lem_example : do_lseek at_start 1 (2 ^ 32 - 4) seek_cur ≡ (position 6, moved at_start 7 6)
do_lseek_lem_example =
    do_lseek_lem at_start 1 7 (2 ^ 32 - 4) seek_cur refl refl no_whence (omega arith) (omega arith)
      (omega arith)
