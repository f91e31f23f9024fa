-- ===== src/Pagefault/Examples.antt =====
-- Page faults in a small address space: tests, and the theorem at one of them.
use csci_402_operating_syste.Prelude.{◌+◌, ◌==◌, some, arith, ◌≡◌, ◌⊎◌, refl, true, false}
use csci_402_operating_syste.Prelude.Run.{ok}
use csci_402_operating_syste.Vmmap.{lookup}
use csci_402_operating_syste.Vmmap.Examples.{i386, space, space-IsSpace}
use csci_402_operating_syste.Pagefault.{
  Cause, Prots, Objects, access_right, killed, fault_at, handle_pagefault,
}
use csci_402_operating_syste.Pagefault.Serve.{Permitted, Served, handle_pagefault_lem}

abbrev prots : Prots
prots = record { prot_none = 0; prot_read = 1; prot_write = 2; prot_exec = 4 }

abbrev write : Cause
write = record {
  fault_write = true;
  fault_exec = false;
  fault_reserved = false;
  fault_present = true;
}

-- A read of a page that is not present asks for no right.
abbrev first_read : Cause
first_read = record {
  fault_write = false;
  fault_exec = false;
  fault_reserved = false;
  fault_present = false;
}

-- Every page has a frame.
abbrev objects : Objects
objects = record {
  mmo_shadowed = λ o. o == 7;
  pframe_get = λ o n. some (n + 1);
  lookuppage = λ o n forwrite. some (n + 2);
}

no_right : access_right prots first_read ≡ 0
no_right = refl

unmapped : handle_pagefault i386 prots objects space 0x500123 write ≡ ok killed
unfolding handle_pagefault fault_at lookup
unmapped = refl

handle_pagefault_lem_example :
    ((handle_pagefault i386 prots objects space 0x409123 write ≡ ok killed)
      × ¬ Permitted i386 space 0x409123 write)
    ⊎ (Permitted i386 space 0x409123 write
        × Served i386 objects space 0x409123 write
            (handle_pagefault i386 prots objects space 0x409123 write))
handle_pagefault_lem_example =
    handle_pagefault_lem i386 prots objects space 0x409123 write space-IsSpace
      (omega arith, (omega arith, tt))
      (record { none_value = refl; read_value = refl; write_value = refl; exec_value = refl })
