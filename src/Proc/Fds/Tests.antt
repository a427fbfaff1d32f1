-- ===== src/Proc/Fds/Tests.antt =====
-- Runs of the descriptor table: descriptors 0 and 2 open on the nodes 7 and 8, and 1 free.
use scales_os.Prelude.{◌≡◌, refl, none, some, [], ◌∷◌, arith, ◌==◌, if◌then◌else◌}
use scales_os.Proc.Fds.{new_fd, Table, Store, open_node, close_fd, first_free, fd2fdt}
use scales_os.Proc.Fds.Opening.{used, IsValid, Closed, close_fd-Closed}

abbrev table : Table
table = record { nodes = some 0 ∷ none ∷ some 1 ∷ []; amount = 2; size = 3 }

abbrev store : Store
store = record {
  fds = λ p. record { node = if p == 0 then 7 else 8; offset = 40; links = 1 };
  fresh = 2;
  links = λ n. 1;
  released = [];
}

table-IsValid : IsValid table
unfolding used
table-IsValid = record { sized = refl; counted = refl }

-- The new descriptor is 1.
open_runs :
    open_node table store 9
    ≡ some (
      1,
      record { nodes = some 0 ∷ some 2 ∷ some 1 ∷ []; amount = 3; size = 3 },
      new_fd (record { node = 9; offset = 0; links = 1 }) store,
    )
unfolding open_node first_free
open_runs = refl

close_fd-Closed_example : Closed table store 2 1 (close_fd table store 2)
unfolding fd2fdt
close_fd-Closed_example = close_fd-Closed table store 2 1 table-IsValid (omega arith) refl

-- A full table of one descriptor.
abbrev full_table : Table
full_table = record { nodes = some 0 ∷ []; amount = 1; size = 1 }

full_table-IsValid : IsValid full_table
unfolding used
full_table-IsValid = record { sized = refl; counted = refl }

-- Descriptors 0 and 1 of one `fd_t`.
abbrev shared_table : Table
shared_table = record { nodes = some 0 ∷ some 0 ∷ []; amount = 2; size = 2 }

shared_table-IsValid : IsValid shared_table
unfolding used
shared_table-IsValid = record { sized = refl; counted = refl }
