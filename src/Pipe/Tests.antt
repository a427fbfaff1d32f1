-- ===== src/Pipe/Tests.antt =====
-- A run of the pipe's model: three bytes of room, one byte in it, and process 7 waiting.
use scales_os.Prelude.{◌≡◌, refl, true, false, arith, [], ◌∷◌}
use scales_os.Ring.Bounds.{IsValid}
use scales_os.Pipe.{
  Pipe, write, write_from, wait_room, wait_for, write_available, read_available, put,
  bump_write_ptr, wakeup, returned, read,
}
use scales_os.Pipe.Laws.{ring, Wrote, write-Wrote_nonblock}
use scales_os.Pipe.Reads.{Reads, read-Reads}

abbrev pipe : Pipe
pipe = record {
  buffer = 0 ∷ 0 ∷ 0 ∷ 9 ∷ [];
  size = 4;
  write_ptr = 0;
  read_ptr = 3;
  wait_queue = 7 ∷ [];
}

pipe-IsValid : IsValid (ring pipe)
unfolding ring
pipe-IsValid = ground arith

-- Two of three bytes fit.
write_runs :
    write true 1 (4 ∷ 5 ∷ 6 ∷ []) [] pipe
    ≡ returned 2 (record pipe { buffer = 4 ∷ 5 ∷ 0 ∷ 9 ∷ []; write_ptr = 2; wait_queue = [] })
unfolding write write_from wait_room wait_for write_available put bump_write_ptr wakeup
write_runs = refl

write-Wrote_nonblock_example : Wrote pipe (4 ∷ 5 ∷ 6 ∷ []) (write true 1 (4 ∷ 5 ∷ 6 ∷ []) [] pipe)
write-Wrote_nonblock_example = write-Wrote_nonblock 1 (4 ∷ 5 ∷ 6 ∷ []) [] pipe pipe-IsValid

read-Reads_example : Reads pipe [] 1 (read false 1 1 [] pipe)
unfolding read_available
read-Reads_example = read-Reads false 1 1 [] pipe pipe-IsValid (ground arith)
