-- ===== src/Ring/Tests.antt =====
-- Runs of ringbuffer.c, and its theorems at concrete buffers.
use scales_os.Prelude.{◌≡◌, ◌≢◌, refl, false, [], ◌∷◌, arith}
use scales_os.Ring.{RingBuffer, Sys, Resume, returned, read_available, write_available, get, write}
use scales_os.Ring.Bounds.{IsValid, get-IsValid}
use scales_os.Ring.Refine.{contents}
use scales_os.Ring.Blocking.{KeepValid, Wrote, write-Wrote}

-- 7 and 8 lie across the end of the storage.
abbrev wrapped : RingBuffer
wrapped = record {
  buffer = 8 ∷ 0 ∷ 0 ∷ 7 ∷ [];
  size = 4;
  read_ptr = 3;
  write_ptr = 1;
  read_wait_queue = 5 ∷ 6 ∷ [];
  write_wait_queue = [];
}

abbrev full : RingBuffer
full = record {
  buffer = 8 ∷ 9 ∷ 0 ∷ 7 ∷ [];
  size = 4;
  read_ptr = 3;
  write_ptr = 2;
  read_wait_queue = [];
  write_wait_queue = [];
}

abbrev sys : Sys
sys = record { ring = wrapped; ready_queue = 1 ∷ [] }

abbrev full_sys : Sys
full_sys = record { ring = full; ready_queue = [] }

-- Another process reads one byte while the caller sleeps.
reader : Resume
unfolding get
reader = record { others = λ s. record s { ring = (get s.ring).1 }; interrupted = false }

wrapped-IsValid : IsValid wrapped
wrapped-IsValid = omega arith

full-IsValid : IsValid full
full-IsValid = omega arith

contents-wrapped : contents wrapped ≡ 7 ∷ 8 ∷ []
unfolding read_available
contents-wrapped = refl

write_after_sleep :
    write 2 (4 ∷ 5 ∷ []) (reader ∷ []) full_sys
    ≡ returned 1 (record {
      ring = record {
        buffer = 8 ∷ 9 ∷ 4 ∷ 7 ∷ [];
        size = 4;
        read_ptr = 0;
        write_ptr = 3;
        read_wait_queue = [];
        write_wait_queue = 2 ∷ [];
      };
      ready_queue = [];
    })
unfolding write reader
write_after_sleep = refl

room : write_available wrapped ≢ 0
unfolding write_available
room e = cc

left : read_available wrapped ≢ 0
unfolding read_available
left e = cc

keep : KeepValid (reader ∷ [])
unfolding reader
keep = (λ s v. get-IsValid v, tt)

write-Wrote_example :
    Wrote (4 ∷ 5 ∷ []) (reader ∷ []) full_sys (write 2 (4 ∷ 5 ∷ []) (reader ∷ []) full_sys)
write-Wrote_example = write-Wrote 2 (4 ∷ 5 ∷ []) (reader ∷ []) full_sys keep full-IsValid
