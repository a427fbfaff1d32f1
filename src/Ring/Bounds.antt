-- ===== src/Ring/Bounds.antt =====
-- The representation invariant of `ringbuffer_t`, and the room that it leaves.
use scales_os.Prelude.{ℕ, ◌+◌, ◌^◌, ◌<◌, ◌≡◌, List, arith, length, length-set}
use scales_os.Ring.{RingBuffer, create, read_available, write_available, put, get}

pub record IsValid (rb : RingBuffer) : Type 0 where
  pub storage : length rb.buffer ≡ rb.size
  pub word : rb.size < 2 ^ 32
  pub read_in : rb.read_ptr < rb.size
  pub write_in : rb.write_ptr < rb.size

-- A buffer created over `size` bytes of storage is valid and empty, with room for all but one byte.
pub create-IsValid :
    (storage : List ℕ) (size : ℕ)
    → length storage ≡ size
    → 0 < size
    → size < 2 ^ 32
    → IsValid (create storage size)
      × (read_available (create storage size) ≡ 0)
      × (write_available (create storage size) + 1 ≡ size)
unfolding create read_available write_available
create-IsValid storage size h p w = ground arith

-- In a valid buffer the bytes to read, the room to write and the one empty cell make up the size.
pub read_available-add-write_available :
    {rb : RingBuffer} → IsValid rb → read_available rb + write_available rb + 1 ≡ rb.size
unfolding read_available write_available
read_available-add-write_available v = ground arith

pub put-IsValid : {rb : RingBuffer} (x : ℕ) → IsValid rb → IsValid (put rb x)
unfolding put
put-IsValid {rb} x v = ground (arith, length-set rb.buffer rb.write_ptr x)

pub get-IsValid : {rb : RingBuffer} → IsValid rb → IsValid (get rb).1
unfolding get
get-IsValid v = ground arith
