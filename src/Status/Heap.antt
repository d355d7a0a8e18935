-- ===== src/Status/Heap.antt =====
-- serial_console/system_status.c: the sizes of the heap.
use pico_common.Common.{◌+◌, ◌^◌, ◌≤◌, ◌<◌, ◌≡◌, arith}
use pico_common.Status.{Platform, get_total_heap, get_free_heap}

-- Where the heap lies between the end of the data and the limit of the stack, and malloc has given out no more
-- than it holds, the free part and what malloc has given out are the whole heap. Where malloc counts more
-- than the whole heap, the free part that is printed is larger than the heap.
pub get_free_heap-add :
    (p : Platform)
    → p.bss_end ≤ p.stack_limit
    → p.stack_limit < 2 ^ 32
    → p.mallinfo.uordblks < 2 ^ 32
    → (p.bss_end + get_total_heap p ≡ p.stack_limit)
      × ((p.mallinfo.uordblks ≤ get_total_heap p)
          → (get_free_heap p + p.mallinfo.uordblks ≡ get_total_heap p))
      × ((get_total_heap p < p.mallinfo.uordblks) → (get_total_heap p < get_free_heap p))
unfolding get_total_heap get_free_heap
get_free_heap-add p above fits counted = (omega arith, (λ h. omega arith), (λ h. omega arith))
