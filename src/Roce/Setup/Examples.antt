-- ===== src/Roce/Setup/Examples.antt =====
-- A region at an address, with a library of verbs that takes everything.
use axio_emulator.Prelude.{ℕ, ◌+◌, [], some, true, arith}
use axio_emulator.HugeAlloc.{Buffer, HugeAlloc, posted, new_buffer}
use axio_emulator.HugeAlloc.Bsr.{bsr, bsr-BsrLaw}
use axio_emulator.Mbuf.{Mem}
use axio_emulator.Roce.Setup.{Answers, mbuf_alloc_bulk}
use axio_emulator.Roce.Setup.Bulk.{Bulk, mbuf_alloc_bulk-Bulk}
use axio_emulator.Roce.Setup.Registered.{region_alloc, region-IsSound}

abbrev answers : Answers
answers = record {
  raw = some 4096;
  registers = true;
  lkey = 7;
  posts = λ ids. true;
  fresh = λ i. 1000 + i;
}

abbrev blank : ℕ → Buffer
blank p = new_buffer 0 0 0

abbrev blank_mem : Mem
blank_mem p = record {
  length = 0;
  state = posted;
  next = 0;
  udp = record { source = 0; dest = 0 };
  ws = record { workload_type = 0; segment_num = 0 };
  payload = [];
}

mbuf_alloc_bulk_example :
    Bulk (region_alloc bsr 4096 7) [] [] 3 (mbuf_alloc_bulk bsr (region_alloc bsr 4096 7) 3)
mbuf_alloc_bulk_example =
    mbuf_alloc_bulk-Bulk bsr 3 (region_alloc bsr 4096 7) [] bsr-BsrLaw
      (region-IsSound bsr 4096 7 (omega arith)).0
