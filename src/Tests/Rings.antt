-- ===== src/Tests/Rings.antt =====
-- The ring buffer of four elements.
use robosw.Base.{ℕ, ◌-◌, ◌≡◌, refl, false, true, List, [], ◌∷◌, arith, length}
use robosw.RingBuffer.{RingBuffer, write, read_from, get_occupied_size}
use robosw.RingBuffer.Inv.{IsValid}
use robosw.RingBuffer.Window.{contents, push}
use robosw.RingBuffer.Refine.{write_refines}
use robosw.RingBuffer.Run.{Op, put, get, run, run_queue, run_refines}
use robosw.RingBuffer.Overwrite.{overwrite_reads_past}

abbrev zeros : List ℕ
zeros = 0 ∷ 0 ∷ 0 ∷ 0 ∷ []

abbrev empty : RingBuffer ℕ
empty = record {
  size = 4;
  buffer = zeros;
  size_mask = 3;
  write_index = 0;
  read_index = 0;
  enable_overwrite = false;
}

empty-IsValid : IsValid 2 empty
empty-IsValid = record {
  small = omega arith;
  size_pow = refl;
  mask = refl;
  memory = refl;
  write_in = omega arith;
  read_in = omega arith;
  ahead = omega arith;
}

-- Three elements, with overwriting: full, and at the end of the memory.
abbrev at_end : RingBuffer ℕ
at_end = record {
  size = 4;
  buffer = 7 ∷ 8 ∷ 9 ∷ 6 ∷ [];
  size_mask = 3;
  write_index = 6;
  read_index = 3;
  enable_overwrite = true;
}

at_end-IsValid : IsValid 2 at_end
at_end-IsValid = record {
  small = omega arith;
  size_pow = refl;
  mask = refl;
  memory = refl;
  write_in = omega arith;
  read_in = omega arith;
  ahead = omega arith;
}

abbrev history : List (Op ℕ)
history = put 5 ∷ put 6 ∷ get ∷ put 7 ∷ put 8 ∷ put 9 ∷ get ∷ []

run_refines_example : run empty 0 history ≡ run_queue 4 (contents 0 empty) 0 history
run_refines_example = run_refines history 0 0 2 empty empty-IsValid refl

-- Three elements, with overwriting: full, with room before the end of the memory.
abbrev full : RingBuffer ℕ
full = record at_end { write_index = 4; read_index = 1 }

full-IsValid : IsValid 2 full
full-IsValid = record {
  small = omega arith;
  size_pow = refl;
  mask = refl;
  memory = refl;
  write_in = omega arith;
  read_in = omega arith;
  ahead = omega arith;
}

-- The write overwrites the oldest element.
write_refines_example :
    (((write full 5).0, contents 0 (write full 5).1) ≡ push 4 true (contents 0 full) 5)
    × IsValid 2 (write full 5).1
write_refines_example = write_refines 0 full-IsValid 5 (λ on e. omega arith)

overwrite_reads_past_example :
    let (n, r') = write at_end 5 in
    (get_occupied_size r' ≡ 4 - 1) × (length (read_from r' 7 0).0 ≡ 7)
overwrite_reads_past_example =
    overwrite_reads_past at_end-IsValid 5 0 7 refl refl (omega arith) (omega arith) (omega arith)
      (omega arith)
