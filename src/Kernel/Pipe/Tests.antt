-- ===== src/Kernel/Pipe/Tests.antt =====
-- Two bytes through a pipe whose counters wrap, and the theorems there.
use osn_mp.Common.{ℕ, ◌+◌, ◌-◌, ◌^◌, List, [], ◌∷◌, true, false, Option, some, ◌≡◌, refl}
use osn_mp.Kernel.Pipe.{
  Pipe, WriteEnd, ReadEnd, write_from, read_from, store_byte, drop_byte, pipewrite, piperead,
}

-- One byte is in the pipe, and the next one written wraps `nwrite`.
abbrev wrapping : Pipe
wrapping = record {
  buffer = λ i. i;
  nread = 2 ^ 32 - 2;
  nwrite = 2 ^ 32 - 1;
  readopen = true;
  writeopen = true;
}

abbrev memory : ℕ → Option ℕ
memory a = some (a + 1)

-- The bytes that a reader gets after the write of two bytes.
abbrev delivered : WriteEnd → ReadEnd
delivered (WriteEnd.returned r pi) = piperead false (λ a c. true) 0 9 pi
delivered (WriteEnd.refused pi) = ReadEnd.refused
delivered (WriteEnd.waiting i pi) = ReadEnd.refused

abbrev bytes_of : ReadEnd → List ℕ
bytes_of (ReadEnd.returned r bytes pi) = bytes
bytes_of _ = []

through_the_wrap :
    bytes_of (delivered (pipewrite (λ i. false) memory 64 2 wrapping)) ≡ 510 ∷ 65 ∷ 66 ∷ []
unfolding pipewrite piperead write_from read_from store_byte drop_byte
through_the_wrap = refl
