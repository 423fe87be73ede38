-- ===== src/Shell/Peek/Growth.antt =====
-- The buffer of `processing` holds what is read.
use osn_mp.Common.{
  ℕ, zero, suc, ◌+◌, ◌*◌, ◌≤◌, ◌<◌, List, [], ◌∷◌, ◌++◌, true, Option, some, leb, ◌≡◌, refl, arith,
  sym, ◌∙◌, length, length-append, Bool-cases, inl, inr, append_assoc, append-nil,
}
use osn_mp.Shell.Peek.{Buffer, grow, add_chunk, read_chunks}

-- With room for one byte at least, `need` rounds are enough.
grow-enough : (fuel need cap : ℕ) → 0 < cap → need < cap + fuel → need < grow fuel need cap
unfolding grow
grow-enough zero need cap p h = omega arith
grow-enough (suc fuel) need cap p h = elim (Bool-cases (leb cap need)) [
  | inl e ↦ rw e (grow-enough fuel need (cap * 2) (omega arith) (omega arith))
  | inr e ↦ rw e (ground arith)
]

abbrev concat : List (List ℕ) → List ℕ
concat [] = []
concat (x ∷ r) = x ++ concat r

pub record Holds (chunks : List (List ℕ)) (b : Buffer) (r : Option Buffer) : Type 0 where
  pub buffer : Buffer
  pub read : r ≡ some buffer
  pub contents : buffer.bytes ≡ b.bytes ++ concat chunks
  pub room : length buffer.bytes ≤ buffer.cap

-- The buffer behind a chunk.
abbrev larger : List ℕ → Buffer → Buffer
larger chunk b =
    let need = length b.bytes + length chunk in
    record { bytes = b.bytes ++ chunk; cap = grow need need b.cap }

larger-cap :
    (chunk : List ℕ) (b : Buffer) → 0 < b.cap → length b.bytes + length chunk < (larger chunk b).cap
larger-cap chunk b p =
    grow-enough (length b.bytes + length chunk) (length b.bytes + length chunk) b.cap p
      (omega arith)

add_chunk-larger :
    (chunk : List ℕ) (b : Buffer) → 0 < b.cap → add_chunk chunk b ≡ some (larger chunk b)
unfolding add_chunk
add_chunk-larger chunk b p =
    let fits : leb (length b.bytes + length chunk) (larger chunk b).cap ≡ true =
      ground (arith, larger-cap chunk b p) in
    rw fits refl

read_chunks-more :
    (chunk : List ℕ) (rest : List (List ℕ)) (b : Buffer)
    → 0 < b.cap
    → read_chunks (chunk ∷ rest) b ≡ read_chunks rest (larger chunk b)
unfolding read_chunks
read_chunks-more chunk rest b p = rw (read_chunks, add_chunk-larger chunk b p) refl

-- Whatever the chunks that `read` returns, the loop that reads into a buffer with room for one byte
-- at least never writes behind the allocation, and leaves in it all the bytes, in order.
pub read_chunks-Holds :
    (chunks : List (List ℕ)) (b : Buffer)
    → 0 < b.cap
    → length b.bytes ≤ b.cap
    → Holds chunks b (read_chunks chunks b)
unfolding read_chunks
read_chunks-Holds [] b p l = record {
  buffer = b;
  read = refl;
  contents = sym (append-nil b.bytes);
  room = l;
}
read_chunks-Holds (chunk ∷ rest) b p l =
    let h =
      read_chunks-Holds rest (larger chunk b) (omega (arith, larger-cap chunk b p))
        (omega (arith, length-append b.bytes chunk, larger-cap chunk b p)) in
    record {
      buffer = h.buffer;
      read = read_chunks-more chunk rest b p ∙ h.read;
      contents = h.contents ∙ append_assoc b.bytes chunk (concat rest);
      room = h.room;
    }
