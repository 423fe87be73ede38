-- ===== src/Kernel/Log/Absorb.antt =====
-- `log_write` records a block once, however often it is written in a transaction.
use osn_mp.Common.{
  ℕ, zero, suc, ◌+◌, ◌≤◌, ◌<◌, false, some, ◌≡◌, ◌≢◌, inl, inr, refl, arith, ltb, leb, ◌==◌, ◌||◌,
  Bool-cases, sym, ◌∙◌, ap,
}
use osn_mp.Common.Arrays.{update, update_self, update_ne}
use osn_mp.Kernel.Log.{Log, Cache, log_blocks, bpin, find_slot, log_write}

find_slot-bounds :
    (m i b : ℕ) (block : ℕ → ℕ) → (i ≤ find_slot m i b block) × (find_slot m i b block ≤ i + m)
unfolding find_slot
find_slot-bounds zero i b block = omega arith
find_slot-bounds (suc m) i b block = ground (arith, find_slot-bounds m (i + 1) b block)

-- The slot found holds the block, or no slot does.
find_slot-found :
    (m i b : ℕ) (block : ℕ → ℕ) → find_slot m i b block < i + m → block (find_slot m i b block) ≡ b
unfolding find_slot
find_slot-found zero i b block h = absurd (omega arith)
find_slot-found (suc m) i b block h = ground (arith, find_slot-found m (i + 1) b block)

find_slot-absent :
    (m i b : ℕ) (block : ℕ → ℕ) (j : ℕ)
    → find_slot m i b block ≡ i + m
    → i ≤ j
    → j < i + m
    → block j ≢ b
unfolding find_slot
find_slot-absent zero i b block j e lo hi = absurd (omega arith)
find_slot-absent (suc m) i b block j e lo hi = ground (arith, find_slot-absent m (i + 1) b block j)

-- The blocks of the transaction are the same, with the same pins, or the block is added behind them
-- and pinned once more.
pub data Recorded (b : ℕ) (log : Log) (c : Cache) (log' : Log) (c' : Cache) : Type 0 where
  absorbed :
      (i : ℕ)
      → i < log.n
      → log.block i ≡ b
      → log'.n ≡ log.n
      → ((j : ℕ) → j < log.n → log'.block j ≡ log.block j)
      → c' ≡ c
      → Recorded b log c log' c'
  added :
      ((j : ℕ) → j < log.n → log.block j ≢ b)
      → log'.n ≡ log.n + 1
      → ((j : ℕ) → j < log.n → log'.block j ≡ log.block j)
      → log'.block log.n ≡ b
      → c' ≡ bpin c b
      → Recorded b log c log' c'

-- Within an operation and with room in the log, `log_write` does not panic. It leaves the blocks of
-- the transaction and the pins as they are where the block is among them already; otherwise it adds
-- the block behind the others and pins its buffer once.
pub log_write-Recorded :
    (b : ℕ) (log : Log) (c : Cache)
    → log.n < log_blocks
    → 0 < log.outstanding
    → (log' : Log) × (c' : Cache) × (log_write b log c ≡ some (log', c')) × Recorded b log c log' c'
unfolding log_write
log_write-Recorded b log c room running =
    let i = find_slot log.n 0 b log.block in
    let log' = record log { block = update log.block i b } in
    let ok : (leb log_blocks log.n || ltb log.outstanding 1) ≡ false = ground arith in
    let (lo, hi) = find_slot-bounds log.n 0 b log.block in
    elim (Bool-cases (i == log.n)) [
      | inl e ↦
          let last : i ≡ log.n = ground arith in
          (
            record log' { n = log.n + 1 },
            bpin c b,
            rw (ok, e),
            added
                (λ j l.
                  find_slot-absent log.n 0 b log.block j (omega arith) (omega arith) (omega arith))
                refl (λ j l. update_ne log.block i j b (omega arith))
                (ap (update log.block i b) (sym last) ∙ update_self log.block i b) refl,
          )
      | inr e ↦
          let less : i < log.n = ground arith in
          let found = find_slot-found log.n 0 b log.block (omega arith) in
          (log', c, rw (ok, e), absorbed i less found refl (λ j l. ground (arith, found)) refl)
    ]
