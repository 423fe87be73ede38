-- ===== src/Kernel/Log/Loops.antt =====
-- The disk after a sequence of writes, what holds all along one, and the loops over the header block.
use osn_mp.Common.{ℕ, zero, suc, ◌+◌, ◌≤◌, ◌<◌, List, [], ◌∷◌, ◌++◌, ◌≡◌, refl, arith, take}
use osn_mp.Common.Arrays.{update}
use osn_mp.Kernel.Log.{Disk, Words, Write, read_blocks, write_blocks}

-- The disk behind the writes `ws`.
abbrev pub apply : List Write → Disk → Disk
apply [] d = d
apply ((b, w) ∷ ws) d = apply ws (update d b w)

-- `P` holds before the writes `ws`, between any two of them and behind them.
abbrev pub Along : (Disk → Type 0) → List Write → Disk → Type 0
Along P [] d = P d
Along P ((b, w) ∷ ws) d = P d × Along P ws (update d b w)

pub Along-take :
    (P : Disk → Type 0) (ws : List Write) (d : Disk) (k : ℕ)
    → Along P ws d
    → P (apply (take k ws) d)
Along-take P [] d zero h = h
Along-take P [] d (suc k) h = h
Along-take P ((b, w) ∷ ws) d zero h = h.0
Along-take P ((b, w) ∷ ws) d (suc k) h = Along-take P ws (update d b w) k h.1

pub Along-append :
    (P : Disk → Type 0) (ws vs : List Write) (d : Disk)
    → Along P ws d
    → Along P vs (apply ws d)
    → Along P (ws ++ vs) d
Along-append P [] vs d h k = k
Along-append P ((b, w) ∷ ws) vs d h k = (h.0, Along-append P ws vs (update d b w) h.1 k)

pub apply-append : (ws vs : List Write) (d : Disk) → apply (ws ++ vs) d ≡ apply vs (apply ws d)
apply-append [] vs d = refl
apply-append ((b, w) ∷ ws) vs d = apply-append ws vs (update d b w)

pub Along-weaken :
    (P Q : Disk → Type 0) (ws : List Write) (d : Disk)
    → ((e : Disk) → P e → Q e)
    → Along P ws d
    → Along Q ws d
Along-weaken P Q [] d f h = f d h
Along-weaken P Q ((b, w) ∷ ws) d f h = (f d h.0, Along-weaken P Q ws (update d b w) f h.1)

read_blocks-below :
    (m i : ℕ) (hb : Words) (block : ℕ → ℕ) (j : ℕ) → j < i → read_blocks m i hb block j ≡ block j
unfolding read_blocks
read_blocks-below zero i hb block j h = refl
read_blocks-below (suc m) i hb block j h =
    ground (arith, read_blocks-below m (i + 1) hb (update block i (hb (i + 1))) j)

pub read_blocks_lem :
    (m i : ℕ) (hb : Words) (block : ℕ → ℕ) (j : ℕ)
    → i ≤ j
    → j < i + m
    → read_blocks m i hb block j ≡ hb (j + 1)
unfolding read_blocks
read_blocks_lem zero i hb block j lo hi = absurd (omega arith)
read_blocks_lem (suc m) i hb block j lo hi = ground (
  arith,
  read_blocks_lem m (i + 1) hb (update block i (hb (i + 1))) j,
  read_blocks-below m (i + 1) hb (update block i (hb (i + 1))) j,
)

pub write_blocks-below :
    (m i : ℕ) (block : ℕ → ℕ) (hb : Words) (j : ℕ) → j < i + 1 → write_blocks m i block hb j ≡ hb j
unfolding write_blocks
write_blocks-below zero i block hb j h = refl
write_blocks-below (suc m) i block hb j h =
    ground (arith, write_blocks-below m (i + 1) block (update hb (i + 1) (block i)) j)

pub write_blocks_lem :
    (m i : ℕ) (block : ℕ → ℕ) (hb : Words) (j : ℕ)
    → i ≤ j
    → j < i + m
    → write_blocks m i block hb (j + 1) ≡ block j
unfolding write_blocks
write_blocks_lem zero i block hb j lo hi = absurd (omega arith)
write_blocks_lem (suc m) i block hb j lo hi = ground (
  arith,
  write_blocks_lem m (i + 1) block (update hb (i + 1) (block i)) j,
  write_blocks-below m (i + 1) block (update hb (i + 1) (block i)) (j + 1),
)
