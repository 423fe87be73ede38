-- ===== src/Kernel/Fs/Inode/Total.antt =====
-- `bmap` of every block number.
use osn_mp.Common.{
  ℕ, ◌+◌, ◌-◌, ◌≤◌, ◌<◌, ◌^◌, true, false, Option, none, some, ltb, ◌==◌, ◌≡◌, ◌≢◌, refl, arith,
  sym, subst, ◌∙◌, Bool-cases, inl, inr,
}
use osn_mp.Common.Arrays.{update_self}
use osn_mp.Kernel.Fs.{Store, Superblock}
use osn_mp.Kernel.Fs.Bitmap.{balloc}
use osn_mp.Kernel.Fs.Bitmap.Blocks.{IsFormatted}
use osn_mp.Kernel.Fs.Bitmap.Outcomes.{Balloc, out_of_blocks, allocated, balloc-Balloc}
use osn_mp.Kernel.Fs.Inode.{Inode, Addressed, ndirect, nindirect, slot_addr, word_addr, bmap}
use osn_mp.Kernel.Fs.Inode.Mapped.{maxfile, mapped, IsFile}
use osn_mp.Kernel.Fs.Inode.Grown.{Grown, Grown-refl, placed_at, indirect-Grown, indirect_same}
use osn_mp.Kernel.Fs.Inode.Bmap.{Bmapped, no_room, Bmapped-trans, slot-Bmapped, word-Bmapped}

-- The address that `word_addr` finds in an indirect block, for an inode.
abbrev at_ind : Superblock → Inode → ℕ → ℕ → Store → Addressed
at_ind sb ip i ind st =
    let (addr, st') = word_addr sb ind i st in record { addr = addr; inode = ip; store = st' }

module _ (sb : Superblock) where
  pub data Bmap (n : ℕ) (ip : Inode) (st : Store) : Option Addressed → Type 0 where
    out_of_range : maxfile ≤ n → Bmap n ip st none
    in_range : (r : Addressed) → n < maxfile → Bmapped sb n ip st r → Bmap n ip st (some r)

  module _ (ip : Inode) (st : Store) (v : IsFormatted sb st) (f : IsFile sb ip st)
      (fits : sb.size ≤ 2 ^ 32) where
    module _ (i : ℕ) (lt : i < nindirect) where
      beyond : ltb (i + ndirect) ndirect ≡ false
      beyond = ground arith

      reach : ltb i nindirect ≡ true
      reach = ground arith

      index : i + ndirect - ndirect ≡ i
      index = omega arith

      unmapped : (ip.addrs ndirect == 0) ≡ true → mapped ip st (i + ndirect) ≡ 0
      unmapped e = rw (beyond, e) refl

      with_slot :
          (r : Addressed)
          → slot_addr sb ndirect ip st ≡ r
          → (r.addr == 0) ≡ false
          → Bmapped sb (i + ndirect) ip st (
              let (addr, st') = word_addr sb r.addr i r.store in
              record { addr = addr; inode = r.inode; store = st' })
          → Bmap (i + ndirect) ip st (bmap sb ip (i + ndirect) st)
      unfolding bmap
      with_slot r q z h = rw (bmap, beyond, index, q, z, reach) (in_range _ (omega arith) h)

      new_indirect :
          (r : ℕ × Store)
          → balloc sb st ≡ r
          → Balloc sb st r
          → (ip.addrs ndirect == 0) ≡ true
          → Bmap (i + ndirect) ip st (bmap sb ip (i + ndirect) st)
      unfolding bmap slot_addr
      new_indirect _ q (out_of_blocks h) e =
          rw (bmap, beyond, index, reach, slot_addr, q, e)
            (in_range _ (omega arith)
              (no_room ip st (unmapped e) h (Grown-refl sb (i + ndirect) ip st v f) (unmapped e)))
      new_indirect _ q (allocated b st' a h) e =
          let none_there : ip.addrs ndirect ≡ 0 = ground arith in
          let n : b ≢ 0 = a.not_boot in
          let nz : (b == 0) ≡ false = ground arith in
          let g : Grown sb (i + ndirect) ip st (placed_at ip ndirect b) st' =
            indirect-Grown sb ip st st' b v f a none_there (i + ndirect) in
          let slot : (placed_at ip ndirect b).addrs ndirect ≡ b = update_self ip.addrs ndirect b in
          let same : mapped (placed_at ip ndirect b) st' (i + ndirect)
              ≡ mapped ip st (i + ndirect) =
            indirect_same sb ip st st' b v f a none_there (i + ndirect) in
          with_slot (record { addr = b; inode = placed_at ip ndirect b; store = st' })
            (rw (slot_addr, q, e, nz) refl) nz
            (Bmapped-trans sb (i + ndirect) ip (placed_at ip ndirect b) st st' g (same ∙ unmapped e)
              (unmapped e)
              (subst
                (λ (k : ℕ).
                  Bmapped sb (i + ndirect) (placed_at ip ndirect b) st'
                    (at_ind sb (placed_at ip ndirect b) i k st'))
                slot
                (word-Bmapped sb (placed_at ip ndirect b) st' g.formatted g.file i lt fits
                  (λ z. n (sym slot ∙ z)))))

      beyond-Bmap : Bmap (i + ndirect) ip st (bmap sb ip (i + ndirect) st)
      unfolding slot_addr
      beyond-Bmap = elim (Bool-cases (ip.addrs ndirect == 0)) [
        | inl e ↦ new_indirect (balloc sb st) refl (balloc-Balloc sb st v) e
        | inr e ↦
            with_slot (record { addr = ip.addrs ndirect; inode = ip; store = st })
              (rw (slot_addr, e) refl) e (word-Bmapped sb ip st v f i lt fits (λ z. ground arith))
      ]

    -- On a formatted map of at most 2 ^ 32 blocks, for a file that holds its blocks alone, `bmap` of a
    -- block number below MAXFILE returns the address that is mapped, and changes nothing; or, if there is
    -- none, that of a block that was free, which is filled with zeros and mapped there; or 0, if all
    -- blocks are in use and nothing is mapped there. All other block numbers keep their address and
    -- every block its content, the inode its other fields, no block in use that is not the file's or
    -- the map's changes, and the map and the file stay as they should be. Of other block numbers it panics.
    pub bmap-Bmap : (n : ℕ) → Bmap n ip st (bmap sb ip n st)
    unfolding bmap
    bmap-Bmap n = elim (Bool-cases (ltb n ndirect)) [
      | inl e ↦ rw e (in_range _ (ground arith) (slot-Bmapped sb ip st v f n (ground arith)))
      | inr e ↦ elim (Bool-cases (ltb (n - ndirect) nindirect)) [
        | inl l ↦
            let k : n - ndirect + ndirect ≡ n = ground arith in
            subst (λ (m : ℕ). Bmap m ip st (bmap sb ip m st)) k
              (beyond-Bmap (n - ndirect) (ground arith))
        | inr l ↦ rw (e, l) (out_of_range (ground arith))
      ]
    ]
