-- ===== src/Kernel/Console/Typed.antt =====
-- `consoleintr` against the line discipline of a terminal, which keeps the ended lines and the line
-- being typed as two lists.
use osn_mp.Common.{
  ℕ, zero, suc, ◌+◌, ◌<◌, [], ◌∷◌, ◌++◌, true, false, ◌&&◌, ◌||◌, not, ltb, ◌==◌, ◌≡◌, ◌≢◌, refl,
  arith, ap, length, All, All-append, subst, sym, replicate, Bool-cases, inl, inr, if◌then◌else◌,
}
use osn_mp.Common.Window.{window, length-window}
use osn_mp.Kernel.Console.{
  Cons, cell, input_buf_size, newline, backspace, control_h, control_p, control_u, delete_key,
  sub32, next32, kill_line, erase, store, line_byte, ends_line, consoleintr,
}
use osn_mp.Kernel.Console.Contents.{
  ended, line, IsValid, in_all, stored-ended, stored-line, stored-all,
}
use osn_mp.Kernel.Console.Terminal.{
  size_less, line_snoc, drop_last, put, typed, drop_last-snoc, All-snoc, kill_line_lem, Agrees,
}

module _ (s : Cons) (v : IsValid s) where
  abbrev k : ℕ
  k = sub32 s.e s.w

  length-line : length (line s) ≡ k
  length-line = length-window cell s.buf s.w k

  length-ended : length (ended s) ≡ sub32 s.w s.r
  length-ended = length-window cell s.buf s.r (sub32 s.w s.r)

  same-Agrees :
      Agrees
        (record { state = s; echo = []; woken = false })
        (record { done = ended s; line = line s; echo = []; woken = false })
  same-Agrees = record { valid = v; done = refl; line = refl; echo = refl; woken = refl }

  no_line : (e : ℕ) → e ≡ s.w → sub32 e s.w ≡ 0
  no_line e h = omega (arith, v.w_fits)

  kill-Agrees : Agrees (kill_line input_buf_size s) (record {
    done = ended s;
    line = [];
    echo = replicate (length (line s)) backspace;
    woken = false;
  })
  kill-Agrees =
      let none_left : sub32 s.w s.w ≡ 0 = no_line s.w refl in
      rw
        (kill_line_lem input_buf_size k s v.w_fits v.e_fits refl (omega (arith, v.bounded))
          v.one_line)
        (record {
          valid = record {
            r_fits = v.r_fits;
            w_fits = v.w_fits;
            e_fits = v.w_fits;
            bounded = omega (arith, v.bounded);
            one_line = rw none_left tt;
          };
          done = refl;
          line = rw none_left refl;
          echo = ap (λ n. replicate n backspace) (sym length-line);
          woken = refl;
        })

  -- The line has a byte to erase.
  erase_one :
      (j : ℕ)
      → k ≡ suc j
      → Agrees
          (record { state = record s { e = sub32 s.e 1 }; echo = backspace ∷ []; woken = false })
          (record {
            done = ended s;
            line = drop_last (line s);
            echo = backspace ∷ [];
            woken = false;
          })
  erase_one j size =
      let less = size_less s j v.w_fits v.e_fits size in
      let snoc : line s ≡ window cell s.buf s.w j ++ s.buf (cell (sub32 s.e 1)) ∷ [] =
        rw size (line_snoc s j v.w_fits v.e_fits size) in
      record {
        valid = record {
          r_fits = v.r_fits;
          w_fits = v.w_fits;
          e_fits = omega arith;
          bounded = omega (arith, v.bounded, less, size);
          one_line =
              rw less
                (All-snoc (window cell s.buf s.w j) _
                  (subst (All (λ c. c ≢ newline)) snoc v.one_line)).0;
        };
        done = refl;
        line = rw (less, snoc) (sym (drop_last-snoc (window cell s.buf s.w j) _));
        echo = refl;
        woken = refl;
      }

  erase-Agrees : Agrees (erase s) (record {
    done = ended s;
    line = drop_last (line s);
    echo = if length (line s) == 0 then [] else backspace ∷ [];
    woken = false;
  })
  erase-Agrees = by_size k refl
    where
      by_size :
          (j : ℕ)
          → k ≡ j
          → Agrees (erase s) (record {
            done = ended s;
            line = drop_last (line s);
            echo = if length (line s) == 0 then [] else backspace ∷ [];
            woken = false;
          })
      by_size zero size =
          let same : (s.e == s.w) ≡ true = ground (arith, v.w_fits, v.e_fits) in
          let empty : line s ≡ [] = rw size refl in
          rw (same, empty)
            (record { valid = v; done = refl; line = empty; echo = refl; woken = refl })
      by_size (suc j) size =
          let differ : (s.e == s.w) ≡ false = ground (arith, v.w_fits, v.e_fits) in
          let some_line : (length (line s) == 0) ≡ false = ground (arith, length-line) in
          rw (differ, some_line) (erase_one j size)

  store-Agrees :
      (c : ℕ) → sub32 s.e s.r < input_buf_size → Agrees (store c s) (put c (ended s) (line s))
  store-Agrees c room =
      let all_long : sub32 (next32 s.e) s.r ≡ length (ended s) + length (line s) + 1 =
        omega (arith, v.r_fits, v.e_fits, v.w_fits, in_all s v, length-line, length-ended, room) in
      let none_left : sub32 (next32 s.e) (next32 s.e) ≡ 0 = omega arith in
      let longer : sub32 (next32 s.e) s.w ≡ k + 1 =
        omega (arith, v.w_fits, v.e_fits, v.bounded, in_all s v, room) in
      rw all_long
        (elim (Bool-cases
          (ends_line c || length (ended s) + length (line s) + 1 == input_buf_size)) [
            | inl e ↦ rw e (record {
              valid = record {
                r_fits = v.r_fits;
                w_fits = omega arith;
                e_fits = omega arith;
                bounded =
                    omega (arith, all_long, none_left, in_all s v, room, length-line, length-ended);
                one_line = rw none_left tt;
              };
              done = stored-all s v c room;
              line = rw none_left refl;
              echo = refl;
              woken = refl;
            })
            | inr e ↦ rw e (record {
              valid = record {
                r_fits = v.r_fits;
                w_fits = v.w_fits;
                e_fits = omega arith;
                bounded = omega (arith, longer, in_all s v, room);
                one_line =
                    subst (All (λ c. c ≢ newline)) (sym (stored-line s v c room)) (
                      All-append (λ c. c ≢ newline) (line s) (c ∷ []) v.one_line
                        (ground arith, tt));
              };
              done = stored-ended s v c room;
              line = stored-line s v c room;
              echo = refl;
              woken = refl;
            })
          ])

-- On a valid console, each key does what it does to a terminal that keeps the ended lines and the line
-- being typed: control-p nothing, control-u drops the line, backspace and delete drop its last byte,
-- and any other byte but 0 is added while there is room for it, ending the line if it is a newline,
-- control-d, or the byte that fills the buffer. The echo and the wakeup are those of the terminal, and
-- the console stays valid.
pub consoleintr-Agrees :
    (c : ℕ) (s : Cons) → IsValid s → Agrees (consoleintr c s) (typed c (ended s) (line s))
unfolding consoleintr
consoleintr-Agrees c s v = elim (Bool-cases (c == control_p)) [
  | inl e ↦ rw e (same-Agrees s v)
  | inr e ↦ rw e (elim (Bool-cases (c == control_u)) [
    | inl f ↦ rw f (kill-Agrees s v)
    | inr f ↦ rw f (elim (Bool-cases (c == control_h || c == delete_key)) [
      | inl g ↦ rw g (erase-Agrees s v)
      | inr g ↦ rw g (
          let size : sub32 s.e s.r ≡ length (ended s) + length (line s) =
            omega (arith, in_all s v, length-line s v, length-ended s v) in
          elim (Bool-cases
            (not (c == 0) && ltb (length (ended s) + length (line s)) input_buf_size)) [
              | inl h ↦ rw (size, h) (store-Agrees s v (line_byte c) (ground (arith, size)))
              | inr h ↦ rw (size, h) (same-Agrees s v)
            ])
    ])
  ])
]
