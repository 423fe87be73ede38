-- ===== src/Kernel/Proc/Mlfq/Pick.antt =====
-- Which process the MLFQ scheduler chooses.
use osn_mp.Common.{
  ℕ, zero, suc, ◌+◌, ◌-◌, ◌%◌, ◌≤◌, ◌<◌, Bool, true, false, Option, none, some, ◌≡◌, ◌≢◌, ◌⊎◌, inl,
  inr, refl, arith, ◌==◌, Bool-cases, ap, subst, dec_lt, Option-cases, sym, ◌∙◌,
}
use osn_mp.Common.Arrays.{update}
use osn_mp.Kernel.Proc.{Table, nproc, is_runnable}
use osn_mp.Kernel.Proc.Mlfq.{nmlfq, Scheduler, is_candidate, scan, search_from, remember, pick}

-- What the inner loop has found: the first round whose process is a candidate.
pub record Scanned (i n start q : ℕ) (t : Table) (idx : ℕ) : Type 0 where
  pub round : ℕ
  pub from : i ≤ round
  pub before : round < i + n
  pub is_there : idx ≡ (start + round) % nproc
  pub fits : is_candidate q (t idx) ≡ true
  pub first : (l : ℕ) → i ≤ l → l < round → is_candidate q (t ((start + l) % nproc)) ≡ false

later :
    {i n start q : ℕ} {t : Table} {idx : ℕ}
    → is_candidate q (t ((start + i) % nproc)) ≡ false
    → Scanned (i + 1) n start q t idx
    → Scanned i (suc n) start q t idx
later {i} h v = record {
  round = v.round;
  from = omega (arith, v.from);
  before = omega (arith, v.before);
  is_there = v.is_there;
  fits = v.fits;
  first = λ l a b. elim (Bool-cases (l == i)) [
    | inl e ↦ ground arith
    | inr e ↦ v.first l (ground arith) b
  ];
}

pub scan-Scanned :
    (n i start q : ℕ) (t : Table) (idx : ℕ)
    → scan n i start q t ≡ some idx
    → Scanned i n start q t idx
unfolding scan
scan-Scanned zero i start q t idx h = cc
scan-Scanned (suc n) i start q t idx h =
    elim (Bool-cases (is_candidate q (t ((start + i) % nproc)))) [
      | inl e ↦ record {
        round = i;
        from = omega arith;
        before = omega arith;
        is_there = ground arith;
        fits = ground arith;
        first = λ l a b. absurd (omega arith);
      }
      | inr e ↦ later e (scan-Scanned n (i + 1) start q t idx (rw e at h))
    ]

pub scan-none :
    (n i start q : ℕ) (t : Table) (l : ℕ)
    → scan n i start q t ≡ none
    → i ≤ l
    → l < i + n
    → is_candidate q (t ((start + l) % nproc)) ≡ false
unfolding scan
scan-none zero i start q t l h a b = absurd (omega arith)
scan-none (suc n) i start q t l h a b = elim (Bool-cases (l == i)) [
  | inl e ↦ ground arith
  | inr e ↦ ground (arith, scan-none n (i + 1) start q t l)
]

-- The rounds go through the whole table: this one comes to `j`.
abbrev pub round_of : ℕ → ℕ → ℕ
round_of start j = 1 + (j + nproc - (start + 1) % nproc) % nproc

pub round_of_lem : (start j : ℕ) → j < nproc → (start + round_of start j) % nproc ≡ j
round_of_lem start j h = omega arith

pub scan-none_all :
    (start q : ℕ) (t : Table) (j : ℕ)
    → scan nproc 1 start q t ≡ none
    → j < nproc
    → is_candidate q (t j) ≡ false
scan-none_all start q t j h k =
    subst (λ l. is_candidate q (t l) ≡ false) (round_of_lem start j k)
      (scan-none nproc 1 start q t (round_of start j) h (omega arith) (omega arith))

-- What the outer loop has found: a queue whose scan succeeds, those before it having none.
pub record Searched (q n : ℕ) (s : Scheduler) (idx level : ℕ) : Type 0 where
  pub low : q ≤ level
  pub high : level < q + n
  pub hit : scan nproc 1 (s.last level) level s.table ≡ some idx
  pub missed : (l : ℕ) → q ≤ l → l < level → scan nproc 1 (s.last l) l s.table ≡ none

deeper :
    {q n : ℕ} {s : Scheduler} {idx level : ℕ}
    → scan nproc 1 (s.last q) q s.table ≡ none
    → Searched (q + 1) n s idx level
    → Searched q (suc n) s idx level
deeper {q} h v = record {
  low = omega (arith, v.low);
  high = omega (arith, v.high);
  hit = v.hit;
  missed = λ l a b. elim (Bool-cases (l == q)) [
    | inl e ↦ let e' : l ≡ q = ground arith in rw e' h
    | inr e ↦ v.missed l (ground arith) b
  ];
}

-- The outer loop, where the scan of its first queue is known.
search_from-hit :
    (n q : ℕ) (s : Scheduler) (idx : ℕ)
    → scan nproc 1 (s.last q) q s.table ≡ some idx
    → search_from (suc n) q s ≡ some (idx, q)
unfolding search_from
search_from-hit n q s idx e = rw (e, search_from)

search_from-miss :
    (n q : ℕ) (s : Scheduler)
    → scan nproc 1 (s.last q) q s.table ≡ none
    → search_from (suc n) q s ≡ search_from n (q + 1) s
unfolding search_from
search_from-miss n q s e = rw (e, search_from)

pub search_from-Searched :
    (n q : ℕ) (s : Scheduler) (idx level : ℕ)
    → search_from n q s ≡ some (idx, level)
    → Searched q n s idx level
search_from-Searched zero q s idx level h = unfold search_from in cc
search_from-Searched (suc n) q s idx level h =
    elim (Option-cases (scan nproc 1 (s.last q) q s.table)) [
      | inl e ↦
          deeper e (search_from-Searched n (q + 1) s idx level (sym (search_from-miss n q s e) ∙ h))
      | inr (j, e) ↦ here (sym (search_from-hit n q s j e) ∙ h) e
    ]
  where
    here :
        {j : ℕ}
        → ◌≡◌ {A = Option (ℕ × ℕ)} (some (j, q)) (some (idx, level))
        → scan nproc 1 (s.last q) q s.table ≡ some j
        → Searched q (suc n) s idx level
    here {j} p e =
        let ej : j ≡ idx = ground arith in
        let eq : q ≡ level = ground arith in
        record {
          low = omega arith;
          high = omega arith;
          hit = subst (λ l. scan nproc 1 (s.last l) l s.table ≡ some idx) eq (rw e (ap some ej));
          missed = λ l a b. absurd (omega arith);
        }

pub search_from-none :
    (n q : ℕ) (s : Scheduler) (l : ℕ)
    → search_from n q s ≡ none
    → q ≤ l
    → l < q + n
    → scan nproc 1 (s.last l) l s.table ≡ none
search_from-none zero q s l h a b = absurd (omega arith)
search_from-none (suc n) q s l h a b = elim (Option-cases (scan nproc 1 (s.last q) q s.table)) [
  | inl e ↦ elim (Bool-cases (l == q)) [
    | inl e' ↦ let e'' : l ≡ q = ground arith in rw e'' e
    | inr n' ↦
        search_from-none n (q + 1) s l (sym (search_from-miss n q s e) ∙ h) (ground arith)
          (omega arith)
  ]
  | inr (j, e) ↦ absurd (none-ne-some (sym h ∙ search_from-hit n q s j e))
]
  where
    none-ne-some : {c : ℕ × ℕ} → none ≢ some c
    none-ne-some e = cc

-- What the scheduler chooses: a runnable process of the table, such that no runnable one is in a
-- higher queue (of a smaller number); its slot becomes the last one of its queue, and nothing else
-- changes.
pub record Picked (s : Scheduler) (idx level : ℕ) (s' : Scheduler) : Type 0 where
  pub in_table : idx < nproc
  pub runs : is_runnable (s.table idx).state ≡ true
  pub in_queue : (s.table idx).queue ≡ level
  pub level_in : level < nmlfq
  pub best : (j : ℕ) → j < nproc → is_runnable (s.table j).state ≡ true → level ≤ (s.table j).queue
  pub result : s' ≡ record s { last = update s.last level idx }

candidate :
    (s : Scheduler) (j : ℕ)
    → is_runnable (s.table j).state ≡ true
    → is_candidate (s.table j).queue (s.table j) ≡ true
candidate s j h = ground arith

pub true-ne-false : {b : Bool} → b ≡ true → b ≢ false
true-ne-false e f = cc

pick-Picked :
    (s : Scheduler) (idx level : ℕ)
    → search_from nmlfq 0 s ≡ some (idx, level)
    → Picked s idx level (record s { last = update s.last level idx })
pick-Picked s idx level h = record {
  in_table = omega (arith, found.is_there);
  runs = ground (arith, found.fits);
  in_queue = ground (arith, found.fits);
  level_in = omega (arith, from.high);
  best = λ j k r. elim (dec_lt (s.table j).queue level) [
    | no n ↦ omega arith
    | yes l ↦ absurd (
        true-ne-false (candidate s j r) (
          scan-none_all (s.last (s.table j).queue) (s.table j).queue s.table j
            (from.missed (s.table j).queue (omega arith) l) k))
  ];
  result = refl;
}
  where
    from : Searched 0 nmlfq s idx level
    from = search_from-Searched nmlfq 0 s idx level h

    found : Scanned 1 nproc (s.last level) level s.table idx
    found = scan-Scanned nproc 1 (s.last level) level s.table idx from.hit

abbrev pub IsIdle : Scheduler → Type 0
IsIdle s = (j : ℕ) → j < nproc → is_runnable (s.table j).state ≡ true → nmlfq ≤ (s.table j).queue

-- Either the scheduler chooses a runnable process that no runnable process precedes by its queue,
-- and makes its slot the last one of that queue; or it chooses none and changes nothing, and then
-- no process of one of the queues is runnable.
pub pick-outcome :
    (s : Scheduler)
    → ((idx level : ℕ) × ((pick s).0 ≡ some (idx, level)) × Picked s idx level (pick s).1)
      ⊎ ((pick s ≡ (none, s)) × IsIdle s)
unfolding pick
pick-outcome s = of_search (search_from nmlfq 0 s) refl
  where
    of_search :
        (o : Option (ℕ × ℕ))
        → search_from nmlfq 0 s ≡ o
        → ((idx level : ℕ) × (o ≡ some (idx, level)) × Picked s idx level (remember o s))
          ⊎ (◌≡◌ {A = Option (ℕ × ℕ) × Scheduler} (o, remember o s) (none, s) × IsIdle s)
    of_search (some (idx, level)) e = inl (idx, level, refl, pick-Picked s idx level e)
    of_search none e = inr (
      refl,
      λ j k r. elim (dec_lt (s.table j).queue nmlfq) [
        | no n ↦ omega arith
        | yes l ↦ absurd (
            true-ne-false (candidate s j r) (
              scan-none_all (s.last (s.table j).queue) (s.table j).queue s.table j
                (search_from-none nmlfq 0 s (s.table j).queue e (omega arith) l) k))
      ],
    )
