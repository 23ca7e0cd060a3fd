-- ===== src/Cost/Log.antt =====
-- src/cost_model.c: the decision log, a ring of the last ADAPT_DECISION_LOG_N records, and the rows
-- that a dump writes. Opening, formatting and closing the file are not modelled.
use adaptipc.Base.{
  ℕ, ◌+◌, ◌-◌, ◌%◌, ◌≤◌, ◌<◌, ◌≡◌, refl, sym, ap, ◌∙◌, ◌⊎◌, Bool, true, false, not, ◌||◌, List, [],
  ◌∷◌, ◌++◌, arith, ltb, ◌==◌, eq→==, ne→==, ==→eq, Bool-cases, inl, inr, if◌then◌else◌, inc32,
  word32, length, length-append, drop, get_or, get_or-append_left, get_or-append_last, length-drop,
  get_or-drop, tabulate, tabulate_of,
}
use native.Mathlib.Decide.{dec_lt}
use mathlib.Core.List.{append-nil, append_assoc}

abbrev pub log_n : ℕ
log_n = 512

-- `adapt_declog_t`, over the type of the records.
pub record DecLog {ℓ} (A : Type ℓ) : Type ℓ where
  pub enabled : Bool
  pub count : ℕ
  pub next : ℕ
  pub ring : ℕ → A

module _ {ℓ} {A : Type ℓ} where
  -- `adapt_declog_init`; `zeroed` is the record of all zero bytes.
  unfoldable pub init : A → DecLog A
  init zeroed = record { enabled = false; count = 0; next = 0; ring = λ i. zeroed }

  -- `adapt_declog_record`.
  unfoldable pub log_record : DecLog A → A → DecLog A
  log_record dl d =
      if dl.enabled
      then record dl {
        ring = λ i. if i == dl.next % log_n then d else dl.ring i;
        next = inc32 dl.next;
        count = if ltb dl.count log_n then dl.count + 1 else dl.count;
      }
      else dl

  -- The record that row `k` of a dump of `total` rows shows; the index is an `unsigned`.
  abbrev pub row : DecLog A → ℕ → ℕ → A
  row dl total k = dl.ring ((dl.next + word32 - total + k) % word32 % log_n)

  -- The rows that `adapt_declog_dump` writes, in order.
  unfoldable pub dump : DecLog A → List A
  dump dl = if not dl.enabled || (dl.count == 0) then [] else tabulate (row dl dl.count) 0 dl.count

  unfoldable pub log_all : DecLog A → List A → DecLog A
  log_all dl [] = dl
  log_all dl (d ∷ ds) = log_all (log_record dl d) ds

  -- The log holds the last records of a history.
  pub record Logged (zeroed : A) (dl : DecLog A) (past : List A) : Type ℓ where
    pub on : dl.enabled ≡ true
    pub counted :
        (length past < log_n) × (dl.count ≡ length past)
        ⊎ (log_n ≤ length past) × (dl.count ≡ log_n)
    pub cursor : dl.next ≡ length past % word32
    pub kept :
        (j : ℕ)
        → j < length past
        → length past ≤ j + log_n
        → dl.ring (j % log_n) ≡ get_or past j zeroed

  log_record-Logged :
      (zeroed : A) (dl : DecLog A) (past : List A) (d : A)
      → Logged zeroed dl past
      → Logged zeroed (log_record dl d) (past ++ (d ∷ []))
  unfolding log_record
  log_record-Logged zeroed dl past d h = rw h.on (record {
    on = refl;
    counted = let c = h.counted in ground (arith, length-append past (d ∷ []));
    cursor = let c = h.cursor in omega (arith, length-append past (d ∷ []));
    kept = kept';
  })
    where
      one_more : length (past ++ (d ∷ [])) ≡ length past + 1
      one_more = omega (arith, length-append past (d ∷ []))

      kept' :
          (j : ℕ)
          → j < length (past ++ (d ∷ []))
          → length (past ++ (d ∷ [])) ≤ j + log_n
          → (if j % log_n == dl.next % log_n then d else dl.ring (j % log_n))
            ≡ get_or (past ++ (d ∷ [])) j zeroed
      kept' j l e = elim (dec_lt j (length past)) [
        | yes old ↦
            rw (ne→== (j % log_n) (dl.next % log_n) (let c = h.cursor in omega (arith, one_more))) (
              h.kept j old (omega (arith, one_more))
              ∙ sym (get_or-append_left past (d ∷ []) j zeroed old))
        | no new ↦
            let last : j ≡ length past = omega (arith, one_more) in
            rw (eq→== (j % log_n) (dl.next % log_n) (let c = h.cursor in omega arith)) (
              sym (
                ap (λ k. get_or (past ++ (d ∷ [])) k zeroed) last
                ∙ get_or-append_last past d zeroed))
      ]

  log_all-Logged :
      (zeroed : A) (ds : List A) (dl : DecLog A) (past : List A)
      → Logged zeroed dl past
      → Logged zeroed (log_all dl ds) (past ++ ds)
  unfolding log_all
  log_all-Logged zeroed [] dl past h = rw append-nil h
  log_all-Logged zeroed (d ∷ ds) dl past h = rw (← append_assoc past (d ∷ []) ds) (
      log_all-Logged zeroed ds (log_record dl d) (past ++ (d ∷ []))
        (log_record-Logged zeroed dl past d h))

  drop-nil : (past : List A) → length past ≡ 0 → drop (length past - log_n) past ≡ []
  drop-nil [] e = refl
  drop-nil (x ∷ past) e = absurd (omega arith)

  dump-Logged :
      (zeroed : A) (dl : DecLog A) (past : List A)
      → Logged zeroed dl past
      → dump dl ≡ drop (length past - log_n) past
  unfolding dump
  dump-Logged zeroed dl past h = rw h.on (elim (Bool-cases (dl.count == 0)) [
    | inl none_yet ↦
        rw none_yet
          (sym (drop-nil past (let c = h.counted in omega (arith, ==→eq dl.count 0 none_yet))))
    | inr some_yet ↦
        rw some_yet (
          ap (tabulate (row dl dl.count) 0) shown
          ∙ tabulate_of (row dl dl.count) 0 rest zeroed rows)
  ])
    where
      rest : List A
      rest = drop (length past - log_n) past

      shown : dl.count ≡ length rest
      shown = let c = h.counted in omega (arith, length-drop (length past - log_n) past)

      rows : (j : ℕ) → j < length rest → row dl dl.count (0 + j) ≡ get_or rest j zeroed
      rows j l =
          ap dl.ring (let c = h.counted in let n = h.cursor in omega (arith, shown))
          ∙ h.kept (length past - log_n + j) (omega (arith, length-drop (length past - log_n) past))
              (omega arith)
          ∙ sym (get_or-drop (length past - log_n) j past zeroed)

  -- Whatever was recorded since the log was switched on, a dump shows the last 512 records of it, or
  -- all of them where there are fewer, oldest first.
  pub dump_last :
      (zeroed : A) (ds : List A)
      → dump (log_all (record (init zeroed) { enabled = true }) ds) ≡ drop (length ds - log_n) ds
  unfolding init
  dump_last zeroed ds = dump-Logged zeroed _ ds (
      log_all-Logged zeroed ds _ [] (record {
        on = refl;
        counted = omega arith;
        cursor = refl;
        kept = λ j l e. absurd (omega arith);
      }))
