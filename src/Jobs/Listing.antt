-- ===== src/Jobs/Listing.antt =====
-- The order of `List` in internal/domain/job/job.go.
use alresia_voltpanel.Prelude.{
  ℕ, ◌≤◌, ◌≡◌, ◌∙◌, refl, Bool, List, [], ◌∷◌, ◌++◌, arith, on_if, leb, tally, tally-append,
}
use alresia_voltpanel.Prelude.Table.{insert_by, order_by}
use alresia_voltpanel.Jobs.{JobRow, backwards, newest_first}

-- Each row started at `t` or later.
abbrev AllFrom : ℕ → List JobRow → Type 0
AllFrom t [] = Unit {0}
AllFrom t (r ∷ rows) = (t ≤ r.started_at) × AllFrom t rows

-- Each row started no later than `t`.
abbrev pub AllUntil : ℕ → List JobRow → Type 0
AllUntil t [] = Unit {0}
AllUntil t (r ∷ rows) = (r.started_at ≤ t) × AllUntil t rows

abbrev Ascending : List JobRow → Type 0
Ascending [] = Unit {0}
Ascending (r ∷ rows) = AllFrom r.started_at rows × Ascending rows

-- Each row started no later than the rows in front of it.
abbrev pub Descending : List JobRow → Type 0
Descending [] = Unit {0}
Descending (r ∷ rows) = AllUntil r.started_at rows × Descending rows

abbrev start : JobRow → ℕ
start r = r.started_at

AllFrom-mono : (t u : ℕ) (rows : List JobRow) → t ≤ u → AllFrom u rows → AllFrom t rows
AllFrom-mono t u [] h a = tt
AllFrom-mono t u (r ∷ rows) h a = (omega (arith, h, a.0), AllFrom-mono t u rows h a.1)

AllFrom-insert_by :
    (t : ℕ) (a : JobRow) (rows : List JobRow)
    → t ≤ a.started_at
    → AllFrom t rows
    → AllFrom t (insert_by start a rows)
unfolding insert_by
AllFrom-insert_by t a [] h f = (h, tt)
AllFrom-insert_by t a (b ∷ rows) h f =
    on_if (AllFrom t) (leb a.started_at b.started_at) _ _ (λ _. (h, f))
      λ _. (f.0, AllFrom-insert_by t a rows h f.1)

insert_by-Ascending :
    (a : JobRow) (rows : List JobRow) → Ascending rows → Ascending (insert_by start a rows)
unfolding insert_by
insert_by-Ascending a [] s = (tt, tt)
insert_by-Ascending a (b ∷ rows) s =
    on_if Ascending (leb a.started_at b.started_at) _ _
      (λ e.
        let h : a.started_at ≤ b.started_at = ground (arith, e) in
        ((h, AllFrom-mono a.started_at b.started_at rows h s.0), s))
      λ e. (
        AllFrom-insert_by b.started_at a rows (ground (arith, e)) s.0,
        insert_by-Ascending a rows s.1,
      )

order_by-Ascending : (rows : List JobRow) → Ascending (order_by start rows)
unfolding order_by
order_by-Ascending [] = tt
order_by-Ascending (r ∷ rows) =
    insert_by-Ascending r (order_by start rows) (order_by-Ascending rows)

AllFrom-append : (t : ℕ) (xs ys : List JobRow) → AllFrom t xs → AllFrom t ys → AllFrom t (xs ++ ys)
AllFrom-append t [] ys f g = g
AllFrom-append t (x ∷ xs) ys f g = (f.0, AllFrom-append t xs ys f.1 g)

AllFrom-backwards : (t : ℕ) (xs : List JobRow) → AllFrom t xs → AllFrom t (backwards xs)
unfolding backwards
AllFrom-backwards t [] f = tt
AllFrom-backwards t (x ∷ xs) f =
    AllFrom-append t (backwards xs) (x ∷ []) (AllFrom-backwards t xs f.1) (f.0, tt)

AllUntil-snoc :
    (t : ℕ) (xs : List JobRow) (r : JobRow)
    → AllUntil t xs
    → r.started_at ≤ t
    → AllUntil t (xs ++ r ∷ [])
AllUntil-snoc t [] r f h = (h, tt)
AllUntil-snoc t (x ∷ xs) r f h = (f.0, AllUntil-snoc t xs r f.1 h)

Descending-snoc :
    (xs : List JobRow) (r : JobRow)
    → Descending xs
    → AllFrom r.started_at xs
    → Descending (xs ++ r ∷ [])
Descending-snoc [] r d f = (tt, tt)
Descending-snoc (x ∷ xs) r d f =
    (AllUntil-snoc x.started_at xs r d.0 f.0, Descending-snoc xs r d.1 f.1)

backwards-Descending : (xs : List JobRow) → Ascending xs → Descending (backwards xs)
unfolding backwards
backwards-Descending [] s = tt
backwards-Descending (x ∷ xs) s =
    Descending-snoc (backwards xs) x (backwards-Descending xs s.1)
      (AllFrom-backwards x.started_at xs s.0)

module _ (p : JobRow → Bool) where
  tally-insert_by :
      (a : JobRow) (rows : List JobRow) → tally p (insert_by start a rows) ≡ tally p (a ∷ rows)
  unfolding insert_by
  tally-insert_by a [] = refl
  tally-insert_by a (b ∷ rows) =
      on_if (λ (xs : List JobRow). tally p xs ≡ tally p (a ∷ b ∷ rows))
        (leb a.started_at b.started_at) _ _ (λ _. refl) λ _. omega (arith, tally-insert_by a rows)

  tally-order_by : (rows : List JobRow) → tally p (order_by start rows) ≡ tally p rows
  unfolding order_by
  tally-order_by [] = refl
  tally-order_by (r ∷ rows) =
      omega (arith, tally-insert_by r (order_by start rows), tally-order_by rows)

  tally-backwards : (rows : List JobRow) → tally p (backwards rows) ≡ tally p rows
  unfolding backwards
  tally-backwards [] = refl
  tally-backwards (r ∷ rows) =
      omega (arith, tally-append p (backwards rows) (r ∷ []), tally-backwards rows)

-- The rows of the table in the order of `List` are most recently started first, and each stands
-- there as often as in the table.
newest_first-Descending :
    (rows : List JobRow)
    → Descending (newest_first rows)
      × ((p : JobRow → Bool) → tally p (newest_first rows) ≡ tally p rows)
unfolding newest_first
newest_first-Descending rows = (
  backwards-Descending (order_by start rows) (order_by-Ascending rows),
  λ p. tally-backwards p (order_by start rows) ∙ tally-order_by p rows,
)
