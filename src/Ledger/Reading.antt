-- ===== src/Ledger/Reading.antt =====
-- Reading a ledger file after a line was written to it (run_ledger.py, `records`).
use crt_master.Base.{
  >>=-eq-ok, Bool, List, [], arith, err, false, if◌then◌else◌, keep_if, not, ok, ok-injective, refl,
  subst, torn_append, ℕ, ◌++◌, ◌+◌, ◌>>=◌, ◌∷◌, ◌≡◌,
}
use crt_master.Json.{obj}
use crt_master.Runtime.{Dict, JsonLaws, Runtime}
use crt_master.Ledger.{LedgerFile, is_empty, raw_lines, read_row, read_rows, records}
use crt_master.Ledger.Append.{write_line}

keep_if-append :
    {A : Type 0} (p : A → Bool) (xs ys : List A)
    → keep_if p (xs ++ ys) ≡ keep_if p xs ++ keep_if p ys
keep_if-append p [] ys = refl
keep_if-append p (x ∷ xs) ys = ground (arith, keep_if-append p xs ys)

module _ (rt : Runtime) (laws : JsonLaws rt) where
  raw_lines-ok :
      (f : LedgerFile rt)
      → f.torn ≡ false
      → raw_lines rt f ≡ ok (keep_if (λ l. not (rt.is_blank l)) f.lines)
  unfolding raw_lines
  raw_lines-ok f whole = by_lines f.lines
    where
      by_lines :
          (ls : List rt.Line)
          → (if is_empty ls
              then ok []
              else if f.torn
              then err torn_append
              else ok (keep_if (λ l. not (rt.is_blank l)) ls))
            ≡ ok (keep_if (λ l. not (rt.is_blank l)) ls)
      by_lines [] = refl
      by_lines (l ∷ ls) = rw whole

  read_row-dump : (n : ℕ) (row : Dict rt) → read_row rt n (rt.dump (obj row)) ≡ ok row
  unfolding read_row
  read_row-dump n row = rw (laws.load-dump row, read_row)

  read_rows-append :
      (n : ℕ) (ls : List rt.Line) (row : Dict rt) {rows : List (Dict rt)}
      → read_rows rt n ls ≡ ok rows
      → read_rows rt n (ls ++ rt.dump (obj row) ∷ []) ≡ ok (rows ++ row ∷ [])
  unfolding read_rows
  read_rows-append n [] row {rows} h = rw (read_row-dump n row, ← ok-injective h)
  read_rows-append n (l ∷ ls) row h =
      let (first, read, h₁) = >>=-eq-ok (read_row rt n l) _ h in
      let (rest, others, same) = >>=-eq-ok (read_rows rt (n + 1) ls) _ h₁ in
      subst
        (λ (rs : List (Dict rt)).
          read_rows rt n ((l ∷ ls) ++ rt.dump (obj row) ∷ []) ≡ ok (rs ++ row ∷ []))
        (ok-injective same) (rw (read, read_rows-append (n + 1) ls row others))

  -- A file that was whole reads back with the new record at its end.
  pub records-write_line :
      (f : LedgerFile rt) (row : Dict rt) {rows : List (Dict rt)}
      → f.torn ≡ false
      → records rt f ≡ ok rows
      → records rt (write_line rt f row) ≡ ok (rows ++ row ∷ [])
  unfolding records
  records-write_line f row {rows} whole h =
      let blank = λ (l : rt.Line). not (rt.is_blank l) in
      let old : read_rows rt 1 (keep_if blank f.lines) ≡ ok rows =
        subst (λ r. (r >>= λ ls. read_rows rt 1 ls) ≡ ok rows) (raw_lines-ok f whole) h in
      rw (
        raw_lines-ok (write_line rt f row) whole,
        keep_if-append blank f.lines (rt.dump (obj row) ∷ []),
        laws.dump_not_blank row,
        read_rows-append 1 (keep_if blank f.lines) row old,
      )

  -- A file that reads and is not empty has no torn line.
  pub whole_of_records :
      (f : LedgerFile rt) (l : rt.Line) (ls : List rt.Line) {rows : List (Dict rt)}
      → f.lines ≡ l ∷ ls
      → records rt f ≡ ok rows
      → f.torn ≡ false
  unfolding records raw_lines
  whole_of_records f l ls at h = ground arith
