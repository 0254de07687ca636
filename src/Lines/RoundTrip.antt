-- ===== src/Lines/RoundTrip.antt =====
-- Rows come back from a body that ClickHouse's JSONEachRow writes, one row to a line
-- (engine/querybroker/broker.go).
use hermi_nas.Prelude.{
  All, Bool-cases, List, [], arith, false, inl, inr, keep_if, not, refl, ℕ, ◌++◌, ◌==◌, ◌∷◌, ◌≡◌,
  ◌≢◌,
}
use hermi_nas.Kernel.Errors.{Bytes}
use hermi_nas.Lines.{newline, is_empty, onto_first, split, split_lines}

-- A row is not empty and has no newline in it.
pub record IsRow (row : Bytes) : Type 0 where
  pub filled : is_empty row ≡ false
  pub one_line : All (λ c. c ≢ newline) row

-- Each row, and a newline behind it.
pub unlines : List Bytes → Bytes
unlines [] = []
unlines (row ∷ rows) = row ++ newline ∷ unlines rows

split-line :
    (row rest : Bytes)
    → All (λ c. c ≢ newline) row
    → split (row ++ newline ∷ rest) ≡ row ∷ split rest
unfolding split
split-line [] rest h = refl
split-line (c ∷ row) rest h = rw (split-line row rest h.1) (ground (arith, h.0))

-- The rows of a body that was written row by row, each row not empty and with no newline in it, are
-- the rows, in their order.
split_lines-unlines : (rows : List Bytes) → All IsRow rows → split_lines (unlines rows) ≡ rows
unfolding split_lines unlines
split_lines-unlines [] h = refl
split_lines-unlines (row ∷ rows) h =
    rw (split-line row (unlines rows) h.0.one_line)
      (ground (arith, h.0.filled, split_lines-unlines rows h.1))

abbrev OneLine : Bytes → Type 0
OneLine = All (λ c. c ≢ newline)

onto_first-OneLine :
    (c : ℕ) (parts : List Bytes)
    → c ≢ newline
    → All OneLine parts
    → All OneLine (onto_first c parts)
onto_first-OneLine c [] n h = ((n, tt), tt)
onto_first-OneLine c (part ∷ parts) n h = ((n, h.0), h.1)

split-OneLine : (body : Bytes) → All OneLine (split body)
unfolding split
split-OneLine [] = (tt, tt)
split-OneLine (c ∷ cs) = elim (Bool-cases (c == newline)) [
  | inl e ↦ rw e (tt, split-OneLine cs)
  | inr e ↦ rw e (onto_first-OneLine c (split cs) (ground arith) (split-OneLine cs))
]

filled_rows :
    (parts : List Bytes)
    → All OneLine parts
    → All IsRow (keep_if (λ line. not (is_empty line)) parts)
filled_rows [] h = tt
filled_rows (part ∷ parts) h = elim (Bool-cases (is_empty part)) [
  | inl e ↦ rw e (filled_rows parts h.1)
  | inr e ↦ rw e (record { filled = e; one_line = h.0 }, filled_rows parts h.1)
]

-- Of any body the rows are not empty and have no newline in them.
pub split_lines-IsRow : (body : Bytes) → All IsRow (split_lines body)
unfolding split_lines
split_lines-IsRow body = filled_rows (split body) (split-OneLine body)
