-- ===== src/SchemaMgr/Tests/Floats.antt =====
-- Numbers that behave as engine/schemamgr/infer.go expects of `float64`: an integer, and whether a half
-- is added to it.
use hermi_nas.Prelude.{
  Bool, ap, arith, false, true, ==_iff, ℕ, ◌&&◌, ◌==◌, ◌≡◌, refl, not, if◌then◌else◌,
}
use hermi_nas.Prelude.Int.{ℤ, pos_part}
use hermi_nas.SchemaMgr.Infer.{Numbers}
use hermi_nas.SchemaMgr.Infer.Typed.{Laws}

abbrev int_eq : ℤ → ℤ → Bool
int_eq (ℤ.pos m) (ℤ.pos n) = m == n
int_eq (ℤ.negsuc m) (ℤ.negsuc n) = m == n
int_eq _ _ = false

int_eq-same : (m n : ℤ) → int_eq m n ≡ true → m ≡ n
int_eq-same (ℤ.pos m) (ℤ.pos n) h = ap ℤ.pos ((==_iff m n).0 h)
int_eq-same (ℤ.negsuc m) (ℤ.negsuc n) h = ap ℤ.negsuc ((==_iff m n).0 h)
int_eq-same (ℤ.pos m) (ℤ.negsuc n) h = cc
int_eq-same (ℤ.negsuc m) (ℤ.pos n) h = cc

abbrev pub Halves : Type 0
Halves = ℤ × Bool

abbrev pub halves : Numbers Halves
halves = record {
  int64 = λ f. f.0;
  float64 = λ n. (n, false);
  equal = λ f g. int_eq f.0 g.0 && (if f.1 then g.1 else not g.1);
}

pub halves-Laws : Laws halves
halves-Laws = record {
  int64-float64 = λ n e. refl;
  int64-equal = λ f g h. int_eq-same f.0 g.0 (ground (arith, h));
}

-- Natural numbers alone.
abbrev pub whole_numbers : Numbers ℕ
whole_numbers = record { int64 = λ n. ℤ.pos n; float64 = pos_part; equal = λ m n. m == n }
