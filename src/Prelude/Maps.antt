-- ===== src/Prelude/Maps.antt =====
-- Go maps whose missing keys read as a default, as functions.
use Prim.Native.Nat.{ℕ}
use Prim.Native.String.{String}
use text.Mathlib.Text.{◌==◌ as str_eq}
use hermi_nas.Prelude.Tests.{◌==◌, if◌then◌else◌}

module _ {ℓ} {V : Type ℓ} where
  -- `m[k] = v`, at a text and at a number.
  abbrev pub put : String → V → (String → V) → String → V
  put k v m j = if str_eq k j then v else m j

  abbrev pub write : ℕ → V → (ℕ → V) → ℕ → V
  write k v m j = if k == j then v else m j
