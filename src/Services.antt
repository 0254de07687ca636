-- ===== src/Services.antt =====
-- What the packages engine/clickhouse and engine/redpanda use of the host: its files, the network
-- and `path/filepath`, over a state `S`. A URL and a file are lists of bytes.
pub mod ClickHouse
pub mod Redpanda
pub mod Tests
use hermi_nas.Supervisor.ExecProcess.{ExecProcess}
use hermi_nas.Prelude.{
  eq_iff, str_eq, sym, ◌∙◌, ap, arith, false, refl, ◌&&◌, ◌==◌, ◌↔◌, All, List, Option, String, [],
  none, some, true, ℕ, ◌∷◌, ◌≡◌, ◌≢◌, Bool,
}
use hermi_nas.Kernel.Errors.{Error, Result, Bytes, err}
use hermi_nas.QueryBroker.Broker.{Response}

pub record Host (S : Type 0) : Type 0 where
  pub join : String → String → String  -- `filepath.Join`
  pub mkdir_all : String → S → Option Error × S
  pub write_file : String → Bytes → S → Option Error × S
  pub open_truncated : String → S → Option Error × S  -- with O_CREATE and O_TRUNC
  pub copy : String → Response → S → Option Error × S  -- `io.Copy` of a body to an open file
  pub stat : String → S → Bool
  pub bad_url : Bytes → Option Error  -- `http.NewRequestWithContext`
  pub get : Bytes → S → Result Response × S

-- `runtime.GOOS` and `runtime.GOARCH`
pub record Platform : Type 0 where
  pub goos : String
  pub goarch : String

-- The names that the packages join to a directory of theirs.
abbrev pub plain_names : List String
plain_names = "config.xml" ∷ "users.xml" ∷ "clickhouse" ∷ "redpanda.yaml" ∷ "redpanda" ∷ []

-- What `NewProcess` hands to the supervisor beside the check of health.
pub record Command : Type 0 where
  pub process : ExecProcess
  pub path : String
  pub args : List String

-- What the code relies on: the contents of the file at a path change by writing to that path alone,
-- and the last part of a joined path is the name that was joined (`filepath.Base`).
pub record Laws {S : Type 0} (H : Host S) : Type 0 where
  pub contents : String → S → Option Bytes
  pub base : String → String
  pub named : (dir : String) → All (λ name. base (H.join dir name) ≡ name) plain_names
  pub made : (dir path : String) (s : S) → contents path (H.mkdir_all dir s).1 ≡ contents path s
  pub written :
      (path : String) (text : Bytes) (s : S)
      → (H.write_file path text s).0 ≡ none
      → contents path (H.write_file path text s).1 ≡ some text
  pub written_else :
      (path other : String) (text : Bytes) (s : S)
      → path ≢ other
      → contents other (H.write_file path text s).1 ≡ contents other s
  pub opened :
      (path : String) (s : S)
      → (H.open_truncated path s).0 ≡ none
      → contents path (H.open_truncated path s).1 ≡ some []
  pub copied :
      (path : String) (r : Response) (s : S)
      → contents path s ≡ some []
      → (H.copy path r s).0 ≡ none
      → (r.read_error ≡ none) × (contents path (H.copy path r s).1 ≡ some r.body)
  pub got : (url : Bytes) (path : String) (s : S) → contents path (H.get url s).1 ≡ contents path s
  pub there :
      (path : String) (s : S) {text : Bytes} → contents path s ≡ some text → H.stat path s ≡ true

-- `fmt.Errorf("…: %w", err)` where there is an error, and else the next step.
unfoldable pub checked {ℓ} :
    {S : Type ℓ} → (Error → Error) → Option Error × S → (S → Option Error × S) → Option Error × S
checked wrap (some e, s) next = (some (wrap e), s)
checked wrap (none, s) next = next s

unfoldable pub bytes_eq : Bytes → Bytes → Bool
bytes_eq [] [] = true
bytes_eq [] (d ∷ ds) = false
bytes_eq (c ∷ cs) [] = false
bytes_eq (c ∷ cs) (d ∷ ds) = c == d && bytes_eq cs ds

pub bytes_eq_iff : (a b : Bytes) → (bytes_eq a b ≡ true) ↔ (a ≡ b)
unfolding bytes_eq
bytes_eq_iff [] [] = (λ h. refl, λ h. refl)
bytes_eq_iff [] (d ∷ ds) = (λ h. cc, λ h. cc)
bytes_eq_iff (c ∷ cs) [] = (λ h. cc, λ h. cc)
bytes_eq_iff (c ∷ cs) (d ∷ ds) = grind (arith, bytes_eq_iff cs ds)

-- A checked step that led to no error gave none itself, and the next step followed.
pub checked-done {ℓ κ} :
    {S : Type ℓ} (P : S → Type κ) (wrap : Error → Error) (o : Option Error × S)
    (next : S → Option Error × S)
    → (checked wrap o next).0 ≡ none
    → (o.0 ≡ none → (next o.1).0 ≡ none → P (next o.1).1)
    → P (checked wrap o next).1
unfolding checked
checked-done P wrap (some e, s) next h step = cc
checked-done P wrap (none, s) next h step = step refl h

-- What a step and the next keep, the checked step keeps, whether the next follows or not.
pub checked-kept {ℓ κ} :
    {S : Type ℓ} (P : S → Type κ) (wrap : Error → Error) (o : Option Error × S)
    (next : S → Option Error × S)
    → P o.1
    → ((s : S) → P s → P (next s).1)
    → P (checked wrap o next).1
unfolding checked
checked-kept P wrap (some e, s) next h step = h
checked-kept P wrap (none, s) next h step = step s h

-- Different names make different paths.
pub joined_differ :
    {S : Type 0} (H : Host S) (base : String → String) (dir other_dir : String) {a b : String}
    → base (H.join dir a) ≡ a
    → base (H.join other_dir b) ≡ b
    → str_eq a b ≡ false
    → H.join dir a ≢ H.join other_dir b
joined_differ H base dir other_dir {a} {b} first second differ e =
    let same : a ≡ b = sym first ∙ ap base e ∙ second in
    let found : str_eq a b ≡ true = (eq_iff a b).1 same in
    absurd (let both = sym differ ∙ found in cc)
