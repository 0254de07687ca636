-- ===== src/SchemaMgr/Ddl/Quoting.antt =====
-- Quoted identifiers read back, but for backslashes in them (engine/schemamgr/ddl.go).
use hermi_nas.Prelude.{
  All, Bool-cases, Option, String, [], ap, arith, codes, false, if◌then◌else◌, inl, inr, none, refl,
  some, ℕ, ◌++◌, ◌==◌, ◌∙◌, ◌∷◌, ◌≡◌, ◌≢◌,
}
use mathlib.Core.List.{append_assoc}
use hermi_nas.SchemaMgr.Ddl.{Text, backtick, escape, quote_ident}

abbrev pub backslash : ℕ
backslash = 0x5c

abbrev onto : ℕ → Option (Text × Text) → Option (Text × Text)
onto c none = none
onto c (some (name, rest)) = some (c ∷ name, rest)

-- How ClickHouse takes a quoted identifier apart, as its documentation has it: a backslash and the
-- character behind it stand for what `unescape` gives; two backticks stand for one, and one alone ends
-- the identifier. The result is the identifier and the text behind it.
pub read_body : (ℕ → ℕ) → Text → Option (Text × Text)
read_body unescape [] = none
read_body unescape (c ∷ []) = if c == backtick then some ([], []) else none
read_body unescape (c ∷ d ∷ cs) =
    let behind = read_body unescape cs in
    let plain = onto c (read_body unescape (d ∷ cs)) in
    if c == backslash
    then onto (unescape d) behind
    else if c == backtick
    then (if d == backtick then onto backtick behind else some ([], d ∷ cs))
    else plain

pub read_ident : (ℕ → ℕ) → Text → Option (Text × Text)
unfolding read_body
read_ident unescape [] = none
read_ident unescape (c ∷ cs) = if c == backtick then read_body unescape cs else none

-- No backtick at the front.
abbrev pub NoBacktick : Text → Type 0
NoBacktick [] = Unit
NoBacktick (c ∷ cs) = c ≢ backtick

abbrev pub NoBackslash : Text → Type 0
NoBackslash = All (λ c. c ≢ backslash)

module _ (unescape : ℕ → ℕ) where
  read_body_plain :
      (c : ℕ) (cs : Text)
      → (c == backtick) ≡ false
      → (c == backslash) ≡ false
      → read_body unescape (c ∷ cs) ≡ onto c (read_body unescape cs)
  unfolding read_body
  read_body_plain c [] h k = rw h
  read_body_plain c (d ∷ cs) h k = rw (k, h)

  read_body-escape :
      (name rest : Text)
      → NoBackslash name
      → NoBacktick rest
      → read_body unescape (escape name ++ backtick ∷ rest) ≡ some (name, rest)
  unfolding read_body escape
  read_body-escape [] [] n h = refl
  read_body-escape [] (c ∷ rest) n h = ground arith
  read_body-escape (c ∷ name) rest n h = elim (Bool-cases (c == backtick)) [
    | inl e ↦
        let same : c ≡ backtick = ground arith in rw (e, read_body-escape name rest n.1 h, same)
    | inr e ↦
        let plain : (c == backslash) ≡ false = ground (arith, n.0) in
        rw e (
          read_body_plain c (escape name ++ backtick ∷ rest) e plain
          ∙ ap (onto c) (read_body-escape name rest n.1 h))
  ]

  -- Whatever characters but backslashes a name has, backticks and keywords included, what
  -- `quoteIdent` writes is one identifier that reads back as the name, with the text behind it
  -- untouched, provided that this text does not begin with a backtick. The reader may take a backslash
  -- and the character behind it for any character.
  pub read-quote_ident :
      (name : String) (rest : Text)
      → NoBackslash (codes name)
      → NoBacktick rest
      → read_ident unescape (quote_ident name ++ rest) ≡ some (codes name, rest)
  unfolding read_ident quote_ident
  read-quote_ident name rest n h = rw append_assoc (read_body-escape (codes name) rest n h)
