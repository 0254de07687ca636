-- ===== src/Lines.antt =====
-- What the program uses of Go's `strings` and `bufio.Scanner` on bodies of bytes:
-- engine/querybroker/broker.go and engine/api/routes.go read their lines by these.
pub mod RoundTrip
use hermi_nas.Prelude.{
  Bool, List, [], false, if◌then◌else◌, keep_if, leb, length, not, true, ℕ, ◌&&◌, ◌==◌, ◌||◌, ◌∷◌,
}
use hermi_nas.Kernel.Errors.{Bytes}

abbrev pub newline : ℕ
newline = 10

abbrev pub is_empty : Bytes → Bool
is_empty [] = true
is_empty (c ∷ cs) = false

-- A byte in front of the first part.
abbrev pub onto_first : ℕ → List Bytes → List Bytes
onto_first c [] = (c ∷ []) ∷ []
onto_first c (part ∷ parts) = (c ∷ part) ∷ parts

-- `strings.Split(body, "\n")`
unfoldable pub split : Bytes → List Bytes
split [] = [] ∷ []
split (c ∷ cs) = let parts = split cs in if c == newline then [] ∷ parts else onto_first c parts

-- `splitLines` of broker.go.
unfoldable pub split_lines : Bytes → List Bytes
unfolding split
split_lines body = keep_if (λ line. not (is_empty line)) (split body)

-- The white space of ASCII that `strings.TrimSpace` and `bytes.TrimSpace` cut; they cut the wider
-- white space of Unicode too, which is not modelled.
abbrev pub is_space : ℕ → Bool
is_space c = c == b' ' || leb 9 c && leb c 13

unfoldable pub trim_left : Bytes → Bytes
trim_left [] = []
trim_left (c ∷ cs) = let rest = trim_left cs in if is_space c then rest else c ∷ cs

unfoldable pub trim_right : Bytes → Bytes
trim_right [] = []
trim_right (c ∷ cs) =
    let rest = trim_right cs in if is_space c && is_empty rest then [] else c ∷ rest

unfoldable pub trim_space : Bytes → Bytes
unfolding trim_left trim_right
trim_space body = trim_right (trim_left body)

-- `strings.HasPrefix` and `strings.Contains`
unfoldable pub has_prefix : Bytes → Bytes → Bool
has_prefix cs [] = true
has_prefix [] (p ∷ ps) = false
has_prefix (c ∷ cs) (p ∷ ps) = c == p && has_prefix cs ps

unfoldable pub contains_bytes : Bytes → Bytes → Bool
unfolding has_prefix
contains_bytes [] pat = has_prefix [] pat
contains_bytes (c ∷ cs) pat = has_prefix (c ∷ cs) pat || contains_bytes cs pat

-- `bufio.ScanLines` drops one carriage return at the end of a line.
unfoldable pub drop_cr : Bytes → Bytes
drop_cr [] = []
drop_cr (c ∷ []) = if c == 13 then [] else c ∷ []
drop_cr (c ∷ d ∷ cs) = c ∷ drop_cr (d ∷ cs)

-- The tokens of a `bufio.Scanner` whose buffer holds at most `max` bytes, and whether it stopped
-- at a line that does not fit together with its newline (`bufio.ErrTooLong`).
unfoldable pub scan_parts : ℕ → List Bytes → List Bytes × Bool
unfolding drop_cr
scan_parts max [] = ([], false)
scan_parts max (part ∷ []) =
    if is_empty part
    then ([], false)
    else if leb max (length part)
    then ([], true)
    else (drop_cr part ∷ [], false)
scan_parts max (part ∷ next ∷ parts) =
    let (lines, too_long) = scan_parts max (next ∷ parts) in
    if leb max (length part) then ([], true) else (drop_cr part ∷ lines, too_long)

unfoldable pub scan : ℕ → Bytes → List Bytes × Bool
unfolding split scan_parts
scan max body = scan_parts max (split body)
