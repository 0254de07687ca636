-- ===== src/Services/Tests/Memory.antt =====
-- A host in memory that behaves as engine/clickhouse and engine/redpanda expect of the operating
-- system and of the network.
use hermi_nas.Prelude.{
  Bool-cases, Option, String, [], eq_iff, false, if◌then◌else◌, inl, inr, none, put, refl, some,
  str_eq, true, ◌==◌, ◌∙◌, ◌≡◌, ◌≢◌, ap,
}
use hermi_nas.Services.{Host, Laws}
use text.Mathlib.TextPositions.{eq_refl}
use Prim.Native.Char.{code}
use Prim.Native.String.{◌++◌ as append}
use text.Mathlib.TextLemmas.{cons-append, nil-append}
use hermi_nas.Kernel.Errors.{Bytes, ok}
use hermi_nas.QueryBroker.Broker.{Response}

-- The contents of the files.
abbrev pub Files : Type 0
Files = String → Option Bytes

-- The text behind the last slash, if there is one.
after_slash : String → Option String
after_slash String.[] = none
after_slash (String.◌∷◌ c s) =
    let later = after_slash s in
    elim later [ some t ↦ some t | none ↦ if code c == 47 then some s else none ]

base : String → String
unfolding after_slash
base path = elim (after_slash path) [ some t ↦ t | none ↦ path ]

after_slash-append :
    (dir t : String) {name : String}
    → after_slash t ≡ some name
    → after_slash (append dir t) ≡ some name
unfolding after_slash
after_slash-append String.[] t h = ap after_slash (nil-append t) ∙ h
after_slash-append (String.◌∷◌ c dir) t h =
    ap after_slash (cons-append c dir t) ∙ rw (after_slash, after_slash-append dir t h) refl

base-append :
    (dir t : String) {name : String} → after_slash t ≡ some name → base (append dir t) ≡ name
unfolding base
base-append dir t h = rw (base, after_slash-append dir t h) refl

-- A server that answers each URL as `answer` says.
unfoldable pub host : (Bytes → Response) → Host Files
host answer = record {
  join = λ dir name. append dir (append "/" name);
  mkdir_all = λ dir s. (none, s);
  write_file = λ path text s. (none, put path (some text) s);
  open_truncated = λ path s. (none, put path (some []) s);
  copy = λ path r s. (r.read_error, put path (some r.body) s);
  stat = λ path s. elim (s path) [ some text ↦ true | none ↦ false ];
  bad_url = λ url. none;
  get = λ url s. (ok (answer url), s);
}

written_else :
    (path other : String) (text : Bytes) (s : Files)
    → path ≢ other
    → put path (some text) s other ≡ s other
written_else path other text s h = elim (Bool-cases (str_eq path other)) [
  | inl q ↦ absurd (h ((eq_iff path other).0 q))
  | inr q ↦ rw q refl
]

pub host-Laws : (answer : Bytes → Response) → Laws (host answer)
unfolding host after_slash base
host-Laws answer = record {
  contents = λ path s. s path;
  base = base;
  named = λ dir. (
    base-append dir "/config.xml" refl,
    (
      base-append dir "/users.xml" refl,
      (
        base-append dir "/clickhouse" refl,
        (base-append dir "/redpanda.yaml" refl, (base-append dir "/redpanda" refl, tt)),
      ),
    ),
  );
  made = λ dir path s. refl;
  written = λ path text s h. rw (eq_refl path) refl;
  written_else = written_else;
  opened = λ path s h. rw (eq_refl path) refl;
  copied = λ path r s empty h. (h, rw (eq_refl path) refl);
  got = λ url path s. refl;
  there = λ path s h. rw h refl;
}
