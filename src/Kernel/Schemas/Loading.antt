-- ===== src/Kernel/Schemas/Loading.antt =====
-- `LoadWebSocketSchemas` of kernel/schemas/websocket.go.
-- The embedded directory and the compiler of jsonschema are parameters; `K` is the compiler's state.
use hermi_nas.Prelude.{
  Option-cases, sym, ◌∙◌, ap, All, Bool-cases, List, Option, String, [], arith, false,
  if◌then◌else◌, inl, inr, ltb, none, put, refl, some, str_eq, ◌-◌, ◌∷◌, ◌≡◌,
}
use text.Mathlib.TextPositions.{eq_refl}
use hermi_nas.Kernel.Errors.{Result-cases, Error, Result, Bytes, ok, err}
use Prim.Native.String.{◌++◌ as append, len, slice}
use hermi_nas.Kernel.Errors
use hermi_nas.Kernel.Schemas.{Schema, WebSocketSchemas}

pub record Compiler (V K : Type 0) : Type 0 where
  pub read_file : String → Result Bytes
  pub add_resource : String → Bytes → K → Option Error × K
  pub compile : String → K → Result (Schema V) × K

-- What the function ends with; the slice of a name that is shorter than the suffix panics.
pub data Loaded (V : Type 0) : Type 0 where
  panics : Loaded V
  failed : Error → Loaded V
  loaded : WebSocketSchemas V → Loaded V

abbrev pub envelope_file : String
envelope_file = "envelope.schema.json"

-- `name[:len(name)-len(".schema.json")]`
unfoldable pub event_of : String → Option String
event_of name = if ltb (len name) 12 then none else some (slice name 0 (len name - 12))

abbrev wrapped : String → String → Error → Error
wrapped text name e = Errors.annotated (record { format = text; args = Errors.str name ∷ [] }) e

module _ {V K : Type 0} (c : Compiler V K) where
  compiled : String → Result (Schema V) × K → Result (Schema V) × K
  compiled name (ok sch, k) = (ok sch, k)
  compiled name (err e, k) = (err (wrapped "compile schema %s: %w" name e), k)

  added : String → Option Error × K → Result (Schema V) × K
  unfolding compiled
  added name (some e, k) = (err (wrapped "add schema resource %s: %w" name e), k)
  added name (none, k) = compiled name (c.compile (append "embed://herminas/websocket/" name) k)

  load_embedded_schema : String → K → Result (Schema V) × K
  unfolding added
  load_embedded_schema name k = elim (c.read_file (append "websocket/" name)) [
    | err e ↦ (err (wrapped "read embedded schema %s: %w" name e), k)
    | ok data_read ↦
        added name (c.add_resource (append "embed://herminas/websocket/" name) data_read k)
  ]

  -- The loop over the entries.
  load_payloads : Schema V → List String → (String → Option (Schema V)) → K → Loaded V
  unfolding load_embedded_schema event_of
  load_payloads envelope [] payloads k =
      loaded (record { envelope = envelope; payloads = payloads })
  load_payloads envelope (name ∷ names) payloads k =
      let (result, k') = load_embedded_schema name k in
      let skipped = load_payloads envelope names payloads k in
      if str_eq name envelope_file then skipped else elim result [
        | err e ↦ failed e
        | ok sch ↦ elim (event_of name) [
          | none ↦ panics
          | some event ↦ load_payloads envelope names (put event (some sch) payloads) k'
        ]
      ]

  read_entries : Schema V → Result (List String) → K → Loaded V
  unfolding load_payloads
  read_entries envelope (err e) k =
      failed
        (Errors.annotated (record { format = "read embedded websocket schemas: %w"; args = [] }) e)
  read_entries envelope (ok names) k = load_payloads envelope names (λ event. none) k

  -- With what `websocketFS.ReadDir` gives, by name.
  load_websocket_schemas : Result (List String) → K → Loaded V
  unfolding read_entries
  load_websocket_schemas entries k =
      let (result, k') = load_embedded_schema envelope_file k in
      elim result [ err e ↦ failed e | ok envelope ↦ read_entries envelope entries k' ]

  loaded_injective : {a b : WebSocketSchemas V} → loaded a ≡ loaded b → a ≡ b
  loaded_injective h = cc

  IsKnown : WebSocketSchemas V → String → Type 0
  IsKnown s event = (sch : Schema V) × (s.payloads event ≡ some sch)

  -- Every entry but the envelope has given its event a schema.
  IsComplete : List String → WebSocketSchemas V → Type 0
  IsComplete names s =
      All
        (λ name.
          str_eq name envelope_file ≡ false
          → (event : String) × (event_of name ≡ some event) × IsKnown s event)
        names

  put-known :
      (event other : String) (sch : Schema V) (payloads : String → Option (Schema V))
      → ((old : Schema V) × (payloads event ≡ some old))
      → (new : Schema V) × (put other (some sch) payloads event ≡ some new)
  put-known event other sch payloads (old, h) = elim (Bool-cases (str_eq other event)) [
    | inl q ↦ (sch, rw q refl)
    | inr q ↦ (old, rw q h)
  ]

  load_payloads-kept :
      (envelope : Schema V) (names : List String) (payloads : String → Option (Schema V)) (k : K)
      {s : WebSocketSchemas V} (event : String)
      → load_payloads envelope names payloads k ≡ loaded s
      → ((old : Schema V) × (payloads event ≡ some old))
      → IsKnown s event
  unfolding load_payloads IsKnown
  load_payloads-kept envelope [] payloads k event h (old, there) =
      let same = loaded_injective h in (old, ap (λ x. x.payloads event) (sym same) ∙ there)
  load_payloads-kept envelope (name ∷ names) payloads k {s} event h (old, there) =
      elim (Bool-cases (str_eq name envelope_file)) [
        | inl q ↦
            load_payloads-kept envelope names payloads k event (rw (load_payloads, q) at h)
              (old, there)
        | inr q ↦ elim (Result-cases (load_embedded_schema name k).0) [
          | inr (e, r) ↦ absurd (ground (arith, q, r, h))
          | inl (sch, r) ↦ elim (Option-cases (event_of name)) [
            | inl v ↦ absurd (ground (arith, q, r, v, h))
            | inr (new_event, v) ↦
                let next = put new_event (some sch) payloads in
                let k' = (load_embedded_schema name k).1 in
                let h' : load_payloads envelope names next k' ≡ loaded s =
                  rw (load_payloads, q, r, v) at h in
                load_payloads-kept envelope names next k' event h'
                  (put-known event new_event sch payloads (old, there))
          ]
        ]
      ]

  load_payloads-IsComplete :
      (envelope : Schema V) (names : List String) (payloads : String → Option (Schema V)) (k : K)
      {s : WebSocketSchemas V}
      → load_payloads envelope names payloads k ≡ loaded s
      → IsComplete names s
  unfolding load_payloads IsComplete IsKnown
  load_payloads-IsComplete envelope [] payloads k h = tt
  load_payloads-IsComplete envelope (name ∷ names) payloads k {s} h =
      elim (Bool-cases (str_eq name envelope_file)) [
        | inl q ↦ (
          λ other. absurd (let both = sym q ∙ other in cc),
          load_payloads-IsComplete envelope names payloads k (rw (load_payloads, q) at h),
        )
        | inr q ↦ elim (Result-cases (load_embedded_schema name k).0) [
          | inr (e, r) ↦ absurd (ground (arith, q, r, h))
          | inl (sch, r) ↦ elim (Option-cases (event_of name)) [
            | inl v ↦ absurd (ground (arith, q, r, v, h))
            | inr (new_event, v) ↦
                let next = put new_event (some sch) payloads in
                let k' = (load_embedded_schema name k).1 in
                let h' : load_payloads envelope names next k' ≡ loaded s =
                  rw (load_payloads, q, r, v) at h in
                (
                  λ other. (
                    new_event,
                    v,
                    load_payloads-kept envelope names next k' new_event h'
                        (sch, rw (eq_refl new_event) refl),
                  ),
                  load_payloads-IsComplete envelope names next k' h',
                )
          ]
        ]
      ]

  -- Where the schemas are loaded without an error, each file of the directory except that of the
  -- envelope has given a schema to the event that its name is without ".schema.json".
  load-IsComplete :
      (names : List String) (k : K) {s : WebSocketSchemas V}
      → load_websocket_schemas (ok names) k ≡ loaded s
      → IsComplete names s
  unfolding load_websocket_schemas read_entries
  load-IsComplete names k h = elim (Result-cases (load_embedded_schema envelope_file k).0) [
    | inr (e, q) ↦ absurd (ground (arith, q, h))
    | inl (envelope, q) ↦
        load_payloads-IsComplete envelope names (λ event. none)
          (load_embedded_schema envelope_file k).1 (rw (load_websocket_schemas, q) at h)
  ]
