-- ===== src/Kernel/Schemas.antt =====
-- The check of what the hub sends, kernel/schemas/websocket.go.
-- The library jsonschema and encoding/json are parameters: a compiled schema is what it finds wrong
-- with a decoded value of type `V`, if anything.
pub mod Loading
use hermi_nas.Prelude.{Option, Option-cases, String, [], arith, inl, inr, none, some, ◌∷◌, ◌≡◌}
use hermi_nas.Kernel.Errors
use hermi_nas.Kernel.Errors.{Error, Result, Bytes, ok, err, Result-cases, ◌>>=◌, ◌>>◌}

abbrev pub Schema : Type 0 → Type 0
Schema V = V → Option Error

pub record WebSocketSchemas (V : Type 0) : Type 0 where
  pub envelope : Schema V
  pub payloads : String → Option (Schema V)

-- encoding/json, of payloads and of values; `envelope_of` is the map of an event and its payload.
pub record Codec (P V : Type 0) : Type 0 where
  pub marshal_payload : P → Result Bytes
  pub marshal : V → Result Bytes
  pub unmarshal : Bytes → Result V
  pub envelope_of : String → V → V

abbrev annotate {ℓ} : {A : Type ℓ} → String → Result A → Result A
annotate text (ok a) = ok a
annotate text (err e) = err (Errors.annotated (record { format = text; args = [] }) e)

abbrev accepted : Option Error → Result (Unit {0})
accepted none = ok tt
accepted (some e) = err e

module _ {P V : Type 0} (J : Codec P V) (s : WebSocketSchemas V) where
  payload_check : String → V → Result (Unit {0})
  payload_check event val = elim (s.payloads event) [
    | none ↦ err (
        Errors.foreign (record {
          format = "no payload schema registered for event %q";
          args = Errors.str event ∷ [];
        }))
    | some schema ↦ annotate "payload for event: %w" (accepted (schema val))
  ]

  unfoldable pub check_envelope : String → P → Result (Unit {0})
  unfolding payload_check
  check_envelope event payload = do
    payload_json ← annotate "marshal payload: %w" (J.marshal_payload payload)
    val ← annotate "unmarshal payload: %w" (J.unmarshal payload_json)
    envelope_json ← annotate "marshal envelope: %w" (J.marshal (J.envelope_of event val))
    v ← annotate "unmarshal envelope: %w" (J.unmarshal envelope_json)
    annotate "envelope: %w" (accepted (s.envelope v))
    payload_check event val

  -- `ValidateEnvelope`, whose `nil` is `none`.
  unfoldable pub validate_envelope : String → P → Option Error
  unfolding check_envelope
  validate_envelope event payload = elim (check_envelope event payload) [
    | ok done ↦ none
    | err e ↦ some e
  ]

  -- What a payload has that is accepted.
  pub record IsValid (event : String) (payload : P) : Type 0 where
    pub json : Bytes
    pub val : V
    pub encoded : J.marshal_payload payload ≡ ok json
    pub decoded : J.unmarshal json ≡ ok val
    pub schema : Schema V
    pub known : s.payloads event ≡ some schema
    pub accepted_payload : schema val ≡ none
    pub accepted_envelope :
        (text : Bytes) × (v : V) × (J.marshal (J.envelope_of event val) ≡ ok text)
        × (J.unmarshal text ≡ ok v)
        × (s.envelope v ≡ none)

  pub validate_envelope-IsValid :
      (event : String) (payload : P)
      → validate_envelope event payload ≡ none
      → IsValid event payload
  unfolding validate_envelope
  validate_envelope-IsValid event payload h = elim (Result-cases (J.marshal_payload payload)) [
    | inr (x, a) ↦ absurd (ground (arith, a, h))
    | inl (json, a) ↦ elim (Result-cases (J.unmarshal json)) [
      | inr (x, b) ↦ absurd (ground (arith, a, b, h))
      | inl (val, b) ↦ elim (Result-cases (J.marshal (J.envelope_of event val))) [
        | inr (x, c) ↦ absurd (ground (arith, a, b, c, h))
        | inl (text, c) ↦ elim (Result-cases (J.unmarshal text)) [
          | inr (x, d) ↦ absurd (ground (arith, a, b, c, d, h))
          | inl (v, d) ↦ elim (Option-cases (s.envelope v)) [
            | inr (x, f) ↦ absurd (ground (arith, a, b, c, d, f, h))
            | inl f ↦ elim (Option-cases (s.payloads event)) [
              | inl k ↦ absurd (ground (arith, a, b, c, d, f, k, h))
              | inr (schema, k) ↦ elim (Option-cases (schema val)) [
                | inr (x, q) ↦ absurd (ground (arith, a, b, c, d, f, k, q, h))
                | inl q ↦ record {
                  json = json;
                  val = val;
                  encoded = a;
                  decoded = b;
                  schema = schema;
                  known = k;
                  accepted_payload = q;
                  accepted_envelope = (text, v, c, d, f);
                }
              ]
            ]
          ]
        ]
      ]
    ]
  ]
