-- ===== src/WsHub/Hub/Valid.antt =====
-- What the hub sends has passed its schemas (engine/wshub/hub.go and kernel/schemas/websocket.go).
use hermi_nas.Prelude.{Option-cases, String, arith, inl, inr, none, refl, some, ◌≡◌, ◌⊎◌}
use hermi_nas.Kernel.Errors.{Error, Result, Bytes, ok, Result-cases}
use hermi_nas.Kernel.Schemas.{
  WebSocketSchemas, Codec, validate_envelope, IsValid, validate_envelope-IsValid,
}
use hermi_nas.WsHub.Hub.{Payload, Hub, encode, broadcast}

module _ {V : Type 0} (J : Codec Payload V) (s : WebSocketSchemas V)
    (marshal : String → Payload → Result Bytes) (event : String) (payload : Payload) (h : Hub) where
  encode-IsValid :
      (message : Bytes)
      → encode (some (validate_envelope J s)) marshal event payload ≡ ok message
      → IsValid J s event payload
  unfolding encode
  encode-IsValid message e = elim (Option-cases (validate_envelope J s event payload)) [
    | inl q ↦ validate_envelope-IsValid J s event payload q
    | inr (x, q) ↦ absurd (ground (arith, q, e))
  ]

  -- A hub with schemas: a broadcast changes nothing and gives an error, or it gives none, the event
  -- has a schema, and this and the schema of the envelope accept the payload, as JSON has it.
  pub broadcast-IsValid :
      let done = broadcast (some (validate_envelope J s)) marshal event payload h in
      ((e : Error) × (done ≡ (some e, h))) ⊎ ((done.0 ≡ none) × IsValid J s event payload)
  unfolding broadcast
  broadcast-IsValid =
      elim (Result-cases (encode (some (validate_envelope J s)) marshal event payload)) [
        | inr (x, e) ↦ inl (x, rw (broadcast, e) refl)
        | inl (message, e) ↦ inr (rw (broadcast, e) refl, encode-IsValid message e)
      ]
