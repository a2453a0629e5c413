-- ===== src/Schemakit/Wire.antt =====
-- What is serialized is deserialized by its own schema.
use chassis_go.Prelude.{
  ℕ, ◌/◌, ◌%◌, ◌^◌, ◌<◌, ◌≡◌, refl, ap, ◌∙◌, false, ◌==◌, nat_comparable, Option, none, some, List,
  [], ◌∷◌, ◌++◌, All, arith, Option-cases, inl, inr,
}
use chassis_go.Schemakit.{
  Schema, Ops, ok, put_uint32, uint32, frame, decoded, find_schema, serialize_with, serialize,
  unmarshal_with, unmarshal_by, deserialize,
}

uint32-put :
    (id : ℕ)
    → uint32 (id / 2 ^ 24 % 2 ^ 8) (id / 2 ^ 16 % 2 ^ 8) (id / 2 ^ 8 % 2 ^ 8) (id % 2 ^ 8)
      ≡ id % 2 ^ 32
unfolding uint32
uint32-put id = omega arith

module _ {P : Type 0} where
  -- Schemas of other ids, as an int64 is read from four bytes.
  abbrev pub Others : ℕ → List (Schema P) → Type 0
  Others id = All (λ s. (s.schema_id == id) ≡ false)

  find_schema-append :
      (id : ℕ) (before after : List (Schema P)) (s : Schema P)
      → Others id before
      → s.schema_id ≡ id
      → find_schema id (before ++ s ∷ after) ≡ some s
  unfolding find_schema
  find_schema-append id [] after s o e = ground arith
  find_schema-append id (t ∷ before) after s o e =
      let rest = find_schema-append id before after s o.1 e in rw (o.0, rest) refl

  find_schema_unknown :
      (id : ℕ) (cached : List (Schema P)) → Others id cached → find_schema id cached ≡ none
  unfolding find_schema
  find_schema_unknown id [] o = refl
  find_schema_unknown id (t ∷ cached) o =
      let rest = find_schema_unknown id cached o.1 in rw (o.0, rest) refl

module _ {P D : Type 0} (ops : Ops P D) where
  deserialize_framed :
      (cached : List (Schema P)) (id : ℕ) (payload raw : List ℕ)
      → frame id (some payload) ≡ ok raw
      → deserialize ops cached raw ≡ unmarshal_by ops payload (find_schema (id % 2 ^ 32) cached)
  unfolding frame put_uint32 deserialize
  deserialize_framed cached id payload raw h =
      let same : raw ≡ 0 ∷ (put_uint32 id ++ payload) = ground arith in
      rw (same, uint32-put id) refl

  -- The payload of what is serialized.
  serialize_framed :
      (s : Schema P) (value : D) (raw : List ℕ) (parsed : Option P)
      → s.parsed ≡ parsed
      → serialize_with ops s value parsed ≡ ok raw
      → (p : P) × (payload : List ℕ) × (s.parsed ≡ some p)
        × (ops.marshal p value ≡ some payload)
        × (frame s.schema_id (some payload) ≡ ok raw)
  unfolding serialize_with frame
  serialize_framed s value raw none e h = cc
  serialize_framed s value raw (some p) e h = elim (Option-cases (ops.marshal p value)) [
    | inl m ↦ absurd (ground arith)
    | inr (payload, m) ↦ (p, payload, e, m, ground arith)
  ]

  deserialize_serialized :
      (before after : List (Schema P)) (s t : Schema P) (p q : P) (value : D) (payload raw : List ℕ)
      → s.parsed ≡ some p
      → t.parsed ≡ some q
      → ops.marshal p value ≡ some payload
      → serialize ops s value ≡ ok raw
      → s.schema_id < 2 ^ 32
      → t.schema_id ≡ s.schema_id
      → Others s.schema_id before
      → deserialize ops (before ++ t ∷ after) raw ≡ decoded (ops.unmarshal q payload)
  unfolding serialize serialize_with unmarshal_by unmarshal_with
  deserialize_serialized before after s t p q value payload raw sp tq m h small shared others =
      let framed : frame s.schema_id (some payload) ≡ ok raw = rw (sp, m) at h in
      let found = find_schema-append s.schema_id before after t others shared in
      let id : s.schema_id % 2 ^ 32 ≡ s.schema_id = omega arith in
      deserialize_framed (before ++ t ∷ after) s.schema_id payload raw framed
      ∙ ap (λ i. unmarshal_by ops payload (find_schema i (before ++ t ∷ after))) id
      ∙ ap (unmarshal_by ops payload) found
      ∙ rw tq refl

  -- What package avro promises of one value: by the schema that encodes it, it is decoded to `result`,
  -- which may differ from it, as where a field that the schema does not have is left out.
  abbrev pub Decodes : P → D → D → Type 0
  Decodes p value result =
      (payload : List ℕ)
      → ops.marshal p value ≡ some payload
      → ops.unmarshal p payload ≡ some result

  -- What a schema serializes is deserialized to what package avro makes of the value by that schema,
  -- in every registry whose cache holds the schema, and no schema of the same id that is ranged over
  -- before it, when the id is one of 32 bits.
  pub deserialize-serialize :
      (before after : List (Schema P)) (s : Schema P) (p : P) (value result : D) (raw : List ℕ)
      → s.parsed ≡ some p
      → Decodes p value result
      → Others s.schema_id before
      → s.schema_id < 2 ^ 32
      → serialize ops s value ≡ ok raw
      → deserialize ops (before ++ s ∷ after) raw ≡ ok result
  unfolding serialize decoded
  deserialize-serialize before after s p value result raw sp c others small h =
      let (q, payload, parsed, m, framed) = serialize_framed s value raw s.parsed refl h in
      let same : p ≡ q = ground (arith, sp, parsed) in
      let encoded : ops.marshal p value ≡ some payload = ap (λ r. ops.marshal r value) same ∙ m in
      deserialize_serialized before after s s p p value payload raw sp sp encoded h small refl
        others
      ∙ ap decoded (c payload encoded)

  -- Two schemas `s` and `t` share an id of 32 bits, as all that are not registered share 0. What `s`
  -- serializes is then decoded by `t` where the range over the map meets `t` before any other schema
  -- of that id, and by `s` where it meets `s` before any other.
  pub deserialize_first :
      (before after rest : List (Schema P)) (s t : Schema P) (p q : P) (value : D)
      (payload raw : List ℕ)
      → s.parsed ≡ some p
      → t.parsed ≡ some q
      → ops.marshal p value ≡ some payload
      → serialize ops s value ≡ ok raw
      → s.schema_id < 2 ^ 32
      → t.schema_id ≡ s.schema_id
      → Others s.schema_id before
      → (deserialize ops (before ++ t ∷ after) raw ≡ decoded (ops.unmarshal q payload))
        × (deserialize ops (before ++ s ∷ rest) raw ≡ decoded (ops.unmarshal p payload))
  deserialize_first before after rest s t p q value payload raw sp tq m h small shared others = (
    deserialize_serialized before after s t p q value payload raw sp tq m h small shared others,
    deserialize_serialized before rest s s p p value payload raw sp sp m h small refl others,
  )
