-- ===== src/Schemakit/Tests.antt =====
-- Schemas that write a number as one byte.
use chassis_go.Prelude.{
  ℕ, ◌+◌, ◌-◌, ◌≡◌, refl, text, Option, none, some, List, [], ◌∷◌, lookup, arith, ◌==◌, Bool-cases,
  inl, inr, text_comparable, nat_comparable,
}
use chassis_go.Schemakit.{
  Schema, Registry, Ops, Result, ok, Entry, file, serialize, deserialize, decoded, load_schemas,
  register, answered,
}
use chassis_go.Schemakit.Wire.{Decodes, deserialize-serialize, deserialize_first}
use chassis_go.Schemakit.Stored.{IsLoaded}

-- A schema is the number that is added to a value.
abbrev read_byte : ℕ → List ℕ → Option ℕ
read_byte p [] = none
read_byte p (b ∷ bs) = some (b - p)

abbrev byte_ops : Ops ℕ ℕ
byte_ops = record {
  parse = λ s. some 5;
  marshal = λ p v. some ((v + p) ∷ []);
  unmarshal = read_byte;
  json_names = λ s. some (text "n", text "s");
  json_id = λ s. some 300;
}

abbrev byte_schema : ℕ → ℕ → List ℕ → Schema ℕ
byte_schema p id subject = record {
  subject = subject;
  version = 1;
  avro_json = text "{}";
  schema_id = id;
  parsed = some p;
}

byte_ops-Decodes : Decodes byte_ops 5 7 7
byte_ops-Decodes payload m = let same : payload ≡ 12 ∷ [] = ground arith in rw same refl

serialized : serialize byte_ops (byte_schema 5 300 (text "a")) 7 ≡ ok (0 ∷ 0 ∷ 0 ∷ 1 ∷ 44 ∷ 12 ∷ [])
unfolding serialize chassis_go.Schemakit.serialize_with chassis_go.Schemakit.frame
    chassis_go.Schemakit.put_uint32
serialized = refl

deserialize-serialize_example :
    deserialize byte_ops
      (byte_schema 2 0 (text "b") ∷ byte_schema 5 300 (text "a") ∷ [])
      (0 ∷ 0 ∷ 0 ∷ 1 ∷ 44 ∷ 12 ∷ [])
    ≡ ok 7
deserialize-serialize_example =
    deserialize-serialize byte_ops (byte_schema 2 0 (text "b") ∷ []) []
      (byte_schema 5 300 (text "a")) 5 7 7 (0 ∷ 0 ∷ 0 ∷ 1 ∷ 44 ∷ 12 ∷ []) refl byte_ops-Decodes
      (refl, tt) (omega arith) serialized

unregistered : serialize byte_ops (byte_schema 5 0 (text "a")) 7 ≡ ok (0 ∷ 0 ∷ 0 ∷ 0 ∷ 0 ∷ 12 ∷ [])
unfolding serialize chassis_go.Schemakit.serialize_with chassis_go.Schemakit.frame
    chassis_go.Schemakit.put_uint32
unregistered = refl

-- Neither schema is registered: what was 7 is read as 10 or as 7, as the map is ranged over.
deserialize_first_example :
    (deserialize byte_ops
        (byte_schema 2 0 (text "b") ∷ byte_schema 5 0 (text "a") ∷ [])
        (0 ∷ 0 ∷ 0 ∷ 0 ∷ 0 ∷ 12 ∷ [])
      ≡ ok 10)
    × (deserialize byte_ops
          (byte_schema 5 0 (text "a") ∷ byte_schema 2 0 (text "b") ∷ [])
          (0 ∷ 0 ∷ 0 ∷ 0 ∷ 0 ∷ 12 ∷ [])
        ≡ ok 7)
unfolding decoded
deserialize_first_example =
    deserialize_first byte_ops [] (byte_schema 5 0 (text "a") ∷ [])
      (byte_schema 2 0 (text "b") ∷ []) (byte_schema 5 0 (text "a")) (byte_schema 2 0 (text "b")) 5
      2 7 (12 ∷ []) (0 ∷ 0 ∷ 0 ∷ 0 ∷ 0 ∷ 12 ∷ []) refl refl refl unregistered (omega arith) refl tt

abbrev unused : Registry ℕ
unused = record { url = text "u"; cache = []; store = []; next = 0 }

unused-IsLoaded : IsLoaded byte_ops unused
unfolding lookup
unused-IsLoaded k ref h = cc

abbrev one_schema : Registry ℕ
one_schema = record {
  url = text "u";
  cache = (text "a", 0) ∷ [];
  store = (0, byte_schema 5 0 (text "a")) ∷ [];
  next = 1;
}

one_schema-IsLoaded : IsLoaded byte_ops one_schema
unfolding lookup
one_schema-IsLoaded k ref h = elim (Bool-cases (text "a" == k)) [
  | inl same ↦
      let zeroth : ref ≡ 0 = ground arith in
      let named : text "a" ≡ k = (text_comparable.same_iff (text "a") k).0 same in
      (ground arith, byte_schema 5 0 (text "a"), rw zeroth refl, (named, 5, refl, refl))
  | inr other ↦ absurd (ground arith)
]
