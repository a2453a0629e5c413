-- ===== src/Schemakit.antt =====
-- schemakit/schemakit.go: schemas by subject, their registration, and the wire format of Confluent.
-- Texts are lists of bytes. Avro, JSON, the file system and the HTTP client are parameters. The map
-- of schemas holds pointers, so schemas stand in a store; the order in which the map is ranged over is
-- a parameter too.
pub mod Wire
pub mod Stored
pub mod Tests
use chassis_go.Prelude.{
  ℕ, zero, suc, ◌+◌, ◌-◌, ◌*◌, ◌/◌, ◌%◌, ◌^◌, Bool, true, false, ltb, leb, ◌==◌, ◌&&◌,
  nat_comparable, text_comparable, text, is_empty, Option, none, some, List, [], ◌∷◌, ◌++◌, length,
  take, drop, lookup, insert, if◌then◌else◌,
}

-- `Schema`. The id is the bit pattern of an int; the parsed schema is none for nil.
pub record Schema (P : Type 0) : Type 0 where
  pub subject : List ℕ
  pub version : ℕ
  pub avro_json : List ℕ
  pub schema_id : ℕ
  pub parsed : Option P

-- `Registry`: its cache of pointers, and the store they point to with the next free place.
pub record Registry (P : Type 0) : Type 0 where
  pub url : List ℕ
  pub cache : List (List ℕ × ℕ)
  pub store : List (ℕ × Schema P)
  pub next : ℕ

-- Packages avro and json on schemas `P` and data `D`: the names and the id are fields of an object.
pub record Ops (P D : Type 0) : Type 0 where
  pub parse : List ℕ → Option P
  pub marshal : P → D → Option (List ℕ)
  pub unmarshal : P → List ℕ → Option D
  pub json_names : List ℕ → Option (List ℕ × List ℕ)
  pub json_id : List ℕ → Option ℕ

-- `strings.TrimRight(s, "/")`.
pub trim_slashes : List ℕ → List ℕ
trim_slashes [] = []
trim_slashes (c ∷ s) =
    let rest = trim_slashes s in if is_empty rest && c == b'/' then [] else c ∷ rest

pub data SchemaError : Type 0 where
  no_url walk_failed unreadable no_json no_name not_avro : SchemaError
  not_parsed not_serialized too_short bad_magic not_cached not_deserialized : SchemaError
  not_sent http_failed no_id : SchemaError

pub data Result (A : Type 0) : Type 0 where
  ok : A → Result A
  err : SchemaError → Result A

-- `NewRegistry`.
pub new_registry : {P : Type 0} → List ℕ → Result (Registry P)
unfolding trim_slashes
new_registry [] = err no_url
new_registry (c ∷ s) = ok (record { url = trim_slashes (c ∷ s); cache = []; store = []; next = 0 })

-- What the walk meets: an error, a directory, or a file with its extension and its content, none if
-- it cannot be read.
pub data Entry : Type 0 where
  failed directory : Entry
  file : List ℕ → Option (List ℕ) → Entry

-- `binary.BigEndian.PutUint32` of `uint32(id)`, and `Uint32`.
pub put_uint32 : ℕ → List ℕ
put_uint32 id =
    (id / 2 ^ 24 % 2 ^ 8) ∷ (id / 2 ^ 16 % 2 ^ 8) ∷ (id / 2 ^ 8 % 2 ^ 8) ∷ (id % 2 ^ 8) ∷ []

pub uint32 : ℕ → ℕ → ℕ → ℕ → ℕ
uint32 a b c d = a * 2 ^ 24 + b * 2 ^ 16 + c * 2 ^ 8 + d

-- What the server answers: nothing, a body that cannot be read, or a status and a body.
pub data Reply : Type 0 where
  lost unread : Reply
  answered : ℕ → List ℕ → Reply

frame : ℕ → Option (List ℕ) → Result (List ℕ)
unfolding put_uint32
frame id none = err not_serialized
frame id (some payload) = ok (0 ∷ (put_uint32 id ++ payload))

pub decoded : {D : Type 0} → Option D → Result D
decoded none = err not_deserialized
decoded (some value) = ok value

-- The key of a schema.
pub subject_of : List ℕ → List ℕ → List ℕ
subject_of name namespace = if is_empty namespace then name else namespace ++ b'.' ∷ name

module _ {P : Type 0} where
  -- `&Schema{...}`, put into the cache.
  cache_schema : List ℕ → List ℕ → P → Registry P → Registry P
  cache_schema subject json parsed r = record r {
    cache = insert subject r.next r.cache;
    store =
        insert r.next
          (record {
            subject = subject;
            version = 1;
            avro_json = json;
            schema_id = 0;
            parsed = some parsed;
          })
          r.store;
    next = r.next + 1;
  }

  -- `GetSchema`, as a pointer.
  pub get_schema : List ℕ → Registry P → Option ℕ
  get_schema subject r = lookup subject r.cache

  -- The schemas that the cache points to, in the order that the map is ranged over, and the first that
  -- has this id.
  pub find_schema : ℕ → List (Schema P) → Option (Schema P)
  find_schema id [] = none
  find_schema id (s ∷ ss) =
      let rest = find_schema id ss in if s.schema_id == id then some s else rest

  -- The URL that `Register` posts to, on the escaped subject.
  pub register_url : (List ℕ → List ℕ) → Registry P → Schema P → List ℕ
  register_url escape r schema =
      r.url ++ text "/subjects/" ++ escape schema.subject ++ text "/versions"

  go_on :
      Result (Registry P)
      → Registry P
      → (Registry P → Registry P × Option SchemaError)
      → Registry P × Option SchemaError
  go_on (ok s) r rest = rest s
  go_on (err x) r rest = (r, some x)

  set_id : ℕ → Schema P → Registry P → Option ℕ → Registry P × Option SchemaError
  set_id ref schema r none = (r, some no_id)
  set_id ref schema r (some id) =
      (record r { store = insert ref (record schema { schema_id = id }) r.store }, none)

module _ {P D : Type 0} (ops : Ops P D) where
  store_parsed : List ℕ → List ℕ → Registry P → Option P → Result (Registry P)
  unfolding cache_schema
  store_parsed subject content r none = err not_avro
  store_parsed subject content r (some parsed) = ok (cache_schema subject content parsed r)

  store_named : List ℕ → Registry P → Option (List ℕ × List ℕ) → Result (Registry P)
  unfolding store_parsed subject_of
  store_named content r none = err no_json
  store_named content r (some (name, namespace)) =
      let subject = subject_of name namespace in
      if is_empty name then err no_name else store_parsed subject content r (ops.parse content)

  store_file : Registry P → Option (List ℕ) → Result (Registry P)
  unfolding store_named
  store_file r none = err unreadable
  store_file r (some content) = store_named content r (ops.json_names content)

  -- The function that `LoadSchemas` walks with.
  visit : Entry → Registry P → Result (Registry P)
  unfolding store_file
  visit failed r = err walk_failed
  visit directory r = ok r
  visit (file ext bytes) r = if ext == text ".avsc" then store_file r bytes else ok r

  -- `LoadSchemas`: the registry as the walk leaves it, and the error that ended it.
  pub load_schemas : List Entry → Registry P → Registry P × Option SchemaError
  unfolding visit go_on
  load_schemas [] r = (r, none)
  load_schemas (e ∷ es) r = go_on (visit e r) r (load_schemas es)

  serialize_with : Schema P → D → Option P → Result (List ℕ)
  unfolding frame
  serialize_with schema value none = err not_parsed
  serialize_with schema value (some parsed) = frame schema.schema_id (ops.marshal parsed value)

  -- `Validate`, of a schema that is not nil.
  pub validate : Schema P → D → Result Unit
  unfolding serialize_with frame
  validate schema value = elim schema.parsed [
    | none ↦ err not_parsed
    | some parsed ↦ elim (ops.marshal parsed value) [ none ↦ err not_serialized | some _ ↦ ok tt ]
  ]

  -- `Serialize`.
  pub serialize : Schema P → D → Result (List ℕ)
  unfolding serialize_with
  serialize schema value = serialize_with schema value schema.parsed

  unmarshal_with : List ℕ → Option P → Result D
  unfolding decoded
  unmarshal_with payload none = err not_parsed
  unmarshal_with payload (some parsed) = decoded (ops.unmarshal parsed payload)

  unmarshal_by : List ℕ → Option (Schema P) → Result D
  unfolding unmarshal_with
  unmarshal_by payload none = err not_cached
  unmarshal_by payload (some schema) = unmarshal_with payload schema.parsed

  -- `Deserialize`, on the cached schemas in the order of the range.
  pub deserialize : List (Schema P) → List ℕ → Result D
  unfolding unmarshal_by uint32
  deserialize cached (m ∷ a ∷ b ∷ c ∷ d ∷ payload) =
      if m == 0 then unmarshal_by payload (find_schema (uint32 a b c d) cached) else err bad_magic
  deserialize cached _ = err too_short

  -- `Register` of the schema behind a pointer, on the answer.
  pub register : Reply → ℕ → Schema P → Registry P → Registry P × Option SchemaError
  unfolding set_id
  register lost ref schema r = (r, some not_sent)
  register unread ref schema r = (r, some not_sent)
  register (answered code body) ref schema r =
      if leb 200 code && ltb code 300
      then set_id ref schema r (ops.json_id (take (2 ^ 20) body))
      else (r, some http_failed)
