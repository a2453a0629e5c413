-- ===== src/Schemakit/Stored.antt =====
-- Every cached schema has been parsed.
use chassis_go.Prelude.{
  ℕ, ◌<◌, ◌≡◌, refl, ap, ◌∙◌, ◌==◌, ◌&&◌, leb, ltb, take, ◌^◌, nat_comparable, text_comparable,
  text, is_empty, Option, none, some, List, [], ◌∷◌, lookup, lookup-insert, if◌then◌else◌, arith,
  Bool-cases, inl, inr,
}
use mathlib.Core.Path.{subst}
use chassis_go.Schemakit.{
  Schema, Registry, Ops, Result, ok, err, Entry, failed, directory, file, SchemaError, subject_of,
  cache_schema, store_parsed, store_named, store_file, visit, go_on, load_schemas, set_id, register,
  Reply, lost, unread, answered,
}

module _ {P D : Type 0} (ops : Ops P D) where
  -- A schema that was parsed from its own text.
  abbrev pub IsParsed : List ℕ → Schema P → Type 0
  IsParsed k s = (s.subject ≡ k) × (p : P) × (s.parsed ≡ some p) × (ops.parse s.avro_json ≡ some p)

  -- What each pointer of the cache leads to.
  abbrev pub IsLoaded : Registry P → Type 0
  IsLoaded r =
      (k : List ℕ) (ref : ℕ)
      → lookup k r.cache ≡ some ref
      → (ref < r.next) × (s : Schema P) × (lookup ref r.store ≡ some s) × IsParsed k s

  -- The schema that is made of a file.
  abbrev made : List ℕ → List ℕ → P → Schema P
  made subject json p = record {
    subject = subject;
    version = 1;
    avro_json = json;
    schema_id = 0;
    parsed = some p;
  }

  cache_schema-IsLoaded :
      (subject json : List ℕ) (p : P) (r : Registry P)
      → ops.parse json ≡ some p
      → IsLoaded r
      → IsLoaded (cache_schema subject json p r)
  unfolding cache_schema
  cache_schema-IsLoaded subject json p r parses v k ref h =
      let at = lookup-insert subject k r.next r.cache in
      let stored = lookup-insert r.next ref (made subject json p) r.store in
      elim (Bool-cases (subject == k)) [
        | inl same ↦
            let now : ref ≡ r.next = ground arith in
            let eq : subject ≡ k = (text_comparable.same_iff subject k).0 same in
            (ground arith, made subject json p, ground arith, (eq, p, refl, parses))
        | inr other ↦
            let (old, s, kept, parsed) = v k ref (ground arith) in
            (omega arith, s, ground arith, parsed)
      ]

  -- What a step of the walk leaves.
  abbrev Keeps : Registry P → Result (Registry P) → Type 0
  Keeps r o = (s : Registry P) → o ≡ ok s → IsLoaded s

  store_parsed-IsLoaded :
      (subject json : List ℕ) (r : Registry P) (parsed : Option P)
      → ops.parse json ≡ parsed
      → IsLoaded r
      → Keeps r (store_parsed ops subject json r parsed)
  unfolding store_parsed
  store_parsed-IsLoaded subject json r none e v s h = cc
  store_parsed-IsLoaded subject json r (some p) e v s h =
      let same : cache_schema subject json p r ≡ s = ground arith in
      subst IsLoaded same (cache_schema-IsLoaded subject json p r e v)

  store_named-IsLoaded :
      (json : List ℕ) (r : Registry P) (names : Option (List ℕ × List ℕ))
      → IsLoaded r
      → Keeps r (store_named ops json r names)
  unfolding store_named
  store_named-IsLoaded json r none v s h = cc
  store_named-IsLoaded json r (some (name, namespace)) v s h = elim (Bool-cases (is_empty name)) [
    | inl unnamed ↦ absurd (ground arith)
    | inr named ↦
        store_parsed-IsLoaded (subject_of name namespace) json r (ops.parse json) refl v s
          (rw named at h)
  ]

  visit-IsLoaded : (e : Entry) (r : Registry P) → IsLoaded r → Keeps r (visit ops e r)
  unfolding visit store_file
  visit-IsLoaded failed r v s h = cc
  visit-IsLoaded directory r v s h = let same : r ≡ s = ground arith in subst IsLoaded same v
  visit-IsLoaded (file ext none) r v s h = elim (Bool-cases (ext == text ".avsc")) [
    | inl avro ↦ absurd (ground arith)
    | inr other ↦ let same : r ≡ s = ground arith in subst IsLoaded same v
  ]
  visit-IsLoaded (file ext (some json)) r v s h = elim (Bool-cases (ext == text ".avsc")) [
    | inl avro ↦ store_named-IsLoaded json r (ops.json_names json) v s (rw avro at h)
    | inr other ↦ let same : r ≡ s = ground arith in subst IsLoaded same v
  ]

  go_on-IsLoaded :
      (o : Result (Registry P)) (r : Registry P)
      (rest : Registry P → Registry P × Option SchemaError)
      → IsLoaded r
      → Keeps r o
      → ((s : Registry P) → IsLoaded s → IsLoaded (rest s).0)
      → IsLoaded (go_on o r rest).0
  unfolding go_on
  go_on-IsLoaded (ok s) r rest v kept loads = loads s (kept s refl)
  go_on-IsLoaded (err x) r rest v kept loads = v

  -- However the walk of `LoadSchemas` ends, each subject of the cache leads to a schema of that subject
  -- that was parsed from its own text, if this was so before it.
  pub load_schemas-IsLoaded :
      (es : List Entry) (r : Registry P) → IsLoaded r → IsLoaded (load_schemas ops es r).0
  unfolding load_schemas
  load_schemas-IsLoaded [] r v = v
  load_schemas-IsLoaded (e ∷ es) r v =
      go_on-IsLoaded (visit ops e r) r (load_schemas ops es) v (visit-IsLoaded e r v)
        (load_schemas-IsLoaded es)

  set_id-IsLoaded :
      (ref : ℕ) (schema : Schema P) (r : Registry P) (id : Option ℕ)
      → IsLoaded r
      → lookup ref r.store ≡ some schema
      → IsLoaded (set_id ref schema r id).0
  unfolding set_id
  set_id-IsLoaded ref schema r none v h = v
  set_id-IsLoaded ref schema r (some id) v h = λ k j g.
      let stored = lookup-insert ref j (record schema { schema_id = id }) r.store in
      let (old, s, kept, (named, p, parsed, parses)) = v k j g in
      elim (Bool-cases (ref == j)) [
        | inl same ↦
            let eq : ref ≡ j = ground arith in
            let one : schema ≡ s = ground arith in
            (
              old,
              record schema { schema_id = id },
              ground arith,
              (
                ap (λ x. x.subject) one ∙ named,
                p,
                ap (λ x. x.parsed) one ∙ parsed,
                ap (λ x. ops.parse x.avro_json) one ∙ parses,
              ),
            )
        | inr other ↦ (old, s, ground arith, (named, p, parsed, parses))
      ]

  -- The id that an answer gives to a schema.
  abbrev pub given_id : Reply → Option ℕ
  given_id lost = none
  given_id unread = none
  given_id (answered code body) =
      if leb 200 code && ltb code 300 then ops.json_id (take (2 ^ 20) body) else none

  abbrev pub with_id : Option ℕ → Schema P → Schema P
  with_id none s = s
  with_id (some id) s = record s { schema_id = id }

  set_id-stored :
      (ref : ℕ) (schema : Schema P) (r : Registry P) (id : Option ℕ)
      → lookup ref r.store ≡ some schema
      → lookup ref (set_id ref schema r id).0.store ≡ some (with_id id schema)
  unfolding set_id
  set_id-stored ref schema r none h = h
  set_id-stored ref schema r (some id) h =
      let stored = lookup-insert ref ref (record schema { schema_id = id }) r.store in
      ground (arith, nat_comparable.same_iff ref ref)

  -- `Register` of the schema behind a pointer gives it the id of a 2xx answer whose body, of which 2 ^ 20
  -- bytes are read, has one, and changes nothing else of it; on every other answer it is as it was. In
  -- both cases each subject of the cache still leads to a schema of its own that was parsed.
  pub register-IsLoaded :
      (reply : Reply) (ref : ℕ) (schema : Schema P) (r : Registry P)
      → IsLoaded r
      → lookup ref r.store ≡ some schema
      → (lookup ref (register ops reply ref schema r).0.store
          ≡ some (with_id (given_id reply) schema))
        × IsLoaded (register ops reply ref schema r).0
  unfolding register
  register-IsLoaded lost ref schema r v h = (h, v)
  register-IsLoaded unread ref schema r v h = (h, v)
  register-IsLoaded (answered code body) ref schema r v h =
      elim (Bool-cases (leb 200 code && ltb code 300)) [
        | inl good ↦
            let id = ops.json_id (take (2 ^ 20) body) in
            rw good (set_id-stored ref schema r id h, set_id-IsLoaded ref schema r id v h)
        | inr bad ↦ rw bad (h, v)
      ]
