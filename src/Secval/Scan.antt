-- ===== src/Secval/Scan.antt =====
-- Which values the scan lets through.
use chassis_go.Prelude.{
  ℕ, ◌+◌, ◌≤◌, ◌≡◌, Bool, true, false, ◌&&◌, ◌||◌, not, leb, Option, none, some, arith, Bool-cases,
  inl, inr,
}
use Prim.Native.Nat.{max}
use chassis_go.Secval.{
  Json, scalar, object, array, Fields, no_fields, field, Items, no_items, item, is_dangerous,
  ScanError, max_nesting_depth, validate_value, validate_fields, validate_items,
}

-- How deep objects and arrays are nested.
mutual
  pub nesting : Json → ℕ
  nesting scalar = 0
  nesting (object fields) = 1 + nesting_fields fields
  nesting (array items) = 1 + nesting_items items

  nesting_fields : Fields → ℕ
  nesting_fields no_fields = 0
  nesting_fields (field key value fields) = max (nesting value) (nesting_fields fields)

  nesting_items : Items → ℕ
  nesting_items no_items = 0
  nesting_items (item value items) = max (nesting value) (nesting_items items)

-- Whether some key, however deep, is dangerous.
mutual
  pub has_dangerous : Json → Bool
  has_dangerous scalar = false
  has_dangerous (object fields) = fields_dangerous fields
  has_dangerous (array items) = items_dangerous items

  fields_dangerous : Fields → Bool
  fields_dangerous no_fields = false
  fields_dangerous (field key value fields) =
      is_dangerous key || has_dangerous value || fields_dangerous fields

  items_dangerous : Items → Bool
  items_dangerous no_items = false
  items_dangerous (item value items) = has_dangerous value || items_dangerous items

abbrev pub passes : Option ScanError → Bool
passes none = true
passes (some e) = false

mutual
  unfolding validate_value nesting has_dangerous

  value-passes :
      (v : Json) (depth : ℕ)
      → depth ≤ max_nesting_depth
      → passes (validate_value v depth)
        ≡ (leb (depth + nesting v) max_nesting_depth && not (has_dangerous v))
  value-passes scalar depth h = ground arith
  value-passes (object fields) depth h = elim (Bool-cases (leb max_nesting_depth depth)) [
    | inl deep ↦ ground arith
    | inr room ↦
        let below : depth + 1 ≤ max_nesting_depth = ground arith in
        ground (arith, fields-passes fields (depth + 1) below)
  ]
  value-passes (array items) depth h = elim (Bool-cases (leb max_nesting_depth depth)) [
    | inl deep ↦ ground arith
    | inr room ↦
        let below : depth + 1 ≤ max_nesting_depth = ground arith in
        ground (arith, items-passes items (depth + 1) below)
  ]

  fields-passes :
      (fields : Fields) (depth : ℕ)
      → depth ≤ max_nesting_depth
      → passes (validate_fields fields depth)
        ≡ (leb (depth + nesting_fields fields) max_nesting_depth && not (fields_dangerous fields))
  fields-passes no_fields depth h = ground arith
  fields-passes (field key value fields) depth h =
      ground (arith, value-passes value depth h, fields-passes fields depth h)

  items-passes :
      (items : Items) (depth : ℕ)
      → depth ≤ max_nesting_depth
      → passes (validate_items items depth)
        ≡ (leb (depth + nesting_items items) max_nesting_depth && not (items_dangerous items))
  items-passes no_items depth h = ground arith
  items-passes (item value items) depth h =
      ground (arith, value-passes value depth h, items-passes items depth h)

-- The scan lets a value through exactly if its objects and arrays are nested at most twenty deep and
-- no key, however deep, is a dangerous one.
pub passes-validate_value :
    (v : Json)
    → passes (validate_value v 0) ≡ (leb (nesting v) max_nesting_depth && not (has_dangerous v))
passes-validate_value v = ground (arith, value-passes v 0 (omega arith))
