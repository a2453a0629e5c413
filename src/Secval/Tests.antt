-- ===== src/Secval/Tests.antt =====
-- A nested value, and a file name with a path in it.
use chassis_go.Prelude.{◌≡◌, ◌&&◌, not, leb, text}
use chassis_go.Secval.{
  Json, scalar, object, array, no_fields, field, no_items, item, max_nesting_depth, validate_value,
}
use chassis_go.Secval.Scan.{passes, nesting, has_dangerous, passes-validate_value}

abbrev nested : Json
nested = object (
    field (text "a") (array (item (object (field (text "PROTO-type") scalar no_fields)) no_items))
      no_fields)

passes-validate_value_example :
    passes (validate_value nested 0)
    ≡ (leb (nesting nested) max_nesting_depth && not (has_dangerous nested))
passes-validate_value_example = passes-validate_value nested
