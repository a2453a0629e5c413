-- ===== src/Config/Tests.antt =====
-- A struct of one port, from its default.
use chassis_go.Prelude.{ℕ, Bool, true, false, text, Option, none, some, List, [], ◌∷◌, ltb}
use chassis_go.Config.{integer, Tags, plain, Fields, no_fields, and_field, Ops}

abbrev no_ops : Ops ℕ ℕ
no_ops = record {
  parse_duration = λ s. none;
  parse_float = λ s. none;
  parse_bool = λ s. none;
  trim_space = λ s. s;
  words = λ s. [];
  show = λ v. [];
  as_float = λ v. 0;
  less = ltb;
  matcher = λ s. none;
}

abbrev port_field : Tags
port_field = record {
  kind = integer;
  env_key = text "PORT";
  default = some (text "80");
  required = [];
  validate = [];
}

abbrev one_port : Fields
one_port = and_field (plain port_field) no_fields
