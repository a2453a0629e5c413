-- ===== src/Chassis/Tests.antt =====
-- A binary of version 1.2 beside sources of version 1.10.
use chassis_go.Prelude.{
  ℕ, ◌+◌, ◌≤◌, ◌≡◌, refl, Bool, true, false, text, is_empty, Option, none, some, List, [], ◌∷◌,
  ◌++◌, pos, arith, ◌==◌, text_comparable, if◌then◌else◌,
}
use chassis_go.Chassis.{World, port, semver_newer, Freshness, replaced, check_freshness}
use chassis_go.Chassis.Versions.{IsStale, check_freshness-IsStale}

newer : semver_newer (text "1.10") (text "1.2") ≡ true
unfolding semver_newer chassis_go.Chassis.newer_parts chassis_go.Prelude.split_on
    chassis_go.Chassis.compare_parts chassis_go.Chassis.greater chassis_go.Prelude.parse_int64
    chassis_go.Prelude.parse_decimal
newer = refl

abbrev stale : World
stale = record {
  app_version = text "1.2";
  no_rebuild = [];
  rebuild_guard = [];
  executable = some (text "/m/b");
  directories_up = λ path. text "/m" ∷ [];
  exists = λ path. true;
  read_file =
      λ path. if path == text "/m/VERSION" then some (text "1.10") else some (text "module m");
  join = λ a b. a ++ b'/' ∷ b;
  lines = λ s. s ∷ [];
  trim_space = λ s. if s == text " m" then text "m" else s;
  build_info = some (text "m/b", text "m");
  relative = λ root dir. none;
  directory = λ path. path;
  rebuilt = λ root pkg path. true;
}

stale_replaced : check_freshness stale ≡ replaced (text "/m") (text "m/b")
unfolding check_freshness chassis_go.Chassis.check_binary chassis_go.Chassis.check_root
    chassis_go.Chassis.check_module chassis_go.Chassis.compare_version chassis_go.Chassis.rebuild
    chassis_go.Chassis.with_some chassis_go.Chassis.find_module_root chassis_go.Chassis.first_root
    chassis_go.Chassis.read_module_path chassis_go.Chassis.module_line
    chassis_go.Chassis.resolve_main_package chassis_go.Chassis.below chassis_go.Chassis.semver_newer
    chassis_go.Chassis.newer_parts chassis_go.Prelude.split_on chassis_go.Chassis.compare_parts
    chassis_go.Chassis.greater chassis_go.Prelude.parse_int64 chassis_go.Prelude.parse_decimal
    chassis_go.Prelude.same_text chassis_go.Prelude.has_prefix
stale_replaced = refl

check_freshness-IsStale_example : (true ≡ true) × IsStale stale (text "/m") (text "m/b")
check_freshness-IsStale_example =
    check_freshness-IsStale stale (text "/m") (text "m/b") stale_replaced
