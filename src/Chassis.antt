-- ===== src/Chassis.antt =====
-- chassis.go and freshness.go: the check of the major version, the ports of services, and the rebuild
-- of a stale binary. Texts are lists of bytes. The file system, the process, the build information
-- and the functions of paths and strings are parameters.
pub mod Versions
pub mod Ports
pub mod Tests
use chassis_go.Prelude.{
  ℕ, zero, suc, ◌+◌, ◌-◌, ◌*◌, ◌%◌, ◌^◌, Bool, true, false, ltb, leb, ◌==◌, ◌&&◌, ◌||◌, not,
  nat_comparable, text_comparable, text, is_empty, has_prefix, drop, Option, none, some, List, [],
  ◌∷◌, ◌++◌, ℤ, pos, negsuc, parse_int64, split_on, if◌then◌else◌,
}

-- The hash of `Port`, from the value `h` on, as a uint32.
pub hash_bytes : ℕ → List ℕ → ℕ
hash_bytes h [] = h
hash_bytes h (c ∷ name) = hash_bytes ((h * 33 + c) % 2 ^ 32) name

-- `port < 1 || port > 65535`; none is the panic.
checked_port : ℕ → Option ℕ
checked_port p = if ltb p 1 || ltb 65535 p then none else some p

shift : ℕ → Option ℤ → Option ℕ
unfolding checked_port
shift p none = checked_port p
shift p (some (pos n)) = checked_port (p + n)
shift p (some (negsuc n)) = checked_port (p - (n + 1))

-- `Port`, with the offset if one is given.
pub port : List ℕ → Option ℤ → Option ℕ
unfolding hash_bytes shift
port name offset = shift (5000 + hash_bytes 5381 name % 43001) offset

-- `na > nb`.
pub greater : ℤ → ℤ → Bool
greater (pos m) (pos n) = ltb n m
greater (pos m) (negsuc n) = true
greater (negsuc m) (pos n) = false
greater (negsuc m) (negsuc n) = ltb m n

-- A round of the loop, on what `strconv.Atoi` gives, before the others.
pub compare_parts : Option ℤ → Option ℤ → Bool → Bool
unfolding greater
compare_parts none _ rest = false
compare_parts (some m) none rest = false
compare_parts (some m) (some n) rest =
    if greater m n then true else if greater n m then false else rest

-- The loop over the parts; a part that is missing is zero.
pub newer_parts : List (List ℕ) → List (List ℕ) → Bool
unfolding compare_parts
newer_parts [] [] = false
newer_parts (x ∷ xs) [] = compare_parts (parse_int64 x) (some (pos 0)) (newer_parts xs [])
newer_parts [] (y ∷ ys) = compare_parts (some (pos 0)) (parse_int64 y) (newer_parts [] ys)
newer_parts (x ∷ xs) (y ∷ ys) = compare_parts (parse_int64 x) (parse_int64 y) (newer_parts xs ys)

-- `semverNewer`.
pub semver_newer : List ℕ → List ℕ → Bool
unfolding newer_parts
semver_newer a b =
    if is_empty a || is_empty b then false else newer_parts (split_on b'.' a) (split_on b'.' b)

-- What the check of freshness reads. The directories above the binary are in the order in which they
-- are walked up; the build information is the path of the main package and that of its module.
pub record World : Type 0 where
  pub app_version : List ℕ
  pub no_rebuild : List ℕ
  pub rebuild_guard : List ℕ
  pub executable : Option (List ℕ)
  pub directories_up : List ℕ → List (List ℕ)
  pub exists : List ℕ → Bool
  pub read_file : List ℕ → Option (List ℕ)
  pub join : List ℕ → List ℕ → List ℕ
  pub lines : List ℕ → List (List ℕ)
  pub trim_space : List ℕ → List ℕ
  pub build_info : Option (List ℕ × List ℕ)
  pub relative : List ℕ → List ℕ → Option (List ℕ)
  pub directory : List ℕ → List ℕ
  pub rebuilt : List ℕ → List ℕ → List ℕ → Bool

-- How it ends: nothing is stale or can be told to be, a stale binary goes on for want of a package or
-- of a build, or it is rebuilt from a root and replaced.
pub data Freshness : Type 0 where
  kept no_package build_failed : Freshness
  replaced : List ℕ → List ℕ → Freshness

pub with_some : {A : Type 0} → Option A → (A → Freshness) → Freshness
with_some none f = kept
with_some (some a) f = f a

module _ (w : World) where
  first_root : List (List ℕ) → Option (List ℕ)
  first_root [] = none
  first_root (dir ∷ dirs) =
      if w.exists (w.join dir (text "go.mod")) && w.exists (w.join dir (text "VERSION"))
      then some dir
      else first_root dirs

  -- `findModuleRoot`.
  pub find_module_root : List ℕ → Option (List ℕ)
  unfolding first_root
  find_module_root path = first_root (w.directories_up path)

  module_line : List (List ℕ) → List ℕ
  module_line [] = []
  module_line (line ∷ lines) =
      let trimmed = w.trim_space line in
      if has_prefix trimmed (text "module ")
      then w.trim_space (drop 6 trimmed)
      else module_line lines

  -- `readModulePath`.
  pub read_module_path : List ℕ → List ℕ
  unfolding module_line
  read_module_path dir = elim (w.read_file (w.join dir (text "go.mod"))) [
    | none ↦ []
    | some content ↦ module_line (w.lines content)
  ]

  below : List ℕ → Option (List ℕ) → List ℕ
  below module_path none = []
  below module_path (some rel) = if rel == text "." then module_path else module_path ++ b'/' ∷ rel

  -- `resolveMainPackage`.
  pub resolve_main_package : List ℕ → List ℕ → List ℕ → List ℕ → List ℕ
  unfolding below
  resolve_main_package info_path module_path root path =
      if not (is_empty info_path) && not (info_path == text "command-line-arguments")
      then info_path
      else below module_path (w.relative root (w.directory path))

  rebuild : List ℕ → List ℕ → List ℕ → Freshness
  rebuild root pkg path =
      if is_empty pkg
      then no_package
      else if w.rebuilt root pkg path
      then replaced root pkg
      else build_failed

  -- The comparison with the version on disk.
  compare_version : List ℕ → List ℕ → List ℕ → List ℕ → List ℕ → Freshness
  unfolding rebuild
  compare_version path root module_path info_path content =
      if semver_newer (w.trim_space content) w.app_version
      then rebuild root (resolve_main_package info_path module_path root path) path
      else kept

  check_module : List ℕ → List ℕ → List ℕ × List ℕ → Freshness
  unfolding compare_version
  check_module path root (info_path, main_module) =
      let on_disk = read_module_path root in
      if is_empty on_disk || not (main_module == on_disk)
      then kept
      else with_some (w.read_file (w.join root (text "VERSION")))
          (compare_version path root on_disk info_path)

  check_root : List ℕ → List ℕ → Freshness
  unfolding check_module
  check_root path root = with_some w.build_info (check_module path root)

  check_binary : List ℕ → Freshness
  unfolding check_root
  check_binary path = with_some (find_module_root path) (check_root path)

  -- `checkFreshness`, up to the replacement of the process.
  pub check_freshness : Freshness
  unfolding check_binary
  check_freshness =
      if is_empty w.app_version || not (is_empty w.no_rebuild) || not (is_empty w.rebuild_guard)
      then kept
      else with_some w.executable check_binary

-- Whether `--version` is among the arguments before `--`.
pub has_version_flag : List (List ℕ) → Bool
has_version_flag [] = false
has_version_flag (arg ∷ args) =
    if arg == text "--version"
    then true
    else if arg == text "--"
    then false
    else has_version_flag args

-- How a check ends: the process exits with a code, or goes on.
pub data Check : Type 0 where
  exits : ℕ → Check
  goes_on : Check

first_part : List (List ℕ) → List ℕ
first_part [] = []
first_part (part ∷ parts) = part

matches_major : Option ℤ → ℤ → Check
unfolding greater
matches_major none required = exits 1
matches_major (some actual) required =
    if greater actual required || greater required actual then exits 1 else goes_on

-- `RequireMajor`, on the arguments and the version of chassis, when the binary is kept: the end, and
-- whether the version is asserted from now on.
pub require_major : List (List ℕ) → List ℕ → ℤ → Bool → Check × Bool
unfolding has_version_flag matches_major first_part
require_major args version required asserted =
    if has_version_flag args
    then (exits 0, asserted)
    else (matches_major (parse_int64 (first_part (split_on b'.' version))) required, true)

-- `AssertVersionChecked`.
pub assert_version_checked : Bool → Check
assert_version_checked asserted = if asserted then goes_on else exits 1
