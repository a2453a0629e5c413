-- ===== src/Chassis/Versions.antt =====
-- One version at most is newer than the other, and only a newer one is built.
use chassis_go.Prelude.{
  ℕ, ◌≡◌, refl, ap, sym, ◌∙◌, Bool, true, false, ◌==◌, ◌||◌, not, nat_comparable, text_comparable,
  text, is_empty, Option, none, some, List, [], ◌∷◌, ℤ, pos, negsuc, parse_int64, arith, Bool-cases,
  inl, inr, split_on, IsSplit, split_on-IsSplit, ◌++◌, ◌<◌, ◌&&◌, All,
}
use chassis_go.Chassis.{
  first_root, greater, compare_parts, newer_parts, semver_newer, World, Freshness, replaced,
  with_some, rebuild, compare_version, check_module, check_root, check_binary, check_freshness,
  read_module_path, find_module_root,
}

greater_strict : (m n : ℤ) → greater m n ≡ true → greater n m ≡ false
unfolding greater
greater_strict (pos m) (pos n) h = ground arith
greater_strict (pos m) (negsuc n) h = refl
greater_strict (negsuc m) (pos n) h = cc
greater_strict (negsuc m) (negsuc n) h = ground arith

compare_parts_strict :
    (a b : Option ℤ) (r s : Bool)
    → compare_parts a b r ≡ true
    → (r ≡ true → s ≡ false)
    → compare_parts b a s ≡ false
unfolding compare_parts
compare_parts_strict none b r s h g = cc
compare_parts_strict (some m) none r s h g = cc
compare_parts_strict (some m) (some n) r s h g = elim (Bool-cases (greater m n)) [
  | inl more ↦ ground (arith, greater_strict m n more)
  | inr no_more ↦ ground arith
]

newer_parts_strict : (xs ys : List (List ℕ)) → newer_parts xs ys ≡ true → newer_parts ys xs ≡ false
unfolding newer_parts
newer_parts_strict [] [] h = refl
newer_parts_strict (x ∷ xs) [] h =
    compare_parts_strict (parse_int64 x) (some (pos 0)) (newer_parts xs []) (newer_parts [] xs) h
      (newer_parts_strict xs [])
newer_parts_strict [] (y ∷ ys) h =
    compare_parts_strict (some (pos 0)) (parse_int64 y) (newer_parts [] ys) (newer_parts ys []) h
      (newer_parts_strict [] ys)
newer_parts_strict (x ∷ xs) (y ∷ ys) h =
    compare_parts_strict (parse_int64 x) (parse_int64 y) (newer_parts xs ys) (newer_parts ys xs) h
      (newer_parts_strict xs ys)

-- Of two versions one at most is newer than the other; so no version is newer than itself.
pub semver_newer_strict : (a b : List ℕ) → semver_newer a b ≡ true → semver_newer b a ≡ false
unfolding semver_newer
semver_newer_strict a b h = elim (Bool-cases (is_empty a || is_empty b)) [
  | inl blank ↦ absurd (ground arith)
  | inr given ↦
      let strict = newer_parts_strict (split_on b'.' a) (split_on b'.' b) (ground arith) in
      ground arith
]

with_some_replaced :
    {A : Type 0} (o : Option A) (f : A → Freshness) (root pkg : List ℕ)
    → with_some o f ≡ replaced root pkg
    → (a : A) × (o ≡ some a) × (f a ≡ replaced root pkg)
unfolding with_some
with_some_replaced none f root pkg h = cc
with_some_replaced (some a) f root pkg h = (a, refl, h)

-- The first number of a version, which is zero where there are no parts.
abbrev pub first_number : List (List ℕ) → Option ℤ
first_number [] = some (pos 0)
first_number (x ∷ xs) = parse_int64 x

abbrev pub other_parts : List (List ℕ) → List (List ℕ)
other_parts [] = []
other_parts (x ∷ xs) = xs

-- The order of the integers.
pub data Above : ℤ → ℤ → Type 0 where
  among_pos : (m n : ℕ) → n < m → Above (pos m) (pos n)
  over_negsuc : (m n : ℕ) → Above (pos m) (negsuc n)
  among_negsuc : (m n : ℕ) → m < n → Above (negsuc m) (negsuc n)

-- The first parts that differ are numbers of which the first is above the second.
pub data Ahead : List (List ℕ) → List (List ℕ) → Type 0 where
  at_first :
      (xs ys : List (List ℕ)) (m n : ℤ)
      → first_number xs ≡ some m
      → first_number ys ≡ some n
      → Above m n
      → Ahead xs ys
  at_later :
      (xs ys : List (List ℕ)) (m : ℤ)
      → first_number xs ≡ some m
      → first_number ys ≡ some m
      → Ahead (other_parts xs) (other_parts ys)
      → Ahead xs ys

abbrev pub IsNewer : List ℕ → List ℕ → Type 0
IsNewer a b =
    (xs : List (List ℕ)) × (ys : List (List ℕ)) × IsSplit b'.' a xs
    × IsSplit b'.' b ys
    × Ahead xs ys

greater-Above : (m n : ℤ) → greater m n ≡ true → Above m n
unfolding greater
greater-Above (pos m) (pos n) h = among_pos m n (ground arith)
greater-Above (pos m) (negsuc n) h = over_negsuc m n
greater-Above (negsuc m) (pos n) h = cc
greater-Above (negsuc m) (negsuc n) h = among_negsuc m n (ground arith)

neither_greater : (m n : ℤ) → greater m n ≡ false → greater n m ≡ false → m ≡ n
unfolding greater
neither_greater (pos m) (pos n) h g = ap pos (ground arith)
neither_greater (pos m) (negsuc n) h g = cc
neither_greater (negsuc m) (pos n) h g = cc
neither_greater (negsuc m) (negsuc n) h g = ap negsuc (ground arith)

compare_parts-Ahead :
    (xs ys : List (List ℕ)) (a b : Option ℤ) (later : Bool)
    → first_number xs ≡ a
    → first_number ys ≡ b
    → compare_parts a b later ≡ true
    → (later ≡ true → Ahead (other_parts xs) (other_parts ys))
    → Ahead xs ys
unfolding compare_parts
compare_parts-Ahead xs ys none b later x y h rest = cc
compare_parts-Ahead xs ys (some m) none later x y h rest = cc
compare_parts-Ahead xs ys (some m) (some n) later x y h rest = elim (Bool-cases (greater m n)) [
  | inl more ↦ at_first xs ys m n x y (greater-Above m n more)
  | inr no_more ↦ elim (Bool-cases (greater n m)) [
    | inl less ↦ absurd (ground arith)
    | inr no_less ↦
        let same = neither_greater m n no_more no_less in
        at_later xs ys m x (y ∙ ap some (sym same)) (rest (ground arith))
  ]
]

newer_parts-Ahead : (xs ys : List (List ℕ)) → newer_parts xs ys ≡ true → Ahead xs ys
unfolding newer_parts
newer_parts-Ahead [] [] h = cc
newer_parts-Ahead (x ∷ xs) [] h =
    compare_parts-Ahead (x ∷ xs) [] _ _ (newer_parts xs []) refl refl h (newer_parts-Ahead xs [])
newer_parts-Ahead [] (y ∷ ys) h =
    compare_parts-Ahead [] (y ∷ ys) _ _ (newer_parts [] ys) refl refl h (newer_parts-Ahead [] ys)
newer_parts-Ahead (x ∷ xs) (y ∷ ys) h =
    compare_parts-Ahead (x ∷ xs) (y ∷ ys) _ _ (newer_parts xs ys) refl refl h
      (newer_parts-Ahead xs ys)

semver_newer-IsNewer : (a b : List ℕ) → semver_newer a b ≡ true → IsNewer a b
unfolding semver_newer
semver_newer-IsNewer a b h = (
  split_on b'.' a,
  split_on b'.' b,
  split_on-IsSplit b'.' a,
  split_on-IsSplit b'.' b,
  newer_parts-Ahead (split_on b'.' a) (split_on b'.' b) (ground arith),
)

module _ (w : World) where
  -- Whether a directory has both files of a module root.
  abbrev pub has_both : List ℕ → Bool
  has_both dir = w.exists (w.join dir (text "go.mod")) && w.exists (w.join dir (text "VERSION"))

  -- The first directory with both files.
  abbrev pub IsFirstRoot : List (List ℕ) → List ℕ → Type 0
  IsFirstRoot dirs root =
      (before : List (List ℕ)) × (after : List (List ℕ)) × (dirs ≡ before ++ root ∷ after)
      × (has_both root ≡ true)
      × All (λ dir. has_both dir ≡ false) before

  first_root-IsFirstRoot :
      (dirs : List (List ℕ)) (root : List ℕ) → first_root w dirs ≡ some root → IsFirstRoot dirs root
  unfolding first_root
  first_root-IsFirstRoot [] root h = cc
  first_root-IsFirstRoot (dir ∷ dirs) root h = elim (Bool-cases (has_both dir)) [
    | inl both ↦
        let same : dir ≡ root = ground arith in
        ([], dirs, ap (λ d. d ∷ dirs) same, ap has_both (sym same) ∙ both, tt)
    | inr lacks ↦
        let (before, after, split, both, others) =
          first_root-IsFirstRoot dirs root (rw lacks at h) in
        (dir ∷ before, after, ap (λ ds. dir ∷ ds) split, both, (lacks, others))
  ]

  find_module_root-IsFirstRoot :
      (path root : List ℕ)
      → find_module_root w path ≡ some root
      → IsFirstRoot (w.directories_up path) root
  unfolding find_module_root
  find_module_root-IsFirstRoot path root h = first_root-IsFirstRoot (w.directories_up path) root h

  -- What must hold when a binary is replaced by one that was built at a root.
  abbrev pub IsStale : List ℕ → List ℕ → Type 0
  IsStale root pkg =
      (path : List ℕ) × (content : List ℕ) × (w.executable ≡ some path)
      × IsFirstRoot (w.directories_up path) root
      × (w.read_file (w.join root (text "VERSION")) ≡ some content)
      × IsNewer (w.trim_space content) w.app_version
      × (w.rebuilt root pkg path ≡ true)

  compare_version_replaced :
      (path root module_path info_path content r pkg : List ℕ)
      → compare_version w path root module_path info_path content ≡ replaced r pkg
      → (semver_newer (w.trim_space content) w.app_version ≡ true)
        × (root ≡ r)
        × (w.rebuilt root pkg path ≡ true)
  unfolding compare_version rebuild
  compare_version_replaced path root module_path info_path content r pkg h =
      (ground arith, ground arith, ground arith)

  check_module_replaced :
      (path root r pkg : List ℕ) (info : List ℕ × List ℕ)
      → check_module w path root info ≡ replaced r pkg
      → (content : List ℕ) × (w.read_file (w.join root (text "VERSION")) ≡ some content)
        × (semver_newer (w.trim_space content) w.app_version ≡ true)
        × (root ≡ r)
        × (w.rebuilt root pkg path ≡ true)
  unfolding check_module
  check_module_replaced path root r pkg (info_path, main_module) h =
      let on_disk = read_module_path w root in
      elim (Bool-cases (is_empty on_disk || not (main_module == on_disk))) [
        | inl other ↦ absurd (ground arith)
        | inr same ↦
            let passed = rw same at h in
            let (content, read, compared) = with_some_replaced _ _ r pkg passed in
            let (newer, same_root, built) =
              compare_version_replaced path root on_disk info_path content r pkg compared in
            (content, read, newer, same_root, built)
      ]

  -- A binary is rebuilt and replaced only at the first directory above it that has both go.mod and
  -- VERSION, only if the version there is newer than the one compiled in, which is so where in the
  -- first numbers between the dots that differ it has the greater one, a missing number being zero,
  -- and only if the build succeeds and the guard against a second rebuild is not set.
  pub check_freshness-IsStale :
      (root pkg : List ℕ)
      → check_freshness w ≡ replaced root pkg
      → (is_empty w.rebuild_guard ≡ true) × IsStale root pkg
  unfolding check_freshness check_binary check_root
  check_freshness-IsStale root pkg h =
      elim (Bool-cases
        (is_empty w.app_version || not (is_empty w.no_rebuild) || not (is_empty w.rebuild_guard))) [
          | inl off ↦ absurd (ground arith)
          | inr on ↦
              let (path, found, at_binary) =
                with_some_replaced w.executable _ root pkg (rw on at h) in
              let (r, rooted, at_root) =
                with_some_replaced (find_module_root w path) _ root pkg at_binary in
              let (info, built, at_module) = with_some_replaced w.build_info _ root pkg at_root in
              let (content, read, newer, same, done) =
                check_module_replaced path r root pkg info at_module in
              let file = ap (λ d. w.read_file (w.join d (text "VERSION"))) (sym same) ∙ read in
              let made = ap (λ d. w.rebuilt d pkg path) (sym same) ∙ done in
              let first = find_module_root-IsFirstRoot path root (rooted ∙ ap some same) in
              let ahead = semver_newer-IsNewer (w.trim_space content) w.app_version newer in
              (ground arith, (path, content, found, first, file, ahead, made))
        ]
