-- ===== src/Deploy/Content/Hooks.antt =====
-- Which hooks are executed.
use chassis_go.Prelude.{
  ℕ, ◌≡◌, refl, Bool, true, false, ◌==◌, ◌||◌, nat_comparable, text, has_prefix, prefix_rest, List,
  [], ◌∷◌, ◌++◌, arith,
}
use chassis_go.Deploy.{Deploy, System}
use chassis_go.Deploy.Content.{is_hook_name, executed, run_hook}

abbrev pub has_byte : ℕ → List ℕ → Bool
has_byte b [] = false
has_byte b (c ∷ s) = c == b || has_byte b s

plain_name :
    (name : List ℕ)
    → is_hook_name name ≡ true
    → (has_byte b'/' name ≡ false) × (has_byte b'.' name ≡ false)
unfolding is_hook_name
plain_name [] h = (refl, refl)
plain_name (c ∷ s) h =
    let (no_slash, no_dot) = plain_name s (ground arith) in (ground arith, ground arith)

module _ (sys : System) where
  run_hook_when :
      (d : Deploy) (name hook : List ℕ)
      → run_hook sys d name ≡ executed hook
      → (d.found ≡ true)
        × (is_hook_name name ≡ true)
        × (hook ≡ sys.join (sys.join d.dir (text "hooks")) name)
        × (has_prefix hook (sys.join d.dir (text "hooks") ++ b'/' ∷ []) ≡ true)
        × (sys.exists hook ≡ true)
  unfolding run_hook
  run_hook_when d name hook h =
      let path = sys.join (sys.join d.dir (text "hooks")) name in
      let same : hook ≡ path = ground arith in
      (ground arith, ground arith, same, rw same (ground arith), rw same (ground arith))

  -- A hook that is executed exists, and lies below the directory `hooks` of a deploy directory that was
  -- found; its name has no slash and no dot.
  pub run_hook_inside :
      (d : Deploy) (name hook : List ℕ)
      → run_hook sys d name ≡ executed hook
      → (d.found ≡ true)
        × (rest : List ℕ) × (hook ≡ (sys.join d.dir (text "hooks") ++ b'/' ∷ []) ++ rest)
        × (sys.exists hook ≡ true)
        × (has_byte b'/' name ≡ false)
        × (has_byte b'.' name ≡ false)
  run_hook_inside d name hook h =
      let (found, named, same, below, there) = run_hook_when d name hook h in
      let (rest, e) = prefix_rest hook (sys.join d.dir (text "hooks") ++ b'/' ∷ []) below in
      let (no_slash, no_dot) = plain_name name named in (found, rest, e, there, no_slash, no_dot)
