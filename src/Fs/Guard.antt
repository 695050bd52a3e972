-- ===== src/Fs/Guard.antt =====
-- Which paths the switch keeps from the disk: the guards of `fs_unlink`, `fs_mkdir`, `fs_rmdir` and
-- `fs_rename`.
use octans.Prelude.{
  ℕ, ◌≡◌, ◌≢◌, refl, ap₂, length, ◌↔◌, [], ◌∷◌, ◌++◌, some, Bool, true, ◌||◌, arith, inl, inr, ◌⊎◌,
  Bool-cases, drop, if◌then◌else◌, ℤ,
}
use octans.Fs.Base.{
  Backend, World, FilePath, dev_prefix, proc_prefix, has_prefix, ends_or_slash, is_dev_path,
  fs_proc_path_match, fs_err_rofs,
}
use octans.Fs.Ops.{fs_unlink, fs_mkdir, fs_rmdir, fs_rename, on_disk}

-- The path stands under /dev/, is /proc, or stands under /proc/.
abbrev pub IsReserved : FilePath → Type 0
IsReserved path =
    ((rest : FilePath) × (path ≡ dev_prefix ++ rest))
    ⊎ (path ≡ proc_prefix)
    ⊎ ((rest : FilePath) × (path ≡ proc_prefix ++ (b'/' ∷ rest)))

has_prefix_lem :
    (prefix path : FilePath)
    → has_prefix prefix path ≡ true
    → path ≡ prefix ++ drop (length prefix) path
has_prefix_lem [] path e = refl
has_prefix_lem (p ∷ ps) [] e = absurd (ground arith)
has_prefix_lem (p ∷ ps) (c ∷ cs) e =
    ap₂ (λ (x : ℕ) (xs : FilePath). x ∷ xs) (ground arith) (has_prefix_lem ps cs (ground arith))

proc-IsReserved : (path : FilePath) → fs_proc_path_match path ≡ true → IsReserved path
unfolding fs_proc_path_match
proc-IsReserved path e = elim (Bool-cases (has_prefix proc_prefix path)) [
  | inr other ↦ absurd (ground arith)
  | inl under ↦ ends (drop 5 path) (has_prefix_lem proc_prefix path under) (ground arith)
]
  where
    ends :
        (rest : FilePath) → path ≡ proc_prefix ++ rest → ends_or_slash rest ≡ true → IsReserved path
    ends [] split e = inr (inl split)
    ends (c ∷ cs) split e = let slash : c ≡ b'/' = ground arith in inr (inr (cs, rw slash at split))

-- The two tests of the guards, against how the path is spelled.
IsReserved-exact :
    (path : FilePath) → ((is_dev_path path || fs_proc_path_match path) ≡ true) ↔ IsReserved path
unfolding is_dev_path fs_proc_path_match
IsReserved-exact path = (spelled, tested)
  where
    spelled : (is_dev_path path || fs_proc_path_match path) ≡ true → IsReserved path
    spelled e = elim (Bool-cases (has_prefix dev_prefix path)) [
      | inl dev ↦ inl (drop 5 path, has_prefix_lem dev_prefix path dev)
      | inr other ↦ proc-IsReserved path (rw other at e)
    ]

    tested : IsReserved path → (is_dev_path path || fs_proc_path_match path) ≡ true
    tested (inl (rest, e)) = rw e refl
    tested (inr (inl e)) = rw e refl
    tested (inr (inr (rest, e))) = rw e refl

-- The four tests of `fs_rename`, grouped by path.
rename_tests : (d e p q : Bool) → (d || e || p || q) ≡ ((d || p) || (e || q))
rename_tests d e p q = ground arith

module _ {D : Type 0} (b : Backend D) (w : World D) where
  -- A call on a path that is there and not empty, which `act` does on the disk.
  guarded :
      (path : FilePath) (act : FilePath → World D × ℤ)
      → path ≢ []
      → on_disk b (some path) w act
        ≡ (if is_dev_path path || fs_proc_path_match path then (w, fs_err_rofs) else act path)
  guarded [] act ne = absurd (ne refl)
  guarded (c ∷ cs) act ne = refl

  -- On a path that is there and not empty, removing a file, making a directory and removing a
  -- directory are refused as read-only, with the world as it was, when the path stands under /dev/
  -- or /proc/ or is /proc; and are the disk's own calls on every other path.
  pub tree_calls_exact :
      (path : FilePath) (mode : ℕ)
      → path ≢ []
      → (IsReserved path
          × (fs_unlink b (some path) w ≡ (w, fs_err_rofs))
          × (fs_mkdir b (some path) mode w ≡ (w, fs_err_rofs))
          × (fs_rmdir b (some path) w ≡ (w, fs_err_rofs)))
        ⊎ ((¬ IsReserved path)
            × (fs_unlink b (some path) w ≡ b.ext4_unlink path w)
            × (fs_mkdir b (some path) mode w ≡ b.ext4_mkdir path mode w)
            × (fs_rmdir b (some path) w ≡ b.ext4_rmdir path w))
  unfolding fs_unlink fs_mkdir fs_rmdir
  tree_calls_exact path mode ne =
      let at_path = λ (act : FilePath → World D × ℤ). guarded path act ne in
      let unlink = at_path (λ p. b.ext4_unlink p w) in
      let mkdir = at_path (λ p. b.ext4_mkdir p mode w) in
      let rmdir = at_path (λ p. b.ext4_rmdir p w) in
      elim (Bool-cases (is_dev_path path || fs_proc_path_match path)) [
        | inl e ↦ inl ((IsReserved-exact path).0 e, rw e at unlink, rw e at mkdir, rw e at rmdir)
        | inr e ↦ inr (
          λ r. absurd (ground (arith, (IsReserved-exact path).1 r)),
          rw e at unlink,
          rw e at mkdir,
          rw e at rmdir,
        )
      ]

  -- Renaming, with both paths there and not empty, is refused as read-only, with the world as it
  -- was, when one of them stands under /dev/ or /proc/ or is /proc; and is the disk's own call
  -- otherwise.
  rename_exact :
      (old new : FilePath)
      → old ≢ []
      → new ≢ []
      → ((IsReserved old ⊎ IsReserved new)
          × (fs_rename b (some old) (some new) w ≡ (w, fs_err_rofs)))
        ⊎ ((¬ IsReserved old)
            × (¬ IsReserved new)
            × (fs_rename b (some old) (some new) w ≡ b.ext4_rename old new w))
  unfolding fs_rename
  rename_exact [] new ho hn = absurd (ho refl)
  rename_exact (o ∷ os) [] ho hn = absurd (hn refl)
  rename_exact (o ∷ os) (n ∷ ns) ho hn =
      let old = o ∷ os in
      let new = n ∷ ns in
      let test =
        rename_tests (is_dev_path old) (is_dev_path new) (fs_proc_path_match old)
          (fs_proc_path_match new) in
      elim (Bool-cases (is_dev_path old || fs_proc_path_match old)) [
        | inl e ↦ inl (inl ((IsReserved-exact old).0 e), rw (test, e) refl)
        | inr e ↦ elim (Bool-cases (is_dev_path new || fs_proc_path_match new)) [
          | inl e' ↦ inl (inr ((IsReserved-exact new).0 e'), rw (test, e, e') refl)
          | inr e' ↦ inr (
            λ r. absurd (ground (arith, (IsReserved-exact old).1 r)),
            λ r. absurd (ground (arith, (IsReserved-exact new).1 r)),
            rw (test, e, e') refl,
          )
        ]
      ]
