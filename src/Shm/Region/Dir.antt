-- ===== src/Shm/Region/Dir.antt =====
-- `ensure_secure_dir` of src/shm/region.rs, on what stands at the path of the directory.
use warp_cache.Base.{
  ℕ, ◌≡◌, ◌≢◌, ◌⊎◌, inl, inr, refl, sym, subst, arith, bit_and, Bool, true, false, ◌==◌,
  if◌then◌else◌, Option, none, some, Option-cases, Bool-cases,
}

-- What `symlink_metadata` tells: a symbolic link is not followed.
pub data FileType : Type 0 where
  directory symlink other : FileType

pub record Node : Type 0 where
  pub file_type : FileType
  pub uid : ℕ
  pub mode : ℕ

pub data DirError : Type 0 where
  not_a_directory owned_by_another : DirError
  os_error : ℕ → DirError

-- The operating system: the user, what the umask leaves of a mode, and the errors of its calls, if they
-- fail; the one of `mkdir` at a path where something stands only if it is not `AlreadyExists`.
pub record Os : Type 0 where
  pub current_uid : ℕ
  pub masked : ℕ → ℕ
  pub create_error : Option ℕ
  pub occupied_error : Option ℕ
  pub metadata_error : Option ℕ
  pub chmod_error : Option ℕ

-- The umask takes bits away.
pub record IsOs (os : Os) : Type 0 where
  pub takes_away : (mode bits : ℕ) → bit_and mode bits ≡ 0 → bit_and (os.masked mode) bits ≡ 0

-- 0o700 and 0o077
abbrev pub owner_only : ℕ
owner_only = 448

abbrev pub group_other : ℕ
group_other = 63

abbrev pub is_dir : FileType → Bool
is_dir directory = true
is_dir symlink = false
is_dir other = false

is_dir-directory : (t : FileType) → is_dir t ≡ true → t ≡ directory
is_dir-directory directory e = refl
is_dir-directory symlink e = absurd (ground arith)
is_dir-directory other e = absurd (ground arith)

-- what stands at the path afterwards, and the error, if there is one
module _ (os : Os) where
  -- `DirBuilder::new().mode(0o700).create(dir)` on a free path
  unfoldable pub create_dir : Option Node × Option DirError
  create_dir = elim os.create_error [
    | some e ↦ (none, some (os_error e))
    | none ↦ (
      some (record { file_type = directory; uid = os.current_uid; mode = os.masked owner_only }),
      none,
    )
  ]

  unfoldable pub tighten : Node → Option Node × Option DirError
  tighten n = elim os.chmod_error [
    | some e ↦ (some n, some (os_error e))
    | none ↦ (some (record n { mode = owner_only }), none)
  ]

  unfoldable pub check_dir : Node → Option Node × Option DirError
  unfolding tighten
  check_dir n =
      if is_dir n.file_type
      then (if n.uid == os.current_uid
          then (if bit_and n.mode group_other == 0 then (some n, none) else tighten n)
          else (some n, some owned_by_another))
      else (some n, some not_a_directory)

  unfoldable pub ensure_secure_dir : Option Node → Option Node × Option DirError
  unfolding create_dir check_dir
  ensure_secure_dir none = create_dir
  ensure_secure_dir (some n) = elim os.occupied_error [
    | some e ↦ (some n, some (os_error e))
    | none ↦ elim os.metadata_error [ some e ↦ (some n, some (os_error e)) | none ↦ check_dir n ]
  ]

-- a directory of the user without any access for the group and others
pub record IsSecure (os : Os) (n : Node) : Type 0 where
  pub dir : n.file_type ≡ directory
  pub owned : n.uid ≡ os.current_uid
  pub closed : bit_and n.mode group_other ≡ 0

-- What a result says: with no error a secure directory stands there, and else what stood there; and what is not
-- a directory of the user is refused.
pub record Ensures (os : Os) (there : Option Node) (r : Option Node × Option DirError)
    : Type 0 where
  pub secure : r.1 ≡ none → (n : Node) × (r.0 ≡ some n) × IsSecure os n
  pub unchanged : r.1 ≢ none → r.0 ≡ there
  pub refused :
      (n : Node)
      → there ≡ some n
      → (n.file_type ≢ directory) ⊎ (n.uid ≢ os.current_uid)
      → r.1 ≢ none

module _ (os : Os) where
  failed-Ensures : (there : Option Node) (e : DirError) → Ensures os there (there, some e)
  failed-Ensures there e = record {
    secure = λ h. absurd (ground arith);
    unchanged = λ h. refl;
    refused = λ n h d k. absurd (ground arith);
  }

  ended-Ensures :
      (there : Option Node) (n : Node)
      → IsSecure os n
      → ((m : Node) → there ≡ some m → (m.file_type ≡ directory) × (m.uid ≡ os.current_uid))
      → Ensures os there (some n, none)
  ended-Ensures there n secure own = record {
    secure = λ h. (n, refl, secure);
    unchanged = λ h. absurd (h refl);
    refused =
        λ m h d. elim d [ inl ne ↦ absurd (ne (own m h).0) | inr ne ↦ absurd (ne (own m h).1) ];
  }

  tighten-Ensures :
      (n : Node)
      → n.file_type ≡ directory
      → n.uid ≡ os.current_uid
      → Ensures os (some n) (tighten os n)
  unfolding tighten
  tighten-Ensures n dir owned = elim (Option-cases os.chmod_error) [
    | inl e ↦
        let run : tighten os n ≡ (some (record n { mode = owner_only }), none) = ground arith in
        subst (λ r. Ensures os (some n) r) (sym run)
          (ended-Ensures (some n) (record n { mode = owner_only })
            (record { dir = dir; owned = owned; closed = refl })
            (λ m h. (ground arith, ground arith)))
    | inr (k, e) ↦
        let run : tighten os n ≡ (some n, some (os_error k)) = ground arith in
        subst (λ r. Ensures os (some n) r) (sym run) (failed-Ensures (some n) (os_error k))
  ]

  check_dir-Ensures : (n : Node) → Ensures os (some n) (check_dir os n)
  unfolding check_dir
  check_dir-Ensures n = elim (Bool-cases (is_dir n.file_type)) [
    | inr e ↦ rw e (failed-Ensures (some n) not_a_directory)
    | inl e ↦ elim (Bool-cases (n.uid == os.current_uid)) [
      | inr f ↦ rw (e, f) (failed-Ensures (some n) owned_by_another)
      | inl f ↦
          let dir = is_dir-directory n.file_type e in
          let owned : n.uid ≡ os.current_uid = ground arith in
          elim (Bool-cases (bit_and n.mode group_other == 0)) [
            | inr g ↦ rw (e, f, g) (tighten-Ensures n dir owned)
            | inl g ↦
                rw (e, f, g)
                  (ended-Ensures (some n) n
                    (record { dir = dir; owned = owned; closed = ground arith })
                    (λ m h. (ground arith, ground arith)))
          ]
    ]
  ]

module _ (os : Os) (lawful : IsOs os) where
  create_dir-Ensures : Ensures os none (create_dir os)
  unfolding create_dir
  create_dir-Ensures =
      let made : Node = record {
        file_type = directory;
        uid = os.current_uid;
        mode = os.masked owner_only;
      } in
      elim (Option-cases os.create_error) [
        | inl e ↦
            let run : create_dir os ≡ (some made, none) = ground arith in
            subst (λ r. Ensures os none r) (sym run)
              (ended-Ensures os none made
                (record {
                  dir = refl;
                  owned = refl;
                  closed = lawful.takes_away owner_only group_other refl;
                })
                (λ m h. absurd (ground arith)))
        | inr (k, e) ↦
            let run : create_dir os ≡ (none, some (os_error k)) = ground arith in
            subst (λ r. Ensures os none r) (sym run) (failed-Ensures os none (os_error k))
      ]

  -- If `ensure_secure_dir` succeeds, a directory of the user without any access for the group and others stands at the
  -- path; if it fails, what stood there stands there unchanged; and what is not a directory of the user is never accepted.
  pub ensure_secure_dir-Ensures :
      (there : Option Node) → Ensures os there (ensure_secure_dir os there)
  unfolding ensure_secure_dir
  ensure_secure_dir-Ensures none = create_dir-Ensures
  ensure_secure_dir-Ensures (some n) = elim (Option-cases os.occupied_error) [
    | inr (k, e) ↦ simp (ensure_secure_dir, e) (failed-Ensures os (some n) (os_error k))
    | inl free ↦ elim (Option-cases os.metadata_error) [
      | inl e ↦ simp (ensure_secure_dir, free, e) (check_dir-Ensures os n)
      | inr (k, e) ↦ simp (ensure_secure_dir, free, e) (failed-Ensures os (some n) (os_error k))
    ]
  ]
