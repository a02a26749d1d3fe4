-- ===== src/Helpers/Accessible.antt =====
-- `checkPath` without leave to write, beside what it is to test.
use worker_informer.Base.{
  ℕ, ◌*◌, ◌^◌, ◌++◌, Bool, true, false, ◌&&◌, ◌||◌, Option, none, some, List, [], ◌∷◌, ◌≡◌, refl,
  inl, inr, ◌==◌, if◌then◌else◌, Bool-cases, Bytes, codes, equal,
}
use worker_informer.Helpers.Path.{
  Stat, System, Outcome, returned, has_any, file_permitted, directory_permitted, check_existing,
  check_element, then_go_on, check_elements, elements_to_end, check_path,
}

module _ {Fs : Type 0} (sys : System Fs) where
  -- The permission bits that count for this process: the owner's, else the group's, else the others'.
  abbrev pub class_shift : Stat → ℕ
  class_shift info = if info.st_uid == sys.uid then 6 else if info.st_gid == sys.gid then 3 else 0

  -- A file that may be read or written, or a directory that may be read or searched.
  abbrev pub is_accessible : Bytes → Fs → Bool
  is_accessible test fs =
      let info = sys.stat test fs in
      if sys.is_regular_file test fs
      then has_any info.st_mode (6 * 2 ^ class_shift info)
      else sys.is_directory test fs && has_any info.st_mode (5 * 2 ^ class_shift info)

  abbrev pub is_there : Option Bool → Bool
  is_there none = false
  is_there (some b) = b

  -- The prefixes of a path, but for the empty one and the root.
  abbrev pub all_accessible : List Bytes → Bytes → Fs → Bool
  all_accessible [] test fs = true
  all_accessible (e ∷ es) test fs =
      let path = sys.join test e in
      (equal path []
        || (equal path (codes "/") || (is_there (sys.exists path fs) && is_accessible path fs)))
      && all_accessible es path fs

  file_permitted_lem :
      (info : Stat) → file_permitted sys info ≡ has_any info.st_mode (6 * 2 ^ class_shift info)
  unfolding file_permitted
  file_permitted_lem info = elim (Bool-cases (info.st_uid == sys.uid)) [
    | inl e ↦ elim (Bool-cases (info.st_gid == sys.gid)) [
      | inl f ↦ rw (e, f) refl
      | inr f ↦ rw (e, f) refl
    ]
    | inr e ↦ elim (Bool-cases (info.st_gid == sys.gid)) [
      | inl f ↦ rw (e, f) refl
      | inr f ↦ rw (e, f) refl
    ]
  ]

  directory_permitted_lem :
      (info : Stat) → directory_permitted sys info ≡ has_any info.st_mode (5 * 2 ^ class_shift info)
  unfolding directory_permitted
  directory_permitted_lem info = elim (Bool-cases (info.st_uid == sys.uid)) [
    | inl e ↦ elim (Bool-cases (info.st_gid == sys.gid)) [
      | inl f ↦ rw (e, f) refl
      | inr f ↦ rw (e, f) refl
    ]
    | inr e ↦ elim (Bool-cases (info.st_gid == sys.gid)) [
      | inl f ↦ rw (e, f) refl
      | inr f ↦ rw (e, f) refl
    ]
  ]

  check_existing_lem :
      (test : Bytes) (fs : Fs) (b : Bool)
      → check_existing sys false test fs (some b) ≡ returned (b && is_accessible test fs) fs
  check_existing_lem test fs false = refl
  check_existing_lem test fs true = elim (Bool-cases (sys.is_regular_file test fs)) [
    | inl e ↦ rw (e, file_permitted_lem (sys.stat test fs)) refl
    | inr e ↦ elim (Bool-cases (sys.is_directory test fs)) [
      | inl f ↦ rw (e, f, directory_permitted_lem (sys.stat test fs)) refl
      | inr f ↦ rw (e, f) refl
    ]
  ]

  -- `exists` throws nowhere.
  abbrev pub IsReadable : Fs → Type 0
  IsReadable fs = (t : Bytes) → (b : Bool) × (sys.exists t fs ≡ some b)

  check_element_lem :
      (test : Bytes) (fs : Fs)
      → IsReadable fs
      → check_element sys false test fs
        ≡ returned
            (equal test []
              || (equal test (codes "/")
                  || (is_there (sys.exists test fs) && is_accessible test fs)))
            fs
  unfolding check_element
  check_element_lem test fs readable =
      let (b, found) = readable test in
      elim (Bool-cases (equal test [])) [
        | inl e ↦ rw e refl
        | inr e ↦ elim (Bool-cases (equal test (codes "/"))) [
          | inl f ↦ rw (e, f) refl
          | inr f ↦ rw (e, f, found) (check_existing_lem test fs b)
        ]
      ]

  then_go_on_lem :
      (b : Bool) (c : Bool) (fs : Fs) (rest : Fs → Outcome Fs)
      → rest fs ≡ returned c fs
      → then_go_on sys (returned b fs) rest ≡ returned (b && c) fs
  then_go_on_lem true c fs rest e = e
  then_go_on_lem false c fs rest e = refl

  check_elements_lem :
      (es : List Bytes) (test : Bytes) (fs : Fs)
      → IsReadable fs
      → check_elements sys false es test fs ≡ returned (all_accessible es test fs) fs
  unfolding check_elements
  check_elements_lem [] test fs readable = refl
  check_elements_lem (e ∷ es) test fs readable =
      rw (check_element_lem (sys.join test e) fs readable) (
        then_go_on_lem _ (all_accessible es (sys.join test e) fs) fs
          (check_elements sys false es (sys.join test e))
          (check_elements_lem es (sys.join test e) fs readable))

  -- Without leave to write, `checkPath` changes no file, and says whether every prefix of the path, or
  -- of its directory, is there and has a permission bit for this process: read or write for a file,
  -- read or search for a directory. The path of a file is not empty, and `exists` throws nowhere.
  pub check_path_lem :
      (path : Bytes) (is_file : Bool) (fs : Fs) (es : List Bytes)
      → IsReadable fs
      → elements_to_end sys is_file path ≡ some es
      → check_path sys path false is_file fs ≡ returned (all_accessible es [] fs) fs
  unfolding check_path
  check_path_lem path is_file fs es readable found =
      rw (found, check_elements_lem es [] fs readable) (last is_file (all_accessible es [] fs))
    where
      last :
          (f b : Bool)
          → then_go_on sys (returned b fs) (λ fs'.
            returned true (if f && false then sys.try_file (path ++ codes "test") fs' else fs'))
            ≡ returned b fs
      last f false = refl
      last true true = refl
      last false true = refl
