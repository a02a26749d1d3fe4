-- ===== src/Helpers/Path.antt =====
-- `BoostHelpers::checkPath`.
use Prim.Native.Nat.{bit_and}
use worker_informer.Base.{
  ℕ, Bool, true, false, not, ◌&&◌, ◌||◌, Option, none, some, List, [], ◌∷◌, ◌++◌, ◌==◌,
  if◌then◌else◌, Bytes, codes, equal,
}

-- `struct stat`
pub record Stat : Type 0 where
  pub st_uid : ℕ
  pub st_gid : ℕ
  pub st_mode : ℕ

-- What is taken from the system and from boost, on the state `Fs` of the files.
pub record System (Fs : Type 0) : Type 0 where
  pub uid : ℕ
  pub gid : ℕ
  -- `none` is a `filesystem_error`.
  pub exists : Bytes → Fs → Option Bool
  pub stat : Bytes → Fs → Stat
  pub is_regular_file : Bytes → Fs → Bool
  pub is_directory : Bytes → Fs → Bool
  pub create_directories : Bytes → Fs → Option Bool × Fs
  -- `open`, `close` and `unlink` of a file: its failure is only reported.
  pub try_file : Bytes → Fs → Fs
  -- The elements of a path, and `/=`.
  pub elements : Bytes → List Bytes
  pub join : Bytes → Bytes → Bytes

-- An exception of `exists` leaves the function; the iterator behind an empty path is undefined.
pub data Outcome (Fs : Type 0) : Type 0 where
  returned : Bool → Fs → Outcome Fs
  thrown : Fs → Outcome Fs
  undefined : Outcome Fs

abbrev pub has_any : ℕ → ℕ → Bool
has_any mode mask = not (bit_and mode mask == 0)

module _ {Fs : Type 0} (sys : System Fs) where
  -- S_IROTH | S_IWOTH, S_IRUSR | S_IWUSR and S_IRGRP | S_IWGRP
  unfoldable pub file_permitted : Stat → Bool
  file_permitted info =
      if not (info.st_uid == sys.uid) && not (info.st_gid == sys.gid)
      then has_any info.st_mode 6
      else if info.st_uid == sys.uid && not (info.st_gid == sys.gid)
      then has_any info.st_mode 384
      else if not (info.st_uid == sys.uid) && info.st_gid == sys.gid
      then has_any info.st_mode 48
      else has_any info.st_mode 384

  -- S_IROTH | S_IXOTH, S_IRUSR | S_IXUSR and S_IRGRP | S_IXGRP
  unfoldable pub directory_permitted : Stat → Bool
  directory_permitted info =
      if not (info.st_uid == sys.uid) && not (info.st_gid == sys.gid)
      then has_any info.st_mode 5
      else if info.st_uid == sys.uid && not (info.st_gid == sys.gid)
      then has_any info.st_mode 320
      else if not (info.st_uid == sys.uid) && info.st_gid == sys.gid
      then has_any info.st_mode 40
      else has_any info.st_mode 320

  abbrev pub created_as : Option Bool × Fs → Outcome Fs
  created_as (none, fs) = returned false fs
  created_as (some made, fs) = returned made fs

  abbrev pub created : Bool → Bytes → Fs → Outcome Fs
  created true test fs = created_as (sys.create_directories test fs)
  created false test fs = returned false fs

  abbrev pub check_existing : Bool → Bytes → Fs → Option Bool → Outcome Fs
  check_existing write test fs none = thrown fs
  check_existing write test fs (some false) = created write test fs
  check_existing write test fs (some true) =
      if sys.is_regular_file test fs
      then returned (file_permitted (sys.stat test fs)) fs
      else if sys.is_directory test fs
      then returned (directory_permitted (sys.stat test fs)) fs
      else created write test fs

  -- A round of the loop: `true` goes on to the next element.
  unfoldable pub check_element : Bool → Bytes → Fs → Outcome Fs
  unfolding file_permitted directory_permitted
  check_element write test fs =
      if equal test [] || equal test (codes "/")
      then returned true fs
      else check_existing write test fs (sys.exists test fs)

  abbrev pub then_go_on : Outcome Fs → (Fs → Outcome Fs) → Outcome Fs
  then_go_on (returned true fs) rest = rest fs
  then_go_on (returned false fs) rest = returned false fs
  then_go_on (thrown fs) rest = thrown fs
  then_go_on undefined rest = undefined

  unfoldable pub check_elements : Bool → List Bytes → Bytes → Fs → Outcome Fs
  unfolding check_element
  check_elements write [] test fs = returned true fs
  check_elements write (e ∷ es) test fs =
      then_go_on (check_element write (sys.join test e) fs)
        (check_elements write es (sys.join test e))

  -- `toEnd--`
  abbrev pub without_last : List Bytes → Option (List Bytes)
  without_last [] = none
  without_last (e ∷ []) = some []
  without_last (e ∷ f ∷ es) = elim (without_last (f ∷ es)) [ none ↦ none | some gs ↦ some (e ∷ gs) ]

  abbrev pub elements_to_end : Bool → Bytes → Option (List Bytes)
  elements_to_end true path = without_last (sys.elements path)
  elements_to_end false path = some (sys.elements path)

  abbrev pub check_to_end : Bytes → Bool → Bool → Fs → Option (List Bytes) → Outcome Fs
  check_to_end path write is_file fs none = undefined
  check_to_end path write is_file fs (some es) = then_go_on (check_elements write es [] fs) (λ fs'.
      returned true (if is_file && write then sys.try_file (path ++ codes "test") fs' else fs'))

  unfoldable pub check_path : Bytes → Bool → Bool → Fs → Outcome Fs
  unfolding check_elements
  check_path path write is_file fs =
      check_to_end path write is_file fs (elements_to_end is_file path)
