-- ===== src/Helpers/Tests.antt =====
-- A path below /tmp, a time, and the theorems at these inputs.
use worker_informer.Base.{
  ℕ, suc, pos, negsuc, true, false, some, [], ◌∷◌, ◌++◌, ◌≡◌, refl, arith, Bytes, codes, equal,
  is_digit, if◌then◌else◌,
}
use worker_informer.Helpers.Path.{Stat, System, returned, undefined, check_path}
use worker_informer.Helpers.Accessible.{all_accessible, check_path_lem}
use worker_informer.Helpers.Clock.{get_seconds, get_seconds_lem}

-- A directory that all may search, and a file of another user's that all may read.
abbrev mode_of : Bytes → Stat
mode_of path = record {
  st_uid = 0;
  st_gid = 0;
  st_mode = if equal path (codes "/tmp") then 1 else 4;
}

-- The number counts the directories made.
abbrev system : System ℕ
system = record {
  uid = 7;
  gid = 7;
  exists = λ path fs. some true;
  stat = λ path fs. mode_of path;
  is_regular_file = λ path fs. equal path (codes "/tmp/a");
  is_directory = λ path fs. equal path (codes "/tmp");
  create_directories = λ path fs. (some true, suc fs);
  try_file = λ path fs. fs;
  elements =
      λ path. if equal path (codes "/tmp/a") then codes "/" ∷ codes "tmp" ∷ codes "a" ∷ [] else [];
  join =
      λ a b. if equal a [] then b else if equal a (codes "/") then a ++ b else a ++ codes "/" ++ b;
}

-- A file that may only be read is taken for one that may be written.
read_only : check_path system (codes "/tmp/a") true false 3 ≡ returned true 3
unfolding check_path equal
read_only = refl

empty_file : check_path system [] true true 3 ≡ undefined
unfolding check_path equal
empty_file = refl

check_path_lem_example :
    check_path system (codes "/tmp/a") false true 3
    ≡ returned (all_accessible system (codes "/" ∷ codes "tmp" ∷ []) [] 3) 3
check_path_lem_example =
    check_path_lem system (codes "/tmp/a") true 3 (codes "/" ∷ codes "tmp" ∷ []) (λ t. (true, refl))
      (unfold equal in refl)

not_a_time : get_seconds (codes "1:02") ≡ negsuc 0
unfolding get_seconds
not_a_time = refl

get_seconds_lem_example : get_seconds (codes "00:15:30") ≡ pos 15
unfolding is_digit
get_seconds_lem_example =
    get_seconds_lem b'0' (codes "0") b'1' (codes "5") b'3' (codes "0") (refl, (refl, tt))
      (refl, (refl, tt)) (refl, (refl, tt)) (omega arith)
