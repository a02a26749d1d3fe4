-- ===== src/Config/Steps.antt =====
-- The steps that `Config::Load` is made of: on the settings and the files, with the ways to end early.
use worker_informer.Base.{
  Bool, true, false, Option, none, some, ◌==◌, if◌then◌else◌, Bytes, codes, ◌++◌, [], ◌∷◌,
}
use worker_informer.Helpers.Path.{System, Outcome, returned, thrown, undefined, check_path}
use worker_informer.Config.Fields.{Config}

-- What is taken from TinyXML, boost and the system. The files that are read do not change during a
-- load, so that they do not depend on the state.
pub record Environment (Xml Fs : Type 0) : Type 0 where
  pub sys : System Fs
  -- `LoadFile`; `none` is a failure.
  pub load_file : Bytes → Option Xml
  pub first_child : Xml → Bytes → Option Xml
  pub get_text : Xml → Option Bytes
  pub attribute : Xml → Bytes → Option Bytes
  -- `is_regular_file` (`none` is a `filesystem_error`) and `parent_path`, if there is one.
  pub is_regular_file : Bytes → Option Bool
  pub parent_path : Bytes → Option Bytes
  -- `ifstream`; `none` where it does not open.
  pub read_file : Bytes → Option Bytes
  pub unlink : Bytes → Fs → Fs
  -- `regex_replace` by the expression `nowhitespace` of `minifyhtml`.
  pub replace_whitespace : Bytes → Bytes

-- The process ends by `exit(1)`, an exception leaves `Load`, or the behaviour is undefined.
pub data Stop : Type 0 where
  exit exception undefined_behaviour : Stop

pub record State (Fs : Type 0) : Type 0 where
  pub config : Config
  pub fs : Fs

pub data Run (S A : Type 0) : Type 0 where
  done : A → S → Run S A
  stopped : Stop → Run S A

abbrev pub Step : Type 0 → Type 0 → Type 0
Step Fs A = State Fs → Run (State Fs) A

abbrev pub then_run : {S A B : Type 0} → Run S A → (A → S → Run S B) → Run S B
then_run (done a s) f = f a s
then_run (stopped e) f = stopped e

infixl 5 ◌>>=◌ ◌>>◌
abbrev pub ◌>>=◌ : {Fs A B : Type 0} → Step Fs A → (A → Step Fs B) → Step Fs B
◌>>=◌ m f s = then_run (m s) f

abbrev pub ◌>>◌ : {Fs B : Type 0} → Step Fs (Unit {0}) → Step Fs B → Step Fs B
m >> k = m >>= λ _. k

abbrev pub pure : {Fs A : Type 0} → A → Step Fs A
pure a s = done a s

abbrev pub stop : {Fs A : Type 0} → Stop → Step Fs A
stop e s = stopped e

abbrev pub modify : {Fs : Type 0} → (Config → Config) → Step Fs (Unit {0})
modify g s = done tt (record s { config = g s.config })

-- `if(… && (… GetText())) …`, with no `else` and with one.
abbrev pub if_some : {Fs A : Type 0} → Option A → (A → Step Fs (Unit {0})) → Step Fs (Unit {0})
if_some none f = pure tt
if_some (some t) f = f t

abbrev pub if_some_else :
    {Fs A : Type 0} → Option A → (A → Step Fs (Unit {0})) → Step Fs (Unit {0}) → Step Fs (Unit {0})
if_some_else none f otherwise = otherwise
if_some_else (some t) f otherwise = f t

-- The directory of the file, with a slash; empty where there is no such file.
abbrev pub directory_of : Option Bytes → Bytes
directory_of none = codes "./"
directory_of (some parent) = parent ++ codes "/"

abbrev pub config_dir : Option Bool → Option Bytes → Bytes
config_dir none parent = []
config_dir (some false) parent = []
config_dir (some true) parent = directory_of parent

abbrev pub contents_or_empty : Option Bytes → Bytes
contents_or_empty none = []
contents_or_empty (some text) = text

-- The second `regex_replace` of `minifyhtml`: line ends go.
unfoldable pub without_line_ends : Bytes → Bytes
without_line_ends [] = []
without_line_ends (c ∷ s) =
    let rest = without_line_ends s in if c == 10 then rest else if c == 13 then rest else c ∷ rest

module _ {Xml Fs : Type 0} (env : Environment Xml Fs) where
  -- `BoostHelpers::getConfigDir`
  unfoldable pub get_config_dir : Bytes → Bytes
  get_config_dir path = config_dir (env.is_regular_file path) (env.parent_path path)

  -- `Config::getFileContents`
  abbrev pub get_file_contents : Bytes → Bytes
  get_file_contents name = contents_or_empty (env.read_file name)

  -- `Config::minifyhtml`
  unfoldable pub minifyhtml : Bytes → Bytes
  unfolding without_line_ends
  minifyhtml s = without_line_ends (env.replace_whitespace s)

  -- `FirstChildElement` and `GetText`, both not null.
  abbrev pub text_at : Xml → Bytes → Option Bytes
  text_at x name = elim (env.first_child x name) [ none ↦ none | some child ↦ env.get_text child ]

  abbrev pub checked : Config → Outcome Fs → Run (State Fs) Bool
  checked c (returned b fs) = done b (record { config = c; fs = fs })
  checked c (thrown fs) = stopped exception
  checked c undefined = stopped undefined_behaviour

  -- `BoostHelpers::checkPath`
  unfoldable pub check : Bytes → Bool → Bool → Step Fs Bool
  unfolding check_path
  check path write is_file s = checked s.config (check_path env.sys path write is_file s.fs)

  abbrev pub exit_unless : Bool → Step Fs (Unit {0})
  exit_unless true = pure tt
  exit_unless false = stop exit

  -- `if(!checkPath(…)) ::exit(1);`
  abbrev pub require_path : Bytes → Bool → Bool → Step Fs (Unit {0})
  require_path path write is_file = check path write is_file >>= exit_unless

  abbrev pub remove_file : Bytes → Step Fs (Unit {0})
  remove_file path s = done tt (record s { fs = env.unlink path s.fs })
