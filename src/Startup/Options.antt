-- ===== src/Startup/Options.antt =====
-- `main`: the command line, the configuration, and what the process does then.
use worker_informer.Base.{
  ℕ, Bool, true, false, Option, none, some, List, [], ◌∷◌, ◌++◌, ltb, if◌then◌else◌, Bytes, codes,
  length,
}
use worker_informer.Config.Fields.{Config}
use worker_informer.Config.Steps.{Environment, State, Run, done, stopped, Stop}
use worker_informer.Config.Load.{load_config}

-- What `getopt` returns by turns: `-c` and `-s` with their texts, `-p`, `-t`, or anything else.
pub data Argument : Type 0 where
  c_option s_option : Bytes → Argument
  p_option t_option other : Argument

-- The locals of `main`.
pub record Options : Type 0 where
  pub config : Bytes
  pub sock_path : Bytes
  pub print_pid_file : Bool
  pub test_config : Bool

abbrev pub default_options : Options
default_options = record {
  config = codes "config.xml";
  sock_path = [];
  print_pid_file = false;
  test_config = false;
}

-- The loop over the options; `none` is `exit(1)`.
unfoldable pub read_options : List Argument → Options → Option Options
read_options [] o = some o
read_options (c_option t ∷ rest) o = read_options rest (record o { config = t })
read_options (s_option t ∷ rest) o = read_options rest (record o { sock_path = t })
read_options (p_option ∷ rest) o = read_options rest (record o { print_pid_file = true })
read_options (t_option ∷ rest) o = read_options rest (record o { test_config = true })
read_options (other ∷ rest) o = none

-- `exited` with a code, and what was printed on the standard output; `failed` within the load; or past
-- `new Server`, on to `dbInit` and `CgiService`.
pub data Ending (Fs : Type 0) : Type 0 where
  exited : ℕ → Bytes → Ending Fs
  failed : Stop → Ending Fs
  serving : State Fs → Ending Fs

abbrev pub with_socket : Bytes → Config → Config
with_socket path c = if ltb 8 (length path) then record c { server_socket_path = path } else c

module _ {Xml Fs : Type 0} (env : Environment Xml Fs)
    -- The message on a bad option, with the program's name.
    (usage : Bytes)
    -- What the constructor of `Server` makes of the process, by its lock and pid files: it goes on, or
    -- exits with a code.
    (server : Bytes → Bytes → Option ℕ) where
  abbrev pub served : Options → State Fs → Option ℕ → Ending Fs
  served o s (some code) = exited code []
  served o s none = serving (record s { config = with_socket o.sock_path s.config })

  -- Behind the load, whatever it returned.
  unfoldable pub after_load : Options → State Fs → Ending Fs
  after_load o s =
      if o.test_config
      then exited 0 (codes "Config: Ok" ++ 10 ∷ [])
      else if o.print_pid_file
      then exited 0 (s.config.pid_file ++ 10 ∷ [])
      else served o s (server s.config.lock_file s.config.pid_file)

  abbrev pub loaded : Options → Run (State Fs) Bool → Ending Fs
  loaded o (done result s) = after_load o s
  loaded o (stopped e) = failed e

  abbrev pub with_options : Option Options → State Fs → Ending Fs
  with_options none s = exited 1 usage
  with_options (some o) s = loaded o (load_config env o.config s)

  unfoldable pub main : List Argument → State Fs → Ending Fs
  unfolding read_options after_load
  main arguments s = with_options (read_options arguments default_options) s
