-- ===== src/Startup/Tests.antt =====
-- Command lines and brokers, and the theorems at them.
use worker_informer.Base.{
  ℕ, zero, suc, false, Option, none, some, List, [], ◌∷◌, ◌++◌, ◌≡◌, refl, Bytes, Bool, codes,
  equal, lookup, strtol, is_digit,
}
use worker_informer.Config.Steps.{Environment, State, get_config_dir, check}
use worker_informer.Config.Load.{load}
use worker_informer.Config.Sample.{environment, before, after}
use worker_informer.Queue.Broker.{Message}
use worker_informer.Queue.Process.{
  Parent, Filter, Store, process_mq, handle_informer, handle_account,
}
use worker_informer.Queue.Drain.{drain}
use worker_informer.Queue.Sample.{get, push_back, mail}
use worker_informer.Startup.Options.{
  Argument, c_option, s_option, t_option, other, exited, serving, read_options, after_load, main,
}
use worker_informer.Startup.Served.{IsServing, main-IsServing}
use worker_informer.Startup.Queues.{
  Called, Client, ok, raised, unset, init_message_queue, open_queues, first_check,
  load_all_entities,
}
use worker_informer.Startup.Unconnected.{no_link, init_refused}

abbrev daemon : Bytes → Bytes → Option ℕ
daemon lock pid = none

-- There is no file.
abbrev empty_directory : Environment ℕ ℕ
empty_directory = record environment { is_regular_file = λ path. some false }

-- A missing file passes the test of the configuration.
test_missing :
    main empty_directory [] daemon (t_option ∷ c_option (codes "no.xml") ∷ []) before
    ≡ exited 0 (codes "Config: Ok" ++ 10 ∷ [])
unfolding main get_config_dir read_options after_load load
test_missing = refl

bad_option :
    main environment (codes "usage") daemon (t_option ∷ other ∷ []) before
    ≡ exited 1 (codes "usage")
unfolding main read_options
bad_option = refl

abbrev with_path : State ℕ
with_path = record after {
  config = record after.config { server_socket_path = codes "/tmp/sock1" };
}

abbrev arguments : List Argument
arguments = c_option (codes "c.xml") ∷ s_option (codes "/tmp/sock1") ∷ []

serves : main environment [] daemon arguments before ≡ serving with_path
unfolding main read_options after_load load equal lookup check strtol is_digit
serves = refl

main-IsServing_example : IsServing environment [] daemon arguments before with_path
main-IsServing_example = main-IsServing environment [] daemon arguments before with_path serves

data Call : Type 0 where
  update : Filter → Call
  remove : Bytes → Call

abbrev recorder : Parent (List Call)
recorder = record {
  informer_update = λ f db. db ++ update f ∷ [];
  informer_remove = λ id db. db ++ remove id ∷ [];
}

abbrev waiting : List Message × Bool
waiting = (mail "informer.update" "a" ∷ [], false)

-- A broker that grants as many calls as its state says.
abbrev count_down : {X : Type 0} → X → ℕ → Called X ℕ
count_down x zero = raised (codes "refused") zero
count_down x (suc n) = ok x n

abbrev client : Client ℕ ℕ ℕ (List Message × Bool)
client = record {
  connect = λ path. count_down 1;
  create_exchange = λ link. count_down 2;
  declare_exchange = λ x name kind. count_down tt;
  create_queue = λ link. count_down waiting;
  declare_queue = λ q name. count_down tt;
  bind = λ x name key. count_down tt;
}

abbrev noon : ℕ
noon = 12

abbrev nothing_yet : Store (List Call)
nothing_yet = record { mq_log = []; db = [] }

-- With ten calls granted, the first check reads both queues.
connected :
    first_check push_back recorder get noon
      (init_message_queue client [] [] (record { pointers = unset; broker = 10 })).pointers
      nothing_yet
    ≡ some (record {
      mq_log = codes "informer.update:a</br>" ∷ codes "informer.update:a</br>" ∷ [];
      db = update (record { key = codes "guid"; value = codes "a" }) ∷ [];
    })
unfolding first_check init_message_queue open_queues process_mq drain handle_informer handle_account
    equal
connected = refl

init_refused_example :
    first_check push_back recorder get noon
      (init_message_queue client [] [] (record { pointers = unset; broker = 0 })).pointers
      nothing_yet
    ≡ none
init_refused_example =
    init_refused client push_back recorder get noon [] [] 0 nothing_yet
      (no_link (codes "refused") 0 refl)

loaded_all : load_all_entities (λ db. db ++ codes "u") (λ db. db ++ codes "i") false [] ≡ codes "ui"
unfolding load_all_entities
loaded_all = refl
