-- ===== src/Queue/Sample.antt =====
-- Queues as lists of messages.
use Prim.Native.String.{String}
use worker_informer.Base.{Bool, false, List, [], ◌∷◌, ◌++◌, Bytes, codes}
use worker_informer.Queue.Broker.{Message, Reply, message, empty, failed}

-- A queue whose end is an exception where the flag is set.
abbrev pub get : List Message × Bool → Reply (List Message × Bool)
get ([], false) = empty ([], false)
get ([], _) = failed (codes "closed") ([], false)
get (m ∷ ms, b) = message m (ms, b)

abbrev pub push_back : List Bytes → Bytes → List Bytes
push_back log line = log ++ line ∷ []

abbrev pub mail : String → String → Message
mail key text = record { routing_key = codes key; text = codes text }
