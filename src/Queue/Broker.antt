-- ===== src/Queue/Broker.antt =====
-- What `BaseCore` uses of the AMQP library and of boost's circular buffer.
use worker_informer.Base.{List, [], ◌∷◌, Bytes}

-- `AMQPMessage`, by its routing key and its text.
pub record Message : Type 0 where
  pub routing_key : Bytes
  pub text : Bytes

-- What `Get(AMQP_NOACK)` and `getMessage` give: a message, which leaves the queue; no message,
-- where `getMessageCount()` is -1; or an `AMQPException` with its text.
pub data Reply (Q : Type 0) : Type 0 where
  message : Message → Q → Reply Q
  empty : Q → Reply Q
  failed : Bytes → Q → Reply Q

-- `Replies get last r ms`: after the reply `r`, getting on gives the messages `ms` and then `last`.
pub data Replies {Q : Type 0} (get : Q → Reply Q) (last : Reply Q)
    : Reply Q → List Message → Type 0 where
  here : Replies get last last []
  next :
      {m : Message} {q : Q} {ms : List Message}
      → Replies get last (get q) ms
      → Replies get last (message m q) (m ∷ ms)
