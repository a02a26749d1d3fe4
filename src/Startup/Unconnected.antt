-- ===== src/Startup/Unconnected.antt =====
-- A service that starts without its broker.
use worker_informer.Base.{none, List, ◌≡◌, refl, Bytes, codes}
use worker_informer.Queue.Broker.{Reply}
use worker_informer.Queue.Process.{Parent, Store}
use worker_informer.Startup.Queues.{
  Client, ok, raised, unset, open_queues, init_message_queue, first_check,
}

module _ {Broker Link Exchange Q : Type 0} (client : Client Broker Link Exchange Q) where
  -- One of the calls up to the first queue throws.
  pub data IsRefused (path : Bytes) (b : Broker) : Type 0 where
    no_link : (e : Bytes) (b₁ : Broker) → client.connect path b ≡ raised e b₁ → IsRefused path b
    no_exchange :
        (link : Link) (e : Bytes) (b₁ b₂ : Broker)
        → client.connect path b ≡ ok link b₁
        → client.create_exchange link b₁ ≡ raised e b₂
        → IsRefused path b
    no_topic :
        (link : Link) (exchange : Exchange) (e : Bytes) (b₁ b₂ b₃ : Broker)
        → client.connect path b ≡ ok link b₁
        → client.create_exchange link b₁ ≡ ok exchange b₂
        → client.declare_exchange exchange (codes "getmyad") (codes "topic") b₂ ≡ raised e b₃
        → IsRefused path b
    no_queue :
        (link : Link) (exchange : Exchange) (e : Bytes) (b₁ b₂ b₃ b₄ : Broker)
        → client.connect path b ≡ ok link b₁
        → client.create_exchange link b₁ ≡ ok exchange b₂
        → client.declare_exchange exchange (codes "getmyad") (codes "topic") b₂ ≡ ok tt b₃
        → client.create_queue link b₃ ≡ raised e b₄
        → IsRefused path b

  refused-unset :
      (path postfix : Bytes) (b : Broker)
      → IsRefused path b
      → (init_message_queue client path postfix
          (record { pointers = unset; broker = b })).pointers.mq_informer
        ≡ none
  unfolding init_message_queue open_queues
  refused-unset path postfix b (no_link e b₁ h) = rw h refl
  refused-unset path postfix b (no_exchange link e b₁ b₂ h i) = rw (h, i) refl
  refused-unset path postfix b (no_topic link x e b₁ b₂ b₃ h i j) = rw (h, i, j) refl
  refused-unset path postfix b (no_queue link x e b₁ b₂ b₃ b₄ h i j k) = rw (h, i, j, k) refl

  -- Where the connection or one of the calls up to the creation of the first queue throws, the
  -- constructor goes on, and the first check of the queues uses a pointer that was never set.
  pub init_refused :
      {Db Time : Type 0} (push_back : List Bytes → Bytes → List Bytes) (pdb : Parent Db)
      (get : Q → Reply Q) (now : Time) (path postfix : Bytes) (b : Broker) (store : Store Db)
      → IsRefused path b
      → first_check push_back pdb get now
          (init_message_queue client path postfix
            (record { pointers = unset; broker = b })).pointers
          store
        ≡ none
  unfolding first_check
  init_refused push_back pdb get now path postfix b store h =
      rw (refused-unset path postfix b h) refl
