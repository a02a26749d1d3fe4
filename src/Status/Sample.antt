-- ===== src/Status/Sample.antt =====
-- A service whose clock counts milliseconds.
use worker_informer.Base.{
  ℕ, ◌-◌, ◌^◌, pos, negate, true, none, [], ◌∷◌, leb, if◌then◌else◌, codes, print,
}
use worker_informer.Status.Page.{Printers, Service, Counters, Now}

abbrev pub clock : Printers ℕ ℕ
clock = record {
  milliseconds = λ a b. if leb b a then pos (a - b) else negate (b - a);
  print_time = print;
  print_real = print;
}

abbrev pub service : Service ℕ ℕ
service = record {
  time_service_started = 1000;
  time_mq_check = 1500;
  amqp = true;
  mq_log = codes "informer.update:g</br>" ∷ [];
  cpu_user = 1;
  cpu_sys = 2;
  rss = 4096;
  built_on = codes "Jan  1 2017";
  built_at = codes "12:00:00";
}

abbrev pub counters : Counters ℕ
counters = record {
  last_time_accessed = none;
  request_processed = 2 ^ 64 - 4;
  last_time_request_processed = 7;
}

abbrev pub at : ℕ → Now ℕ
at t = record { precise = t; seconds = t }
