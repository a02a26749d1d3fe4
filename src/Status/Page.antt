-- ===== src/Status/Page.antt =====
-- `BaseCore::Status`: the counters, and the page.
use worker_informer.Base.{
  ℕ, ℤ, to_int, Bool, Option, none, some, List, [], ◌∷◌, ◌++◌, if◌then◌else◌, Bytes, codes, utf8,
  written, is_empty, print, print_int,
}
use worker_informer.Config.Fields.{Config}
use worker_informer.Status.Rates.{rate, counted}

-- What is taken from boost and the C++ library: `(a - b).total_milliseconds()`, and what `<<` writes.
pub record Printers (Time Real : Type 0) : Type 0 where
  pub milliseconds : Time → Time → ℤ
  pub print_time : Time → Bytes
  pub print_real : Real → Bytes

-- The fields of `BaseCore` that the page shows; the fields of `CpuStat`; the compiler's date and time.
pub record Service (Time Real : Type 0) : Type 0 where
  pub time_service_started : Time
  pub time_mq_check : Time
  pub amqp : Bool
  pub mq_log : List Bytes
  pub cpu_user : Real
  pub cpu_sys : Real
  pub rss : ℕ
  pub built_on : Bytes
  pub built_at : Bytes

-- What a call reads and leaves: the local `static`, where `none` is `not_a_date_time`, and the counters.
pub record Counters (Time : Type 0) : Type 0 where
  pub last_time_accessed : Option Time
  pub request_processed : ℕ
  pub last_time_request_processed : ℕ

-- The two readings of the clock in a call: in microseconds, and in seconds.
pub record Now (Time : Type 0) : Type 0 where
  pub precise : Time
  pub seconds : Time

abbrev pub accessed : {Time : Type 0} → Option Time → Time → Time
accessed none started = started
accessed (some t) started = t

-- `mq_log_s`
abbrev pub joined : List Bytes → Bytes
joined log = written log

-- The page's head.
abbrev pub head : List Bytes
head =
    codes "<html>"
    ∷ codes "<head>"
    ∷ codes "<meta http-equiv=\"Content-Type\" content=\"text/html; charset=utf-8\"/>"
    ∷ codes "<style type=\"text/css\">"
    ∷ codes "body { font-family: Arial, Helvetica, sans-serif; }"
    ∷ codes "h1, h2, h3 {font-family: \"georgia\", serif; font-weight: 400;}"
    ∷ codes "table { border-collapse: collapse; border: 1px solid gray; }"
    ∷ codes "td { border: 1px dotted gray; padding: 5px; font-size: 10pt; }"
    ∷ codes "th {border: 1px solid gray; padding: 8px; font-size: 10pt; }"
    ∷ codes "</style>"
    ∷ codes "</head>"
    ∷ codes "<body>"
    ∷ utf8 (codes "<h1>Состояние службы Yottos GetMyAd worker</h1>")
    ∷ codes "<table>"
    ∷ codes "<tr>"
    ∷ []

abbrev pub requests : ℕ → ℤ → ℤ → List Bytes
requests processed current average =
    utf8 (codes "<td>Обработано запросов:</td><td><b>")
    ∷ print processed
    ∷ codes "</b> ("
    ∷ print_int current
    ∷ utf8 (codes "/сек, ")
    ∷ utf8 (codes " в среднем ")
    ∷ print_int average
    ∷ utf8 (codes "/сек) ")
    ∷ codes "</td></tr>"
    ∷ []

-- `server_name.empty() ? server_name : "неизвестно"`
abbrev pub shown_name : Bytes → Bytes
shown_name name = if is_empty name then name else utf8 (codes "неизвестно")

abbrev pub database : {Time Real : Type 0} → Config → Service Time Real → List Bytes
database cfg s =
    utf8 (codes "<tr><td>Основная база данных:</td> <td>")
    ∷ cfg.mongo_main_db
    ∷ codes "/"
    ∷ codes "<br/>replica set="
    ∷ (if is_empty cfg.mongo_main_url then codes "no set" else cfg.mongo_main_url)
    ∷ codes "</td></tr>"
    ∷ codes "<tr><td>AMQP:</td><td>"
    ∷ utf8 (if s.amqp then codes "активен" else codes "не активен")
    ∷ codes "</td></tr>"
    ∷ utf8 (codes "<tr><td>Сборка: </td><td>")
    ∷ s.built_on
    ∷ codes " "
    ∷ s.built_at
    ∷ codes "</td></tr>"
    ∷ codes "</table>"
    ∷ []

module _ {Time Real : Type 0} (out : Printers Time Real) where
  unfoldable pub current_rate : Service Time Real → Now Time → Counters Time → ℤ
  unfolding rate
  current_rate s now c =
      rate (counted c.request_processed c.last_time_request_processed) (
        to_int
          (out.milliseconds now.precise (accessed c.last_time_accessed s.time_service_started)))

  unfoldable pub average_rate : Service Time Real → Now Time → Counters Time → ℤ
  unfolding rate
  average_rate s now c =
      rate c.request_processed (to_int (out.milliseconds now.precise s.time_service_started))

  abbrev pub server : Config → Service Time Real → Now Time → Bytes → List Bytes
  server cfg s now name =
      utf8 (codes "<tr><td>Имя сервера: </td> <td>")
      ∷ shown_name name
      ∷ codes "</td></tr>"
      ∷ utf8 (codes "<tr><td>IP сервера: </td> <td>")
      ∷ cfg.server_ip
      ∷ codes "</td></tr>"
      ∷ utf8 (codes "<tr><td>Текущее время: </td> <td>")
      ∷ out.print_time now.seconds
      ∷ codes "</td></tr>"
      ∷ utf8 (codes "<tr><td>Время запуска:</td> <td>")
      ∷ out.print_time s.time_service_started
      ∷ codes "</td></tr>"
      ∷ utf8 (codes "<tr><td>Количество ниток: </td> <td>")
      ∷ print_int cfg.server_children
      ∷ codes "</td></tr>"
      ∷ codes "<tr><td>CPU user: </td> <td>"
      ∷ out.print_real s.cpu_user
      ∷ codes "</td></tr>"
      ∷ codes "<tr><td>CPU sys: </td> <td>"
      ∷ out.print_real s.cpu_sys
      ∷ codes "</td></tr>"
      ∷ codes "<tr><td>RAM: </td> <td>"
      ∷ print s.rss
      ∷ codes "</td></tr>"
      ∷ []

  abbrev pub amqp_log : Service Time Real → List Bytes
  amqp_log s =
      utf8 (codes "<p>Журнал AMQP: </p><table>")
      ∷ utf8 (codes "<tr><td>Последнее сообщение:</td><td>")
      ∷ joined s.mq_log
      ∷ codes "</td></tr>"
      ∷ utf8 (codes "<tr><td>Последняя проверка сообщений:</td><td>")
      ∷ out.print_time s.time_mq_check
      ∷ codes "</td><tr></table>"
      ∷ codes "</body>"
      ∷ codes "</html>"
      ∷ []

  unfoldable pub status_text :
      Config → Service Time Real → Now Time → Counters Time → ℤ → ℤ → Bytes → Bytes
  status_text cfg s now c current average name =
      written head
      ++ (written (requests c.request_processed current average)
          ++ (written (server cfg s now name)
              ++ (written (database cfg s) ++ written (amqp_log s))))

  -- The page, and the counters behind the call.
  unfoldable pub status :
      Config → Service Time Real → Now Time → Bytes → Counters Time → Bytes × Counters Time
  unfolding current_rate average_rate status_text
  status cfg s now name c = (
    status_text cfg s now c (current_rate s now c) (average_rate s now c) name,
    record c {
      last_time_accessed = some now.precise;
      last_time_request_processed = c.request_processed;
    },
  )
