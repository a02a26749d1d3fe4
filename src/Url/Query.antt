-- ===== src/Url/Query.antt =====
-- `UrlParser::parse` and `UrlParser::param`. Positions are of type `size_t`: `npos` is 2^64 - 1, and
-- `++pos` wraps, so that the search for the first name starts at 0 where no question mark is found.
pub mod Strings
pub mod Grammar
pub mod Parse
pub mod RoundTrip
pub mod Order
use worker_informer.Base.{
  ℕ, zero, suc, ◌+◌, ◌-◌, ◌%◌, ◌^◌, Bool, ◌||◌, Option, none, some, List, [], ◌==◌, ltb,
  if◌then◌else◌, Bytes, ◌>>=◌, length, lookup, insert,
}
use worker_informer.Url.Percent.{percent_decode}
use worker_informer.Url.Query.Strings.{npos, find_first_of, substr}

-- `std::map<std::string, std::string>`
abbrev pub ParamMap : Type 0
ParamMap = List (Bytes × Bytes)

abbrev pub increment : ℕ → ℕ
increment pos = (pos + 1) % 2 ^ 64

-- The `while` loop on fuel. `none` is a fault: the fuel ran out, or `substr` threw.
unfoldable pub parse_loop : ℕ → Bytes → ℕ → ParamMap → Option ParamMap
parse_loop zero url pos params = none
parse_loop (suc fuel) url pos params =
    let name_start = increment pos in
    let equals = find_first_of url b'=' name_start in
    let value_start = increment equals in
    let ampersand = find_first_of url b'&' value_start in
    let end = if ampersand == npos then length url else ampersand in
    let round : Option ParamMap =
      (substr url name_start (equals - name_start) >>= λ name.
      substr url value_start (end - value_start) >>= λ value.
      parse_loop fuel url end (insert name (percent_decode value) params)) in
    if ltb pos (length url) || pos == npos
    then (if equals == npos then some params else round)
    else some params

-- Every round moves `pos` on, so there are at most two rounds more than bytes.
unfoldable pub parse : Bytes → Option ParamMap
unfolding parse_loop
parse url = parse_loop (length url + 2) url (find_first_of url b'?' 0) []

-- The parameter, or the empty text if there is none of that name.
unfoldable pub param : ParamMap → Bytes → Bytes
param params par = elim (lookup par params) [ some value ↦ value | none ↦ [] ]
