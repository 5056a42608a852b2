-- ===== src/Http.antt =====
-- What the program uses of net/http: header maps, requests and the response writer.
use file_server.Prelude.{
  ℕ, ◌+◌, ◌-◌, Str, str, Map, find, put, remove, List, [], ◌∷◌, ◌++◌, Bool, true, false, ◌&&◌, ◌||◌,
  leb, ◌==◌, if◌then◌else◌, Option, none, some,
}
use file_server.Errors.{Result}

-- `http.Header`: the keys are in canonical form where the methods below wrote them.
abbrev pub Header : Type 0
Header = Map (List Str)

abbrev is_upper : ℕ → Bool
is_upper c = leb b'A' c && leb c b'Z'

abbrev is_lower : ℕ → Bool
is_lower c = leb b'a' c && leb c b'z'

-- The bytes of a header field name (a token of RFC 7230).
unfoldable pub is_token : ℕ → Bool
is_token c =
    is_upper c
    || is_lower c
    || (leb b'0' c && leb c b'9')
    || c == b'!'
    || c == b'#'
    || c == b'$'
    || c == b'%'
    || c == b'&'
    || c == 39
    || c == b'*'
    || c == b'+'
    || c == b'-'
    || c == b'.'
    || c == b'^'
    || c == b'_'
    || c == b'`'
    || c == b'|'
    || c == b'~'

unfoldable pub all_token : Str → Bool
unfolding is_token
all_token [] = true
all_token (c ∷ s) = is_token c && all_token s

-- A letter is upper case at the start and after a dash, and lower case elsewhere.
unfoldable pub canonical_from : Bool → Str → Str
canonical_from up [] = []
canonical_from true (c ∷ s) = (if is_lower c then c - 32 else c) ∷ canonical_from (c == b'-') s
canonical_from false (c ∷ s) = (if is_upper c then c + 32 else c) ∷ canonical_from (c == b'-') s

-- `textproto.CanonicalMIMEHeaderKey`: a name with another byte in it is left as it is.
unfoldable pub canonical : Str → Str
unfolding all_token canonical_from
canonical s = if all_token s then canonical_from true s else s

-- The first of the values, or the empty string.
abbrev pub first_value : Option (List Str) → Str
first_value none = []
first_value (some []) = []
first_value (some (v ∷ vs)) = v

abbrev pub values_of : Option (List Str) → List Str
values_of none = []
values_of (some vs) = vs

-- `h.Get(key)`
unfoldable pub header_get : Header → Str → Str
header_get h key = first_value (find (canonical key) h)

-- `h.Set(key, value)`
unfoldable pub header_set : Header → Str → Str → Header
header_set h key value = put (canonical key) (value ∷ []) h

-- `h.Add(key, value)`
unfoldable pub header_add : Header → Str → Str → Header
header_add h key value = put (canonical key) (values_of (find (canonical key) h) ++ value ∷ []) h

-- `h.Del(key)`
unfoldable pub header_del : Header → Str → Header
header_del h key = remove (canonical key) h

-- `http.Request`, as far as the program reads it. `query` is what `r.URL.Query()` returns.
pub record Request : Type 0 where
  pub host : Str
  pub path : Str
  pub raw_query : Str
  pub query : Map (List Str)
  pub header : Header
  pub remote_addr : Str

-- `http.ResponseWriter`: the status is absent until the header is written.
pub record Writer : Type 0 where
  pub header : Header
  pub status : Option ℕ
  pub body : Str

abbrev pub fresh_writer : Writer
fresh_writer = record { header = []; status = none; body = [] }

-- `w.WriteHeader(code)`: a second call is ignored.
abbrev pub first_status : Option ℕ → ℕ → Option ℕ
first_status none code = some code
first_status (some c) code = some c

unfoldable pub write_header : Writer → ℕ → Writer
write_header w code = record w { status = first_status w.status code }

-- `w.Write(b)`: it writes the status 200 if there is none.
unfoldable pub write_body : Writer → Str → Writer
write_body w b = record w { status = first_status w.status 200; body = w.body ++ b }

-- `http.Error(w, message, code)`
unfoldable pub http_error : Writer → Str → ℕ → Writer
unfolding write_header write_body header_set header_del canonical
http_error w message code =
    let h = header_del w.header (str "Content-Length") in
    let h = header_set h (str "Content-Type") (str "text/plain; charset=utf-8") in
    let h = header_set h (str "X-Content-Type-Options") (str "nosniff") in
    write_body (write_header (record w { header = h }) code) (message ++ 10 ∷ [])

-- `http.Response`: the body is what reading it to the end gives.
pub record Response : Type 0 where
  pub status_code : ℕ
  pub header : Header
  pub body : Result Str
