-- ===== src/Server.antt =====
-- internal/server/middleware.go: `responseWriter` and `RequestLogger`. A handler is the calls that it
-- makes of the response writer, and whether it panics after them. The request's id, which only the
-- log shows, and the latency are not modelled.
pub mod Logging
pub mod Lifecycle
pub mod Routes
pub mod Routing
pub mod AdminEffects
use file_server.Prelude.{ℕ, ◌+◌, Str, length, List, [], ◌∷◌, Bool, true, false, Option, none, some}
use file_server.Http.{Request, Writer, header_set, write_header, write_body}

-- What a handler calls: `w.Header().Set`, `w.WriteHeader` and `w.Write`.
pub data WriterCall : Type 0 where
  set : Str → Str → WriterCall
  status : ℕ → WriterCall
  body : Str → WriterCall

-- The calls on the response writer of net/http.
unfoldable pub direct : List WriterCall → Writer → Writer
unfolding header_set write_header write_body
direct [] w = w
direct (set k v ∷ calls) w = direct calls (record w { header = header_set w.header k v })
direct (status code ∷ calls) w = direct calls (write_header w code)
direct (body b ∷ calls) w = direct calls (write_body w b)

-- `responseWriter`
pub record Recorder : Type 0 where
  pub inner : Writer
  pub status : ℕ
  pub bytes : ℕ

-- `WriteHeader`
unfoldable pub record_status : Recorder → ℕ → Recorder
unfolding write_header
record_status rw code = record rw { status = code; inner = write_header rw.inner code }

-- `Write`: the writer below takes all the bytes.
unfoldable pub record_body : Recorder → Str → Recorder
unfolding write_body
record_body rw b = record rw { inner = write_body rw.inner b; bytes = rw.bytes + length b }

-- The calls on a `responseWriter`; `Header` is the method of the writer below.
unfoldable pub recorded : List WriterCall → Recorder → Recorder
unfolding header_set record_status record_body
recorded [] rw = rw
recorded (set k v ∷ calls) rw =
    recorded calls
      (record rw { inner = record (rw.inner) { header = header_set rw.inner.header k v } })
recorded (status code ∷ calls) rw = recorded calls (record_status rw code)
recorded (body b ∷ calls) rw = recorded calls (record_body rw b)

-- A log line, and the labels of the counter `RequestsTotal`.
pub record LogLine : Type 0 where
  pub domain : Str
  pub path : Str
  pub status : ℕ
  pub bytes : ℕ
  pub client_ip : Str

pub record Logged : Type 0 where
  pub writer : Writer
  pub lines : List LogLine
  pub counted : List (Str × ℕ)

-- `RequestLogger` around a handler that makes some calls and may then panic: a panic leaves nothing
-- behind but what was written.
unfoldable pub request_logger : Request → List WriterCall → Bool → Writer → Logged
unfolding recorded
request_logger r calls panics w =
    let rw = recorded calls (record { inner = w; status = 200; bytes = 0 }) in
    elim panics [
      | true ↦ record { writer = rw.inner; lines = []; counted = [] }
      | false ↦ record {
        writer = rw.inner;
        lines =
            record {
              domain = r.host;
              path = r.path;
              status = rw.status;
              bytes = rw.bytes;
              client_ip = r.remote_addr;
            }
            ∷ [];
        counted = (r.host, rw.status) ∷ [];
      }
    ]
