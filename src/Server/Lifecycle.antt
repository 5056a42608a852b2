-- ===== src/Server/Lifecycle.antt =====
-- internal/server/server.go and the end of cmd/server/main.go: the two servers, their start and their
-- shutdown by a signal. `http.Server` is a parameter; what a goroutine of `Start` meets is how its
-- `ListenAndServe` ends, and the lines of the log are values.
use file_server.Prelude.{
  ℕ, ◌+◌, Str, str, List, [], ◌∷◌, ◌++◌, Bool, false, none, some, ◌≡◌, refl, arith,
}
use file_server.Errors.{Error, Failure}
use file_server.Config.{Config}

-- `Shutdown` under a context, and whether the listener is open.
pub record HttpServer : Type 1 where
  pub State : Type 0
  pub shutdown : State → State × Failure
  pub is_open : State → Bool

-- "Shutdown works by first closing all open listeners": it does so even if it then returns an error.
pub record HttpServerLaws (H : HttpServer) : Type 0 where
  pub is_open-shutdown : (s : H.State) → H.is_open (H.shutdown s).0 ≡ false

-- A line of the log, with its attribute.
pub data Line : Type 0 where
  info : Str → Str → Line
  failure : Str → Error → Line

-- `Servers`, and the log so far.
pub record Servers (S : Type 0) : Type 0 where
  pub biz : S
  pub adm : S
  pub lines : List Line

-- How `ListenAndServe` ends: with `http.ErrServerClosed` or with another error.
pub data Ended : Type 0 where
  closed : Ended
  broken : Error → Ended

-- A goroutine of `Start`, to its end.
unfoldable pub listen_lines : Str → Str → Str → Ended → List Line
listen_lines listening error addr closed = info listening addr ∷ []
listen_lines listening error addr (broken e) = info listening addr ∷ failure error e ∷ []

-- The two goroutines of `Start`, over the addresses that `New` has given the servers.
unfoldable pub start_lines : {F : Type 0} → Config F → Ended → Ended → List Line × List Line
unfolding listen_lines
start_lines cfg biz adm = (
  listen_lines (str "business server listening") (str "biz server error") cfg.server.addr biz,
  listen_lines (str "admin server listening") (str "admin server error") cfg.admin.addr adm,
)

-- `if err := ...; err != nil { s.logger.Error(...) }`
abbrev error_line : Str → Failure → List Line
error_line message none = []
error_line message (some e) = failure message e ∷ []

module _ (H : HttpServer) where
  -- `Shutdown`
  unfoldable pub shutdown : Servers H.State → Servers H.State
  shutdown s =
      let (biz, biz_failure) = H.shutdown s.biz in
      let (adm, adm_failure) = H.shutdown s.adm in
      record {
        biz = biz;
        adm = adm;
        lines =
            s.lines
            ++ error_line (str "biz shutdown error") biz_failure
            ++ error_line (str "admin shutdown error") adm_failure
            ++ info (str "servers stopped") [] ∷ [];
      }

  -- The end of `main`, from the signal on.
  unfoldable pub stop : Str → Servers H.State → Servers H.State
  unfolding shutdown
  stop signal s =
      let s' =
        shutdown (record s { lines = s.lines ++ info (str "shutdown initiated") signal ∷ [] }) in
      record s' { lines = s'.lines ++ info (str "shutdown complete") [] ∷ [] }

-- The lines of the errors.
unfoldable pub errors_in : List Line → ℕ
errors_in [] = 0
errors_in (info m v ∷ ls) = errors_in ls
errors_in (failure m e ∷ ls) = errors_in ls + 1

errors_in-append : (ls ks : List Line) → errors_in (ls ++ ks) ≡ errors_in ls + errors_in ks
unfolding errors_in
errors_in-append [] ks = omega arith
errors_in-append (info m v ∷ ls) ks = errors_in-append ls ks
errors_in-append (failure m e ∷ ls) ks = omega (arith, errors_in-append ls ks)

abbrev failed_one : Failure → ℕ
failed_one none = 0
failed_one (some e) = 1

errors_in-error_line : (m : Str) (f : Failure) → errors_in (error_line m f) ≡ failed_one f
unfolding errors_in
errors_in-error_line m none = refl
errors_in-error_line m (some e) = refl

-- At the signal both servers are closed, the second one also where the shutdown of the first has
-- failed, and the log has one line of an error more for each shutdown that has failed.
pub stop-closes :
    (H : HttpServer) (laws : HttpServerLaws H) (signal : Str) (s : Servers H.State)
    → (H.is_open (stop H signal s).biz ≡ false)
      × (H.is_open (stop H signal s).adm ≡ false)
      × (errors_in (stop H signal s).lines
          ≡ errors_in s.lines + failed_one (H.shutdown s.biz).1 + failed_one (H.shutdown s.adm).1)
unfolding stop shutdown
stop-closes H laws signal s = (
  laws.is_open-shutdown s.biz,
  laws.is_open-shutdown s.adm,
  rw
      (
        errors_in-append, errors_in-append, errors_in-append, errors_in-append, errors_in-append,
        errors_in-error_line, errors_in-error_line,
      )
      (unfold errors_in in omega arith),
)
