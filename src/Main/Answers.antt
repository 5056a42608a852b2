-- ===== src/Main/Answers.antt =====
-- cmd/server/main.go, with internal/domain and the plugins: how a request is answered.
use file_server.Prelude.{
  ℕ, Str, str, Map, find, put, str_dec, find-All, ℤ, List, [], ◌∷◌, Bool, true, false, Option-cases,
  Option, none, some, if◌then◌else◌, ◌≡◌, ◌⊎◌, inl, inr, refl, sym, ap, subst, ◌∙◌,
}
use file_server.Errors.{Result, ok, err}
use file_server.Storage.{Storage, Reader}
use file_server.Http.{Request, Writer, write_header, write_body, http_error, fresh_writer}
use file_server.Config.{Fields, DomainConfig, PluginConfig}
use file_server.Cache.Singleflight.{SfResult}
use file_server.Cache.Lru.{Meta}
use file_server.Pipeline.{
  register_plugin, Plugin, Run, apply_response_mutations, execute_from, execute,
}
use file_server.Pipeline.Chain.{and_then, execute_unknown, execute_known}
use file_server.Pipeline.HeaderPlugin.{header_plugin}
use file_server.Pipeline.RewritePlugin.{Regexp, rewrite_plugin}
use file_server.Pipeline.RateLimit.{Float, TokenBucket, DomainState, rate_limit_plugin}
use file_server.Domain.{
  Handler, Instants, Deps, Served, strip_port, answer, respond, serve_passed, serve_http,
}
use file_server.Domain.Invariant.{serve_unknown, executed, plugged, serve_refused, serve_on}
use file_server.Main.{registry, recovery, serve}

http_error-status :
    (w : Writer) (message : Str) (code : ℕ)
    → w.status ≡ none
    → (http_error w message code).status ≡ some code
unfolding http_error
http_error-status w message code unwritten = rw unwritten refl

-- How a plugin, or the chain, ends on a response with nothing written: it passes the response on
-- as it was, or it has written the status 429.
abbrev Ends : {P : Type 0} → Writer → Run P × Bool → Type 0
Ends w (run, true) = run.writer ≡ w
Ends w (run, false) = run.writer.status ≡ some 429

abbrev IsPolite : {F P : Type 0} → Plugin F P → Type 0
IsPolite {F} {P} pl =
    (cfg : Fields F) (domain : Str) (run : Run P)
    → run.writer.status ≡ none
    → Ends run.writer (pl cfg domain run)

abbrev limited : {P : Type 0} → Bool → Writer → Run P → Run P × Bool
limited allowed w run =
    if allowed
    then (run, true)
    else (record run { writer = http_error w (str "Too Many Requests") 429 }, false)

limited-Ends :
    {P : Type 0} (allowed : Bool) (w : Writer) (run : Run P)
    → run.writer ≡ w
    → w.status ≡ none
    → Ends w (limited allowed w run)
limited-Ends true w run same unwritten = same
limited-Ends false w run same unwritten =
    http_error-status w (str "Too Many Requests") 429 unwritten

module _ (fl : Float) (tb : TokenBucket fl.F) (split_host_port : Str → Option Str) (re : Regexp)
    (seen now : ℤ) where
  rate_limit-IsPolite : IsPolite (rate_limit_plugin fl tb split_host_port seen now)
  unfolding rate_limit_plugin http_error
  rate_limit-IsPolite cfg domain run unwritten = limited-Ends _ run.writer _ refl unwritten

  registered :
      (key : Str) (pl : Plugin fl.F (Map (DomainState fl tb split_host_port)))
      → find key (registry fl tb split_host_port re seen now) ≡ some pl
      → IsPolite pl
  unfolding registry register_plugin put str_dec
  registered key pl e =
      find-All IsPolite key (registry fl tb split_host_port re seen now) pl
        (
          (λ cfg domain run u. unfold header_plugin in refl),
          (rate_limit-IsPolite, ((λ cfg domain run u. unfold rewrite_plugin in refl), tt)),
        )
        e

module _ {F P : Type 0} (reg : Map (Plugin F P))
    (polite : (key : Str) (pl : Plugin F P) → find key reg ≡ some pl → IsPolite pl)
    (domain : Str) where
  next-Ends :
      (w : Writer) (r : Run P × Bool) (next : Run P → Run P × Bool)
      → w.status ≡ none
      → Ends w r
      → ((run : Run P) → run.writer.status ≡ none → Ends run.writer (next run))
      → Ends w (and_then r next)
  next-Ends w (run, true) next unwritten same rest =
      subst (λ w'. Ends w' (next run)) same (rest run (rw same unwritten))
  next-Ends w (run, false) next unwritten refused rest = refused

  chain-Ends :
      (configs : List (PluginConfig F)) (run : Run P)
      → run.writer.status ≡ none
      → Ends run.writer (execute_from reg domain configs run)
  chain-Ends [] run unwritten = unfold execute_from in refl
  chain-Ends (c ∷ cs) run unwritten = elim (Option-cases (find c.type reg)) [
    | inl unknown ↦
        subst (Ends run.writer) (sym (execute_unknown reg domain c cs run unknown))
          (chain-Ends cs run unwritten)
    | inr (pl, known) ↦ subst (Ends run.writer) (sym (execute_known reg domain c cs run pl known)) (
        next-Ends run.writer (pl c.config domain run) (execute_from reg domain cs) unwritten
          (polite c.type pl known c.config domain run unwritten) (λ r u. chain-Ends cs r u))
  ]

-- The statuses that the business server answers with.
abbrev pub IsAnswer : Option ℕ → Type 0
IsAnswer status =
    (status ≡ some 200)
    ⊎ (status ≡ some 404)
    ⊎ (status ≡ some 429)
    ⊎ (status ≡ some 500)
    ⊎ (status ≡ some 502)

module _ (St : Storage) {F P W : Type 0} (deps : Deps F P W) where
  abbrev Answered : Served → Type 0
  Answered served = IsAnswer (recovery fresh_writer served).status

  answer-status :
      (hit : Bool) (run : Run P) (rc : Reader) (meta : Meta)
      → run.writer.status ≡ none
      → (answer hit run rc meta).status ≡ some 200
  unfolding answer write_header write_body apply_response_mutations
  answer-status hit run (ok body) meta u = rw u refl
  answer-status hit run (err e) meta u = rw u refl

  respond-Answered :
      (hit : Bool) (run : Run P) (crashed : Bool) (reply : Result (Reader × Meta))
      → run.writer.status ≡ none
      → Answered (respond St deps hit run crashed reply)
  unfolding recovery
  respond-Answered hit run true reply u =
      inr (inr (inr (inl (http_error-status fresh_writer (str "Internal Server Error") 500 refl))))
  respond-Answered hit run false (err e) u =
      inr (inr (inr (inr (http_error-status run.writer (str "Bad Gateway") 502 u))))
  respond-Answered hit run false (ok (rc, meta)) u = inl (answer-status hit run rc meta u)

  module _ (polite : (key : Str) (pl : Plugin F P) → find key deps.registry ≡ some pl → IsPolite pl)
      (at : Instants) (in_flight : Option (Result SfResult)) (h : Handler St.State F P W)
      (r : Request) where
    passed-Answered :
        (h' : Handler St.State F P W) (cfg : DomainConfig F) (run : Run P)
        → run.writer.status ≡ none
        → Answered (serve_passed St deps at in_flight h' cfg run).1
    unfolding serve_passed
    passed-Answered h' cfg run u = respond-Answered _ run _ _ u

    module _ (cfg : DomainConfig F) (found : find (strip_port r.host) h.domains ≡ some cfg) where
      abbrev through : Run P × Bool
      through = executed St deps at in_flight h fresh_writer r cfg found

      through-Ends : Ends fresh_writer through
      unfolding execute
      through-Ends = chain-Ends deps.registry polite cfg.domain cfg.plugins _ refl

      found-Answered :
          (b : Bool)
          → through.1 ≡ b
          → Ends fresh_writer (through.0, b)
          → Answered (serve_http St deps at in_flight h fresh_writer r).1
      unfolding recovery
      found-Answered true e same =
          subst (λ s. Answered s.1)
            (sym (serve_on St deps at in_flight h fresh_writer r cfg found e))
            (passed-Answered (plugged St deps at in_flight h fresh_writer r cfg found) cfg through.0
              (ap (λ w. w.status) same))
      found-Answered false e refused =
          subst (λ s. Answered s.1)
            (sym (serve_refused St deps at in_flight h fresh_writer r cfg found e))
            (inr (inr (inl refused)))

    serve_http-Answered : Answered (serve_http St deps at in_flight h fresh_writer r).1
    unfolding recovery
    serve_http-Answered = elim (Option-cases (find (strip_port r.host) h.domains)) [
      | inl absent ↦
          subst (λ s. Answered s.1)
            (sym (serve_unknown St deps at in_flight h fresh_writer r absent))
            (inr (inl (http_error-status fresh_writer (str "404 page not found") 404 refl)))
      | inr (cfg, found) ↦
          found-Answered cfg found (through cfg found).1 refl (through-Ends cfg found)
    ]

-- With the plugins that the program registers, every request is answered: whatever the request, the
-- configuration, the storage and the origins do, a panic included, the response has one of the
-- statuses 200, 404, 429, 500 and 502.
pub serve_answered :
    (St : Storage) {W : Type 0} (fl : Float) (tb : TokenBucket fl.F)
    (split_host_port : Str → Option Str) (re : Regexp)
    (deps : ℤ → ℤ → Deps fl.F (Map (DomainState fl tb split_host_port)) W)
    (registers : (seen now : ℤ)
      → (deps seen now).registry ≡ registry fl tb split_host_port re seen now)
    (at : Instants) (seen now : ℤ) (in_flight : Option (Result SfResult)) (r : Request)
    (h : Handler St.State fl.F (Map (DomainState fl tb split_host_port)) W)
    → IsAnswer (serve St deps at seen now in_flight r h).1.status
unfolding serve
serve_answered St fl tb split_host_port re deps registers at seen now in_flight r h =
    serve_http-Answered St (deps seen now)
      (λ key pl e.
        registered fl tb split_host_port re seen now key pl
          (sym (ap (find key) (registers seen now)) ∙ e))
      at in_flight h r
