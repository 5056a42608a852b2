-- ===== src/Tests/Restarting.antt =====
-- Concrete restarts of the program.
use file_server.Prelude.{
  ℕ, str, str_dec, find, put, remove, ℤ, pos, List, [], ◌∷◌, Option, none, some, some-injective,
  ◌≡◌, ◌≢◌, refl, sym, subst, arith,
}
use file_server.Errors.{ok, wrap_failure}
use file_server.Http.{fresh_writer, write_header}
use file_server.Storage.Os.{Directory, create_temp, write_bytes, close, rename, remove_file}
use file_server.Storage.LocalFs.{local_fs, read, write, fill, seal, place, finish, write_meta}
use file_server.Config.{defaults}
use file_server.Flush.{match, append_rule, rules_at, all_rules, persist, load_rules}
use file_server.Flush
use file_server.Domain.{Handler, update}
use file_server.Admin.{add_flush, flush_prefix}
use file_server.Main.{running, assemble, launch_from, run, step}
use file_server.Main
use file_server.Main.Restart.{restart-run}
use file_server.Tests.Files.{host, host-IsReliable}
use file_server.Tests.Flushing.{codec, codec-laws}
use file_server.Tests.Handling.{deps, instants}
use file_server.Tests.Handling
use file_server.Tests.Managing.{decode_prefix, decode, parse, global}
use file_server.Tests.Running.{service, launches, directory, unmarshal, quote}

status_ne : ◌≢◌ {A = Option ℕ} (some 204) (some 500)
status_ne e = omega (arith, some-injective 204 500 e)

-- The rule is stored.
accepted :
    (flush_prefix
      (local_fs host)
      decode_prefix
      codec
      (pos 8)
      (pos 8)
      service
      fresh_writer
      (str "/p")).1.status
    ≡ some 204
unfolding flush_prefix add_flush assemble Flush.load Flush.new Flush.add_rule append_rule rules_at
    all_rules persist wrap_failure write create_temp fill write_bytes seal close place rename finish
    write_meta remove_file find put remove str_dec write_header read load_rules update
accepted = refl

abbrev events : List Main.Event
events =
    Main.prefix_posted (pos 8) (pos 8) (str "/p")
    ∷ Main.request (instants (pos 9)) (pos 9) (pos 9) none Handling.request
    ∷ Main.url_posted (str "http://d/p")
    ∷ []

restart-run_example :
    let h' =
      run
        (local_fs host)
        codec
        (λ seen now. deps)
        (defaults global)
        decode_prefix
        decode
        parse
        unmarshal
        quote
        (str "c.yml")
        service
        events in
    (s : Handler Directory ℤ ℕ ℕ) × (launch_from host codec
        (defaults global)
        (ok h'.cache.storage)
        0
        0
      ≡ running (defaults global) s)
    × (match s.flush (str "d") (str "/p/q") ≡ match h'.flush (str "d") (str "/p/q"))
restart-run_example =
    restart-run host codec 0 0 unmarshal quote (str "c.yml") (ok (str "c")) none directory
      (λ seen now. deps) decode_prefix decode parse (defaults global) (defaults global) service
      events 0 0 (str "d") (str "/p/q") host-IsReliable codec-laws launches
      (subst (λ s. s ≢ some 500) (sym accepted) status_ne, (tt, (tt, tt)))
