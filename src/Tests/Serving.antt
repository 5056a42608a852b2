-- ===== src/Tests/Serving.antt =====
-- Concrete runs of the defaults, the plugins and the puller.
use file_server.Prelude.{
  ℕ, suc, ◌+◌, ◌%◌, ◌≤◌, Str, str, Map, find, has_prefix, trim_prefix, ltb, leb, ℤ, pos, negsuc,
  leb_ℤ, length, List, [], ◌∷◌, ◌++◌, if◌then◌else◌, none, some, ◌≡◌, arith,
}
use file_server.Errors.{leaf, ok, err}
use file_server.Http.{fresh_writer, canonical, values_of}
use file_server.Config.{
  Items, Fields, string, dict, slice, nil, cons, end, field, PluginConfig, Config, defaults, second,
}
use file_server.Config.Defaults.{IsUsable, defaults-IsUsable}
use file_server.Pipeline.{Run, Plugin}
use file_server.Pipeline.HeaderPlugin.{header_plugin, apply_op, stage_op}
use file_server.Pipeline.HeaderPlugin.Operations.{add_op, add_appends_or_replaces}
use file_server.Pipeline.RewritePlugin.{Regexp}
use file_server.Pipeline.RateLimit.{Float, new_sliding_window, allow_sliding}
use file_server.Pipeline.RateLimit.Window.{calls, recent, calls_bounded}
use file_server.Origin.{Client, replied, pull}
use file_server.Origin.Rounds.{rotation, try_all, pull-rotation}

-- A configuration with one domain, nearly all of it left to the defaults.
abbrev config : Config ℤ
config = record {
  server = record { addr = [] };
  admin = record { addr = [] };
  storage = record { type = []; root_dir = str "/var" };
  cache = record { max_items = pos 0; flush_rule_max_age = negsuc 0 };
  key_rules = record { include_query_params = []; include_headers = [] };
  domains =
      record {
        domain = str "d";
        origins = str "http://o" ∷ [];
        origin_timeout = pos 0;
        origin_retry = negsuc 3;
        default_ttl = pos 0;
        key_rules = none;
        plugins = [];
      }
      ∷ [];
}

-- It is usable after the defaults, so these change nothing any more.
usable : IsUsable (defaults config)
usable = defaults-IsUsable config

-- A run of the chain, with the header plugin registered.
abbrev run : Run ℕ
run = record {
  ctx = record {
    rewritten_path = str "/p";
    set_response_headers = [];
    delete_response_headers = [];
  };
  request = record {
    host = str "d";
    path = str "/p";
    raw_query = [];
    query = [];
    header = [];
    remote_addr = [];
  };
  writer = fresh_writer;
  state = 0;
}

abbrev registry : Map (Plugin ℤ ℕ)
registry = (str "header", header_plugin) ∷ []

-- Adding one header to the response.
abbrev headers_config : Fields ℤ
headers_config =
    field (str "response")
      (slice (
        cons
          (dict (
            field (str "op") (string (str "add")) (
              field (str "key") (string (str "X-A")) (field (str "value") (string (str "1")) end))))
          nil))
      end

abbrev plugin : Str → PluginConfig ℤ
plugin name = record { type = name; config = headers_config }

add_appends_or_replaces_example :
    (find (canonical (str "X-A")) (apply_op [] (add_op (str "X-A") (str "1")))
      ≡ some (values_of (find (canonical (str "X-A")) []) ++ str "1" ∷ []))
    × (find
          (canonical (str "X-A"))
          (stage_op run.ctx (add_op (str "X-A") (str "1"))).set_response_headers
        ≡ some (str "1" ∷ []))
add_appends_or_replaces_example = add_appends_or_replaces [] run.ctx (str "X-A") (str "1")

-- Patterns that match a prefix.
abbrev pub prefixes : Regexp
prefixes = record {
  Pattern = Str;
  compile = λ s. some s;
  matches = λ p path. has_prefix path p;
  replace_all = λ p path r. r ++ trim_prefix path p;
}

abbrev rules : Items ℤ
rules = cons (string (str "malformed")) (
    cons
      (dict (
        field (str "match") (string (str "/old"))
          (field (str "replace") (string (str "/new")) end)))
      nil)

-- Whole numbers for floats.
abbrev pub whole : Float
whole = record { F = ℤ; of_int = λ n. n; to_int = λ n. n; geb = λ a b. leb_ℤ b a }

whole_threshold : (m : ℕ) → whole.geb (whole.of_int (pos m)) (pos 2) ≡ leb 2 m
whole_threshold m = ground arith

abbrev instants : List ℤ
instants = pos 1 ∷ pos 2 ∷ pos 3 ∷ []

calls_bounded_example :
    let (sw, admitted) = calls whole (new_sliding_window whole (pos 2)) [] instants in
    (length (recent second (pos 3) admitted) ≤ 2)
    × ((allow_sliding whole (pos 4) sw).1 ≡ ltb (length (recent second (pos 4) admitted)) 2)
calls_bounded_example =
    calls_bounded whole (pos 2) 2 (pos 0) (pos 4) instants whole_threshold
      (omega arith, (omega arith, (omega arith, tt))) (omega arith)

-- Two origins, of which only the second answers.
abbrev client : Client ℕ
client = record {
  build = λ target. none;
  round_trip = λ w timeout target header. (
    suc w,
    if has_prefix target (str "http://b")
        then ok (record { status_code = 200; header = []; body = ok (str "x") })
        else err (leaf (str "refused")),
  );
}

abbrev show : ℕ → Str
show n = str "5xx"

pull-rotation_example :
    let origins = str "http://a" ∷ str "http://b" ∷ [] in
    let tried = rotation origins (4 % length origins) (1 + 1) in
    let (w', reply) = try_all client show (pos 5) (str "/p") [] tried none 0 in
    pull client show 4 0 origins (pos 5) (pos 1) (str "/p") [] ≡ (4 + 1, (w', replied reply))
pull-rotation_example =
    pull-rotation client show 4 0 (str "http://a") (str "http://b" ∷ []) (pos 5) 1 (str "/p") []
      (omega arith)
