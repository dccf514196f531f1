-- ===== src/Config/Args.antt =====
-- src/config.h: `GlobalConfig`; src/config.cpp: `config_parse_args`.
-- An `int` is its 32-bit pattern and a double its 64-bit pattern. The conversions `std::stoi`,
-- `std::stoul` and `std::stoull` are parameters; nothing is an exception, which nobody catches.
pub mod Errors
use wasapi.Base.{
  ℕ, ◌+◌, ◌*◌, ◌-◌, ◌%◌, ◌^◌, ◌≡◌, refl, ap, Bool, true, false, Option, none, some, List, [], ◌∷◌,
  ◌++◌, Bytes, codes, bytes_eq, if◌then◌else◌, arith,
}

pub record GlobalConfig : Type 0 where
  pub fcgi_port : ℕ
  pub fcgi_socket_path : Bytes
  pub fcgi_path_prefix : Bytes
  pub ws_port : ℕ
  pub ws_socket_path : Bytes
  pub ws_path_prefix : Bytes
  pub backlog : ℕ
  pub arena_capacity : ℕ
  pub output_buffer_initial : ℕ
  pub upload_tmp_dir : Bytes
  pub max_in_flight : ℕ
  pub max_params_bytes : ℕ
  pub max_stdin_bytes : ℕ
  pub max_memory_per_request : ℕ
  pub max_request_time : ℕ
  pub body_preview_limit : ℕ
  pub print_env_limit : ℕ
  pub print_params_limit : ℕ
  pub print_indent : ℕ
  pub pretty_print_params : Bool
  pub params_json_depth : ℕ
  pub endpoint_file_path : Bytes
  pub default_content_type : Bytes
  pub session_cookie_name : Bytes
  pub session_cookie_lifetime : ℕ
  pub session_cookie_path : Bytes
  pub session_storage_path : Bytes
  pub session_auto_load : Bool
  pub http_cookies_var : Bytes
  pub http_query_var : Bytes
  pub keep_uploaded_files : Bool
  pub cleanup_temp_on_disconnect : Bool
  pub file_cache_ttl : ℕ
  pub file_cache_max_size : ℕ
  pub log_level : ℕ
  pub log_destination : Bytes

abbrev pub default_config : GlobalConfig
default_config = record {
  fcgi_port = 9000;
  fcgi_socket_path = [];
  fcgi_path_prefix = [];
  ws_port = 9001;
  ws_socket_path = [];
  ws_path_prefix = codes "/ws";
  backlog = 4096;
  arena_capacity = 262144;
  output_buffer_initial = 32768;
  upload_tmp_dir = codes "/tmp";
  max_in_flight = 8;
  max_params_bytes = 262144;
  max_stdin_bytes = 2097152;
  max_memory_per_request = 16777216;
  max_request_time = 4629137466983448576;
  body_preview_limit = 1024;
  print_env_limit = 0;
  print_params_limit = 0;
  print_indent = 2;
  pretty_print_params = true;
  params_json_depth = 4294967295;
  endpoint_file_path = codes "SCRIPT_FILENAME";
  default_content_type = codes "text/plain; charset=utf-8";
  session_cookie_name = codes "session_id";
  session_cookie_lifetime = 4702820688963043328;
  session_cookie_path = codes "/";
  session_storage_path = codes "/tmp/sessions";
  session_auto_load = true;
  http_cookies_var = codes "HTTP_COOKIE";
  http_query_var = codes "QUERY_STRING";
  keep_uploaded_files = false;
  cleanup_temp_on_disconnect = true;
  file_cache_ttl = 4648488871632306176;
  file_cache_max_size = 268435456;
  log_level = 1;
  log_destination = codes "stderr";
}

-- `Opt`: an option with a value, one without, and the one that `config_parse_args` looks for itself.
pub data Opt : Type 0 where
  needs : (Bytes → GlobalConfig → Option GlobalConfig) → Opt
  flag : (GlobalConfig → GlobalConfig) → Opt
  help : Opt

-- What the call returns, with the configuration and the errors, or that a conversion threw.
pub data Parsing : Type 0 where
  returns : Bool → GlobalConfig → List Bytes → Parsing
  throws : Parsing

pub record Numbers : Type 0 where
  pub stoi : Bytes → Option ℕ
  pub stoul : Bytes → Option ℕ
  pub stoull : Bytes → Option ℕ

-- An option whose value is a number.
unfoldable pub numeric : (Bytes → Option ℕ) → (ℕ → GlobalConfig → GlobalConfig) → Opt
numeric read put = needs (λ v. λ c. elim (read v) [ none ↦ none | some n ↦ some (put n c) ])

unfoldable pub textual : (Bytes → GlobalConfig → GlobalConfig) → Opt
textual put = needs (λ v. λ c. some (put v c))

unfoldable pub find_opt : Bytes → List (Bytes × Opt) → Option Opt
find_opt a [] = none
find_opt a ((name, o) ∷ os) = if bytes_eq a name then some o else find_opt a os

module _ (numbers : Numbers) where
  -- The table `opts`.
  unfoldable pub opts : List (Bytes × Opt)
  unfolding numeric textual
  opts =
      (codes "--fcgi-port", numeric numbers.stoi (λ n. λ c. record c { fcgi_port = n % 2 ^ 16 }))
      ∷ (codes "--fcgi-socket", textual (λ v. λ c. record c { fcgi_socket_path = v }))
      ∷ (codes "--ws-port", numeric numbers.stoi (λ n. λ c. record c { ws_port = n % 2 ^ 16 }))
      ∷ (codes "--ws-socket", textual (λ v. λ c. record c { ws_socket_path = v }))
      ∷ (codes "--backlog", numeric numbers.stoi (λ n. λ c. record c { backlog = n }))
      ∷ (
        codes "--max-in-flight",
        numeric numbers.stoul (λ n. λ c. record c { max_in_flight = n % 2 ^ 32 }),
      )
      ∷ (codes "--max-params", numeric numbers.stoull (λ n. λ c. record c { max_params_bytes = n }))
      ∷ (codes "--max-stdin", numeric numbers.stoull (λ n. λ c. record c { max_stdin_bytes = n }))
      ∷ (
        codes "--arena-capacity",
        numeric numbers.stoull (λ n. λ c. record c { arena_capacity = n }),
      )
      ∷ (
        codes "--output-buffer",
        numeric numbers.stoull (λ n. λ c. record c { output_buffer_initial = n }),
      )
      ∷ (codes "--upload-tmp", textual (λ v. λ c. record c { upload_tmp_dir = v }))
      ∷ (
        codes "--body-preview",
        numeric numbers.stoull (λ n. λ c. record c { body_preview_limit = n }),
      )
      ∷ (
        codes "--print-env-limit",
        numeric numbers.stoull (λ n. λ c. record c { print_env_limit = n }),
      )
      ∷ (
        codes "--print-params-limit",
        numeric numbers.stoull (λ n. λ c. record c { print_params_limit = n }),
      )
      ∷ (codes "--print-indent", numeric numbers.stoi (λ n. λ c. record c { print_indent = n }))
      ∷ (
        codes "--params-json-depth",
        numeric numbers.stoi (λ n. λ c. record c { params_json_depth = n }),
      )
      ∷ (codes "--keep-uploads", flag (λ c. record c { keep_uploaded_files = true }))
      ∷ (codes "--no-cleanup-temp", flag (λ c. record c { cleanup_temp_on_disconnect = false }))
      ∷ (codes "--log-level", numeric numbers.stoi (λ n. λ c. record c { log_level = n }))
      ∷ (codes "--log-dest", textual (λ v. λ c. record c { log_destination = v }))
      ∷ (codes "--ws-path-prefix", textual (λ v. λ c. record c { ws_path_prefix = v }))
      ∷ (codes "--fcgi-path-prefix", textual (λ v. λ c. record c { fcgi_path_prefix = v }))
      ∷ (codes "--help", help)
      ∷ []

  -- The loop on the arguments, without the program's name.
  unfoldable pub args_loop : List Bytes → GlobalConfig → List Bytes → Parsing
  unfolding find_opt opts
  args_loop [] c [] = returns true c []
  args_loop [] c (e ∷ errors) = returns false c (e ∷ errors)
  args_loop (a ∷ []) c errors = elim (find_opt a opts) [
    | none ↦ returns false c (errors ++ (codes "Unknown arg: " ++ a) ∷ [])
    | some help ↦ returns false c errors
    | some (needs put) ↦ returns false c (errors ++ (codes "Missing value for " ++ a) ∷ [])
    | some (flag put) ↦ args_loop [] (put c) errors
  ]
  args_loop (a ∷ v ∷ args) c errors = elim (find_opt a opts) [
    | none ↦ args_loop (v ∷ args) c (errors ++ (codes "Unknown arg: " ++ a) ∷ [])
    | some help ↦ returns false c errors
    | some (needs put) ↦ elim (put v c) [ none ↦ throws | some c' ↦ args_loop args c' errors ]
    | some (flag put) ↦ args_loop (v ∷ args) (put c) errors
  ]

  -- `argv` begins with the program's name.
  unfoldable pub config_parse_args : List Bytes → GlobalConfig → Parsing
  unfolding args_loop
  config_parse_args [] c = returns true c []
  config_parse_args (program ∷ args) c = args_loop args c []
