-- ===== src/Tests/Server.antt =====
-- Concrete runs of src/config.cpp and src/wasapi-server.cpp.
use wasapi.Base.{ℕ, ◌+◌, ◌≡◌, refl, true, none, some, [], ◌∷◌, codes, bytes_eq}
use wasapi.Request.{Request, new_request}
use wasapi.Session.{Services}
use wasapi.Config.Args.{Numbers, default_config, returns, find_opt, opts, config_parse_args}
use wasapi.Server.{Printing, preview_loop, on_request_ready}
use wasapi.Server.Answer.{on_request_ready-again}

-- Every number is 80.
abbrev numbers : Numbers
numbers = record { stoi = λ s. some 80; stoul = λ s. some 80; stoull = λ s. some 80 }

port_run :
    config_parse_args numbers
      (codes "wasapi" ∷ codes "--fcgi-port" ∷ codes "80" ∷ [])
      default_config
    ≡ returns true (record default_config { fcgi_port = 80 }) []
unfolding config_parse_args bytes_eq
port_run = refl

no_option : find_opt (codes "--port") (opts numbers) ≡ none
unfolding find_opt opts bytes_eq
no_option = refl

preview_run : preview_loop (7 ∷ 65 ∷ 200 ∷ 10 ∷ []) ≡ codes ".A.\n"
unfolding preview_loop
preview_run = refl

-- A session store that counts the calls that write.
abbrev services : Services ℕ
services = record {
  random = λ w. (w, w);
  read_file = λ path w. ([], w);
  write_file = λ path content w. (true, w + 1);
  make_directory = λ path w. w + 1;
  unlink = λ path w. w;
  stod = λ s. none;
  print_number = λ n. codes "0";
  session_storage_path = codes "/tmp";
  session_cookie_name = codes "sid";
}

abbrev printing : Printing
printing = record { print_env_limit = 0; print_indent = 2; body_preview_limit = 4 }

abbrev request : Request
request = record (new_request 0 0 0) { id = 3; session_id = codes "abc"; body = codes "hello" }

on_request_ready-again_example :
    on_request_ready services printing
      (λ n. [])
      9
      (on_request_ready services printing (λ n. []) 8 request [] 5).0
      (codes "x")
      6
    ≡ ((on_request_ready services printing (λ n. []) 8 request [] 5).0, codes "x", 6)
on_request_ready-again_example =
    on_request_ready-again services printing (λ n. []) 8 9 request [] (codes "x") 5 6
