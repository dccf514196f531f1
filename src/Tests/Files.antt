-- ===== src/Tests/Files.antt =====
-- Concrete runs of src/fileio.cpp and src/session.cpp.
use wasapi.Base.{ℕ, suc, ◌≡◌, refl, true, none, some, [], codes, bytes_eq, ◌∷◌, arith}
use wasapi.Dynamic.{string, object, end, field}
use wasapi.FileCache.{Cache, evict_size, cached, Outside, read_entire_file_cached}
use wasapi.FileCache.Count.{total_size}
use wasapi.FileCache.Valid.{IsValid, evict_size-IsValid}
use wasapi.Request.{Request, new_request}
use wasapi.Session.{Services, random_hex, session_start}
use wasapi.Session.Identity.{session_start-session_id}

-- Every file is its own name; the cache holds ten bytes.
abbrev pub outside : Outside
outside = record {
  file_cache_max_size = 10;
  file_cache_ttl = 5000000000;
  stat = λ name. some (1, 3);
  read_file = λ name size. some name;
  write_file = λ name content. true;
  now = 7000000000;
  ttl_now = 7000000000;
  insert_now = 7000000000;
  time = 7;
}

abbrev pub empty : Cache
empty = record { file_cache = []; call_counter = 0; total_cache_size = 0 }

pub empty-IsValid : IsValid 10 empty
unfolding total_size
empty-IsValid = record { counted = refl; limited = omega arith }

read_run : (read_entire_file_cached outside (codes "abc") empty).0 ≡ codes "abc"
unfolding read_entire_file_cached bytes_eq
read_run = refl

-- The random numbers count up; there are no files.
abbrev pub services : Services ℕ
services = record {
  random = λ w. (w, suc w);
  read_file = λ path w. ([], w);
  write_file = λ path content w. (true, w);
  make_directory = λ path w. w;
  unlink = λ path w. w;
  stod = λ s. none;
  print_number = λ n. [];
  session_storage_path = codes "/tmp";
  session_cookie_name = codes "sid";
}

-- A request that comes back with its session's cookie.
abbrev returning : Request
returning = record (new_request 0 0 0) {
  cookies = object (field (codes "sid") (string (codes "00112233445566778899aabbccddeeff")) end);
}

no_id : returning.session_id ≡ []
unfolding new_request
no_id = refl

session_start-session_id_example :
    (session_start services returning 5).0.session_id ≡ (random_hex services 16 16 5).0
session_start-session_id_example = session_start-session_id services returning 5 no_id

-- Two files of three bytes each, for a limit of four.
abbrev crowded : Cache
crowded = record {
  file_cache = (codes "a", cached (codes "abc") 1 20) ∷ (codes "b", cached (codes "def") 1 10) ∷ [];
  call_counter = 0;
  total_cache_size = 6;
}

evict_run : (evict_size 4 crowded).file_cache ≡ (codes "a", cached (codes "abc") 1 20) ∷ []
unfolding evict_size
evict_run = refl

crowded-counted : crowded.total_cache_size ≡ total_size crowded.file_cache
unfolding total_size
crowded-counted = refl

evict_size-IsValid_example : IsValid 4 (evict_size 4 crowded)
evict_size-IsValid_example = evict_size-IsValid 4 crowded (omega arith) crowded-counted
