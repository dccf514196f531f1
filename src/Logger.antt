-- ===== src/Logger.antt =====
-- src/logger.h: the log's lines. Each call holds `log_mutex` from its test of the level to its end, so that
-- it is one step here. A thread is a number. The level and the destination of the configuration are
-- arguments, since they may change between two calls; so is the text that `vfprintf` makes of a message.
pub mod Lines
use wasapi.Base.{
  ℕ, Bool, true, false, Option, none, some, List, [], ◌∷◌, ◌++◌, Bytes, codes, ltb, ◌==◌, bytes_eq,
  if◌then◌else◌,
}

-- An `int`.
pub data Level : Type 0 where
  pos negsuc : ℕ → Level

-- `level > log_level`.
unfoldable pub above : Level → Level → Bool
above (pos m) (pos n) = ltb n m
above (pos m) (negsuc n) = true
above (negsuc m) (pos n) = false
above (negsuc m) (negsuc n) = ltb m n

pub data Sink : Type 0 where
  standard : Sink
  file : Bytes → Sink

-- The variables of the file: the two that `log_destination_unsafe_init` keeps, `thread_names`, and the `tag`
-- of each thread. The last one holds every line that was written, and where it went.
pub record Logger : Type 0 where
  pub destination : Option Sink
  pub thread_names : ℕ → Option Bytes
  pub tags : ℕ → Bytes
  pub written : List (Sink × Bytes)

-- What the system answers: whether a file can be opened, and how `fprintf` and `snprintf` show a level
-- (`%d`) and a thread (`%llx`).
pub record Outside : Type 0 where
  pub fopen : Bytes → Bool
  pub print_level : Level → Bytes
  pub print_thread : ℕ → Bytes

unfoldable pub set_at : {A : Type 0} → ℕ → A → (ℕ → A) → ℕ → A
set_at t x f u = if u == t then x else f u

unfoldable pub register_thread_name : ℕ → Bytes → Logger → Logger
unfolding set_at
register_thread_name t name s = record s { thread_names = set_at t (some name) s.thread_names }

unfoldable pub open_destination : Outside → Bytes → Sink
open_destination o [] = standard
open_destination o (c ∷ path) =
    if bytes_eq (c ∷ path) (codes "stderr")
    then standard
    else if o.fopen (c ∷ path)
    then file (c ∷ path)
    else standard

-- `log_destination`: only the first call looks at the configuration.
unfoldable pub log_destination : Outside → Bytes → Option Sink → Sink
unfolding open_destination
log_destination o path (some f) = f
log_destination o path none = open_destination o path

-- What an empty tag becomes: the name of the thread, or its number if that is missing or empty.
unfoldable pub new_tag : Outside → ℕ → Option Bytes → Bytes
new_tag o t (some (c ∷ name)) = c ∷ name
new_tag o t _ = codes "tid:" ++ o.print_thread t

unfoldable pub tag_of : Outside → ℕ → Option Bytes → Bytes → Bytes
unfolding new_tag
tag_of o t name (c ∷ tag) = c ∷ tag
tag_of o t name [] = new_tag o t name

unfoldable pub current_thread_tag : Outside → ℕ → Logger → Bytes × Logger
unfolding tag_of set_at
current_thread_tag o t s =
    let tag = tag_of o t (s.thread_names t) (s.tags t) in
    (tag, record s { tags = set_at t tag s.tags })

-- The part of the four functions behind the test of the level: `start` is what stands before the tag.
unfoldable pub print_line : Outside → Bytes → ℕ → Bytes → Bytes → Logger → Logger
unfolding log_destination current_thread_tag
print_line o path t start body s =
    let out = log_destination o path s.destination in
    let (tag, s') = current_thread_tag o t s in
    record s' {
      destination = some out;
      written = s.written ++ (out, start ++ (tag ++ (codes "] " ++ (body ++ 10 ∷ [])))) ∷ [];
    }

module _ (o : Outside) (log_level : Level) (path : Bytes) (t : ℕ) (body : Bytes) (s : Logger) where
  unfoldable pub log : Level → Logger
  unfolding above print_line
  log level =
      if above level log_level
      then s
      else print_line o path t (codes "[LOG" ++ (o.print_level level ++ codes "] [")) body s

  unfoldable pub log_error : Logger
  unfolding above print_line
  log_error = if above (pos 0) log_level then s else print_line o path t (codes "[ERROR] [") body s

  unfoldable pub log_info : Logger
  unfolding above print_line
  log_info = if above (pos 1) log_level then s else print_line o path t (codes "[INFO] [") body s

  unfoldable pub log_debug : Logger
  unfolding above print_line
  log_debug = if above (pos 2) log_level then s else print_line o path t (codes "[DEBUG] [") body s
