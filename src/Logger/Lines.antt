-- ===== src/Logger/Lines.antt =====
-- The lines that any calls of src/logger.h write.
use wasapi.Base.{
  ℕ, ◌≡◌, refl, sym, ap, subst, ◌∙◌, true, false, Option, none, some, List, [], ◌∷◌, ◌++◌,
  append-nil, append_assoc, Bytes, codes, ◌==◌, ==_iff, if◌then◌else◌, Bool-cases, inl, inr,
}
use wasapi.Logger.{
  Level, pos, above, Sink, Logger, Outside, set_at, log_destination, open_destination, new_tag,
  tag_of, current_thread_tag, print_line, log, log_error, log_info, log_debug,
}

-- Which of the four functions is called.
pub data Kind : Type 0 where
  any : Level → Kind
  error info debug : Kind

pub record Message : Type 0 where
  pub kind : Kind
  pub thread : ℕ
  pub body : Bytes
  pub log_level : Level
  pub path : Bytes

unfoldable pub say_kind : Outside → Level → Bytes → ℕ → Bytes → Logger → Kind → Logger
unfolding log log_error log_info log_debug
say_kind o log_level path t body s (any level) = log o log_level path t body s level
say_kind o log_level path t body s error = log_error o log_level path t body s
say_kind o log_level path t body s info = log_info o log_level path t body s
say_kind o log_level path t body s debug = log_debug o log_level path t body s

unfoldable pub say : Outside → Message → Logger → Logger
unfolding say_kind
say o m s = say_kind o m.log_level m.path m.thread m.body s m.kind

unfoldable pub say_all : Outside → List Message → Logger → Logger
unfolding say
say_all o [] s = s
say_all o (m ∷ ms) s = say_all o ms (say o m s)

-- The level of a call, and what its line starts with.
unfoldable pub level_of : Kind → Level
level_of (any level) = level
level_of error = pos 0
level_of info = pos 1
level_of debug = pos 2

unfoldable pub start_of : Outside → Kind → Bytes
start_of o (any level) = codes "[LOG" ++ (o.print_level level ++ codes "] [")
start_of o error = codes "[ERROR] ["
start_of o info = codes "[INFO] ["
start_of o debug = codes "[DEBUG] ["

-- The line of a message, when `tags` names the threads.
unfoldable pub line : Outside → (ℕ → Bytes) → Message → Bytes
unfolding start_of
line o tags m = start_of o m.kind ++ (tags m.thread ++ (codes "] " ++ (m.body ++ 10 ∷ [])))

-- The place where lines go: the one that is settled, or the one that the configuration names.
unfoldable pub place : Outside → Bytes → Option Sink → Sink
unfolding open_destination
place o path (some f) = f
place o path none = open_destination o path

-- The lines of the messages whose level is not above the one configured. The first of them settles where
-- all of them go, if that is not settled yet.
unfoldable pub wanted : Outside → Option Sink → (ℕ → Bytes) → List Message → List (Sink × Bytes)
unfolding level_of line place
wanted o d tags [] = []
wanted o d tags (m ∷ ms) = elim (above (level_of m.kind) m.log_level) [
  | true ↦ wanted o d tags ms
  | false ↦ let f = place o m.path d in (f, line o tags m) ∷ wanted o (some f) tags ms
]

-- The first text that is not empty.
unfoldable pub first_text : List Bytes → Bytes
first_text [] = []
first_text ([] ∷ texts) = first_text texts
first_text ((c ∷ text) ∷ texts) = c ∷ text

unfoldable pub name_of : Option Bytes → Bytes
name_of none = []
name_of (some name) = name

abbrev pub meant : Outside → ℕ → Option Bytes → Bytes → Bytes
meant o t name tag = first_text (tag ∷ name_of name ∷ (codes "tid:" ++ o.print_thread t) ∷ [])

-- The tag that the next line of each thread will carry.
abbrev pub tags_of : Outside → Logger → ℕ → Bytes
tags_of o s t = meant o t (s.thread_names t) (s.tags t)

tag_of-meant :
    (o : Outside) (t : ℕ) (name : Option Bytes) (tag : Bytes)
    → tag_of o t name tag ≡ meant o t name tag
unfolding tag_of new_tag first_text name_of
tag_of-meant o t name (c ∷ tag) = refl
tag_of-meant o t (some (c ∷ name)) [] = refl
tag_of-meant o t (some []) [] = refl
tag_of-meant o t none [] = refl

log_destination-place :
    (o : Outside) (path : Bytes) (d : Option Sink) → log_destination o path d ≡ place o path d
unfolding log_destination place
log_destination-place o path (some f) = refl
log_destination-place o path none = refl

say_kind-cases :
    (o : Outside) (log_level : Level) (path : Bytes) (t : ℕ) (body : Bytes) (s : Logger)
    (kind : Kind)
    → say_kind o log_level path t body s kind ≡ (
        if above (level_of kind) log_level then s else print_line o path t (start_of o kind) body s)
unfolding say_kind level_of start_of log log_error log_info log_debug
say_kind-cases o log_level path t body s (any level) = refl
say_kind-cases o log_level path t body s error = refl
say_kind-cases o log_level path t body s info = refl
say_kind-cases o log_level path t body s debug = refl

meant-tag_of :
    (o : Outside) (t : ℕ) (name : Option Bytes) (tag : Bytes)
    → meant o t name (tag_of o t name tag) ≡ meant o t name tag
unfolding tag_of new_tag first_text name_of
meant-tag_of o t name (c ∷ tag) = refl
meant-tag_of o t (some (c ∷ name)) [] = refl
meant-tag_of o t (some []) [] = refl
meant-tag_of o t none [] = refl

-- Using the tag of a thread settles it, and leaves the tags of the others.
tags_of-current_thread_tag :
    (o : Outside) (t : ℕ) (s : Logger) (u : ℕ)
    → tags_of o (current_thread_tag o t s).1 u ≡ tags_of o s u
unfolding current_thread_tag set_at
tags_of-current_thread_tag o t s u = elim (Bool-cases (u == t)) [
  | inl e ↦
      rw (e, set_at)
        (subst
          (λ x.
            meant o u (s.thread_names u) (tag_of o x (s.thread_names x) (s.tags x)) ≡ tags_of o s u)
          ((==_iff u t).0 e) (meant-tag_of o u (s.thread_names u) (s.tags u)))
  | inr e ↦ rw (e, set_at) refl
]

say-quiet :
    (o : Outside) (m : Message) (s : Logger)
    → above (level_of m.kind) m.log_level ≡ true
    → say o m s ≡ s
unfolding say
say-quiet o m s h = rw (say_kind-cases o m.log_level m.path m.thread m.body s m.kind) (rw h refl)

say-loud :
    (o : Outside) (m : Message) (s : Logger)
    → above (level_of m.kind) m.log_level ≡ false
    → say o m s ≡ print_line o m.path m.thread (start_of o m.kind) m.body s
unfolding say
say-loud o m s h = rw (say_kind-cases o m.log_level m.path m.thread m.body s m.kind) (rw h refl)

wanted-quiet :
    (o : Outside) (d : Option Sink) (tags : ℕ → Bytes) (m : Message) (ms : List Message)
    → above (level_of m.kind) m.log_level ≡ true
    → wanted o d tags (m ∷ ms) ≡ wanted o d tags ms
unfolding wanted
wanted-quiet o d tags m ms h = rw (h, wanted) refl

wanted-loud :
    (o : Outside) (d : Option Sink) (tags : ℕ → Bytes) (m : Message) (ms : List Message)
    → above (level_of m.kind) m.log_level ≡ false
    → wanted o d tags (m ∷ ms)
      ≡ (log_destination o m.path d, line o tags m)
        ∷ wanted o (some (log_destination o m.path d)) tags ms
unfolding wanted
wanted-loud o d tags m ms h = rw (h, wanted) (rw (log_destination-place o m.path d) refl)

-- One line is added, with the tag that the thread has.
print_line-written :
    (o : Outside) (m : Message) (s : Logger) (tags : ℕ → Bytes)
    → ((t : ℕ) → tags_of o s t ≡ tags t)
    → (print_line o m.path m.thread (start_of o m.kind) m.body s).written
      ≡ s.written ++ (log_destination o m.path s.destination, line o tags m) ∷ []
unfolding print_line current_thread_tag line
print_line-written o m s tags h =
    ap
      (λ tag.
        s.written
        ++ (
          log_destination o m.path s.destination,
          start_of o m.kind ++ (tag ++ (codes "] " ++ (m.body ++ 10 ∷ []))),
        )
          ∷ [])
      (tag_of-meant o m.thread (s.thread_names m.thread) (s.tags m.thread) ∙ h m.thread)

say_all-wanted :
    (o : Outside) (ms : List Message) (s : Logger) (tags : ℕ → Bytes)
    → ((t : ℕ) → tags_of o s t ≡ tags t)
    → (say_all o ms s).written ≡ s.written ++ wanted o s.destination tags ms
unfolding say_all print_line wanted
say_all-wanted o [] s tags h = sym (append-nil s.written)
say_all-wanted o (m ∷ ms) s tags h = elim (Bool-cases (above (level_of m.kind) m.log_level)) [
  | inl e ↦
      ap (λ u. (say_all o ms u).written) (say-quiet o m s e)
      ∙ (say_all-wanted o ms s tags h
          ∙ ap (λ ls. s.written ++ ls) (sym (wanted-quiet o s.destination tags m ms e)))
  | inr e ↦
      let f = log_destination o m.path s.destination in
      let s' = print_line o m.path m.thread (start_of o m.kind) m.body s in
      ap (λ u. (say_all o ms u).written) (say-loud o m s e)
      ∙ (say_all-wanted o ms s' tags (λ t. tags_of-current_thread_tag o m.thread s t ∙ h t)
          ∙ (ap (λ ls. ls ++ wanted o (some f) tags ms) (print_line-written o m s tags h)
              ∙ (append_assoc s.written ((f, line o tags m) ∷ []) (wanted o (some f) tags ms)
                  ∙ ap (λ ls. s.written ++ ls) (sym (wanted-loud o s.destination tags m ms e)))))
]

-- Whatever calls are made, the lines written are those of the calls whose level is not above the one
-- configured at the time, in order and whole. All of them go to the place that is settled, or that the first
-- of them finds in the configuration, and all lines of a thread carry the tag that it had, or its
-- registered name, or its number when that is missing or empty.
pub say_all-written :
    (o : Outside) (ms : List Message) (s : Logger)
    → (say_all o ms s).written ≡ s.written ++ wanted o s.destination (tags_of o s) ms
say_all-written o ms s = say_all-wanted o ms s (tags_of o s) (λ t. refl)
