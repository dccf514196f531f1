-- ===== src/Tests/Values.antt =====
-- Concrete runs of the union of src/dynamic_variable.cpp, of `alloc` of src/memory.cpp, and of src/logger.h.
use wasapi.Base.{◌≡◌, refl, false, none, some, List, [], ◌∷◌, ◌++◌, codes, bytes_eq, arith}
use wasapi.Dynamic.{string, array, stop}
use wasapi.Dynamic.Storage.{Slot, Moved, fresh, make_string, clear}
use wasapi.Dynamic.Storage.Safety.{
  value_of, Holds, moves, sets_list, moves_self, execute_all, moves_to, list_to, moves_to_self,
  ends, goes_on, execute_all-safe,
}
use wasapi.Memory.{Arena, alloc}
use wasapi.Memory.Block.{Placed, alloc-Placed}
use wasapi.Logger.{above, Logger, Outside, pos, standard}
use wasapi.Logger.Lines.{
  Message, error, debug, say_all, wanted, first_text, name_of, tags_of, say_all-written,
}

-- A move leaves nothing behind.
abbrev moved : Moved
moved = record { moved_text = λ s. []; moved_table = λ fs. fs; moved_list = λ xs. xs }

abbrev hello : Slot
hello = make_string (codes "hello")

-- A list over a text, moved onto itself, then a text moved over the list.
execute_all-safe_example :
    (v' : Slot) × ((execute_all moved (sets_list stop ∷ moves_self ∷ moves hello ∷ []) hello
        ≡ some v')
      × (Holds v' (string (codes "hello")) × (clear v' ≡ some fresh)))
unfolding make_string value_of
execute_all-safe_example =
    execute_all-safe moved (sets_list stop ∷ moves_self ∷ moves hello ∷ []) hello
      (string (codes "hello")) (string (codes "hello")) refl
      (goes_on (sets_list stop) (moves_self ∷ moves hello ∷ []) (array stop)
        (string (codes "hello")) (list_to stop)
        (goes_on moves_self (moves hello ∷ []) (array stop) (string (codes "hello")) moves_to_self (
          goes_on (moves hello) [] (string (codes "hello")) (string (codes "hello"))
            (moves_to hello (string (codes "hello")) refl) ends)))

abbrev arena : Arena
arena = record { capacity = 64; offset = 3; management_flag = 0 }

alloc_run : alloc 4096 8 8 arena ≡ some (4104, record arena { offset = 16 })
unfolding alloc
alloc_run = refl

alloc-Placed_example : Placed 4096 8 8 arena 4104 (record arena { offset = 16 })
alloc-Placed_example =
    alloc-Placed 4096 8 3 4104 arena (record arena { offset = 16 }) (omega arith) (omega arith)
      (omega arith) alloc_run

abbrev outside : Outside
outside = record {
  fopen = λ path. false;
  print_level = λ level. codes "9";
  print_thread = λ t. codes "f";
}

-- Nothing is written yet, and no thread has a name.
abbrev silent : Logger
silent = record { destination = none; thread_names = λ t. none; tags = λ t. []; written = [] }

-- At level 1, an error is written and a debug message is not.
abbrev messages : List Message
messages =
    record { kind = error; thread = 0; body = codes "no"; log_level = pos 1; path = codes "/log" }
    ∷ record {
      kind = debug;
      thread = 0;
      body = codes "yes";
      log_level = pos 1;
      path = codes "/log";
    }
    ∷ []

log_run :
    wanted outside none (tags_of outside silent) messages
    ≡ (standard, codes "[ERROR] [tid:f] no\n") ∷ []
unfolding wanted above bytes_eq first_text name_of
log_run = refl

say_all-written_example :
    (say_all outside messages silent).written
    ≡ [] ++ wanted outside none (tags_of outside silent) messages
say_all-written_example = say_all-written outside messages silent
