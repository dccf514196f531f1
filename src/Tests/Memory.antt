-- ===== src/Tests/Memory.antt =====
-- Concrete runs of src/memory.cpp.
use wasapi.Base.{ℕ, ◌≡◌, refl, Option, none, some, get_elem?}
use wasapi.Memory.{Arena, Manager, create_arenas, get}
use wasapi.Memory.Pool.{IsValid, create_arenas-IsValid}

abbrev two : Manager
two = create_arenas 2 64

-- The managers after one and two calls of `get`.
abbrev after : Option (ℕ × Manager) → Manager
after none = two
after (some (i, m)) = m

abbrev one_left : Manager
one_left = after (get two)

abbrev none_left : Manager
none_left = after (get one_left)

third_get : get none_left ≡ none
unfolding create_arenas get
third_get = refl

first_get : get two ≡ some (0, one_left)
unfolding create_arenas get
first_get = refl

second_get : get one_left ≡ some (1, none_left)
unfolding create_arenas get
second_get = refl

two-IsValid : IsValid two
two-IsValid = create_arenas-IsValid 2 64

abbrev first_arena : Arena
first_arena = record { capacity = 64; offset = 0; management_flag = 0 }

first_arena_there : get_elem? one_left.arenas 0 ≡ some first_arena
unfolding create_arenas get
first_arena_there = refl
