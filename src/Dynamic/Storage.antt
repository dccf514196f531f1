-- ===== src/Dynamic/Storage.antt =====
-- src/dynamic_variable.cpp: the union behind a dynamic value, in which every function constructs and
-- destroys the members by hand. A fault is an access to a member that is not alive. What the C++ library
-- leaves in a container that was moved from is a parameter.
pub mod Safety
use wasapi.Base.{
  ℕ, Bool, true, false, not, ◌||◌, Option, none, some, List, [], ◌∷◌, Bytes, ◌==◌, if◌then◌else◌,
}
use wasapi.Dynamic.{Value, Items, Fields, nil, string, object, array, number, bool, stop, end}

-- `Type`.
pub data Tag : Type 0 where
  nil_tag string_tag object_tag array_tag number_tag bool_tag : Tag

-- The member of `Data` that is alive: `s`, `o`, `a`, `num`, `b`, or none behind a destructor's call.
pub data Member : Type 0 where
  text : Bytes → Member
  table : Fields → Member
  list : Items → Member
  num : ℕ → Member
  flag : Bool → Member
  dead : Member

pub record Slot : Type 0 where
  pub type : Tag
  pub data' : Member

-- `DynamicVariable()`, and any variable that was cleared.
abbrev pub fresh : Slot
fresh = record { type = nil_tag; data' = num 0 }

-- The containers that a move leaves behind.
pub record Moved : Type 0 where
  pub moved_text : Bytes → Bytes
  pub moved_table : Fields → Fields
  pub moved_list : Items → Items

-- The switch of the copies and moves: the member that the tag names is read.
unfoldable pub read_member : Tag → Member → Option Member
read_member string_tag (text s) = some (text s)
read_member object_tag (table fs) = some (table fs)
read_member array_tag (list xs) = some (list xs)
read_member number_tag (num n) = some (num n)
read_member bool_tag (flag b) = some (flag b)
read_member nil_tag m = some (num 0)
read_member _ _ = none

-- The switch of `clear`: the destructor of the member that the tag names is called.
unfoldable pub destroy : Tag → Member → Option Member
destroy string_tag (text s) = some dead
destroy object_tag (table fs) = some dead
destroy array_tag (list xs) = some dead
destroy number_tag m = some m
destroy bool_tag m = some m
destroy nil_tag m = some m
destroy _ _ = none

-- `clear`, and the destructor of a variable, which calls it.
unfoldable pub clear : Slot → Option Slot
unfolding destroy
clear v = elim (destroy v.type v.data') [ none ↦ none | some m ↦ some fresh ]

-- `DynamicVariable(const DynamicVariable&)`.
unfoldable pub copy : Slot → Option Slot
unfolding read_member
copy other = elim (read_member other.type other.data') [
  | none ↦ none
  | some m ↦ some (record { type = other.type; data' = m })
]

unfoldable pub left_behind : Moved → Member → Member
left_behind moved (text s) = text (moved.moved_text s)
left_behind moved (table fs) = table (moved.moved_table fs)
left_behind moved (list xs) = list (moved.moved_list xs)
left_behind moved m = m

-- `DynamicVariable(DynamicVariable&&)`: the new variable, and the other, whose member is not destroyed.
unfoldable pub move : Moved → Slot → Option (Slot × Slot)
unfolding copy left_behind
move moved other = elim (copy other) [
  | none ↦ none
  | some v ↦ some (v, record { type = nil_tag; data' = left_behind moved other.data' })
]

-- `DynamicVariable(const char*)`: the null pointer leaves nil.
unfoldable pub from_literal : Option Bytes → Slot
from_literal none = fresh
from_literal (some s) = record { type = string_tag; data' = text s }

-- `DynamicVariable(std::string)` and `make_string`.
unfoldable pub make_string : Bytes → Slot
make_string s = record { type = string_tag; data' = text s }

unfoldable pub make_number : ℕ → Slot
make_number n = record { type = number_tag; data' = num n }

-- `DynamicVariable(int)`; `double_of` is the conversion.
unfoldable pub from_int : (ℕ → ℕ) → ℕ → Slot
unfolding make_number
from_int double_of i = make_number (double_of i)

unfoldable pub make_bool : Bool → Slot
make_bool b = record { type = bool_tag; data' = flag b }

unfoldable pub make_object : Slot
make_object = record { type = object_tag; data' = table end }

unfoldable pub make_array : Slot
make_array = record { type = array_tag; data' = list stop }

unfoldable pub make_null : Slot
make_null = fresh

-- The right side of an assignment: the variable itself, another variable, or one inside the container that
-- the variable holds.
pub data Source : Type 0 where
  itself : Source
  apart : Slot → Source
  inside : Slot → Source

-- What is left of the right side once the left side is cleared: an element goes with its container.
unfoldable pub surviving : Source → Option Slot
surviving (apart other) = some other
surviving _ = none

-- The assignments of another variable once the test `this != &other` has passed.
unfoldable pub copy_over : Slot → Source → Option Slot
unfolding clear surviving copy
copy_over v source = elim (clear v) [
  | none ↦ none
  | some v' ↦ elim (surviving source) [ none ↦ none | some other ↦ copy other ]
]

unfoldable pub copy_assign : Slot → Source → Option Slot
unfolding copy_over
copy_assign v itself = some v
copy_assign v source = copy_over v source

-- Unlike the move constructor, the assignment clears the other variable.
unfoldable pub move_from : Moved → Slot → Option (Slot × Slot)
unfolding copy left_behind clear
move_from moved other = elim (copy other) [
  | none ↦ none
  | some v ↦ elim (clear (record other { data' = left_behind moved other.data' })) [
    | none ↦ none
    | some other' ↦ some (v, other')
  ]
]

-- The variable, and the other if it is apart.
unfoldable pub move_assign : Moved → Slot → Source → Option (Slot × Option Slot)
unfolding clear surviving move_from
move_assign moved v itself = some (v, none)
move_assign moved v source = elim (clear v) [
  | none ↦ none
  | some v' ↦ elim (surviving source) [
    | none ↦ none
    | some other ↦ elim (move_from moved other) [
      | none ↦ none
      | some (v'', other') ↦ some (v'', some other')
    ]
  ]
]

-- The assignments of a value of another type: the variable is cleared and the member constructed.
unfoldable pub set_slot : Slot → Slot → Option Slot
unfolding clear
set_slot v new = elim (clear v) [ none ↦ none | some v' ↦ some new ]

-- The text on the right side of an assignment: one that is kept elsewhere, or one inside what the variable
-- holds, such as its own string or a string of its container.
pub data TextSource : Type 0 where
  text_apart : Bytes → TextSource
  text_inside : Bytes → TextSource

-- What is left of the text once the variable is cleared.
unfoldable pub surviving_text : TextSource → Option Bytes
surviving_text (text_apart s) = some s
surviving_text (text_inside s) = none

unfoldable pub assign_string : Slot → TextSource → Option Slot
unfolding clear surviving_text make_string
assign_string v source = elim (clear v) [
  | none ↦ none
  | some v' ↦ elim (surviving_text source) [ none ↦ none | some s ↦ some (make_string s) ]
]

-- The null pointer is the empty string here.
unfoldable pub assign_literal : Slot → Option TextSource → Option Slot
unfolding assign_string
assign_literal v none = assign_string v (text_apart [])
assign_literal v (some source) = assign_string v source

unfoldable pub assign_number : Slot → ℕ → Option Slot
unfolding set_slot make_number
assign_number v n = set_slot v (make_number n)

unfoldable pub assign_bool : Slot → Bool → Option Slot
unfolding set_slot make_bool
assign_bool v b = set_slot v (make_bool b)

unfoldable pub assign_list : Slot → Items → Option Slot
unfolding set_slot
assign_list v xs = set_slot v (record { type = array_tag; data' = list xs })

-- `to_number` and `to_bool`; a double is zero if its bits are those of 0 or of -0.
unfoldable pub to_number : Slot → ℕ → Option ℕ
to_number v default_value = elim v.type [
  | number_tag ↦ elim v.data' [ num n ↦ some n | _ ↦ none ]
  | _ ↦ some default_value
]

unfoldable pub is_zero : ℕ → Bool
is_zero n = n == 0 || n == 9223372036854775808

unfoldable pub to_bool : Slot → Bool → Option Bool
unfolding is_zero
to_bool v default_value = elim v.type [
  | bool_tag ↦ elim v.data' [ flag b ↦ some b | _ ↦ none ]
  | number_tag ↦ elim v.data' [ num n ↦ some (not (is_zero n)) | _ ↦ none ]
  | _ ↦ some default_value
]
