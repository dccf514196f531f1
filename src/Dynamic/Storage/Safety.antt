-- ===== src/Dynamic/Storage/Safety.antt =====
-- The union of src/dynamic_variable.cpp against the dynamic value that it stands for.
use wasapi.Base.{ℕ, ◌≡◌, refl, ◌∙◌, Bool, Option, none, some, List, [], ◌∷◌, Bytes, arith}
use wasapi.Dynamic.{Value, Items, nil, string, object, array, number, bool}
use wasapi.Dynamic.Storage.{
  Slot, Tag, Member, nil_tag, string_tag, object_tag, array_tag, number_tag, bool_tag, text, table,
  list, num, flag, dead, fresh, Moved, itself, apart, inside, read_member, destroy, clear, copy,
  left_behind, surviving, copy_over, copy_assign, move_from, move_assign, set_slot, make_string,
  make_number, make_bool, text_apart, text_inside, surviving_text, assign_string, assign_literal,
  assign_number, assign_bool, assign_list,
}

-- The value that a tag and a member stand for: none unless the member is the one that the tag names.
unfoldable pub value_of : Tag → Member → Option Value
value_of nil_tag m = some nil
value_of string_tag (text s) = some (string s)
value_of object_tag (table fs) = some (object fs)
value_of array_tag (list xs) = some (array xs)
value_of number_tag (num n) = some (number n)
value_of bool_tag (flag b) = some (bool b)
value_of _ _ = none

-- The variable is one that the program may use, and has this value.
abbrev pub Holds : Slot → Value → Type 0
Holds v x = value_of v.type v.data' ≡ some x

-- That an operation meets no fault, and leaves a variable with this value.
abbrev pub Makes : Option Slot → Value → Type 0
Makes result x = (v : Slot) × ((result ≡ some v) × Holds v x)

member_of : Value → Member
member_of nil = num 0
member_of (string s) = text s
member_of (object fs) = table fs
member_of (array xs) = list xs
member_of (number n) = num n
member_of (bool b) = flag b

remains : Tag → Member → Member
remains string_tag m = dead
remains object_tag m = dead
remains array_tag m = dead
remains _ m = m

destroy-alive :
    (t : Tag) (m : Member) (x : Value) → value_of t m ≡ some x → destroy t m ≡ some (remains t m)
unfolding value_of destroy remains
destroy-alive t m x h = ground arith

read_member-alive :
    (t : Tag) (m : Member) (x : Value)
    → value_of t m ≡ some x
    → (read_member t m ≡ some (member_of x)) × (value_of t (member_of x) ≡ some x)
unfolding value_of read_member member_of
read_member-alive t m x h = ground arith

left_behind-alive :
    (moved : Moved) (t : Tag) (m : Member) (x : Value)
    → value_of t m ≡ some x
    → (y : Value) × (value_of t (left_behind moved m) ≡ some y)
unfolding value_of left_behind
left_behind-alive moved nil_tag m x h = (nil, refl)
left_behind-alive moved string_tag (text s) x h = (string (moved.moved_text s), refl)
left_behind-alive moved object_tag (table fs) x h = (object (moved.moved_table fs), refl)
left_behind-alive moved array_tag (list xs) x h = (array (moved.moved_list xs), refl)
left_behind-alive moved number_tag (num n) x h = (number n, refl)
left_behind-alive moved bool_tag (flag b) x h = (bool b, refl)
left_behind-alive moved _ _ x h = (x, ground (arith, h))

pub clear-Holds : (v : Slot) (x : Value) → Holds v x → clear v ≡ some fresh
unfolding clear
clear-Holds v x h = rw (destroy-alive v.type v.data' x h, clear) refl

-- A copy has the value of the variable that was copied.
pub copy-Holds : (v : Slot) (x : Value) → Holds v x → Makes (copy v) x
unfolding copy
copy-Holds v x h = (
  record { type = v.type; data' = member_of x },
  (
    rw ((read_member-alive v.type v.data' x h).0, copy) refl,
    (read_member-alive v.type v.data' x h).1,
  ),
)

-- An assignment to a variable. The right side of a copy or a move is the variable itself or another one,
-- and a text is kept elsewhere than in the variable.
pub data Command : Type 0 where
  clears copies_self moves_self : Command
  copies moves : Slot → Command
  sets_string : Bytes → Command
  sets_literal : Option Bytes → Command
  sets_number : ℕ → Command
  sets_bool : Bool → Command
  sets_list : Items → Command

unfoldable first_of : Option (Slot × Option Slot) → Option Slot
first_of none = none
first_of (some (v, other)) = some v

unfoldable pub execute : Moved → Command → Slot → Option Slot
unfolding clear copy_assign move_assign assign_string assign_literal assign_number assign_bool
    assign_list first_of
execute moved clears v = clear v
execute moved copies_self v = copy_assign v itself
execute moved moves_self v = first_of (move_assign moved v itself)
execute moved (copies other) v = copy_assign v (apart other)
execute moved (moves other) v = first_of (move_assign moved v (apart other))
execute moved (sets_string s) v = assign_string v (text_apart s)
execute moved (sets_literal none) v = assign_literal v none
execute moved (sets_literal (some s)) v = assign_literal v (some (text_apart s))
execute moved (sets_number n) v = assign_number v n
execute moved (sets_bool b) v = assign_bool v b
execute moved (sets_list xs) v = assign_list v xs

-- What an assignment makes of a value that was `x`.
pub data Meaning : Command → Value → Value → Type 0 where
  clears_to : {x : Value} → Meaning clears x nil
  copies_to_self : {x : Value} → Meaning copies_self x x
  moves_to_self : {x : Value} → Meaning moves_self x x
  copies_to :
      {x : Value} → (other : Slot) → (y : Value) → Holds other y → Meaning (copies other) x y
  moves_to : {x : Value} → (other : Slot) → (y : Value) → Holds other y → Meaning (moves other) x y
  string_to : {x : Value} → (s : Bytes) → Meaning (sets_string s) x (string s)
  literal_to : {x : Value} → (s : Bytes) → Meaning (sets_literal (some s)) x (string s)
  null_to : {x : Value} → Meaning (sets_literal none) x (string [])
  number_to : {x : Value} → (n : ℕ) → Meaning (sets_number n) x (number n)
  bool_to : {x : Value} → (b : Bool) → Meaning (sets_bool b) x (bool b)
  list_to : {x : Value} → (xs : Items) → Meaning (sets_list xs) x (array xs)

set_slot-Holds : (v new : Slot) (x y : Value) → Holds v x → Holds new y → Makes (set_slot v new) y
unfolding set_slot
set_slot-Holds v new x y h k = (new, (rw (clear-Holds v x h, set_slot) refl, k))

assign_string-Holds :
    (v : Slot) (s : Bytes) (x : Value)
    → Holds v x
    → Makes (assign_string v (text_apart s)) (string s)
unfolding assign_string surviving_text make_string value_of
assign_string-Holds v s x h = (make_string s, (rw (clear-Holds v x h, assign_string) refl, refl))

copy_assign-apart :
    (v other : Slot) (x : Value) → Holds v x → copy_assign v (apart other) ≡ copy other
unfolding copy_assign copy_over surviving
copy_assign-apart v other x h = rw (clear-Holds v x h, copy_over) refl

move_assign-apart :
    (moved : Moved) (v other : Slot) (x y : Value)
    → Holds v x
    → Holds other y
    → first_of (move_assign moved v (apart other)) ≡ copy other
unfolding move_assign surviving move_from first_of
move_assign-apart moved v other x y h k =
    let (made, (e, _)) = copy-Holds other y k in
    let (z, alive) = left_behind-alive moved other.type other.data' y k in
    rw (clear-Holds v x h, move_assign)
      (rw (e, move_from)
        (rw
          (clear-Holds (record other { data' = left_behind moved other.data' }) z alive, move_from)
          refl))

same_result : (r r' : Option Slot) (y : Value) → r ≡ r' → Makes r' y → Makes r y
same_result r r' y e (v, (f, h)) = (v, (e ∙ f, h))

execute-Makes :
    (moved : Moved) (c : Command) (v : Slot) (x y : Value)
    → Holds v x
    → Meaning c x y
    → Makes (execute moved c v) y
unfolding execute copy_assign move_assign assign_string assign_literal assign_number assign_bool
    assign_list make_string make_number make_bool value_of first_of
execute-Makes moved _ v x _ h clears_to = (fresh, (clear-Holds v x h, refl))
execute-Makes moved _ v x _ h copies_to_self = (v, (refl, h))
execute-Makes moved _ v x _ h moves_to_self = (v, (refl, h))
execute-Makes moved _ v x _ h (copies_to other y k) =
    same_result _ (copy other) y (copy_assign-apart v other x h) (copy-Holds other y k)
execute-Makes moved _ v x _ h (moves_to other y k) =
    same_result _ (copy other) y (move_assign-apart moved v other x y h k) (copy-Holds other y k)
execute-Makes moved _ v x _ h (string_to s) = assign_string-Holds v _ x h
execute-Makes moved _ v x _ h (literal_to s) = assign_string-Holds v _ x h
execute-Makes moved _ v x _ h null_to = assign_string-Holds v _ x h
execute-Makes moved _ v x _ h (number_to n) = set_slot-Holds v _ x (number n) h refl
execute-Makes moved _ v x _ h (bool_to b) = set_slot-Holds v _ x (bool b) h refl
execute-Makes moved _ v x _ h (list_to xs) = set_slot-Holds v _ x (array xs) h refl

-- A life of a variable: assignments in turn.
unfoldable pub execute_all : Moved → List Command → Slot → Option Slot
unfolding execute
execute_all moved [] v = some v
execute_all moved (c ∷ cs) v = elim (execute moved c v) [
  | none ↦ none
  | some v' ↦ execute_all moved cs v'
]

pub data Meanings : List Command → Value → Value → Type 0 where
  ends : {x : Value} → Meanings [] x x
  goes_on :
      {x : Value}
      → (c : Command) → (cs : List Command) → (y z : Value) → Meaning c x y
      → Meanings cs y z
      → Meanings (c ∷ cs) x z

execute_all-Makes :
    (moved : Moved) (cs : List Command) (v : Slot) (x z : Value)
    → Holds v x
    → Meanings cs x z
    → Makes (execute_all moved cs v) z
unfolding execute_all
execute_all-Makes moved _ v x _ h ends = (v, (refl, h))
execute_all-Makes moved _ v x z h (goes_on c cs y _ m ms) =
    let (v', (e, k)) = execute-Makes moved c v x y h m in
    same_result _ (execute_all moved cs v') z (rw (e, execute_all) refl)
      (execute_all-Makes moved cs v' y z k ms)

-- Whatever is assigned to a variable in turn, as long as each right side is the variable itself, or a
-- variable that may be used, a text or a list that is not inside what the variable holds, no member is
-- read or destroyed that is not alive; the variable ends with the value that the last assignments give
-- it, and it can be cleared.
pub execute_all-safe :
    (moved : Moved) (cs : List Command) (v : Slot) (x z : Value)
    → Holds v x
    → Meanings cs x z
    → (v' : Slot) × ((execute_all moved cs v ≡ some v') × (Holds v' z × (clear v' ≡ some fresh)))
execute_all-safe moved cs v x z h ms =
    let (v', (e, k)) = execute_all-Makes moved cs v x z h ms in (v', (e, (k, clear-Holds v' z k)))

-- Assigning to a variable an element of the container that it holds, by copy or by move, or a text inside
-- what it holds is a fault: the element or the text is destroyed before it is read.
pub assign-inside :
    (moved : Moved) (v element : Slot) (s : Bytes) (x : Value)
    → Holds v x
    → (copy_assign v (inside element) ≡ none)
      × ((move_assign moved v (inside element) ≡ none)
          × ((assign_string v (text_inside s) ≡ none)
              × (assign_literal v (some (text_inside s)) ≡ none)))
unfolding copy_assign copy_over move_assign surviving assign_string assign_literal surviving_text
assign-inside moved v element s x h = (
  rw (clear-Holds v x h, copy_over) refl,
  (
    rw (clear-Holds v x h, move_assign) refl,
    (rw (clear-Holds v x h, assign_string) refl, rw (clear-Holds v x h, assign_string) refl),
  ),
)
