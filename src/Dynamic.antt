-- ===== src/Dynamic.antt =====
-- src/dynamic_variable.h and src/dynamic_variable.cpp: the dynamic value and its operations.
-- A double is the number of its 64-bit pattern; what the C++ library does with doubles is a parameter
-- of the definitions that use it. An object is an association list, in the order of insertion: the
-- order in which an `unordered_map` is walked is not fixed by the program.
pub mod Lookup
pub mod Storage
use wasapi.Base.{ℕ, Bool, Option, none, some, Bytes, codes, bytes_eq, if◌then◌else◌}

mutual
  pub data Value : Type 0 where
    nil : Value
    string : Bytes → Value
    object : Fields → Value
    array : Items → Value
    number : ℕ → Value
    bool : Bool → Value

  pub data Items : Type 0 where
    stop : Items
    item : Value → Items → Items

  pub data Fields : Type 0 where
    end : Fields
    field : Bytes → Value → Fields → Fields

unfoldable pub lookup_field : Bytes → Fields → Option Value
lookup_field k end = none
lookup_field k (field j v fs) = if bytes_eq j k then some v else lookup_field k fs

-- `o[k] = v`: the value of a key that is there is replaced, a new key is added.
unfoldable pub set_field : Bytes → Value → Fields → Fields
set_field k v end = field k v end
set_field k v (field j w fs) = if bytes_eq j k then field j v fs else field j w (set_field k v fs)

-- `find`: nothing unless the value is an object.
unfoldable pub find : Value → Bytes → Option Value
unfolding lookup_field
find (object fs) k = lookup_field k fs
find _ k = none

-- `x[k] = v`: a value of another type is first cleared to an empty object.
unfoldable pub assign : Value → Bytes → Value → Value
unfolding set_field
assign (object fs) k v = object (set_field k v fs)
assign _ k v = object (set_field k v end)

unfoldable pub push_back : Items → Value → Items
push_back stop v = item v stop
push_back (item w xs) v = item w (push_back xs v)

-- `push` starts an array at nil and ignores the call at any other type.
unfoldable pub push : Value → Value → Value
unfolding push_back
push (array xs) v = array (push_back xs v)
push nil v = array (item v stop)
push x v = x

-- `print_double` is `std::to_string(double)`.
unfoldable pub to_string : (ℕ → Bytes) → Value → Bytes
to_string print_double (string s) = s
to_string print_double (number n) = print_double n
to_string print_double (bool b) = if b then codes "true" else codes "false"
to_string print_double _ = codes ""
