-- ===== src/Json/RoundTrip/Plain.antt =====
-- The values that `to_json` of src/dynamic_variable.cpp writes in a form that `parse_json` reads.
use wasapi.Base.{
  ℕ, ◌+◌, ◌≤◌, ◌≡◌, ◌∙◌, refl, sym, ap, true, false, Option, some, [], ◌∷◌, ◌++◌, Bytes, length,
  length-append, ◌==◌, arith,
}
use wasapi.Dynamic.{
  Value, Items, Fields, nil, string, object, array, number, bool, stop, item, end, field, push_back,
}
use wasapi.Json.Strings.{json_escape, is_space, escape_bytes}
use wasapi.Json.Values.{is_digit, signed_span, emplace}
use wasapi.Json.Print.{comma_items, comma_fields}
use wasapi.Json.RoundTrip.Scan.{begins}
use wasapi.Json.RoundTrip.Compact.{show, show_items, show_fields, size, size_items, size_fields}

-- The double prints as a number that `parse_number` passes whole, which an exponent is not, and `stod`
-- reads back.
pub record IsNumeral (stod : Bytes → Option ℕ) (print_number : ℕ → Bytes) (n : ℕ) : Type 0 where
  pub head : ℕ
  pub tail : Bytes
  pub printed : print_number n ≡ head ∷ tail
  pub starts : begins head ≡ true
  pub passed : (signed_span (head ∷ tail)).1 ≡ []
  pub read : stod (head ∷ tail) ≡ some n

-- Inserting fields one by one, behind those that are there.
unfoldable pub fill_fields : Fields → Fields → Fields
unfolding emplace
fill_fields fs end = fs
fill_fields fs (field k v gs) = fill_fields (emplace k v fs) gs

unfoldable pub fill_items : Items → Items → Items
unfolding push_back
fill_items xs stop = xs
fill_items xs (item v ys) = fill_items (push_back xs v) ys

-- All numbers of the value are numerals, and each object is what inserting its fields one by one makes:
-- no key stands in it twice.
unfoldable mutual
  pub IsPlain : (Bytes → Option ℕ) → (ℕ → Bytes) → Value → Type 0
  IsPlain stod print_number (number n) = IsNumeral stod print_number n
  IsPlain stod print_number (array xs) = ArePlain stod print_number xs
  IsPlain stod print_number (object fs) =
      FieldsPlain stod print_number fs × (fill_fields end fs ≡ fs)
  IsPlain stod print_number v = Unit

  pub ArePlain : (Bytes → Option ℕ) → (ℕ → Bytes) → Items → Type 0
  ArePlain stod print_number stop = Unit
  ArePlain stod print_number (item v xs) =
      IsPlain stod print_number v × ArePlain stod print_number xs

  pub FieldsPlain : (Bytes → Option ℕ) → (ℕ → Bytes) → Fields → Type 0
  FieldsPlain stod print_number end = Unit
  FieldsPlain stod print_number (field k v fs) =
      IsPlain stod print_number v × FieldsPlain stod print_number fs

append_items : Items → Items → Items
append_items stop ys = ys
append_items (item v xs) ys = item v (append_items xs ys)

push_back-append :
    (xs : Items) (v : Value) (ys : Items)
    → append_items (push_back xs v) ys ≡ append_items xs (item v ys)
unfolding push_back append_items
push_back-append stop v ys = refl
push_back-append (item w xs) v ys = ap (λ zs. item w zs) (push_back-append xs v ys)

append_items-stop : (xs : Items) → append_items xs stop ≡ xs
unfolding append_items
append_items-stop stop = refl
append_items-stop (item w xs) = ap (λ zs. item w zs) (append_items-stop xs)

fill_items-append : (xs ys : Items) → fill_items xs ys ≡ append_items xs ys
unfolding fill_items
fill_items-append xs stop = sym (append_items-stop xs)
fill_items-append xs (item v ys) = fill_items-append (push_back xs v) ys ∙ push_back-append xs v ys

pub fill_items-stop : (xs : Items) → fill_items stop xs ≡ xs
unfolding append_items
fill_items-stop xs = fill_items-append stop xs

-- A text that a value begins with: no white space and no bracket that closes.
pub record Begins (s : Bytes) : Type 0 where
  pub first : ℕ
  pub others : Bytes
  pub whole : s ≡ first ∷ others
  pub black : is_space first ≡ false
  pub open_ended : (first == b']') ≡ false

module _ (stod : Bytes → Option ℕ) (print_number : ℕ → Bytes) where
  number-Begins :
      (n : ℕ) (rest : Bytes) → IsNumeral stod print_number n → Begins (print_number n ++ rest)
  unfolding is_space is_digit
  number-Begins n rest h = record {
    first = h.head;
    others = h.tail ++ rest;
    whole = ap (λ s. s ++ rest) h.printed;
    black = ground (arith, h.starts);
    open_ended = ground (arith, h.starts);
  }

  pub show-Begins :
      (v : Value) (rest : Bytes) → IsPlain stod print_number v → Begins (show print_number v rest)
  unfolding show IsPlain is_space json_escape
  show-Begins nil rest h = record {
    first = _;
    others = _;
    whole = refl;
    black = refl;
    open_ended = refl;
  }
  show-Begins (bool true) rest h = record {
    first = _;
    others = _;
    whole = refl;
    black = refl;
    open_ended = refl;
  }
  show-Begins (bool false) rest h = record {
    first = _;
    others = _;
    whole = refl;
    black = refl;
    open_ended = refl;
  }
  show-Begins (number n) rest h = number-Begins n rest h
  show-Begins (string s) rest h = record {
    first = _;
    others = _;
    whole = refl;
    black = refl;
    open_ended = refl;
  }
  show-Begins (array xs) rest h = record {
    first = _;
    others = _;
    whole = refl;
    black = refl;
    open_ended = refl;
  }
  show-Begins (object fs) rest h = record {
    first = _;
    others = _;
    whole = refl;
    black = refl;
    open_ended = refl;
  }

  length-numeral : (n : ℕ) → IsNumeral stod print_number n → 1 ≤ length (print_number n)
  length-numeral n h = rw h.printed (omega arith)

mutual
  unfolding size show IsPlain json_escape

  pub length-show :
      (stod : Bytes → Option ℕ) (print_number : ℕ → Bytes) (v : Value) (rest : Bytes)
      → IsPlain stod print_number v
      → size v + length rest ≤ length (show print_number v rest)
  length-show stod print_number nil rest h = omega arith
  length-show stod print_number (bool true) rest h = omega arith
  length-show stod print_number (bool false) rest h = omega arith
  length-show stod print_number (number n) rest h =
      omega (arith, length-append (print_number n) rest, length-numeral stod print_number n h)
  length-show stod print_number (string s) rest h =
      omega (arith, length-append (escape_bytes s ++ b'"' ∷ []) rest)
  length-show stod print_number (array xs) rest h =
      omega (arith, length-show_items stod print_number xs (b']' ∷ rest) h)
  length-show stod print_number (object fs) rest h =
      omega (arith, length-show_fields stod print_number fs (b'}' ∷ rest) h.0)

  pub length-show_items :
      (stod : Bytes → Option ℕ) (print_number : ℕ → Bytes) (xs : Items) (rest : Bytes)
      → ArePlain stod print_number xs
      → size_items xs + length rest ≤ length (show_items print_number xs rest)
  length-show_items stod print_number stop rest h = omega arith
  length-show_items stod print_number (item v xs) rest h = omega (
    arith,
    length-show stod print_number v (comma_items xs ++ show_items print_number xs rest) h.0,
    length-append (comma_items xs) (show_items print_number xs rest),
    length-show_items stod print_number xs rest h.1,
  )

  pub length-show_fields :
      (stod : Bytes → Option ℕ) (print_number : ℕ → Bytes) (fs : Fields) (rest : Bytes)
      → FieldsPlain stod print_number fs
      → size_fields fs + length rest ≤ length (show_fields print_number fs rest)
  length-show_fields stod print_number end rest h = omega arith
  length-show_fields stod print_number (field k v fs) rest h = omega (
    arith,
    length-show stod print_number v (comma_fields fs ++ show_fields print_number fs rest) h.0,
    length-append (comma_fields fs) (show_fields print_number fs rest),
    length-append (json_escape k)
        (b':' ∷ show print_number v (comma_fields fs ++ show_fields print_number fs rest)),
    length-show_fields stod print_number fs rest h.1,
  )
