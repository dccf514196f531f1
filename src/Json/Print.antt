-- ===== src/Json/Print.antt =====
-- src/dynamic_variable.cpp: `to_json` and `print_r`.
-- `print_number` is what `ostringstream <<` prints of a double, given by its bits. An `indent` below 0
-- makes the C++ library throw; here it is not negative.
use wasapi.Base.{ℕ, zero, suc, ◌*◌, Bool, [], ◌∷◌, ◌++◌, Bytes, codes, if◌then◌else◌}
use wasapi.Dynamic.{
  Value, Items, Fields, nil, string, object, array, number, bool, stop, item, end, field,
}
use wasapi.Json.Strings.{json_escape}

unfoldable pub spaces : ℕ → Bytes
spaces zero = []
spaces (suc n) = 32 ∷ spaces n

-- What is written only if `pretty` is set.
unfoldable pub when_pretty : Bool → Bytes → Bytes
when_pretty pretty s = if pretty then s else []

-- The comma behind all but the last element.
abbrev pub comma_items : Items → Bytes
comma_items stop = []
comma_items (item v xs) = b',' ∷ []

abbrev pub comma_fields : Fields → Bytes
comma_fields end = []
comma_fields (field k v fs) = b',' ∷ []

-- An array's element or an object's member with the line around it, where `more` is its comma.
unfoldable pub json_line : Bool → ℕ → Bytes → Bytes → Bytes
unfolding when_pretty spaces
json_line pretty width more text =
    when_pretty pretty (spaces width) ++ (text ++ (more ++ when_pretty pretty (codes "\n")))

-- Brackets around the lines: nothing but the brackets if there is none.
unfoldable pub bracketed : Bool → ℕ → ℕ → ℕ → Bytes → Bytes
unfolding when_pretty spaces
bracketed pretty width left right [] = left ∷ right ∷ []
bracketed pretty width left right (c ∷ s) =
    left
    ∷ (when_pretty pretty (codes "\n")
        ++ (c ∷ s ++ (when_pretty pretty (spaces width) ++ right ∷ [])))

unfoldable mutual
  pub to_json_inner : (ℕ → Bytes) → Bool → ℕ → ℕ → Value → Bytes
  to_json_inner print_number pretty indent depth nil = codes "null"
  to_json_inner print_number pretty indent depth (bool b) =
      if b then codes "true" else codes "false"
  to_json_inner print_number pretty indent depth (number n) = print_number n
  to_json_inner print_number pretty indent depth (string s) = json_escape s
  to_json_inner print_number pretty indent depth (array xs) =
      bracketed pretty (depth * indent) b'[' b']'
        (json_items print_number pretty indent (suc depth) xs)
  to_json_inner print_number pretty indent depth (object fs) =
      bracketed pretty (depth * indent) b'{' b'}'
        (json_fields print_number pretty indent (suc depth) fs)

  pub json_items : (ℕ → Bytes) → Bool → ℕ → ℕ → Items → Bytes
  json_items print_number pretty indent depth stop = []
  json_items print_number pretty indent depth (item v xs) =
      json_line pretty (depth * indent) (comma_items xs)
        (to_json_inner print_number pretty indent depth v)
      ++ json_items print_number pretty indent depth xs

  pub json_fields : (ℕ → Bytes) → Bool → ℕ → ℕ → Fields → Bytes
  json_fields print_number pretty indent depth end = []
  json_fields print_number pretty indent depth (field k v fs) =
      json_line pretty (depth * indent) (comma_fields fs) (
        json_escape k
        ++ (b':'
            ∷ (when_pretty pretty (codes " ") ++ to_json_inner print_number pretty indent depth v)))
      ++ json_fields print_number pretty indent depth fs

unfoldable pub to_json : (ℕ → Bytes) → Bool → ℕ → Value → Bytes
unfolding to_json_inner
to_json print_number pretty indent v = to_json_inner print_number pretty indent 0 v
