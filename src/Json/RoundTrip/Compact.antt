-- ===== src/Json/RoundTrip/Compact.antt =====
-- The text that `to_json` of src/dynamic_variable.cpp writes without `pretty`, described in front of what
-- follows it.
use wasapi.Base.{
  ℕ, suc, ◌+◌, ◌*◌, ◌≤◌, ◌≡◌, ◌∙◌, refl, ap, false, [], ◌∷◌, ◌++◌, Bytes, codes, append_assoc,
  append-nil, if◌then◌else◌, arith,
}
use wasapi.Dynamic.{
  Value, Items, Fields, nil, string, object, array, number, bool, stop, item, end, field,
}
use wasapi.Json.Strings.{json_escape}
use wasapi.Json.Print.{
  bracketed, json_line, when_pretty, comma_items, comma_fields, to_json_inner, json_items,
  json_fields,
}

unfoldable mutual
  pub show : (ℕ → Bytes) → Value → Bytes → Bytes
  show print_number nil rest = codes "null" ++ rest
  show print_number (bool b) rest = (if b then codes "true" else codes "false") ++ rest
  show print_number (number n) rest = print_number n ++ rest
  show print_number (string s) rest = json_escape s ++ rest
  show print_number (array xs) rest = b'[' ∷ show_items print_number xs (b']' ∷ rest)
  show print_number (object fs) rest = b'{' ∷ show_fields print_number fs (b'}' ∷ rest)

  pub show_items : (ℕ → Bytes) → Items → Bytes → Bytes
  show_items print_number stop rest = rest
  show_items print_number (item v xs) rest =
      show print_number v (comma_items xs ++ show_items print_number xs rest)

  pub show_fields : (ℕ → Bytes) → Fields → Bytes → Bytes
  show_fields print_number end rest = rest
  show_fields print_number (field k v fs) rest =
      json_escape k
      ++ (b':' ∷ show print_number v (comma_fields fs ++ show_fields print_number fs rest))

bracketed-compact :
    (width left right : ℕ) (t rest : Bytes)
    → bracketed false width left right t ++ rest ≡ left ∷ (t ++ right ∷ rest)
unfolding bracketed when_pretty
bracketed-compact width left right [] rest = refl
bracketed-compact width left right (c ∷ t) rest =
    ap (λ s. left ∷ c ∷ s) (append_assoc t (right ∷ []) rest)

line-compact :
    (width : ℕ) (more t rest : Bytes) → json_line false width more t ++ rest ≡ t ++ (more ++ rest)
unfolding json_line when_pretty
line-compact width more t rest =
    append_assoc t (more ++ []) rest ∙ ap (λ s. t ++ (s ++ rest)) (append-nil more)

mutual
  unfolding to_json_inner show when_pretty

  pub to_json_inner-show :
      (print_number : ℕ → Bytes) (indent depth : ℕ) (v : Value) (rest : Bytes)
      → to_json_inner print_number false indent depth v ++ rest ≡ show print_number v rest
  to_json_inner-show print_number indent depth nil rest = refl
  to_json_inner-show print_number indent depth (bool b) rest = refl
  to_json_inner-show print_number indent depth (number n) rest = refl
  to_json_inner-show print_number indent depth (string s) rest = refl
  to_json_inner-show print_number indent depth (array xs) rest =
      bracketed-compact (depth * indent) b'[' b']'
        (json_items print_number false indent (suc depth) xs) rest
      ∙ ap (λ s. b'[' ∷ s) (json_items-show print_number indent (suc depth) xs (b']' ∷ rest))
  to_json_inner-show print_number indent depth (object fs) rest =
      bracketed-compact (depth * indent) b'{' b'}'
        (json_fields print_number false indent (suc depth) fs) rest
      ∙ ap (λ s. b'{' ∷ s) (json_fields-show print_number indent (suc depth) fs (b'}' ∷ rest))

  json_items-show :
      (print_number : ℕ → Bytes) (indent depth : ℕ) (xs : Items) (rest : Bytes)
      → json_items print_number false indent depth xs ++ rest ≡ show_items print_number xs rest
  json_items-show print_number indent depth stop rest = refl
  json_items-show print_number indent depth (item v xs) rest =
      append_assoc
        (json_line false (depth * indent) (comma_items xs)
          (to_json_inner print_number false indent depth v))
        (json_items print_number false indent depth xs) rest
      ∙ (line-compact (depth * indent) (comma_items xs)
            (to_json_inner print_number false indent depth v)
            (json_items print_number false indent depth xs ++ rest)
          ∙ (ap (λ s. to_json_inner print_number false indent depth v ++ (comma_items xs ++ s))
                (json_items-show print_number indent depth xs rest)
              ∙ to_json_inner-show print_number indent depth v
                  (comma_items xs ++ show_items print_number xs rest)))

  json_fields-show :
      (print_number : ℕ → Bytes) (indent depth : ℕ) (fs : Fields) (rest : Bytes)
      → json_fields print_number false indent depth fs ++ rest ≡ show_fields print_number fs rest
  json_fields-show print_number indent depth end rest = refl
  json_fields-show print_number indent depth (field k v fs) rest =
      append_assoc
        (json_line false (depth * indent) (comma_fields fs)
          (json_escape k ++ (b':' ∷ to_json_inner print_number false indent depth v)))
        (json_fields print_number false indent depth fs) rest
      ∙ (line-compact (depth * indent) (comma_fields fs)
            (json_escape k ++ (b':' ∷ to_json_inner print_number false indent depth v))
            (json_fields print_number false indent depth fs ++ rest)
          ∙ (append_assoc (json_escape k) (b':' ∷ to_json_inner print_number false indent depth v)
                (comma_fields fs ++ (json_fields print_number false indent depth fs ++ rest))
              ∙ ap (λ s. json_escape k ++ (b':' ∷ s))
                  (ap
                      (λ s.
                        to_json_inner print_number false indent depth v ++ (comma_fields fs ++ s))
                      (json_fields-show print_number indent depth fs rest)
                    ∙ to_json_inner-show print_number indent depth v
                        (comma_fields fs ++ show_fields print_number fs rest))))

-- How much fuel reading a value takes.
unfoldable mutual
  pub size : Value → ℕ
  size (array xs) = suc (size_items xs)
  size (object fs) = suc (size_fields fs)
  size _ = 1

  pub size_items : Items → ℕ
  size_items stop = 0
  size_items (item v xs) = size v + size_items xs

  pub size_fields : Fields → ℕ
  size_fields end = 0
  size_fields (field k v fs) = size v + size_fields fs

pub size_pos : (v : Value) → 1 ≤ size v
unfolding size
size_pos nil = omega arith
size_pos (bool b) = omega arith
size_pos (number n) = omega arith
size_pos (string s) = omega arith
size_pos (array xs) = omega arith
size_pos (object fs) = omega arith
