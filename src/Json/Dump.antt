-- ===== src/Json/Dump.antt =====
-- src/dynamic_variable.cpp: `print_r` and `print_any_limited`, which show a value to a person.
-- `print_number` is what `ostringstream <<` prints of a double, given by its bits.
use wasapi.Base.{
  ℕ, suc, ◌+◌, ◌*◌, ◌≤◌, ◌≡◌, refl, Bool, false, ◌&&◌, [], ◌∷◌, ◌++◌, Bytes, codes, ltb, leb, ◌==◌,
  if◌then◌else◌, arith,
}
use wasapi.Dynamic.{
  Value, Items, Fields, nil, string, object, array, number, bool, stop, item, end, field,
}
use wasapi.Json.Print.{spaces, comma_items, comma_fields}

unfoldable mutual
  pub print_r_inner : (ℕ → Bytes) → ℕ → ℕ → Value → Bytes
  print_r_inner print_number indent depth nil = codes "null"
  print_r_inner print_number indent depth (string s) = b'"' ∷ (s ++ b'"' ∷ [])
  print_r_inner print_number indent depth (number n) = print_number n
  print_r_inner print_number indent depth (bool b) = if b then codes "true" else codes "false"
  print_r_inner print_number indent depth (array xs) =
      codes "[\n"
      ++ (print_r_items print_number indent (suc depth) xs
          ++ (spaces (depth * indent) ++ b']' ∷ []))
  print_r_inner print_number indent depth (object fs) =
      codes "{\n"
      ++ (print_r_fields print_number indent (suc depth) fs
          ++ (spaces (depth * indent) ++ b'}' ∷ []))

  pub print_r_items : (ℕ → Bytes) → ℕ → ℕ → Items → Bytes
  print_r_items print_number indent depth stop = []
  print_r_items print_number indent depth (item v xs) =
      spaces (depth * indent)
      ++ (print_r_inner print_number indent depth v
          ++ (comma_items xs ++ (10 ∷ print_r_items print_number indent depth xs)))

  pub print_r_fields : (ℕ → Bytes) → ℕ → ℕ → Fields → Bytes
  print_r_fields print_number indent depth end = []
  print_r_fields print_number indent depth (field k v fs) =
      spaces (depth * indent)
      ++ (k
          ++ (codes ": "
              ++ (print_r_inner print_number indent depth v
                  ++ (comma_fields fs ++ (10 ∷ print_r_fields print_number indent depth fs)))))

-- A newline at the end of a text that is not empty and has none.
unfoldable pub end_line : Bytes → Bytes
end_line [] = []
end_line (c ∷ []) = if c == 10 then c ∷ [] else c ∷ 10 ∷ []
end_line (c ∷ d ∷ s) = c ∷ end_line (d ∷ s)

unfoldable pub print_r : (ℕ → Bytes) → ℕ → Value → Bytes
unfolding print_r_inner end_line
print_r print_number indent v = end_line (print_r_inner print_number indent 0 v)

-- The test of the loops of `print_any_limited`; a limit of 0 is none.
unfoldable pub over : ℕ → ℕ → Bool
over limit printed = ltb 0 limit && leb limit printed

unfoldable mutual
  pub print_any_limited : (ℕ → Bytes) → ℕ → ℕ → ℕ → Value → Bytes
  print_any_limited print_number limit indent depth nil = codes "null\n"
  print_any_limited print_number limit indent depth (string s) = b'"' ∷ (s ++ codes "\"\n")
  print_any_limited print_number limit indent depth (number n) = print_number n ++ codes "\n"
  print_any_limited print_number limit indent depth (bool b) =
      if b then codes "true\n" else codes "false\n"
  print_any_limited print_number limit indent depth (array xs) =
      codes "[\n"
      ++ (limited_items print_number limit 0 indent (suc depth) xs
          ++ (spaces (depth * indent) ++ codes "]\n"))
  print_any_limited print_number limit indent depth (object fs) =
      codes "{\n"
      ++ (limited_fields print_number limit 0 indent (suc depth) fs
          ++ (spaces (depth * indent) ++ codes "}\n"))

  pub limited_items : (ℕ → Bytes) → ℕ → ℕ → ℕ → ℕ → Items → Bytes
  limited_items print_number limit printed indent depth stop = []
  limited_items print_number limit printed indent depth (item v xs) =
      let rest = limited_items print_number limit (suc printed) indent depth xs in
      spaces (depth * indent)
      ++ (if over limit printed
          then codes "... (truncated)\n"
          else print_any_limited print_number 0 indent depth v ++ rest)

  pub limited_fields : (ℕ → Bytes) → ℕ → ℕ → ℕ → ℕ → Fields → Bytes
  limited_fields print_number limit printed indent depth end = []
  limited_fields print_number limit printed indent depth (field k v fs) =
      let rest = limited_fields print_number limit (suc printed) indent depth fs in
      spaces (depth * indent)
      ++ (if over limit printed
          then codes "... (truncated)\n"
          else k ++ (codes ": " ++ (print_any_limited print_number 0 indent depth v ++ rest)))

unfoldable pub count_items : Items → ℕ
count_items stop = 0
count_items (item v xs) = suc (count_items xs)

unfoldable pub count_fields : Fields → ℕ
count_fields end = 0
count_fields (field k v fs) = suc (count_fields fs)

-- The number of elements that the limit counts.
unfoldable pub breadth : Value → ℕ
unfolding count_items count_fields
breadth (array xs) = count_items xs
breadth (object fs) = count_fields fs
breadth _ = 0

over-below : (limit printed : ℕ) → suc printed ≤ limit → over limit printed ≡ false
unfolding over
over-below limit printed h = ground (arith, h)

over-none : (printed : ℕ) → over 0 printed ≡ false
unfolding over
over-none printed = refl

module _ (print_number : ℕ → Bytes) where
  limited_items-whole :
      (limit printed printed' indent depth : ℕ) (xs : Items)
      → printed + count_items xs ≤ limit
      → limited_items print_number limit printed indent depth xs
        ≡ limited_items print_number 0 printed' indent depth xs
  unfolding limited_items count_items
  limited_items-whole limit printed printed' indent depth stop h = refl
  limited_items-whole limit printed printed' indent depth (item v xs) h =
      rw
        (
          over-below limit printed (omega (arith, h)),
          over-none printed',
          limited_items-whole limit (suc printed) (suc printed') indent depth xs (omega (arith, h)),
          limited_items,
        )
        refl

  limited_fields-whole :
      (limit printed printed' indent depth : ℕ) (fs : Fields)
      → printed + count_fields fs ≤ limit
      → limited_fields print_number limit printed indent depth fs
        ≡ limited_fields print_number 0 printed' indent depth fs
  unfolding limited_fields count_fields
  limited_fields-whole limit printed printed' indent depth end h = refl
  limited_fields-whole limit printed printed' indent depth (field k v fs) h =
      rw
        (
          over-below limit printed (omega (arith, h)),
          over-none printed',
          limited_fields-whole limit (suc printed) (suc printed') indent depth fs
              (omega (arith, h)),
          limited_fields,
        )
        refl

  -- A limit that is not below the number of elements leaves nothing out: the text is the one without a
  -- limit.
  pub print_any_limited-whole :
      (limit indent depth : ℕ) (v : Value)
      → breadth v ≤ limit
      → print_any_limited print_number limit indent depth v
        ≡ print_any_limited print_number 0 indent depth v
  unfolding print_any_limited breadth
  print_any_limited-whole limit indent depth nil h = refl
  print_any_limited-whole limit indent depth (string s) h = refl
  print_any_limited-whole limit indent depth (number n) h = refl
  print_any_limited-whole limit indent depth (bool b) h = refl
  print_any_limited-whole limit indent depth (array xs) h =
      rw (limited_items-whole limit 0 0 indent (suc depth) xs (omega (arith, h))) refl
  print_any_limited-whole limit indent depth (object fs) h =
      rw (limited_fields-whole limit 0 0 indent (suc depth) fs (omega (arith, h))) refl
