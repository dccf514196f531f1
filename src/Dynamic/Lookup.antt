-- ===== src/Dynamic/Lookup.antt =====
-- `find` after `operator[]` in src/dynamic_variable.cpp.
use wasapi.Base.{
  ◌≡◌, ◌≢◌, refl, some, Bytes, bytes_eq, bytes_eq_self, bytes_eq→eq, ne→bytes_eq, Bool-cases, inl,
  inr,
}
use wasapi.Dynamic.{
  Value, Fields, nil, string, object, array, number, bool, end, field, lookup_field, set_field,
  find, assign,
}

lookup-set_field_self :
    (k : Bytes) (v : Value) (fs : Fields) → lookup_field k (set_field k v fs) ≡ some v
unfolding lookup_field set_field
lookup-set_field_self k v end = rw (bytes_eq_self k) refl
lookup-set_field_self k v (field j w fs) = elim (Bool-cases (bytes_eq j k)) [
  | inl e ↦ rw (e, set_field) (rw (e, lookup_field) refl)
  | inr e ↦ rw (e, set_field) (rw (e, lookup_field) (lookup-set_field_self k v fs))
]

lookup-set_field_other :
    (j k : Bytes) (v : Value) (fs : Fields)
    → k ≢ j
    → lookup_field j (set_field k v fs) ≡ lookup_field j fs
unfolding lookup_field set_field
lookup-set_field_other j k v end h = rw (ne→bytes_eq k j h) refl
lookup-set_field_other j k v (field i w fs) h = elim (Bool-cases (bytes_eq i k)) [
  | inl e ↦
      let same = bytes_eq→eq i k e in
      rw (e, set_field) (rw (same, ne→bytes_eq k j h, lookup_field) refl)
  | inr e ↦ elim (Bool-cases (bytes_eq i j)) [
    | inl f ↦ rw (e, set_field) (rw (f, lookup_field) refl)
    | inr f ↦ rw (e, set_field) (rw (f, lookup_field) (lookup-set_field_other j k v fs h))
  ]
]

-- What was assigned to a key is found there, whatever the value was before.
pub find-assign_self : (x : Value) (k : Bytes) (v : Value) → find (assign x k v) k ≡ some v
unfolding find assign
find-assign_self (object fs) k v = lookup-set_field_self k v fs
find-assign_self nil k v = lookup-set_field_self k v end
find-assign_self (string s) k v = lookup-set_field_self k v end
find-assign_self (array xs) k v = lookup-set_field_self k v end
find-assign_self (number n) k v = lookup-set_field_self k v end
find-assign_self (bool b) k v = lookup-set_field_self k v end

-- Other keys keep their values.
pub find-assign_other :
    (x : Value) (j k : Bytes) (v : Value) → k ≢ j → find (assign x k v) j ≡ find x j
unfolding find assign lookup_field
find-assign_other (object fs) j k v h = lookup-set_field_other j k v fs h
find-assign_other nil j k v h = lookup-set_field_other j k v end h
find-assign_other (string s) j k v h = lookup-set_field_other j k v end h
find-assign_other (array xs) j k v h = lookup-set_field_other j k v end h
find-assign_other (number n) j k v h = lookup-set_field_other j k v end h
find-assign_other (bool b) j k v h = lookup-set_field_other j k v end h
