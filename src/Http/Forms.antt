-- ===== src/Http/Forms.antt =====
-- src/http.cpp: `parse_json_form_data`, `parse_multipart_form_data`, `parse_urlencoded_form_data`,
-- `parse_form_data` and `output_headers`.
use wasapi.Base.{
  ℕ, ◌+◌, Bool, true, false, Option, none, some, [], ◌∷◌, ◌++◌, Bytes, codes, drop, if◌then◌else◌,
}
use wasapi.Dynamic.{Value, Fields, string, object, end, field, assign, find}
use wasapi.Request.{Request}
use wasapi.Json.Values.{parsed, error_at, parse_json}
use wasapi.Json.Print.{to_json}
use wasapi.Http.Text.{lower, find_text, quoted}
use wasapi.Http.Query.{as_object, assign_all, parse_query_string}
use wasapi.Http.Multipart.{System, extract_files_from_formdata}

-- `r.params[kv.first] = kv.second` for all fields.
unfoldable pub assign_fields : Value → Fields → Value
unfolding assign
assign_fields r end = r
assign_fields r (field k v fs) = assign_fields (assign r k v) fs

-- Whether `find` finds the text.
unfoldable pub has_text : Bytes → Bytes → Bool
unfolding find_text
has_text t s = elim (find_text t s) [ none ↦ false | some i ↦ true ]

-- The boundary that a content type names.
unfoldable pub boundary_of : Bytes → Bytes
unfolding find_text lower quoted
boundary_of ct = elim (find_text (codes "boundary=") (lower ct)) [
  | none ↦ []
  | some bpos ↦
      let boundary = drop (bpos + 9) ct in
      elim (quoted boundary) [ none ↦ boundary | some inner ↦ inner ]
]

module _ (stod : Bytes → Option ℕ) (print_size : ℕ → Bytes) {W : Type 0} (sys : System W)
    (double_of : ℕ → ℕ) (upload_tmp_dir : Bytes) where
  unfoldable pub json_params : Bytes → Value → Value
  unfolding parse_json as_object assign_fields assign
  json_params body params = elim (parse_json stod body) [
    | parsed v ↦ elim v [
      | object fs ↦ assign_fields (as_object params) fs
      | other ↦ assign (as_object params) (codes "_json") other
    ]
    | error_at errpos ↦
        assign (as_object params) (codes "_json_error")
          (string (codes "parse error at position " ++ print_size errpos))
  ]

  unfoldable pub parse_json_form_data : Request → Request
  unfolding json_params
  parse_json_form_data r = record r { params = json_params r.body r.params }

  -- `params.type = OBJECT` finds an object there: the constructor makes one and nothing undoes it.
  unfoldable pub parse_urlencoded_form_data : Request → Request
  unfolding parse_query_string assign_all as_object
  parse_urlencoded_form_data r = record r {
    params = assign_all (as_object r.params) (parse_query_string r.body []);
  }

  unfoldable pub parse_multipart_form_data : Bytes → Request → W → Request × W
  unfolding boundary_of extract_files_from_formdata assign_all as_object
  parse_multipart_form_data ct r w = elim (boundary_of ct) [
    | [] ↦ (r, w)
    | c ∷ t ↦
        let st =
          extract_files_from_formdata sys double_of r.body (c ∷ t) upload_tmp_dir [] r.files w in
        (
          record r { files = st.files; params = assign_all (as_object r.params) st.form_fields },
          st.world,
        )
  ]

  -- The content type decides, `application/json` first.
  unfoldable pub parse_typed_form_data : Bytes → Request → W → Request × W
  unfolding has_text lower parse_json_form_data parse_urlencoded_form_data parse_multipart_form_data
  parse_typed_form_data ct r w =
      if has_text (codes "application/json") (lower ct)
      then (parse_json_form_data r, w)
      else if has_text (codes "application/x-www-form-urlencoded") (lower ct)
      then (parse_urlencoded_form_data r, w)
      else if has_text (codes "multipart/form-data") (lower ct)
      then parse_multipart_form_data ct r w
      else (r, w)

  unfoldable pub parse_form_data : Request → W → Request × W
  unfolding find parse_typed_form_data
  parse_form_data r w = elim (find r.env (codes "CONTENT_TYPE")) [
    | none ↦ (r, w)
    | some v ↦ elim v [ string ct ↦ parse_typed_form_data ct r w | _ ↦ (r, w) ]
  ]

unfoldable pub header_text : (ℕ → Bytes) → Value → Bytes
unfolding to_json
header_text print_number (string s) = s
header_text print_number v = to_json print_number false 0 v

unfoldable pub header_lines : (ℕ → Bytes) → Fields → Bytes
unfolding header_text
header_lines print_number end = []
header_lines print_number (field k v fs) =
    k ++ (codes ": " ++ (header_text print_number v ++ 13 ∷ 10 ∷ header_lines print_number fs))

-- What `output_headers` writes of the header object.
unfoldable pub output_headers : (ℕ → Bytes) → Fields → Bytes
unfolding header_lines
output_headers print_number headers = header_lines print_number headers ++ 13 ∷ 10 ∷ []
