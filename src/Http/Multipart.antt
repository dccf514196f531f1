-- ===== src/Http/Multipart.antt =====
-- src/http.cpp: `extract_files_from_formdata`.
-- The calls of the operating system are parameters on a state `W` of their own.
use wasapi.Base.{
  ℕ, zero, suc, ◌+◌, ◌-◌, ◌*◌, ◌/◌, ◌%◌, ◌^◌, Bool, true, false, ◌&&◌, Option, none, some, [], ◌∷◌,
  ◌++◌, Bytes, codes, length, take, drop, ltb, leb, ◌==◌, bytes_eq, find_byte, if◌then◌else◌,
  bit_xor,
}
use wasapi.Dynamic.{Value, string, object, array, number, bool, end, stop, assign, push}
use wasapi.Http.Text.{
  trim_front, trim_spaces, is_blank, lower, starts_with, find_text, last_or, quoted,
}
use wasapi.Http.Query.{Pairs, put_pair}
use wasapi.Json.Strings.{hex_char}

-- `field_name`, `filename` and `ctype`.
pub record Part : Type 0 where
  pub field_name : Bytes
  pub filename : Bytes
  pub ctype : Bytes

unfoldable pub set_attribute : Bytes → Bytes → Part → Part
set_attribute attr value part =
    if bytes_eq attr (codes "name")
    then record part { field_name = value }
    else if bytes_eq attr (codes "filename")
    then record part { filename = value }
    else part

-- One part of the disposition between semicolons.
unfoldable pub disposition_part : Bytes → Part → Part
unfolding set_attribute find_byte trim_front trim_spaces is_blank quoted
disposition_part s part = elim (find_byte b'=' s) [
  | none ↦ part
  | some eq ↦ elim (quoted (trim_front is_blank (drop (suc eq) s))) [
    | none ↦ part
    | some value ↦ set_attribute (trim_spaces (take eq s)) value part
  ]
]

unfoldable pub disposition_loop : ℕ → Bytes → Part → Part
unfolding disposition_part find_byte
disposition_loop zero s part = part
disposition_loop (suc fuel) [] part = part
disposition_loop (suc fuel) (c ∷ s) part = elim (find_byte b';' (c ∷ s)) [
  | none ↦ disposition_part (c ∷ s) part
  | some sc ↦
      disposition_loop fuel (drop (suc sc) (c ∷ s)) (disposition_part (take sc (c ∷ s)) part)
]

unfoldable pub header_line : Bytes → Part → Part
unfolding disposition_loop find_byte lower trim_spaces
header_line line part = elim (find_byte b':' line) [
  | none ↦ part
  | some colon ↦
      let name = lower (take colon line) in
      let value = trim_spaces (drop (suc colon) line) in
      if bytes_eq name (codes "content-disposition")
      then disposition_loop (length value) value part
      else if bytes_eq name (codes "content-type")
      then record part { ctype = value }
      else part
]

-- The loop on the lines of a part's headers, which stops at an empty line.
unfoldable pub header_loop : ℕ → Bytes → Part → Part
unfolding header_line find_text
header_loop zero s part = part
header_loop (suc fuel) [] part = part
header_loop (suc fuel) (c ∷ s) part = elim (find_text (13 ∷ 10 ∷ []) (c ∷ s)) [
  | none ↦ header_line (c ∷ s) part
  | some zero ↦ part
  | some (suc i) ↦ header_loop fuel (drop (3 + i) (c ∷ s)) (header_line (take (suc i) (c ∷ s)) part)
]

-- The content without a line end at its end.
unfoldable pub content_of : Bytes → Bytes
unfolding bytes_eq
content_of s =
    let cut = length s - 2 in
    if leb 2 (length s) && bytes_eq (drop cut s) (13 ∷ 10 ∷ []) then take cut s else s

unfoldable pub fnv1a64 : ℕ → Bytes → ℕ
fnv1a64 hv [] = hv
fnv1a64 hv (b ∷ s) = fnv1a64 (bit_xor hv b * 1099511628211 % 2 ^ 64) s

-- `%0nx`, of a number below 16 ^ n.
unfoldable pub hex_text : ℕ → ℕ → Bytes
unfolding hex_char
hex_text zero v = []
hex_text (suc n) v = hex_text n (v / 16) ++ hex_char (v % 16) ∷ []

pub record System (W : Type 0) : Type 0 where
  pub mkstemp : Bytes → W → Option (ℕ × Bytes) × W
  pub write : ℕ → Bytes → W → ℕ × W
  pub close : ℕ → W → W

unfoldable pub upload_pattern : Bytes → Bytes
unfolding last_or
upload_pattern [] = codes "fcgi_upload_XXXXXX"
upload_pattern (c ∷ dir) =
    let slash = if last_or c dir == b'/' then [] else b'/' ∷ [] in
    (c ∷ dir ++ slash) ++ codes "fcgi_upload_XXXXXX"

-- What `extract_files_from_formdata` leaves: its result, the fields, the files and the system.
pub record Extracted (W : Type 0) : Type 0 where
  pub result : Bool
  pub form_fields : Pairs
  pub files : Value
  pub world : W

module _ {W : Type 0} (sys : System W) (double_of : ℕ → ℕ) where
  -- The loop of `write`, which stops at an error; the bytes written. Each round writes at least one.
  unfoldable pub write_loop : ℕ → ℕ → Bytes → ℕ → W → ℕ × W
  write_loop zero fd content written w = (written, w)
  write_loop (suc fuel) fd content written w = elim (ltb written (length content)) [
    | false ↦ (written, w)
    | true ↦
        let (n, w') = sys.write fd (drop written content) w in
        elim (n == 0) [ true ↦ (written, w') | false ↦ write_loop fuel fd content (written + n) w' ]
  ]

  unfoldable pub file_value : Part → Bytes → Bytes → ℕ → Value
  unfolding assign fnv1a64 hex_text
  file_value part content path written =
      let named =
        assign (assign (object end) (codes "field_name") (string part.field_name))
          (codes "filename") (string part.filename) in
      let typed : Value = elim part.ctype [
        | [] ↦ named
        | c ∷ t ↦ assign named (codes "content_type") (string (c ∷ t))
      ] in
      let stored =
        assign
          (assign
            (assign (assign typed (codes "temp_path") (string path)) (codes "size")
              (number (double_of written)))
            (codes "expected_size") (number (double_of (length content))))
          (codes "hash_fnv1a64") (string (hex_text 16 (fnv1a64 1469598103934665603 content))) in
      if written == length content then stored else assign stored (codes "partial") (bool true)

  -- A part with a file name is stored; one without is a field.
  unfoldable pub store_part : Bytes → Part → Bytes → Extracted W → Extracted W
  unfolding put_pair upload_pattern write_loop file_value push
  store_part upload_dir part content st = elim part.filename [
    | [] ↦ record st { form_fields = put_pair part.field_name content st.form_fields }
    | c ∷ t ↦
        let (opened, w) = sys.mkstemp (upload_pattern upload_dir) st.world in
        elim opened [
          | none ↦ record st { world = w }
          | some (fd, path) ↦
              let (written, w') = write_loop (suc (length content)) fd content 0 w in
              record st {
                files = push st.files (file_value part content path written);
                world = sys.close fd w';
              }
        ]
  ]

  -- The loop; `s` is the body from `pos` on. Each round passes a delimiter.
  unfoldable pub part_loop : ℕ → Bytes → Bytes → Bytes → Extracted W → Extracted W
  unfolding find_text starts_with header_loop content_of store_part
  part_loop zero delim upload_dir s st = record st { result = false }
  part_loop (suc fuel) delim upload_dir s st = elim (find_text delim s) [
    | none ↦ record st { result = true }
    | some start ↦
        let body = drop (start + length delim) s in
        elim (starts_with (codes "--") body) [
          | true ↦ record st { result = true }
          | false ↦ elim (starts_with (13 ∷ 10 ∷ []) body) [
            | false ↦ record st { result = false }
            | true ↦ elim (find_text (13 ∷ 10 ∷ 13 ∷ 10 ∷ []) (drop 2 body)) [
              | none ↦ record st { result = false }
              | some header_end ↦
                  let headers = take header_end (drop 2 body) in
                  let content = drop (header_end + 4) (drop 2 body) in
                  elim (find_text (13 ∷ 10 ∷ delim) content) [
                    | none ↦ record st { result = false }
                    | some part_end ↦
                        let part =
                          header_loop (suc (length headers)) headers
                            (record { field_name = []; filename = []; ctype = [] }) in
                        part_loop fuel delim upload_dir (drop (part_end + 2) content)
                          (store_part upload_dir part (content_of (take part_end content)) st)
                  ]
            ]
          ]
        ]
  ]

  unfoldable pub extract_files_from_formdata :
      Bytes → Bytes → Bytes → Pairs → Value → W → Extracted W
  unfolding part_loop
  extract_files_from_formdata body [] upload_dir form_fields files w = record {
    result = false;
    form_fields = form_fields;
    files = files;
    world = w;
  }
  extract_files_from_formdata body (c ∷ boundary) upload_dir form_fields files w =
      part_loop (suc (length body)) (codes "--" ++ c ∷ boundary) upload_dir body
        (record { result = true; form_fields = form_fields; files = array stop; world = w })
