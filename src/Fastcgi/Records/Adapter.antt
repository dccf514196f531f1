-- ===== src/Fastcgi/Records/Adapter.antt =====
-- What the HTTP adapter of src/websockets.cpp reads back from the records that src/fastcgi.cpp wrote.
use wasapi.Base.{
  ℕ, zero, suc, ◌+◌, ◌≤◌, ◌<◌, ◌≡◌, refl, sym, ap, subst, ◌∙◌, false, [], ◌∷◌, ◌++◌, append_assoc,
  append-nil, Bytes, length, take, drop, length-append, length-take, length-drop, drop-append,
  take-append, take-append-drop, arith, ltb, lt→ltb, ◌==◌, ◌&&◌, if◌then◌else◌,
}
use wasapi.Fastcgi.Records.{
  read_header, stdout, end_request, append_record, stdout_loop, append_stdout_text,
  append_end_request, end_request_body, decode_stdout, header_bytes,
}

-- One round of the adapter on a buffer that starts with a whole record of content `c`.
adapter_round :
    (f : ℕ) (p c rest body : Bytes)
    → (read_header p).version ≡ 1
    → (read_header p).content_length ≡ length c
    → (read_header p).padding_length ≡ 0
    → length p ≡ 8 + length c + length rest
    → take (length c) (drop 8 p) ≡ c
    → drop (8 + length c + 0) p ≡ rest
    → decode_stdout (suc f) p body
      ≡ decode_stdout f rest
          (if (read_header p).type == stdout && ltb 0 (length c) then body ++ c else body)
unfolding decode_stdout
adapter_round f p c rest body version content padding size taken dropped =
    rw (version, content, padding, taken, dropped) (ground arith)

record_round :
    (f kind id : ℕ) (c rest body : Bytes)
    → length c < 65536
    → decode_stdout (suc f) (header_bytes kind id (length c) ++ c ++ rest) body
      ≡ decode_stdout f rest (if kind == stdout && ltb 0 (length c) then body ++ c else body)
unfolding read_header
record_round f kind id c rest body h =
    let m : 8 + length c + 0 ≡ suc (suc (suc (suc (suc (suc (suc (suc (length c)))))))) =
      omega arith in
    adapter_round f _ c rest body refl (omega arith) refl (omega (arith, length-append c rest))
      (take-append c rest) (rw m (drop-append c rest))

stdout_round :
    (f id : ℕ) (c rest body : Bytes)
    → length c < 65536
    → 0 < length c
    → decode_stdout (suc f) (header_bytes stdout id (length c) ++ c ++ rest) body
      ≡ decode_stdout f rest (body ++ c)
stdout_round f id c rest body h pos = record_round f stdout id c rest body h ∙ rw (lt→ltb _ _ pos)

other_round :
    (f kind id : ℕ) (c rest body : Bytes)
    → length c < 65536
    → (kind ≡ stdout → length c ≡ 0)
    → decode_stdout (suc f) (header_bytes kind id (length c) ++ c ++ rest) body
      ≡ decode_stdout f rest body
other_round f kind id c rest body h other =
    let skip : (kind == stdout && ltb 0 (length c)) ≡ false = ground arith in
    record_round f kind id c rest body h ∙ rw skip

-- The adapter reads `t` from `p`, whatever follows, and uses no more rounds than `p` has bytes.
abbrev pub Decodes : Bytes → Bytes → Type 0
Decodes p t =
    (f : ℕ) (rest body : Bytes)
    → length p ≤ f
    → (g : ℕ) × (f ≤ g + length p)
      × (decode_stdout f (p ++ rest) body ≡ decode_stdout g rest (body ++ t))

Decodes-nil : Decodes [] []
Decodes-nil f rest body h = (f, omega arith, rw append-nil)

-- A record behind `p`, where one round takes `c` from it.
Decodes-record :
    (p t c r : Bytes)
    → Decodes p t
    → ((f : ℕ) (rest body : Bytes)
        → decode_stdout (suc f) (r ++ rest) body ≡ decode_stdout f rest (body ++ c))
    → 0 < length r
    → Decodes (p ++ r) (t ++ c)
Decodes-record p t c r d round pos f rest body h =
    let (g, k, e) = d f (r ++ rest) body (omega (arith, length-append p r)) in finish g k e
  where
    finish :
        (g : ℕ)
        → f ≤ g + length p
        → decode_stdout f (p ++ (r ++ rest)) body ≡ decode_stdout g (r ++ rest) (body ++ t)
        → (g' : ℕ) × (f ≤ g' + length (p ++ r))
          × (decode_stdout f ((p ++ r) ++ rest) body ≡ decode_stdout g' rest (body ++ (t ++ c)))
    finish zero k e = absurd (omega (arith, length-append p r))
    finish (suc g) k e = (
      g,
      omega (arith, length-append p r),
      rw append_assoc (e ∙ round g rest (body ++ t) ∙ rw append_assoc),
    )

Decodes-stdout :
    (out t c : Bytes) (id : ℕ)
    → Decodes out t
    → 0 < length c
    → length c < 65536
    → Decodes (out ++ (header_bytes stdout id (length c) ++ c)) (t ++ c)
Decodes-stdout out t c id d pos h =
    Decodes-record out t c (header_bytes stdout id (length c) ++ c) d
      (λ f rest body. stdout_round f id c rest body h pos) (omega arith)

Decodes-other :
    (out t c : Bytes) (kind id : ℕ)
    → Decodes out t
    → length c < 65536
    → (kind ≡ stdout → length c ≡ 0)
    → Decodes (out ++ (header_bytes kind id (length c) ++ c)) t
Decodes-other out t c kind id d h other f rest body k =
    let (g, le, e) =
      Decodes-record out t [] (header_bytes kind id (length c) ++ c) d
        (λ f' rest' body'. other_round f' kind id c rest' body' h other ∙ rw append-nil)
        (omega arith) f rest body k in
    (g, le, e ∙ ap (λ (u : Bytes). decode_stdout g rest (body ++ u)) (append-nil t))

append_record-Decodes :
    (out t body : Bytes) (id n : ℕ)
    → Decodes out t
    → 0 < n
    → n < 65536
    → n ≤ length body
    → Decodes (append_record out stdout id body n) (t ++ take n body)
unfolding append_record
append_record-Decodes out t body id n d pos h le =
    let m : length (take n body) ≡ n = omega (arith, length-take n body) in
    subst (λ k. Decodes (out ++ (header_bytes stdout id k ++ take n body)) (t ++ take n body)) m
      (Decodes-stdout out t (take n body) id d (omega arith) (omega arith))

stdout_loop-Decodes :
    (fuel : ℕ) (out t body : Bytes) (id : ℕ)
    → length body ≤ fuel
    → Decodes out t
    → Decodes (stdout_loop fuel out id body) (t ++ body)
unfolding stdout_loop
stdout_loop-Decodes zero out t [] id h d = rw append-nil d
stdout_loop-Decodes zero out t (b ∷ body) id h d = absurd (omega arith)
stdout_loop-Decodes (suc fuel) out t [] id h d = rw append-nil d
stdout_loop-Decodes (suc fuel) out t (b ∷ body) id h d =
    chunked (if ltb 0xFFFF (suc (length body)) then 0xFFFF else suc (length body)) (ground arith)
      (ground arith) (ground arith)
      (λ k out' t'. stdout_loop-Decodes fuel out' t' (drop k (b ∷ body)) id)
  where
    chunked :
        (k : ℕ)
        → 0 < k
        → k < 65536
        → k ≤ length (b ∷ body)
        → ((k : ℕ) (out' t' : Bytes)
            → length (drop k (b ∷ body)) ≤ fuel
            → Decodes out' t'
            → Decodes (stdout_loop fuel out' id (drop k (b ∷ body))) (t' ++ drop k (b ∷ body)))
        → Decodes
            (stdout_loop fuel (append_record out stdout id (b ∷ body) k) id (drop k (b ∷ body)))
            (t ++ (b ∷ body))
    chunked k pos small le again =
        subst (Decodes _)
          (append_assoc t (take k (b ∷ body)) (drop k (b ∷ body))
            ∙ ap (◌++◌ t) (take-append-drop k (b ∷ body)))
          (again k _ (t ++ take k (b ∷ body)) (omega (arith, length-drop k (b ∷ body)))
            (append_record-Decodes out t (b ∷ body) id k d pos small le))

-- The adapter gets back exactly the text that the handler printed with `append_stdout_text`, records
-- of at most 65535 bytes each, and skips the closing empty record and the end-of-request record.
pub decode_stdout-append_stdout_text :
    (body : Bytes) (id app_status status : ℕ)
    → let out = append_end_request (append_stdout_text [] id body) id app_status status in
      decode_stdout (length out) out [] ≡ body
decode_stdout-append_stdout_text body id app_status status =
    let (g, _, e) = printed (length out) [] [] (omega arith) in
    ap (λ (p : Bytes). decode_stdout (length out) p []) (sym (append-nil out)) ∙ e ∙ over g
  where
    out : Bytes
    out = append_end_request (append_stdout_text [] id body) id app_status status

    printed : Decodes out body
    printed =
        unfold append_end_request append_stdout_text append_record in
        Decodes-other _ body (end_request_body app_status status) end_request id
          (Decodes-other _ body [] stdout id
            (stdout_loop-Decodes (length body) [] [] body id (omega arith) Decodes-nil)
            (omega arith) (λ _. refl))
          (omega arith) (λ e. absurd (omega arith))

    over : (g : ℕ) → decode_stdout g [] body ≡ body
    over zero = unfold decode_stdout in refl
    over (suc g) = unfold decode_stdout in refl
