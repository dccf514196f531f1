-- ===== src/Http/Query/RoundTrip.antt =====
-- `parse_query_string` after `build_query` in src/http.cpp.
use wasapi.Base.{
  ℕ, zero, suc, ◌+◌, ◌-◌, ◌<◌, ◌≤◌, ◌≡◌, ◌≢◌, ◌∙◌, refl, sym, ap, Bool, true, false, ◌&&◌, not,
  none, [], ◌∷◌, ◌++◌, Bytes, IsByte, Lacks, All, length, length-append, take-append, All-append,
  le→ltb, drop, ltb, ◌==◌, ne→bytes_eq, find_byte, find_byte_hit, find_byte_miss, append_assoc,
  append-nil, arith,
}
use wasapi.Base.Bits.{table, read_table}
use wasapi.Http.Url.{url_encode, url_decode, encode_byte}
use wasapi.Http.Url.RoundTrip.{url_decode-url_encode}
use wasapi.Http.Query.{
  Pairs, put_pair, put_named, put_flag, put_part, query_pair, more_pairs, build_query, query_loop,
  parse_query_string,
}

-- Neither of the two separators.
is_inner : Bytes → Bool
is_inner [] = true
is_inner (c ∷ s) = not (c == b'&') && not (c == b'=') && is_inner s

inner_table : table 256 (λ c. is_inner (encode_byte c)) ≡ true
unfolding table is_inner encode_byte
inner_table = refl

is_inner-Lacks : (s : Bytes) → is_inner s ≡ true → Lacks b'&' s × Lacks b'=' s
unfolding is_inner
is_inner-Lacks [] h = (tt, tt)
is_inner-Lacks (c ∷ s) h =
    let rest : is_inner s ≡ true = ground arith in
    let (amp, eq) = is_inner-Lacks s rest in ((ground arith, amp), (ground arith, eq))

encode_byte-Lacks : (c : ℕ) → c < 256 → Lacks b'&' (encode_byte c) × Lacks b'=' (encode_byte c)
encode_byte-Lacks c h = is_inner-Lacks (encode_byte c) (read_table _ 256 c inner_table h)

url_encode-Lacks :
    (s : Bytes) → All IsByte s → Lacks b'&' (url_encode s) × Lacks b'=' (url_encode s)
unfolding url_encode
url_encode-Lacks [] h = (tt, tt)
url_encode-Lacks (c ∷ s) h =
    let (amp, eq) = encode_byte-Lacks c h.0 in
    let (amps, eqs) = url_encode-Lacks s h.1 in (All-append _ _ _ amp amps, All-append _ _ _ eq eqs)

drop_behind : (a : Bytes) (c : ℕ) (s : Bytes) → drop (suc (length a)) (a ++ c ∷ s) ≡ s
drop_behind [] c s = refl
drop_behind (x ∷ a) c s = drop_behind a c s

put_named-put_pair : (k v : Bytes) (out : Pairs) → k ≢ [] → put_named k v out ≡ put_pair k v out
unfolding put_named
put_named-put_pair [] v out h = absurd (h refl)
put_named-put_pair (c ∷ k) v out h = refl

part_of :
    (a b tail : Bytes) (out : Pairs)
    → Lacks b'=' a
    → put_part (a ++ b'=' ∷ (b ++ tail)) (length a + suc (length b)) out
      ≡ put_named (url_decode a) (url_decode b) out
unfolding put_part
part_of a b tail out h =
    rw (find_byte_hit b'=' a (b ++ tail) h, put_part)
      (rw
        (
          inside,
          take-append a (b'=' ∷ (b ++ tail)),
          next,
          drop_behind a b'=' (b ++ tail),
          size,
          take-append b tail,
        )
        refl)
  where
    inside : ltb (length a + suc (length b)) (length a) ≡ false
    inside = le→ltb _ _ (omega arith)

    next : length a + 1 ≡ suc (length a)
    next = omega arith

    size : length a + suc (length b) - suc (length a) ≡ length b
    size = omega arith

-- No two pairs have the same key, no key is empty, and all are bytes.
pub data IsQuery : Pairs → Type 0 where
  nothing : IsQuery []
  also :
      {k v : Bytes} {ps : Pairs}
      → k ≢ []
      → All IsByte k
      → All IsByte v
      → All (λ q. q.0 ≢ k) ps
      → IsQuery ps
      → IsQuery ((k, v) ∷ ps)

put_all : Pairs → Pairs → Pairs
put_all [] out = out
put_all ((k, v) ∷ ps) out = put_all ps (put_pair k v out)

put_part-query_pair :
    (k v tail : Bytes) (out : Pairs)
    → k ≢ []
    → All IsByte k
    → All IsByte v
    → put_part (query_pair k v ++ tail) (length (query_pair k v)) out ≡ put_pair k v out
unfolding query_pair
put_part-query_pair k v tail out h hk hv =
    rw
      (
        append_assoc (url_encode k) (b'=' ∷ url_encode v) tail,
        length-append (url_encode k) (b'=' ∷ url_encode v),
      )
      (part_of (url_encode k) (url_encode v) tail out (url_encode-Lacks k hk).1
        ∙ rw (url_decode-url_encode k hk, url_decode-url_encode v hv)
            (put_named-put_pair k v out h))

query_pair-Lacks : (k v : Bytes) → All IsByte k → All IsByte v → Lacks b'&' (query_pair k v)
unfolding query_pair
query_pair-Lacks k v hk hv =
    All-append _ _ _ (url_encode-Lacks k hk).0 ((λ e. omega arith), (url_encode-Lacks v hv).0)

loop-more_pairs :
    (k v : Bytes) (ps : Pairs) (fuel : ℕ) (out : Pairs)
    → IsQuery ((k, v) ∷ ps)
    → length ps < fuel
    → query_loop fuel (query_pair k v ++ more_pairs ps) out ≡ put_all ps (put_pair k v out)
unfolding query_loop more_pairs put_all
loop-more_pairs k v ps zero out q h = absurd (omega arith)
loop-more_pairs k v [] (suc fuel) out (also h hk hv f q) lt =
    rw (miss, query_loop)
      (rw (ap length (append-nil (query_pair k v))) (put_part-query_pair k v [] out h hk hv))
  where
    miss : find_byte b'&' (query_pair k v ++ []) ≡ none
    miss = rw (append-nil (query_pair k v)) (find_byte_miss b'&' _ (query_pair-Lacks k v hk hv))
loop-more_pairs k v ((k', v') ∷ ps) (suc fuel) out (also h hk hv f q) lt =
    rw (find_byte_hit b'&' (query_pair k v) _ (query_pair-Lacks k v hk hv), query_loop)
      (rw
        (
          drop_behind (query_pair k v) b'&' (query_pair k' v' ++ more_pairs ps),
          put_part-query_pair k v _ out h hk hv,
        )
        (loop-more_pairs k' v' ps fuel (put_pair k v out) q (omega arith)))

put_pair-fresh :
    (k v : Bytes) (out : Pairs) → All (λ q. q.0 ≢ k) out → put_pair k v out ≡ out ++ (k, v) ∷ []
unfolding put_pair
put_pair-fresh k v [] h = refl
put_pair-fresh k v ((j, w) ∷ out) h =
    rw (ne→bytes_eq j k h.0) (ap (◌∷◌ (j, w)) (put_pair-fresh k v out h.1))

-- No key of the first list is in the second.
abbrev Apart : Pairs → Pairs → Type 0
Apart ps out = All (λ p. All (λ q. q.0 ≢ p.0) out) ps

Apart-put :
    (k v : Bytes) (ps out : Pairs)
    → All (λ q. q.0 ≢ k) ps
    → Apart ps out
    → Apart ps (out ++ (k, v) ∷ [])
Apart-put k v [] out f h = tt
Apart-put k v (p ∷ ps) out f h =
    (All-append _ _ _ h.0 ((λ e. f.0 (sym e)), tt), Apart-put k v ps out f.1 h.1)

put_all-append : (ps out : Pairs) → IsQuery ps → Apart ps out → put_all ps out ≡ out ++ ps
unfolding put_all
put_all-append [] out q h = sym (append-nil out)
put_all-append ((k, v) ∷ ps) out (also ne hk hv f q) h = rw (put_pair-fresh k v out h.0) (
    put_all-append ps (out ++ (k, v) ∷ []) q (Apart-put k v ps out f h.1)
    ∙ append_assoc out ((k, v) ∷ []) ps)

Apart-nil : (ps : Pairs) → Apart ps []
Apart-nil [] = tt
Apart-nil (p ∷ ps) = (tt, Apart-nil ps)

length-more_pairs : (ps : Pairs) → length ps ≤ length (more_pairs ps)
unfolding more_pairs
length-more_pairs [] = omega arith
length-more_pairs ((k, v) ∷ ps) =
    omega (arith, length-append (query_pair k v) (more_pairs ps), length-more_pairs ps)

-- Parsing the query that `build_query` wrote of pairs with different, non-empty keys gives the pairs
-- back, whatever bytes their keys and values hold.
pub parse_query_string-build_query :
    (ps : Pairs) → IsQuery ps → parse_query_string (build_query ps) [] ≡ ps
unfolding parse_query_string build_query put_all query_loop put_part put_flag put_named find_byte
parse_query_string-build_query [] q = refl
parse_query_string-build_query ((k, v) ∷ ps) q =
    loop-more_pairs k v ps (suc (length (query_pair k v ++ more_pairs ps))) [] q
      (omega (arith, length-append (query_pair k v) (more_pairs ps), length-more_pairs ps))
    ∙ put_all-append ((k, v) ∷ ps) [] q (Apart-nil ((k, v) ∷ ps))
