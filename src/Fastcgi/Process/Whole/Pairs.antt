-- ===== src/Fastcgi/Process/Whole/Pairs.antt =====
-- How `decode_length` and the loop on pairs of src/fastcgi.cpp read the pairs that a web server sends.
use wasapi.Base.{
  ℕ, zero, suc, ◌+◌, ◌*◌, ◌/◌, ◌%◌, ◌^◌, ◌<◌, ◌≤◌, ◌≡◌, refl, sym, ap, ◌∙◌, true, not, List, [],
  ◌∷◌, ◌++◌, Bytes, All, length, ltb, ◌==◌, bit_and, arith, length-append, take-append, drop-append,
  le→ltb, if_elim, Bool-cases, inl, inr,
}
use wasapi.Base.Bits.{table, read_table}
use wasapi.Dynamic.{string, assign}
use wasapi.Request.{Request}
use wasapi.Fastcgi.Process.{decode_length, params_loop}
use wasapi.Fastcgi.Process.Whole.{Pair, length_bytes, pairs_bytes, put_pairs, pairs_size, IsPair}

low_bit : (b : ℕ) → b < 128 → (bit_and b 0x80 == 0) ≡ true
low_bit b h = read_table (λ n. bit_and n 0x80 == 0) 128 b (unfold table in refl) h

high_bit : (b : ℕ) → b < 128 → (not (bit_and (128 + b) 0x80 == 0) ≡ true)
high_bit b h = read_table (λ n. not (bit_and (128 + n) 0x80 == 0)) 128 b (unfold table in refl) h

low_bits : (b : ℕ) → b < 128 → (bit_and (128 + b) 0x7f == b) ≡ true
low_bits b h = read_table (λ n. bit_and (128 + n) 0x7f == n) 128 b (unfold table in refl) h

short_form : (n : ℕ) (rest : Bytes) → n < 128 → decode_length (n ∷ rest) ≡ (n, rest)
unfolding decode_length
short_form n rest h = rw (low_bit n h, decode_length) refl

long_form :
    (b c d e : ℕ) (rest : Bytes)
    → b < 128
    → decode_length ((128 + b) ∷ c ∷ d ∷ e ∷ rest) ≡ (b * 2 ^ 24 + c * 2 ^ 16 + d * 2 ^ 8 + e, rest)
unfolding decode_length
long_form b c d e rest h = ground (arith, high_bit b h, low_bits b h)

pub decode_length-length_bytes :
    (n : ℕ) (rest : Bytes) → n < 2 ^ 31 → decode_length (length_bytes n ++ rest) ≡ (n, rest)
unfolding length_bytes
decode_length-length_bytes n rest h = elim (Bool-cases (ltb n 128)) [
  | inl e ↦ rw (e, length_bytes) (short_form n rest (ground arith))
  | inr e ↦
      let whole : n / 2 ^ 24 * 2 ^ 24
            + n / 2 ^ 16 % 256 * 2 ^ 16
            + n / 2 ^ 8 % 256 * 2 ^ 8
            + n % 256
          ≡ n =
        omega arith in
      rw (e, length_bytes)
        (long_form (n / 2 ^ 24) (n / 2 ^ 16 % 256) (n / 2 ^ 8 % 256) (n % 256) rest (omega arith)
          ∙ ap (λ m. (m, rest)) whole)
]

length_bytes-starts : (n : ℕ) → (b : ℕ) × ((p : Bytes) × (length_bytes n ≡ b ∷ p))
unfolding length_bytes
length_bytes-starts n =
    if_elim (λ (s : Bytes). (b : ℕ) × ((p : Bytes) × (s ≡ b ∷ p))) (ltb n 128) (λ e. (_, (_, refl)))
      (λ e. (_, (_, refl)))

abbrev pub with_pairs : List Pair → Request → Request
with_pairs ps r = record r {
  env = put_pairs ps r.env;
  params_bytes = r.params_bytes + pairs_size ps;
}

one_pair :
    (max fuel b : ℕ) (p q rest name value : Bytes) (r : Request) (out : Bytes)
    → decode_length (b ∷ p) ≡ (length name, q)
    → decode_length q ≡ (length value, name ++ (value ++ rest))
    → r.params_bytes + (length name + length value) ≤ max
    → params_loop max (suc fuel) (b ∷ p) r out
      ≡ params_loop max fuel rest
          (record r {
            env = assign r.env name (string value);
            params_bytes = r.params_bytes + (length name + length value);
          })
          out
unfolding params_loop
one_pair max fuel b p q rest name value r out e f fits =
    rw (e, params_loop)
      (rw (f, params_loop)
        (rw
          (le→ltb (length (name ++ (value ++ rest))) (length name + length value)
            (omega (arith, length-append name (value ++ rest), length-append value rest)))
          (rw (le→ltb max (r.params_bytes + length name + length value) (omega (arith, fits))) (
            rw
              (
                drop-append name (value ++ rest),
                take-append name (value ++ rest),
                drop-append value rest,
                take-append value rest,
              )
              refl))))

length-pairs_bytes :
    (name value : Bytes) (ps : List Pair)
    → length (pairs_bytes ps) + 1 ≤ length (pairs_bytes ((name, value) ∷ ps))
unfolding pairs_bytes
length-pairs_bytes name value ps =
    let (b, (p, e)) = length_bytes-starts (length name) in
    let behind = length_bytes (length value) ++ (name ++ (value ++ pairs_bytes ps)) in
    let n : length (length_bytes (length name)) ≡ suc (length p) = ap (λ s. length s) e in
    omega (
      arith,
      n,
      length-append (length_bytes (length name)) behind,
      length-append (length_bytes (length value)) (name ++ (value ++ pairs_bytes ps)),
      length-append name (value ++ pairs_bytes ps),
      length-append value (pairs_bytes ps),
    )

-- The pairs of a record are all read, in their order, and nothing else.
pub params_loop-pairs :
    (max fuel : ℕ) (ps : List Pair) (r : Request) (out : Bytes)
    → length (pairs_bytes ps) ≤ fuel
    → All IsPair ps
    → r.params_bytes + pairs_size ps ≤ max
    → params_loop max fuel (pairs_bytes ps) r out ≡ (with_pairs ps r, out)
unfolding params_loop pairs_bytes put_pairs pairs_size
params_loop-pairs max zero [] r out enough small fits =
    ap (λ n. (record r { params_bytes = n }, out)) (omega arith)
params_loop-pairs max (suc fuel) [] r out enough small fits =
    ap (λ n. (record r { params_bytes = n }, out)) (omega arith)
params_loop-pairs max zero ((name, value) ∷ ps) r out enough small fits =
    absurd (omega (arith, length-pairs_bytes name value ps, enough))
params_loop-pairs max (suc fuel) ((name, value) ∷ ps) r out enough small fits =
    let (b, (p, e)) = length_bytes-starts (length name) in
    let behind = length_bytes (length value) ++ (name ++ (value ++ pairs_bytes ps)) in
    let first = decode_length-length_bytes (length name) behind small.0.0 in
    let grown : Request = record r {
      env = assign r.env name (string value);
      params_bytes = r.params_bytes + (length name + length value);
    } in
    rw e (
      one_pair max fuel b (p ++ behind) behind (pairs_bytes ps) name value r out
        (sym (ap (λ s. decode_length (s ++ behind)) e) ∙ first)
        (decode_length-length_bytes (length value) (name ++ (value ++ pairs_bytes ps)) small.0.1)
        (omega (arith, fits))
      ∙ (params_loop-pairs max fuel ps grown out
            (omega (arith, length-pairs_bytes name value ps, enough)) small.1 (omega (arith, fits))
          ∙ ap (λ n. (record (with_pairs ps grown) { params_bytes = n }, out)) (omega arith)))
