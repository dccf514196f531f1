-- ===== src/Websockets/Schedule/Target.antt =====
-- The request line of a plain HTTP request in src/websockets.cpp.
use wasapi.Base.{
  ℕ, suc, ◌≡◌, ◌≢◌, refl, ap, sym, ◌∙◌, true, false, Option, some, [], ◌∷◌, ◌++◌, Bytes, Lacks,
  codes, All-append, length, drop, take-append, drop-append, append_assoc, bytes_eq, bytes_eq_self,
  bytes_eq→ne, find_byte_hit,
}
use wasapi.Dynamic.{Value, string, assign, find}
use wasapi.Dynamic.Lookup.{find-assign_self, find-assign_other}
use wasapi.Http.Text.{starts_with, strip_prefix}
use wasapi.Websockets.Schedule.{before, behind, target_of, put_target, put_request_line}

drop_hit : (a : Bytes) (c : ℕ) (s : Bytes) → drop (suc (length a)) (a ++ c ∷ s) ≡ s
drop_hit [] c s = refl
drop_hit (x ∷ a) c s = drop_hit a c s

before-hit : (c : ℕ) (a s : Bytes) → Lacks c a → before c (a ++ c ∷ s) ≡ a
unfolding before
before-hit c a s h = rw (find_byte_hit c a s h, before) (take-append a (c ∷ s))

behind-hit : (c : ℕ) (a s : Bytes) → Lacks c a → behind c (a ++ c ∷ s) ≡ s
unfolding behind
behind-hit c a s h = rw (find_byte_hit c a s h, behind) (drop_hit a c s)

target_of-hit : (a s : Bytes) → Lacks 32 a → target_of (a ++ 32 ∷ s) ≡ a
unfolding target_of
target_of-hit a s h = rw (find_byte_hit 32 a s h, target_of) (take-append a (32 ∷ s))

put_request_line-target :
    (prefix method target version : Bytes) (env : Value)
    → Lacks 32 method
    → Lacks 32 target
    → put_request_line prefix (method ++ 32 ∷ (target ++ 32 ∷ version)) env
      ≡ put_target prefix method target env
unfolding put_request_line
put_request_line-target prefix method target version env hm ht =
    rw (find_byte_hit 32 method (target ++ 32 ∷ version) hm, put_request_line)
      (rw
        (
          take-append method (32 ∷ (target ++ 32 ∷ version)),
          drop_hit method 32 (target ++ 32 ∷ version),
          target_of-hit target version ht,
        )
        refl)

starts_with-prefix : (p s : Bytes) → starts_with p (p ++ s) ≡ true
unfolding starts_with
starts_with-prefix p s = rw (take-append p s) (bytes_eq_self p)

strip_prefix-append :
    (c : ℕ) (p : Bytes) (d : ℕ) (s : Bytes) → strip_prefix (c ∷ p) ((c ∷ p) ++ d ∷ s) ≡ d ∷ s
unfolding strip_prefix
strip_prefix-append c p d s =
    rw (starts_with-prefix (c ∷ p) (d ∷ s), strip_prefix) (rw (drop-append (c ∷ p) (d ∷ s)) refl)

-- The CGI variables that a request line gives.
pub record IsRead (env : Value) (method uri path query : Bytes) : Type 0 where
  pub request_method : find env (codes "REQUEST_METHOD") ≡ some (string method)
  pub request_uri : find env (codes "REQUEST_URI") ≡ some (string uri)
  pub path_info : find env (codes "PATH_INFO") ≡ some (string path)
  pub query_string : find env (codes "QUERY_STRING") ≡ some (string query)

-- Under another key than the last one.
passed :
    (x : Value) (j k : Bytes) (v : Value) (found : Option Value)
    → bytes_eq k j ≡ false
    → find x j ≡ found
    → find (assign x k v) j ≡ found
passed x j k v found h e = find-assign_other x j k v (bytes_eq→ne k j h) ∙ e

put_target-IsRead :
    (prefix method target uri path query : Bytes) (env : Value)
    → strip_prefix prefix target ≡ uri
    → before b'?' uri ≡ path
    → behind b'?' target ≡ query
    → IsRead (put_target prefix method target env) method uri path query
unfolding put_target bytes_eq
put_target-IsRead prefix method target uri path query env eu ep eq =
    rw (eu, ep, eq, put_target)
      (record {
        request_method =
            passed _ _ _ _ _ refl
              (passed _ _ _ _ _ refl (passed _ _ _ _ _ refl (find-assign_self env _ _)));
        request_uri = passed _ _ _ _ _ refl (passed _ _ _ _ _ refl (find-assign_self _ _ _));
        path_info = passed _ _ _ _ _ refl (find-assign_self _ _ _);
        query_string = find-assign_self _ _ _;
      })

-- A request line with a target below the configured prefix: the method, the target without the prefix,
-- its path and its query stand in the environment, if there is no blank in them, and no question mark in
-- the prefix and the path.
pub put_request_line-IsRead :
    (c : ℕ) (prefix method : Bytes) (d : ℕ) (path query version : Bytes) (env : Value)
    → Lacks 32 method
    → Lacks 32 ((c ∷ prefix) ++ ((d ∷ path) ++ b'?' ∷ query))
    → Lacks b'?' (c ∷ prefix)
    → Lacks b'?' (d ∷ path)
    → IsRead
        (put_request_line
          (c ∷ prefix)
          (method ++ 32 ∷ (((c ∷ prefix) ++ ((d ∷ path) ++ b'?' ∷ query)) ++ 32 ∷ version))
          env)
        method
        ((d ∷ path) ++ b'?' ∷ query)
        (d ∷ path)
        query
put_request_line-IsRead c prefix method d path query version env hm ht hp hd =
    rw (put_request_line-target (c ∷ prefix) method target version env hm ht) (
      put_target-IsRead (c ∷ prefix) method target _ _ _ env
        (strip_prefix-append c prefix d (path ++ b'?' ∷ query))
        (before-hit b'?' (d ∷ path) query hd)
        (ap (behind b'?') (sym (append_assoc (c ∷ prefix) (d ∷ path) (b'?' ∷ query)))
          ∙ behind-hit b'?' ((c ∷ prefix) ++ d ∷ path) query
              (All-append (λ x. x ≢ b'?') (c ∷ prefix) (d ∷ path) hp hd)))
  where
    target : Bytes
    target = (c ∷ prefix) ++ ((d ∷ path) ++ b'?' ∷ query)
