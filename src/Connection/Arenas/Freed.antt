-- ===== src/Connection/Arenas/Freed.antt =====
-- The arenas that `release_request` and `close_connection` of src/fcgi-connection.cpp give back.
use wasapi.Base.{
  ℕ, zero, suc, ◌≡◌, refl, sym, ap, subst, ◌∙◌, Bool, true, false, ◌&&◌, not, none, some, List, [],
  ◌∷◌, ◌++◌, get_elem?, set, Option-cases, if_elim, inl, inr, arith, if◌then◌else◌,
}
use wasapi.Dynamic.{Value, Items, nil, string, object, array, number, bool}
use wasapi.Request.{Request}
use wasapi.Memory.{Manager, release}
use wasapi.Memory.Pool.{IsValid, free_count, get_elem?-some}
use wasapi.Memory.Release.{release-IsValid, release-none, release_used, release_idle}
use wasapi.Connection.{Connection, Loop, find_conn, erase_conn}
use wasapi.Connection.Requests.{
  Settings, waiting_loop, process_waiting_connections, release_request, finalize_request,
  temp_paths, cleanup_loop, drop_connection, close_connection,
}

set_same {ℓ} :
    {A : Type ℓ} (xs : List A) (i : ℕ) (v : A) → get_elem? xs i ≡ some v → set xs i v ≡ xs
set_same [] i v h = refl
set_same (x ∷ xs) zero v h = ground (arith, h)
set_same (x ∷ xs) (suc i) v h = ap (◌∷◌ x) (set_same xs i v h)

set_outside {ℓ} :
    {A : Type ℓ} (xs : List A) (i : ℕ) (v : A) → get_elem? xs i ≡ none → set xs i v ≡ xs
set_outside [] i v h = refl
set_outside (x ∷ xs) zero v h = ground (arith, h)
set_outside (x ∷ xs) (suc i) v h = ap (◌∷◌ x) (set_outside xs i v h)

-- However `release` is called on a valid manager, the arena is free afterwards, and the others are as they
-- were.
release-free :
    (m : Manager) (p : ℕ) → IsValid m → (release m (some p)).in_use ≡ set m.in_use p false
release-free m p v = elim (Option-cases (get_elem? m.in_use p)) [
  | inl u ↦ elim (Option-cases (get_elem? m.arenas p)) [
    | inl e ↦ rw (release-none m p e) (sym (set_outside m.in_use p false u))
    | inr (a, e) ↦
        let (b, f) = get_elem?-some m.arenas m.in_use p a v.same_length e in
        absurd (ground (arith, u, f))
  ]
  | inr (used, u) ↦
      let (a, e) = get_elem?-some m.in_use m.arenas p used (sym v.same_length) u in go used u a e
]
  where
    go :
        (used : Bool)
        → get_elem? m.in_use p ≡ some used
        → (a : _) → get_elem? m.arenas p ≡ some a
        → (release m (some p)).in_use ≡ set m.in_use p false
    go true u a e = rw (release_used m p a v e u) refl
    go false u a e = rw (release_idle m p a v e u) (sym (set_same m.in_use p false u))

-- The table of the arenas once those of the requests are free.
unfoldable pub freed : List (ℕ × Request) → List Bool → List Bool
freed [] us = us
freed ((id, r) ∷ rs) us = freed rs (set us r.arena false)

module _ (settings : Settings) where
  -- From one state of the loop to another in which the requests' arenas are free, no connection has come or
  -- gone, and none waits.
  record Frees (rs : List (ℕ × Request)) (g g' : Loop) : Type 0 where
    valid : IsValid g'.manager
    table : g'.manager.in_use ≡ freed rs g.manager.in_use
    waiting : g'.waiting_conns ≡ []
    conns : g'.conns ≡ g.conns
    closings : g'.closings ≡ g.closings

  none_waiting : (g : Loop) → g.waiting_conns ≡ [] → process_waiting_connections settings g ≡ g
  unfolding process_waiting_connections waiting_loop
  none_waiting g e = rw (e, waiting_loop) refl

  release_request-Frees :
      (id : ℕ) (r : Request) (g : Loop)
      → IsValid g.manager
      → g.waiting_conns ≡ []
      → Frees ((id, r) ∷ []) g (release_request settings r g)
  unfolding release_request freed
  release_request-Frees id r g v e =
      subst (Frees ((id, r) ∷ []) g) (sym (none_waiting _ e)) (record {
        valid = release-IsValid g.manager (some r.arena) v;
        table = release-free g.manager r.arena v;
        waiting = e;
        conns = refl;
        closings = refl;
      })

  -- Removing files leaves the arenas and the connections alone.
  finalize_request-Frees :
      (r : Request) (g : Loop)
      → IsValid g.manager
      → g.waiting_conns ≡ []
      → Frees [] g (finalize_request settings r g)
  unfolding finalize_request freed
  finalize_request-Frees r g v e = go r.files refl
    where
      same : Frees [] g g
      same = record { valid = v; table = refl; waiting = e; conns = refl; closings = refl }

      removed : (fs : Items) → Frees [] g (record g { unlinks = g.unlinks ++ temp_paths fs })
      removed fs = record { valid = v; table = refl; waiting = e; conns = refl; closings = refl }

      go : (x : Value) → r.files ≡ x → Frees [] g (finalize_request settings r g)
      go (array fs) k =
          rw (k, finalize_request)
            (if_elim (Frees [] g)
              (not settings.keep_uploaded_files && settings.cleanup_temp_on_disconnect)
              (λ _. removed fs) (λ _. same))
      go nil k = rw (k, finalize_request) same
      go (string s) k = rw (k, finalize_request) same
      go (object fs) k = rw (k, finalize_request) same
      go (number n) k = rw (k, finalize_request) same
      go (bool b) k = rw (k, finalize_request) same

  cleanup_loop-Frees :
      (rs : List (ℕ × Request)) (g : Loop)
      → IsValid g.manager
      → g.waiting_conns ≡ []
      → Frees rs g (cleanup_loop settings rs g)
  unfolding cleanup_loop freed
  cleanup_loop-Frees [] g v e = record {
    valid = v;
    table = refl;
    waiting = e;
    conns = refl;
    closings = refl;
  }
  cleanup_loop-Frees ((id, r) ∷ rs) g v e =
      let finalized : Loop = if r.flags.responded then g else finalize_request settings r g in
      let a : Frees [] g finalized =
        if_elim (Frees [] g) r.flags.responded
          (λ _. record { valid = v; table = refl; waiting = e; conns = refl; closings = refl })
          (λ _. finalize_request-Frees r g v e) in
      let b = release_request-Frees id r finalized a.valid a.waiting in
      let c = cleanup_loop-Frees rs (release_request settings r finalized) b.valid b.waiting in
      record {
        valid = c.valid;
        table = c.table ∙ ap (freed rs) (b.table ∙ ap (λ us. set us r.arena false) a.table);
        waiting = c.waiting;
        conns = c.conns ∙ (b.conns ∙ a.conns);
        closings = c.closings ∙ (b.closings ∙ a.closings);
      }

  -- When the manager is sound and no connection waits for an arena, `close_connection` gives back the arenas of the connection's
  -- requests: each is free afterwards, every other arena is as it was, the counter is the number of free
  -- arenas, and the connection is gone and its descriptor closed, whatever state its requests are in.
  pub close_connection-freed :
      (fd : ℕ) (c : Connection) (g : Loop)
      → IsValid g.manager
      → find_conn fd g.conns ≡ some c
      → g.waiting_conns ≡ []
      → let g' = close_connection settings fd g in
        (g'.manager.in_use ≡ freed c.requests g.manager.in_use)
        × (g'.manager.available_count ≡ free_count (freed c.requests g.manager.in_use))
        × (g'.conns ≡ erase_conn fd g.conns)
        × (g'.closings ≡ g.closings ++ fd ∷ [])
  unfolding close_connection drop_connection
  close_connection-freed fd c g v h e =
      let k = cleanup_loop-Frees c.requests g v e in
      rw (h, close_connection)
        (
          k.table,
          k.valid.counted ∙ ap free_count k.table,
          ap (erase_conn fd) k.conns,
          ap (λ fds. fds ++ fd ∷ []) k.closings,
        )
