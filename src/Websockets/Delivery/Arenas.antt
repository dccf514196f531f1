-- ===== src/Websockets/Delivery/Arenas.antt =====
-- The arenas of the requests of src/websockets.cpp.
use wasapi.Base.{
  ℕ, ◌+◌, ◌≡◌, refl, sym, ap, true, false, Option, none, some, Bytes, get_elem?, set, Option-cases,
  inl, inr, arith,
}
use wasapi.Memory.{Arena, Manager, get, release, alloc}
use wasapi.Memory.Pool.{get-IsValid, get_lends, get_elem?-some, get_elem?-set_self, set-set}
use wasapi.Memory.Release.{release-get, release_used}
use wasapi.Memory.Kept.{IsPool, get-IsPool, alloc-IsPool, release-IsPool}
use wasapi.Request.{Request, new_request}
use wasapi.Websockets.Schedule.{complete, message_request}
use wasapi.Websockets.Delivery.{Allocation, arena_request, schedule_message, release_arena}

-- The same arenas are lent, and the counter is the same.
abbrev pub LendsAs : Manager → Manager → Type 0
LendsAs m n = (m.in_use ≡ n.in_use) × (m.available_count ≡ n.available_count)

-- A free arena is lent to the request, and no other arena changes hands.
abbrev pub IsLent : Manager → Request → Manager → Type 0
IsLent m r m' =
    (get_elem? m.in_use r.arena ≡ some false)
    × (m'.in_use ≡ set m.in_use r.arena true)
    × (m.available_count ≡ m'.available_count + 1)

-- A request that is made takes an arena that its task brings back; without one, none is taken.
abbrev pub IsReturned : ℕ → Manager → Option Request × Manager → Type 0
IsReturned count m (none, m') = IsPool count m' × LendsAs m' m
IsReturned count m (some r, m') = IsPool count m' × (IsLent m r m' × LendsAs (release_arena r m') m)

module _ (allocation : Allocation) (count : ℕ) where
  released :
      (m n : Manager) (place block : ℕ) (a a' : Arena)
      → IsPool count m
      → get m ≡ some (place, n)
      → get_elem? n.arenas place ≡ some a
      → alloc (allocation.address place) allocation.request_size allocation.request_align a
        ≡ some (block, a')
      → LendsAs (release (record n { arenas = set n.arenas place a' }) (some place)) m
  released m n place block a a' p h there f =
      let (w, free, used, less) = get-IsValid m n place p.valid h in
      let kept =
        alloc-IsPool count n place _ _ _ block a a' (get-IsPool count m n place p h) there f in
      rw
        (release_used (record n { arenas = set n.arenas place a' }) place a' kept.valid
          (get_elem?-set_self n.arenas place a a' there) used)
        (rw (get_lends m n place h).1 (set-set m.in_use place false true free), omega (arith, less))

  arena_request-IsReturned :
      (m : Manager) → IsPool count m → IsReturned count m (arena_request allocation m)
  unfolding arena_request new_request release_arena
  arena_request-IsReturned m p = elim (Option-cases (get m)) [
    | inl g ↦ rw (g, arena_request) (p, (refl, refl))
    | inr ((place, n), g) ↦
        let (w, free, used, less) = get-IsValid m n place p.valid g in
        let (a, e) = get_elem?-some n.in_use n.arenas place true (sym w.same_length) used in
        elim (Option-cases
          (alloc (allocation.address place) allocation.request_size allocation.request_align a)) [
            | inl f ↦
                let back = release-get m n place a p.valid g e in
                rw (g, arena_request)
                  (rw (e, arena_request)
                    (rw (f, arena_request)
                      (
                        release-IsPool count n (some place) (get-IsPool count m n place p g),
                        (back.0, back.1),
                      )))
            | inr ((block, a'), f) ↦
                rw (g, arena_request)
                  (rw (e, arena_request)
                    (rw (f, arena_request)
                      (
                        alloc-IsPool count n place _ _ _ block a a' (get-IsPool count m n place p g)
                            e f,
                        (
                          (free, ap (λ (k : Manager). k.in_use) (get_lends m n place g).1, less),
                          released m n place block a a' p g e f,
                        ),
                      )))
          ]
  ]

  asked :
      (fd opcode : ℕ) (content : Bytes) (m : Manager) (made : Option Request) (m' : Manager)
      → IsReturned count m (made, m')
      → IsReturned count m (elim made [
        | none ↦ (none, m')
        | some r ↦ (some (message_request allocation.print_size r fd opcode content), m')
      ])
  unfolding release_arena message_request complete
  asked fd opcode content m none m' h = h
  asked fd opcode content m (some r) m' h = h

  -- `schedule_message` keeps the arena manager sound. When it makes a request, one arena that was free
  -- is then in use for it, there is one fewer available and no other arena changes hands; the end of the
  -- request's task brings back the manager's table and counter as they were before. When the message is
  -- dropped they are so at once.
  pub schedule_message-IsReturned :
      (fd opcode : ℕ) (content : Bytes) (m : Manager)
      → IsPool count m
      → IsReturned count m (schedule_message allocation fd opcode content m)
  unfolding schedule_message
  schedule_message-IsReturned fd opcode content m p =
      asked fd opcode content m _ _ (arena_request-IsReturned m p)
