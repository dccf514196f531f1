-- ===== src/Tests/Threads.antt =====
-- Threads that use the cache of src/fileio.cpp at the same time.
use wasapi.Base.{ℕ, refl, codes, arith}
use wasapi.FileCache.Valid.{IsValid}
use wasapi.FileCache.Threads.{
  idle, begins, writes, advance, System, moves, reads, starts_write, Reachable, here, later, update,
}
use wasapi.FileCache.Threads.Limit.{Reachable-IsValid}
use wasapi.Tests.Files.{outside, empty, empty-IsValid}

abbrev quiet : System
quiet = record { cache = empty; places = λ i. idle }

-- The next states: thread 0 starts to read and takes its first moves, thread 1 writes the same file.
abbrev moved : System → ℕ → System
moved s i = record {
  cache = (advance outside (s.places i) s.cache).1;
  places = update i (advance outside (s.places i) s.cache).0 s.places;
}

abbrev reading : System
reading = record quiet { places = update 0 (begins (codes "abc")) quiet.places }

abbrev both : System
both = record (moved reading 0) {
  places = update 1 (writes (codes "abc") (codes "text")) (moved reading 0).places;
}

abbrev crossed : System
crossed = moved (moved (moved both 1) 0) 1

crossed-Reachable : Reachable 10 quiet crossed
crossed-Reachable =
    later
      (later
        (later
          (later (later (later here (reads 0 (codes "abc"))) (moves 0 outside refl))
            (starts_write 1 (codes "abc") (codes "text")))
          (moves 1 outside refl))
        (moves 0 outside refl))
      (moves 1 outside refl)

Reachable-IsValid_example : IsValid 10 crossed.cache
Reachable-IsValid_example =
    Reachable-IsValid 10 quiet crossed (omega arith) empty-IsValid (λ i. refl) crossed-Reachable
