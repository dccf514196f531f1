-- ===== src/Server/Main.antt =====
-- src/wasapi-server.cpp: `main` up to the two threads that serve. What the arguments say is printed, or the
-- arenas and the workers are made; the servers' loops are in Connection/Run and Websockets/Serving.
use wasapi.Base.{
  ℕ, zero, suc, ◌≡◌, refl, ap, true, false, not, List, Bytes, length, ◌==◌, if_elim, if◌then◌else◌,
  arith,
}
use wasapi.Config.Args.{
  GlobalConfig, Numbers, default_config, Parsing, returns, throws, config_parse_args,
}
use wasapi.Memory.{Manager, create_arenas}
use wasapi.Memory.Kept.{IsPool, create_arenas-IsPool}
use wasapi.Worker.{Pool, start, start_loop, new_pool}

-- How the program starts: it prints the errors and the usage and returns 1, a conversion throws, or the
-- servers run with this configuration, these arenas and this pool.
pub data Launch : Type 0 where
  refuses : List Bytes → Launch
  aborts : Launch
  launches : GlobalConfig → Manager → Pool → Launch

unfoldable pub launch : GlobalConfig → Launch
unfolding create_arenas start
launch c =
    launches c (create_arenas c.max_in_flight c.arena_capacity) (start c.max_in_flight new_pool)

unfoldable pub main : Numbers → List Bytes → Launch
unfolding config_parse_args launch
main numbers argv = elim (config_parse_args numbers argv default_config) [
  | throws ↦ aborts
  | returns parsed c errors ↦ if not parsed then refuses errors else launch c
]

length-start_loop : (n : ℕ) → length (start_loop n) ≡ n
unfolding start_loop
length-start_loop zero = refl
length-start_loop (suc n) = ap suc (length-start_loop n)

length-start : (n : ℕ) → length (start n new_pool).threads ≡ n
unfolding start
length-start zero = refl
length-start (suc n) =
    if_elim (λ (p : Pool). length p.threads ≡ suc n) (suc n == 0) (λ e. absurd (ground arith))
      (λ _. length-start_loop (suc n))

-- What a launch makes fits its configuration.
abbrev IsMade : Launch → Type 0
IsMade (launches c m p) = IsPool c.max_in_flight m × (length p.threads ≡ c.max_in_flight)
IsMade _ = Unit {0}

parsed-IsMade :
    (o : Parsing)
    → IsMade (elim o [
      | throws ↦ aborts
      | returns parsed c errors ↦ if not parsed then refuses errors else launch c
    ])
unfolding launch
parsed-IsMade throws = tt
parsed-IsMade (returns false c errors) = tt
parsed-IsMade (returns true c errors) =
    (create_arenas-IsPool c.max_in_flight c.arena_capacity, length-start c.max_in_flight)

-- When the arguments are accepted, the manager has one arena for each of the `max_in_flight` workers.
main-IsMade : (numbers : Numbers) (argv : List Bytes) → IsMade (main numbers argv)
unfolding main
main-IsMade numbers argv = parsed-IsMade (config_parse_args numbers argv default_config)
