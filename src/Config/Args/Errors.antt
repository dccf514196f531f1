-- ===== src/Config/Args/Errors.antt =====
-- The errors of `config_parse_args` in src/config.cpp.
use wasapi.Base.{
  ◌≡◌, refl, Bool, false, none, List, [], ◌∷◌, ◌++◌, Bytes, codes, Option-cases, inl, inr,
}
use wasapi.Config.Args.{
  GlobalConfig, needs, flag, help, Parsing, returns, throws, Numbers, find_opt, opts, args_loop,
  config_parse_args,
}

-- Whether the call returned, and returned true.
unfoldable pub accepts : Parsing → Bool
accepts (returns b c errors) = b
accepts throws = false

module _ (numbers : Numbers) where
  -- The rounds at an argument that is an option, and at the last argument, with an error before.
  Refuses : List Bytes → Type 0
  Refuses args =
      (c : GlobalConfig) (e : Bytes) (errors : List Bytes)
      → accepts (args_loop numbers args c (e ∷ errors)) ≡ false

  Refuses-nil : Refuses []
  unfolding Refuses accepts args_loop
  Refuses-nil c e errors = refl

  Refuses-one : (a : Bytes) → Refuses (a ∷ [])
  unfolding Refuses accepts args_loop
  Refuses-one a c e errors = elim (Option-cases (find_opt a (opts numbers))) [
    | inl n ↦ rw (n, args_loop) refl
    | inr (needs put, n) ↦ rw (n, args_loop) refl
    | inr (flag put, n) ↦ rw (n, args_loop) refl
    | inr (help, n) ↦ rw (n, args_loop) refl
  ]

  Refuses-more :
      (a v : Bytes) (args : List Bytes) → Refuses args → Refuses (v ∷ args) → Refuses (a ∷ v ∷ args)
  unfolding Refuses accepts args_loop
  Refuses-more a v args behind rest c e errors = elim (Option-cases (find_opt a (opts numbers))) [
    | inl n ↦ rw (n, args_loop) (rest c e (errors ++ (codes "Unknown arg: " ++ a) ∷ []))
    | inr (needs put, n) ↦ elim (Option-cases (put v c)) [
      | inl p ↦ rw (n, args_loop) (rw p refl)
      | inr (c', p) ↦ rw (n, args_loop) (rw p (behind c' e errors))
    ]
    | inr (flag put, n) ↦ rw (n, args_loop) (rest (put c) e errors)
    | inr (help, n) ↦ rw (n, args_loop) refl
  ]

  -- An error is never forgotten: with one noted, the loop does not return true, whatever follows.
  args_loop-Refuses : (args : List Bytes) → Refuses args
  args_loop-Refuses [] = Refuses-nil
  args_loop-Refuses (a ∷ []) = Refuses-one a
  args_loop-Refuses (a ∷ v ∷ args) =
      Refuses-more a v args (args_loop-Refuses args) (args_loop-Refuses (v ∷ args))

  -- With an argument behind the program's name that is no option, `config_parse_args` does not return
  -- true, whatever arguments follow.
  pub config_parse_args-unknown :
      (program a : Bytes) (args : List Bytes) (c : GlobalConfig)
      → find_opt a (opts numbers) ≡ none
      → accepts (config_parse_args numbers (program ∷ a ∷ args) c) ≡ false
  unfolding config_parse_args accepts args_loop Refuses
  config_parse_args-unknown program a [] c n = rw (n, args_loop) refl
  config_parse_args-unknown program a (v ∷ args) c n =
      rw (n, args_loop) (args_loop-Refuses (v ∷ args) c (codes "Unknown arg: " ++ a) [])
