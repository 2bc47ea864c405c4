-- ===== src/Worker/Loop.antt =====
-- The rounds of a run of the worker's loop.
use instrument_script_server.Base.{
  ℕ, ◌≡◌, refl, true, false, Option, none, some, List, [], ◌∷◌, ◌++◌, arith, ◌>>=◌, Bool-cases, inl,
  inr, ◌⊎◌,
}
use instrument_script_server.Json.Codec.{JsonText}
use instrument_script_server.Ipc.{IpcMessage}
use instrument_script_server.Worker.Abi.{Plugin}
use instrument_script_server.Worker.{Worker, Outcome, after, loop_round, main_loop}

module _ (J : JsonText) (P : Plugin) where
  -- The first round of a run that ends with `w'` and `out`.
  abbrev pub Cases :
      Worker J P
      → ℕ × Option (IpcMessage J)
      → List (ℕ × Option (IpcMessage J))
      → Worker J P
      → List (IpcMessage J)
      → Type 0
  Cases w r rs w' out =
      ((w.running ≡ false) × ((w' ≡ w) × (out ≡ [])))
      ⊎ ((w1 : Worker J P) × (out1 : List (IpcMessage J)) × (out2 : List (IpcMessage J))
          × (loop_round J P w r ≡ some (w1, out1))
          × (main_loop J P w1 rs ≡ some (w', out2))
          × (out ≡ out1 ++ out2)
          × (w.running ≡ true))

  later_of :
      (out1 : List (IpcMessage J)) (m : Outcome J P) (w' : Worker J P) (out : List (IpcMessage J))
      → after J P out1 m ≡ some (w', out)
      → (out2 : List (IpcMessage J)) × (m ≡ some (w', out2)) × (out ≡ out1 ++ out2)
  later_of out1 none w' out h = cc
  later_of out1 (some (w2, out2)) w' out h = (out2, ground arith, ground arith)

  here_of :
      (o : Outcome J P) (k : Worker J P → Outcome J P) (w' : Worker J P) (out : List (IpcMessage J))
      → (o >>= λ here. after J P here.1 (k here.0)) ≡ some (w', out)
      → (w1 : Worker J P) × (out1 : List (IpcMessage J)) × (out2 : List (IpcMessage J)) × (o
          ≡ some (w1, out1))
        × (k w1 ≡ some (w', out2))
        × (out ≡ out1 ++ out2)
  here_of none k w' out h = cc
  here_of (some (w1, out1)) k w' out h =
      let (out2, e, f) = later_of out1 (k w1) w' out h in (w1, out1, out2, refl, e, f)

  pub main_loop-Cases :
      (w : Worker J P) (r : ℕ × Option (IpcMessage J)) (rs : List (ℕ × Option (IpcMessage J)))
      (w' : Worker J P) (out : List (IpcMessage J))
      → main_loop J P w (r ∷ rs) ≡ some (w', out)
      → Cases w r rs w' out
  unfolding main_loop
  main_loop-Cases w r rs w' out h = elim (Bool-cases w.running) [
    | inl on ↦
        let (w1, out1, out2, a, b, c) =
          here_of (loop_round J P w r) (λ u. main_loop J P u rs) w' out (started on h) in
        inr (w1, out1, out2, a, b, c, on)
    | inr off ↦ inl (off, stopped off h)
  ]
    where
      started :
          w.running ≡ true
          → main_loop J P w (r ∷ rs) ≡ some (w', out)
          → (loop_round J P w r >>= λ here. after J P here.1 (main_loop J P here.0 rs))
            ≡ some (w', out)
      started on h = simp on at h

      stopped :
          w.running ≡ false → main_loop J P w (r ∷ rs) ≡ some (w', out) → (w' ≡ w) × (out ≡ [])
      stopped off h = ground arith
