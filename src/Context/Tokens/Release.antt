-- ===== src/Context/Tokens/Release.antt =====
-- src/server/RuntimeContext.cpp: what the release of the tokens does to the results, the workers and the barriers.
use instrument_script_server.Base.{
  ℕ, ◌<◌, String, Bool, true, false, some, List, [], ◌∷◌, ◌++◌, Dict, lookup-erase, has, member,
  length, All, map, push_back, if◌then◌else◌, nat_key, string_key, ◌≡◌, refl, sym, ap, ◌∙◌, subst,
  arith, append_assoc, append-nil, ◌>>=◌, map_option,
}
use instrument_script_server.Sync.{has_barrier, clear_barrier}
use instrument_script_server.Registry.{Registry, has_instrument}
use instrument_script_server.Context.{RuntimeContext, World, WorkerCall, continues, list_at}
use instrument_script_server.Context.Sends.{IsAligned}
use instrument_script_server.Context.Parallel.{continue_on, continue_all}
use instrument_script_server.Context.Tokens.{
  released, release, release_all, process_tokens_and_wait, without_tokens,
}
use instrument_script_server.Context.Tokens.Answers.{
  header, Keeps, Keeps-trans, await-Answers, Settles,
}

-- SYNC_CONTINUE for a token, to each of these instruments that the registry has.
abbrev pub continue_calls : ℕ → Registry → List String → List WorkerCall
continue_calls token r [] = []
continue_calls token r (name ∷ names) =
    (if has_instrument name r then continues name token ∷ [] else [])
    ++ continue_calls token r names

continue_on_lem :
    (token : ℕ) (c : RuntimeContext) (name : String)
    → continue_on token c name ≡ record c {
      calls = c.calls ++ (if has_instrument name c.registry then continues name token ∷ [] else []);
    }
unfolding continue_on
continue_on_lem token c name = by_test (has_instrument name c.registry)
  where
    by_test :
        (b : Bool)
        → (if b then record c { calls = push_back (continues name token) c.calls } else c)
          ≡ record c { calls = c.calls ++ (if b then continues name token ∷ [] else []) }
    by_test true = refl
    by_test false = ap (λ xs. record c { calls = xs }) (sym (append-nil c.calls))

pub continue_all_lem :
    (token : ℕ) (names : List String) (c : RuntimeContext)
    → continue_all token names c
      ≡ record c { calls = c.calls ++ continue_calls token c.registry names }
unfolding continue_all
continue_all_lem token [] c = ap (λ xs. record c { calls = xs }) (sym (append-nil c.calls))
continue_all_lem token (name ∷ names) c =
    ap (continue_all token names) (continue_on_lem token c name)
    ∙ continue_all_lem token names (record c { calls = c.calls ++ one })
    ∙ ap (λ xs. record c { calls = xs })
        (append_assoc c.calls one (continue_calls token c.registry names))
  where
    one : List WorkerCall
    one = if has_instrument name c.registry then continues name token ∷ [] else []

-- SYNC_CONTINUE for each token in turn, to its instruments.
abbrev pub release_calls : Dict ℕ (List String) → Registry → List ℕ → List WorkerCall
release_calls instruments r [] = []
release_calls instruments r (token ∷ tokens) =
    continue_calls token r (list_at token instruments) ++ release_calls instruments r tokens

-- Every future of the tokens settles.
unfoldable pub AllSettle : World → RuntimeContext → Type 0
AllSettle W c = (t : ℕ) → All (λ f. Settles (W.answer f)) (list_at t c.token_futures)

-- The release of some tokens, from one context to another.
record Releases (c : RuntimeContext) (tokens : List ℕ) (c' : RuntimeContext) : Type 0 where
  registry : c'.registry ≡ c.registry
  futures : c'.token_futures ≡ c.token_futures
  indices : c'.token_result_indices ≡ c.token_result_indices
  instruments : c'.token_instruments ≡ c.token_instruments
  calls : c'.calls ≡ c.calls ++ release_calls c.token_instruments c.registry tokens
  results : Keeps c.collected_results c'.collected_results
  barriers :
      (t : ℕ)
      → has_barrier t c'.sync_coordinator
        ≡ (if member t tokens then false else has_barrier t c.sync_coordinator)

abbrev cleared : ℕ → RuntimeContext → RuntimeContext
cleared token c = record c { sync_coordinator = clear_barrier token c.sync_coordinator }

release-Releases :
    (W : World) (token : ℕ) (c : RuntimeContext)
    → IsAligned c
    → AllSettle W c
    → (c' : RuntimeContext) × (release W token c ≡ some c') × Releases c (token ∷ []) c'
unfolding AllSettle release clear_barrier has_barrier has member
release-Releases W token c a n =
    let (results, e, k) =
      await-Answers W (list_at token c.token_futures) (list_at token c.token_result_indices)
        c.collected_results (a.paired token) (a.in_range token) (n token) in
    let waited = record c { collected_results = results } in
    let continued = record waited {
      calls = c.calls ++ continue_calls token c.registry (list_at token c.token_instruments);
    } in
    (
      cleared token continued,
      ap (map_option (released token c)) e
          ∙ ap (λ x. some (cleared token x))
              (continue_all_lem token (list_at token c.token_instruments) waited),
      record {
        registry = refl;
        futures = refl;
        indices = refl;
        instruments = refl;
        calls =
            ap (λ xs. c.calls ++ xs)
              (sym
                (append-nil (continue_calls token c.registry (list_at token c.token_instruments))));
        results = k;
        barriers = λ t. ground (arith, lookup-erase token t c.sync_coordinator.barriers);
      },
    )

Releases-IsAligned :
    (c c' : RuntimeContext) (tokens : List ℕ) → Releases c tokens c' → IsAligned c → IsAligned c'
Releases-IsAligned c c' tokens s a = record {
  paired = λ t.
      ap (λ m. length (list_at t m)) s.futures
      ∙ a.paired t
      ∙ ap (λ m. length (list_at t m)) (sym s.indices);
  in_range = λ t.
      subst (λ m. All (λ i. i < length c'.collected_results) (list_at t m)) (sym s.indices)
        (subst (λ n. All (λ i. i < n) (list_at t c.token_result_indices))
          (sym s.results.same_length) (a.in_range t));
}

Releases-AllSettle :
    (W : World) (c c' : RuntimeContext) (tokens : List ℕ)
    → Releases c tokens c'
    → AllSettle W c
    → AllSettle W c'
unfolding AllSettle
Releases-AllSettle W c c' tokens s n t =
    subst (λ m. All (λ f. Settles (W.answer f)) (list_at t m)) (sym s.futures) (n t)

Releases-trans :
    (token : ℕ) (tokens : List ℕ) (c c' c'' : RuntimeContext)
    → Releases c (token ∷ []) c'
    → Releases c' tokens c''
    → Releases c (token ∷ tokens) c''
unfolding member
Releases-trans token tokens c c' c'' s t = record {
  registry = t.registry ∙ s.registry;
  futures = t.futures ∙ s.futures;
  indices = t.indices ∙ s.indices;
  instruments = t.instruments ∙ s.instruments;
  calls =
      t.calls
      ∙ ap (λ m. c'.calls ++ release_calls m c'.registry tokens) s.instruments
      ∙ ap (λ r. c'.calls ++ release_calls c.token_instruments r tokens) s.registry
      ∙ ap (λ xs. xs ++ release_calls c.token_instruments c.registry tokens) s.calls
      ∙ append_assoc c.calls (release_calls c.token_instruments c.registry (token ∷ []))
          (release_calls c.token_instruments c.registry tokens)
      ∙ ap (λ xs. c.calls ++ (xs ++ release_calls c.token_instruments c.registry tokens))
          (append-nil (continue_calls token c.registry (list_at token c.token_instruments)));
  results = Keeps-trans s.results t.results;
  barriers = λ n. ground (arith, s.barriers n, t.barriers n);
}

release_all-Releases :
    (W : World) (tokens : List ℕ) (c : RuntimeContext)
    → IsAligned c
    → AllSettle W c
    → (c' : RuntimeContext) × (release_all W tokens c ≡ some c') × Releases c tokens c'
unfolding release_all member
release_all-Releases W [] c a n = (
  c,
  refl,
  record {
    registry = refl;
    futures = refl;
    indices = refl;
    instruments = refl;
    calls = sym (append-nil c.calls);
    results = record { same_length = refl; same_headers = refl };
    barriers = λ t. refl;
  },
)
release_all-Releases W (token ∷ tokens) c a n =
    let (c', e, s) = release-Releases W token c a n in
    let (c'', e', s') =
      release_all-Releases W tokens c' (Releases-IsAligned c c' (token ∷ []) s a)
        (Releases-AllSettle W c c' (token ∷ []) s n) in
    (
      c'',
      ap (λ o. o >>= λ x. release_all W tokens x) e ∙ e',
      Releases-trans token tokens c c' c'' s s',
    )

-- In a context whose futures have their results, and where every future of the tokens gives a response or throws (a
-- worker that never answers would make `get` wait for ever), the release of all tokens returns and never
-- leaves the results' bounds: it keeps every result with its instrument, verb and parameters, continues the
-- instruments of the tokens, token by token in the order of their making, leaves no barrier of a token,
-- and forgets the tokens.
pub process_tokens-releases :
    (W : World) (c : RuntimeContext)
    → IsAligned c
    → AllSettle W c
    → (c' : RuntimeContext) × (process_tokens_and_wait W c ≡ some c')
      × (map header c'.collected_results ≡ map header c.collected_results)
      × (c'.calls ≡ c.calls ++ release_calls c.token_instruments c.registry c.token_order)
      × ((t : ℕ) → member t c.token_order ≡ true → has_barrier t c'.sync_coordinator ≡ false)
      × (c'.token_order ≡ [])
      × (c'.token_futures ≡ [])
unfolding process_tokens_and_wait
process_tokens-releases W c a n =
    let (c', e, s) = release_all-Releases W c.token_order c a n in
    (
      without_tokens c',
      ap (map_option without_tokens) e,
      s.results.same_headers,
      s.calls,
      (λ t there.
          s.barriers t ∙ ap (λ b. if b then false else has_barrier t c.sync_coordinator) there),
      refl,
      refl,
    )
