-- ===== src/Context/Script.antt =====
-- src/server/RuntimeContext.cpp: whole scripts in enqueue mode, and the release of what they have enqueued.
use instrument_script_server.Base.{
  String, Bool, true, false, Option, none, some, List, [], ◌∷◌, ◌++◌, lookup, has, length, map,
  map_option, if◌then◌else◌, nat_key, string_key, All, ◌≡◌, refl, sym, ap, ◌∙◌, arith, ◌>>=◌,
  is_some, subst,
}
use instrument_script_server.Wire.{SerializedCommand}
use instrument_script_server.Json.Codec.{JsonText}
use instrument_script_server.Proxy.{Proxy}
use instrument_script_server.Registry.{Registry, get_instrument}
use instrument_script_server.Registry.Invariant.{IsValid}
use instrument_script_server.Registry.Lookup.{command_expects_response}
use instrument_script_server.Sync.{SyncCoordinator}
use instrument_script_server.Context.{
  RuntimeContext, World, Future, list_at, WorkerCall, executes, new_context, begin_token,
}
use instrument_script_server.Context.Naming.{CallSpec, parse_call}
use instrument_script_server.Context.Calls.{
  Args, LuaValue, nil, call, call_spec, call_parsed, call_params, built_command, enqueue_call,
  enqueue_found, placeholder, send_command, record_call, buffer_command,
}
use instrument_script_server.Context.Sends.{
  Sends, Sends-refl, Sends-trans, IsAligned, dispatch-Sends,
}
use instrument_script_server.Context.Parallel.{Block, parallel}
use instrument_script_server.Context.Parallel.Plan.{begin_token-Sends}
use instrument_script_server.Context.Parallel.Script.{
  parallel-shares, parallel-throws, ended, ended-Sends,
}
use instrument_script_server.Context.Tokens.{process_tokens_and_wait}
use instrument_script_server.Context.Tokens.Release.{process_tokens-releases, AllSettle}
use instrument_script_server.Context.Tokens.Answers.{header, Settles}

-- What a script asks of its context: calls and blocks.
pub data Statement : Type 0 where
  calls : String → Args → Statement
  blocks : Block → Statement

-- A context in enqueue mode outside a block, in a valid registry, whose futures have their results.
record IsEnqueuing (c : RuntimeContext) : Type 0 where
  valid : IsValid c.registry
  on : c.enqueue_mode ≡ true
  free : c.in_parallel_block ≡ false
  aligned : IsAligned c

-- A step that sends some calls to the workers and returns.
Enqueues {ℓ} : {A : Type ℓ} → RuntimeContext → Option (A × RuntimeContext) → Type ℓ
Enqueues {A} c o =
    (a : A) × (c' : RuntimeContext) × (o ≡ some (a, c')) × (xs : List WorkerCall) × Sends c xs c'

Sends-IsEnqueuing :
    (c c' : RuntimeContext) (xs : List WorkerCall) → Sends c xs c' → IsEnqueuing c → IsEnqueuing c'
Sends-IsEnqueuing c c' xs s g = record {
  valid = s.valid;
  on = s.enqueues ∙ g.on;
  free = s.blocked ∙ g.free;
  aligned = s.aligned g.aligned;
}

module _ (J : JsonText) (W : World) where
  -- A script runs until a block of it throws.
  unfoldable pub run_script : List Statement → RuntimeContext → Option (Bool × RuntimeContext)
  run_script [] c = some (false, c)
  run_script (calls func_name args ∷ statements) c =
      call J W func_name args c >>= λ r. run_script statements r.1
  run_script (blocks block ∷ statements) c = parallel J W block c >>= λ r.
      let rest = run_script statements r.1 in if r.0 then some r else rest

  enqueue_call-Sends :
      (spec : CallSpec) (cmd : SerializedCommand) (p : Proxy) (c : RuntimeContext)
      → IsEnqueuing c
      → lookup spec.instrument_id c.registry.instruments ≡ some p
      → (c' : RuntimeContext) × (enqueue_call J W spec cmd c ≡ some c')
        × (xs : List WorkerCall) × Sends c xs c'
  unfolding enqueue_call begin_token has
  enqueue_call-Sends spec cmd p c g found =
      let token = c.next_sync_token in
      let m : SerializedCommand = record cmd { sync_token = some token; is_sync_barrier = true } in
      let (c', e, s) =
        dispatch-Sends J W token spec.instrument_id
          (placeholder J W spec.instrument_spec spec.verb cmd.params) m (begin_token c) g.valid
          (ap is_some found) in
      (
        c',
        e,
        executes spec.instrument_id m ∷ [],
        Sends-trans [] (executes spec.instrument_id m ∷ []) (begin_token-Sends c g.valid) s,
      )

  call-Enqueues :
      (func_name : String) (args : Args) (c : RuntimeContext)
      → IsEnqueuing c
      → Enqueues c (call J W func_name args c)
  unfolding Enqueues call call_parsed get_instrument
  call-Enqueues func_name args c g = by_spec (parse_call func_name)
    where
      by_worker :
          (spec : CallSpec) (cmd : SerializedCommand) (o : Option Proxy)
          → lookup spec.instrument_id c.registry.instruments ≡ o
          → (c' : RuntimeContext) × (enqueue_found J W spec cmd c o ≡ some c')
            × (xs : List WorkerCall) × Sends c xs c'
      by_worker spec cmd none h = (c, refl, [], Sends-refl c g.valid)
      by_worker spec cmd (some p) h = enqueue_call-Sends spec cmd p c g h

      by_spec :
          (o : Option CallSpec)
          → (a : LuaValue) × (c' : RuntimeContext) × (call_spec J W args c o ≡ some (a, c'))
            × (xs : List WorkerCall) × Sends c xs c'
      by_spec none = (nil, c, refl, [], Sends-refl c g.valid)
      by_spec (some spec) =
          let params = call_params J.to_double spec args in
          let expects = command_expects_response spec.instrument_id spec.verb c.registry in
          let cmd : SerializedCommand = built_command spec.instrument_id spec.verb params expects in
          let enqueued : Option RuntimeContext =
            enqueue_found J W spec cmd c (lookup spec.instrument_id c.registry.instruments) in
          let sync : Option (LuaValue × RuntimeContext) =
            map_option (record_call J W spec params)
              (send_command J W spec.instrument_id spec.verb params expects c) in
          let (c', e, xs, s) =
            by_worker spec cmd (lookup spec.instrument_id c.registry.instruments) refl in
          (
            nil,
            c',
            ap
                  (λ b.
                    if b
                    then some (nil, buffer_command cmd c)
                    else if c.enqueue_mode
                    then map_option (λ x. (nil, x)) enqueued
                    else sync)
                  g.free
                ∙ ap (λ b. if b then map_option (λ x. (nil, x)) enqueued else sync) g.on
                ∙ ap (map_option (λ x. (nil, x))) e,
            xs,
            s,
          )

  Runs : RuntimeContext → Option (Bool × RuntimeContext) → Type 0
  Runs c o =
      (b : Bool) × (c' : RuntimeContext) × (o ≡ some (b, c'))
      × (xs : List WorkerCall) × Sends c xs c'

  block-Runs : (block : Block) (c : RuntimeContext) → IsEnqueuing c → Runs c (parallel J W block c)
  unfolding Runs
  block-Runs block c g = by_end block.throws
    where
      by_end : (b : Bool) → Runs c (parallel J W (record { actions = block.actions; throws = b }) c)
      by_end true = (
        true,
        ended c [],
        (parallel-throws J W block.actions c g.free).1,
        [],
        ended-Sends c g.free g.valid,
      )
      by_end false =
          let (c', e, s) = parallel-shares J W block.actions c g.free g.on g.valid in
          (false, c', e, _, s)

  -- The rest of a script after a step that has not thrown.
  then-Runs :
      {c c' : RuntimeContext} (xs : List WorkerCall) (o : Option (Bool × RuntimeContext))
      → Sends c xs c'
      → Runs c' o
      → Runs c o
  unfolding Runs
  then-Runs xs o s (b, c'', e, ys, s') = (b, c'', e, xs ++ ys, Sends-trans xs ys s s')

  run_script-Runs :
      (statements : List Statement) (c : RuntimeContext)
      → IsEnqueuing c
      → Runs c (run_script statements c)
  unfolding run_script Enqueues Runs
  run_script-Runs [] c g = (false, c, refl, [], Sends-refl c g.valid)
  run_script-Runs (calls func_name args ∷ statements) c g =
      let (v, c', e, xs, s) = call-Enqueues func_name args c g in
      subst (λ o. Runs c (o >>= λ r. run_script statements r.1)) (sym e)
        (then-Runs xs (run_script statements c') s
          (run_script-Runs statements c' (Sends-IsEnqueuing c c' xs s g)))
  run_script-Runs (blocks block ∷ statements) c g =
      let (b, c', e, xs, s) = block-Runs block c g in
      subst (λ o. Runs c (o >>= rest)) (sym e)
        (by_end b c' xs s (run_script-Runs statements c' (Sends-IsEnqueuing c c' xs s g)))
    where
      rest : Bool × RuntimeContext → Option (Bool × RuntimeContext)
      rest r = let next = run_script statements r.1 in if r.0 then some r else next

      by_end :
          (b : Bool) (c' : RuntimeContext) (xs : List WorkerCall)
          → Sends c xs c'
          → Runs c' (run_script statements c')
          → Runs c (rest (b, c'))
      by_end true c' xs s next = (true, c', refl, xs, s)
      by_end false c' xs s next = then-Runs xs (run_script statements c') s next

  -- A script in enqueue mode, in a valid registry, whatever it calls, always returns, whether a block of it throws or
  -- not, and leaves a valid registry. It has one result for each command sent to a worker. When every
  -- future gives a response or throws while the tokens are released, the release returns too, and keeps
  -- each result with its instrument, verb and parameters.
  pub run_script-results :
      (W' : World) (statements : List Statement) (r : Registry) (sync : SyncCoordinator)
      → IsValid r
      → ((future : Future) → Settles (W'.answer future))
      → (threw : Bool) × (c : RuntimeContext) × (run_script statements (new_context r sync true)
          ≡ some (threw, c))
        × IsValid c.registry
        × (length c.collected_results ≡ length c.calls)
        × (c' : RuntimeContext) × (process_tokens_and_wait W' c ≡ some c')
        × (map header c'.collected_results ≡ map header c.collected_results)
  unfolding Runs lookup AllSettle
  run_script-results W' statements r sync v settled =
      let start : IsEnqueuing (new_context r sync true) = record {
        valid = v;
        on = refl;
        free = refl;
        aligned = record { paired = λ t. refl; in_range = λ t. tt };
      } in
      let (threw, c, e, xs, s) = run_script-Runs statements (new_context r sync true) start in
      let aligned = s.aligned start.aligned in
      let (c', e', kept, continued, gone, forgotten, empty) =
        process_tokens-releases W' c aligned (λ t. all_settle (list_at t c.token_futures)) in
      (threw, c, e, s.valid, omega (arith, s.counted, ap length s.calls), c', e', kept)
    where
      all_settle : (futures : List Future) → All (λ f. Settles (W'.answer f)) futures
      all_settle [] = tt
      all_settle (future ∷ futures) = (settled future, all_settle futures)
