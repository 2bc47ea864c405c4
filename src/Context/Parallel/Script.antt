-- ===== src/Context/Parallel/Script.antt =====
-- src/server/RuntimeContext.cpp: blocks that only buffer until they end, and whole scripts.
use instrument_script_server.Base.{
  ℕ, ℤ, Bool, true, false, Option, none, some, List, [], ◌∷◌, ◌++◌, is_empty, map_option,
  if◌then◌else◌, ◌≡◌, refl, sym, ap, ◌∙◌, append_assoc, append-nil, ◌>>=◌, some_inj,
}
use instrument_script_server.Wire.{SerializedCommand}
use instrument_script_server.Json.Codec.{JsonText}
use instrument_script_server.Registry.{Registry, list_instruments}
use instrument_script_server.Registry.Invariant.{IsValid}
use instrument_script_server.Registry.Lookup.{command_expects_response}
use instrument_script_server.Context.{RuntimeContext, World, WorkerCall}
use instrument_script_server.Context.Naming.{CallSpec, parse_call}
use instrument_script_server.Context.Calls.{
  Args, call, call_spec, call_parsed, call_params, built_command, buffer_command,
}
use instrument_script_server.Context.Sends.{Sends, Sends-refl}
use instrument_script_server.Context.Parallel.{
  Action, calls, nests, start_block, run_actions, after_block, enqueue_block,
  execute_parallel_buffer, parallel,
}
use instrument_script_server.Context.Parallel.Plan.{shares, enqueue_block-shares}

-- The command that a call in a block leaves in the buffer, unless its name cannot be read.
abbrev pub built_by : (ℤ → ℕ) → Registry → Args → Option CallSpec → List SerializedCommand
built_by to_double r args none = []
built_by to_double r args (some spec) =
    built_command spec.instrument_id spec.verb (call_params to_double spec args)
      (command_expects_response spec.instrument_id spec.verb r)
    ∷ []

-- What the calls of a block leave in the buffer.
unfoldable pub buffered : (ℤ → ℕ) → Registry → List Action → List SerializedCommand
buffered to_double r [] = []
buffered to_double r (calls func_name args ∷ actions) =
    built_by to_double r args (parse_call func_name) ++ buffered to_double r actions
buffered to_double r (nests ∷ actions) = buffered to_double r actions

-- The context inside a block, with its buffer, and when the block has ended.
abbrev pub inside : RuntimeContext → List SerializedCommand → RuntimeContext
inside c cmds = record c { in_parallel_block = true; parallel_buffer = cmds }

abbrev pub ended : RuntimeContext → List SerializedCommand → RuntimeContext
ended c cmds = record c { in_parallel_block = false; parallel_buffer = cmds }

-- What a block with these commands sends.
abbrev pub block_calls : RuntimeContext → List SerializedCommand → List WorkerCall
block_calls c cmds =
    if is_empty cmds then [] else shares c.next_sync_token (list_instruments c.registry) cmds

second_of {ℓ κ} :
    {A : Type ℓ} {B : Type κ} (o : Option (A × B)) (f : B → Option B) {b : B}
    → map_option (λ r. r.1) o ≡ some b
    → (o >>= λ r. f r.1) ≡ f b
second_of none f h = cc
second_of (some r) f h = ap f (some_inj h)

from_ended :
    (c c' : RuntimeContext) (cmds : List SerializedCommand) (xs : List WorkerCall)
    → c.in_parallel_block ≡ false
    → Sends (ended c cmds) xs c'
    → Sends c xs c'
from_ended c c' cmds xs free s = record {
  valid = s.valid;
  names = s.names;
  calls = s.calls;
  counted = s.counted;
  enqueues = s.enqueues;
  blocked = s.blocked ∙ sym free;
  aligned = λ a. s.aligned (record { paired = a.paired; in_range = a.in_range });
}

-- A block that sends nothing.
pub ended-Sends :
    (c : RuntimeContext)
    → c.in_parallel_block ≡ false
    → IsValid c.registry
    → Sends c [] (ended c [])
ended-Sends c free v = from_ended c (ended c []) [] [] free (Sends-refl (ended c []) v)

module _ (J : JsonText) (W : World) where
  call_spec-inside :
      (args : Args) (c : RuntimeContext) (cmds : List SerializedCommand) (o : Option CallSpec)
      → map_option (λ r. r.1) (call_spec J W args (inside c cmds) o)
        ≡ some (inside c (cmds ++ built_by J.to_double c.registry args o))
  unfolding call_parsed buffer_command
  call_spec-inside args c cmds none = ap (λ xs. some (inside c xs)) (sym (append-nil cmds))
  call_spec-inside args c cmds (some spec) = refl

  run_actions-inside :
      (actions : List Action) (c : RuntimeContext) (cmds : List SerializedCommand)
      → run_actions J W actions (inside c cmds)
        ≡ some (inside c (cmds ++ buffered J.to_double c.registry actions))
  unfolding run_actions buffered call
  run_actions-inside [] c cmds = ap (λ xs. some (inside c xs)) (sym (append-nil cmds))
  run_actions-inside (nests ∷ actions) c cmds = run_actions-inside actions c cmds
  run_actions-inside (calls func_name args ∷ actions) c cmds =
      second_of (call J W func_name args (inside c cmds)) (run_actions J W actions)
        (call_spec-inside args c cmds (parse_call func_name))
      ∙ run_actions-inside actions c (cmds ++ built)
      ∙ ap (λ xs. some (inside c xs))
          (append_assoc cmds built (buffered J.to_double c.registry actions))
    where
      built : List SerializedCommand
      built = built_by J.to_double c.registry args (parse_call func_name)

  -- Inside a block each call whose name can be read leaves its command in the buffer, in the order of the calls,
  -- and changes nothing else; an exception that ends the block leaves the context as it was, with an
  -- empty buffer.
  pub parallel-throws :
      (actions : List Action) (c : RuntimeContext)
      → c.in_parallel_block ≡ false
      → (run_actions J W actions (start_block c)
          ≡ some (inside c (buffered J.to_double c.registry actions)))
        × (parallel J W (record { actions = actions; throws = true }) c ≡ some (true, ended c []))
  unfolding parallel start_block
  parallel-throws actions c free = (
    run_actions-inside actions c [],
    ap (λ b. if b then some (false, c) else block_result) free
        ∙ ap (λ o. o >>= after_block J W true) (run_actions-inside actions c []),
  )
    where
      block_result : Option (Bool × RuntimeContext)
      block_result = run_actions J W actions (start_block c) >>= after_block J W true

  block_ends :
      (cmds : List SerializedCommand) (c : RuntimeContext)
      → c.in_parallel_block ≡ false
      → c.enqueue_mode ≡ true
      → IsValid c.registry
      → (c' : RuntimeContext) × (after_block J W false (inside c cmds) ≡ some (false, c'))
        × Sends c (block_calls c cmds) c'
  block_ends [] c free on v = (ended c [], refl, ended-Sends c free v)
  block_ends (cmd ∷ cmds) c free on v =
      let (c', e, s) = enqueue_block-shares J W (ended c (cmd ∷ cmds)) v in
      (
        c',
        ap
              (λ b.
                map_option (λ x. (false, x))
                  (if b
                    then enqueue_block J W (ended c (cmd ∷ cmds))
                    else execute_parallel_buffer J W (ended c (cmd ∷ cmds))))
              on
            ∙ ap (map_option (λ x. (false, x))) e,
        from_ended c c' (cmd ∷ cmds) (block_calls c (cmd ∷ cmds)) free s,
      )

  -- A block in enqueue mode, in a valid registry, that ends without an exception sends each instrument its own
  -- commands in the order of the calls, or one barrier that does nothing, all under one token, with exactly
  -- the last marked as barrier; nothing is sent when no call could be read. There is one result for
  -- each command sent, and the registry stays valid.
  pub parallel-shares :
      (actions : List Action) (c : RuntimeContext)
      → c.in_parallel_block ≡ false
      → c.enqueue_mode ≡ true
      → IsValid c.registry
      → (c' : RuntimeContext) × (parallel J W (record { actions = actions; throws = false }) c
          ≡ some (false, c'))
        × Sends c (block_calls c (buffered J.to_double c.registry actions)) c'
  unfolding parallel start_block
  parallel-shares actions c free on v =
      let cmds = buffered J.to_double c.registry actions in
      let (c', e, s) = block_ends cmds c free on v in
      (
        c',
        ap (λ b. if b then some (false, c) else block_result) free
            ∙ ap (λ o. o >>= after_block J W false) (run_actions-inside actions c [])
            ∙ e,
        s,
      )
    where
      block_result : Option (Bool × RuntimeContext)
      block_result = run_actions J W actions (start_block c) >>= after_block J W false
