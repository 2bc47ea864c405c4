-- ===== src/Context/Parallel/Plan.antt =====
-- src/server/RuntimeContext.cpp: what a block in enqueue mode sends to the workers.
use instrument_script_server.Base.{
  ℕ, String, true, Option, some, List, [], ◌∷◌, ◌++◌, Dict, lookup, has, map, All, is_empty,
  nat_key, string_key, ◌==◌, ◌≡◌, refl, sym, ap, ◌∙◌, subst, arith, Bool-cases, inl, inr, ◌>>=◌,
}
use instrument_script_server.Wire.{SerializedCommand}
use instrument_script_server.Json.Codec.{JsonText}
use instrument_script_server.Proxy.{Proxy}
use instrument_script_server.Registry.{list_instruments}
use instrument_script_server.Registry.Invariant.{IsValid}
use instrument_script_server.Context.{RuntimeContext, World, WorkerCall, executes, begin_token}
use instrument_script_server.Context.Calls.{placeholder}
use instrument_script_server.Context.Sends.{Sends, Sends-refl, Sends-trans, dispatch-Sends}
use instrument_script_server.Context.Parallel.{
  nop_command, marked, display_name, group, send_nop, send_one, send_each, send_found, send_all,
  enqueue_block,
}
use instrument_script_server.Context.Parallel.Grouping.{commands_of, or_none, lookup-group}

-- The commands of one instrument, the last of them marked as its barrier.
abbrev pub marked_commands : ℕ → String → List SerializedCommand → List WorkerCall
marked_commands token inst [] = []
marked_commands token inst (cmd ∷ cmds) =
    executes inst (marked token (is_empty cmds) cmd) ∷ marked_commands token inst cmds

-- What one instrument gets: its commands, or a command that does nothing.
abbrev pub share : ℕ → String → List SerializedCommand → List WorkerCall
share token inst [] = executes inst (nop_command token inst) ∷ []
share token inst cmds = marked_commands token inst cmds

abbrev pub shares : ℕ → List String → List SerializedCommand → List WorkerCall
shares token [] cmds = []
shares token (inst ∷ insts) cmds =
    share token inst (commands_of inst cmds) ++ shares token insts cmds

abbrev Known : RuntimeContext → String → Type 0
Known c inst = has inst c.registry.instruments ≡ true

Known-kept :
    (c c' : RuntimeContext) (xs : List WorkerCall) (insts : List String)
    → Sends c xs c'
    → All (Known c) insts
    → All (Known c') insts
Known-kept c c' xs [] s h = tt
Known-kept c c' xs (inst ∷ insts) s h = (s.names inst ∙ h.0, Known-kept c c' xs insts s h.1)

commands_of-named :
    (inst : String) (cmds : List SerializedCommand)
    → All (λ cmd. cmd.instrument_name ≡ inst) (commands_of inst cmds)
unfolding commands_of
commands_of-named inst [] = tt
commands_of-named inst (cmd ∷ cmds) = elim (Bool-cases (cmd.instrument_name == inst)) [
  | inl same ↦
      rw same ((string_key.eqb_iff cmd.instrument_name inst).0 same, commands_of-named inst cmds)
  | inr other ↦ rw other (commands_of-named inst cmds)
]

has-cons :
    (k j : String) (p : Proxy) (m : Dict String Proxy) → has k m ≡ true → has k ((j, p) ∷ m) ≡ true
unfolding has lookup
has-cons k j p m h = ground (arith, h)

has_first : (j : String) (p : Proxy) (m : Dict String Proxy) → has j ((j, p) ∷ m) ≡ true
unfolding has lookup
has_first j p m = ground (arith, string_key.eqb_iff j j)

All_cons :
    (j : String) (p : Proxy) (m : Dict String Proxy) (ks : List String)
    → All (λ k. has k m ≡ true) ks
    → All (λ k. has k ((j, p) ∷ m) ≡ true) ks
All_cons j p m [] h = tt
All_cons j p m (k ∷ ks) h = (has-cons k j p m h.0, All_cons j p m ks h.1)

names_known : (m : Dict String Proxy) → All (λ k. has k m ≡ true) (map (λ e. e.0) m)
names_known [] = tt
names_known ((j, p) ∷ m) = (has_first j p m, All_cons j p m _ (names_known m))

pub begin_token-Sends : (c : RuntimeContext) → IsValid c.registry → Sends c [] (begin_token c)
unfolding begin_token
begin_token-Sends c v = record {
  valid = v;
  names = λ n. refl;
  calls = (Sends-refl c v).calls;
  counted = (Sends-refl c v).counted;
  enqueues = refl;
  blocked = refl;
  aligned = λ a. record { paired = a.paired; in_range = a.in_range };
}

-- A step that sends the calls `xs`.
abbrev pub Sending : RuntimeContext → List WorkerCall → Option RuntimeContext → Type 0
Sending c xs o = (c' : RuntimeContext) × (o ≡ some c') × Sends c xs c'

pub Sending-then :
    (c : RuntimeContext) (xs ys : List WorkerCall) (o : Option RuntimeContext)
    (f : RuntimeContext → Option RuntimeContext)
    → Sending c xs o
    → ((c' : RuntimeContext) → Sends c xs c' → Sending c' ys (f c'))
    → Sending c (xs ++ ys) (o >>= f)
Sending-then c xs ys o f (c', e, s) next =
    let (c'', e', s') = next c' s in (c'', ap (λ o'. o' >>= f) e ∙ e', Sends-trans xs ys s s')

module _ (J : JsonText) (W : World) (token : ℕ) where
  send_nop-Sending :
      (inst : String) (c : RuntimeContext)
      → IsValid c.registry
      → Known c inst
      → Sending c (executes inst (nop_command token inst) ∷ []) (send_nop J W token inst c)
  unfolding send_nop
  send_nop-Sending inst c v there =
      dispatch-Sends J W token inst (placeholder J W inst "__BARRIER_NOP__" [])
        (nop_command token inst) c v there

  send_each-Sending :
      (inst : String) (cmds : List SerializedCommand) (c : RuntimeContext)
      → IsValid c.registry
      → Known c inst
      → All (λ cmd. cmd.instrument_name ≡ inst) cmds
      → Sending c (marked_commands token inst cmds) (send_each J W token cmds c)
  unfolding send_each send_one
  send_each-Sending inst [] c v there named = (c, refl, Sends-refl c v)
  send_each-Sending inst (cmd ∷ cmds) c v there named =
      Sending-then c (executes inst (marked token (is_empty cmds) cmd) ∷ [])
        (marked_commands token inst cmds) (send_one J W token (is_empty cmds) cmd c)
        (send_each J W token cmds) one
        (λ c' s. send_each-Sending inst cmds c' s.valid (s.names inst ∙ there) named.1)
    where
      m : SerializedCommand
      m = marked token (is_empty cmds) cmd

      one : Sending c (executes inst m ∷ []) (send_one J W token (is_empty cmds) cmd c)
      one =
          subst (λ n. Sending c (executes n m ∷ []) (send_one J W token (is_empty cmds) cmd c))
            named.0
            (dispatch-Sends J W token cmd.instrument_name
              (placeholder J W (display_name cmd) cmd.verb cmd.params) m c v
              (subst (Known c) (sym named.0) there))

  send_found-Sending :
      (inst : String) (cmds : List SerializedCommand) (c : RuntimeContext)
      → IsValid c.registry
      → Known c inst
      → All (λ cmd. cmd.instrument_name ≡ inst) cmds
      → Sending c (share token inst cmds) (send_found J W token inst (or_none cmds) c)
  send_found-Sending inst [] c v there named = send_nop-Sending inst c v there
  send_found-Sending inst (cmd ∷ cmds) c v there named =
      send_each-Sending inst (cmd ∷ cmds) c v there named

  send_all-Sending :
      (insts : List String) (cmds : List SerializedCommand) (c : RuntimeContext)
      → IsValid c.registry
      → All (Known c) insts
      → Sending c (shares token insts cmds) (send_all J W token (group cmds []) insts c)
  unfolding send_all
  send_all-Sending [] cmds c v known = (c, refl, Sends-refl c v)
  send_all-Sending (inst ∷ insts) cmds c v known =
      Sending-then c (share token inst (commands_of inst cmds)) (shares token insts cmds)
        (send_found J W token inst (lookup inst (group cmds [])) c)
        (send_all J W token (group cmds []) insts)
        (subst
          (λ o.
            Sending c (share token inst (commands_of inst cmds)) (send_found J W token inst o c))
          (sym (lookup-group inst cmds))
          (send_found-Sending inst (commands_of inst cmds) c v known.0
            (commands_of-named inst cmds)))
        (λ c' s. send_all-Sending insts cmds c' s.valid (Known-kept c c' _ insts s known.1))

-- A block in enqueue mode sends each instrument of a valid registry its own commands in the order in which they
-- were buffered, or one barrier that does nothing, all under one token, with exactly the last marked as
-- barrier; commands for other instruments are sent to nobody. The registry stays valid, and each
-- future keeps a result of its own.
pub enqueue_block-shares :
    (J : JsonText) (W : World) (c : RuntimeContext)
    → IsValid c.registry
    → (c' : RuntimeContext) × (enqueue_block J W c ≡ some c')
      × Sends c (shares c.next_sync_token (list_instruments c.registry) c.parallel_buffer) c'
unfolding enqueue_block begin_token list_instruments
enqueue_block-shares J W c v =
    Sending-then c [] (shares c.next_sync_token (list_instruments c.registry) c.parallel_buffer)
      (some (begin_token c))
      (send_all J W c.next_sync_token (group c.parallel_buffer []) (list_instruments c.registry))
      (begin_token c, refl, begin_token-Sends c v)
      (λ c' s.
        send_all-Sending J W c.next_sync_token (list_instruments c.registry) c.parallel_buffer c'
          s.valid
          (Known-kept c c' [] (list_instruments c.registry) s (names_known c.registry.instruments)))
