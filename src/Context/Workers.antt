-- ===== src/Context/Workers.antt =====
-- src/server/RuntimeContext.cpp and src/server/InstrumentWorkerProxy.cpp: what a dispatch to a worker of a valid
-- registry leaves.
use instrument_script_server.Base.{
  ℕ, String, Bool, true, false, none, some, lookup, has, lookup-insert, push_back, if◌then◌else◌,
  map_option, nat_key, string_key, ◌==◌, ◌≡◌, ap, ◌∙◌, subst, arith, Bool-cases, inl, inr,
}
use instrument_script_server.Wire.{SerializedCommand}
use instrument_script_server.Json.Codec.{JsonText}
use instrument_script_server.Proxy.{
  Proxy, execute, command_message, count_sent, open_request, resolve, error_response, command_id,
}
use instrument_script_server.Registry.{Registry, get_instrument}
use instrument_script_server.Registry.Invariant.{IsRunning, IsValid}
use instrument_script_server.Context.{
  RuntimeContext, World, executes, append_at, put_proxy, execute_on, executed, dispatch,
  dispatch_found, keep_future,
}

pub put_proxy-IsValid :
    (name : String) (p : Proxy) (r : Registry)
    → has name r.instruments ≡ true
    → IsRunning name p
    → IsValid r
    → IsValid (put_proxy name p r)
unfolding put_proxy has
put_proxy-IsValid name p r there good v = record {
  described = λ n h. ground (
    arith,
    v.described n,
    v.described name there,
    there,
    h,
    lookup-insert name n p r.instruments,
    string_key.eqb_iff name n,
  );
  running = λ n q h. elim (Bool-cases (name == n)) [
    | inl same ↦
        let found : p ≡ q = ground (arith, h, same, lookup-insert name n p r.instruments) in
        let here : name ≡ n = (string_key.eqb_iff name n).0 same in
        subst (λ x. IsRunning x q) here (subst (IsRunning name) found good)
    | inr other ↦ v.running n q (ground (arith, h, other, lookup-insert name n p r.instruments))
  ];
}

-- The context after a command that a worker has taken.
unfoldable pub after_execute : String → SerializedCommand → Proxy → RuntimeContext → RuntimeContext
after_execute name cmd p c = record c {
  registry = put_proxy name p c.registry;
  calls = push_back (executes name cmd) c.calls;
}

unfoldable pub after_dispatch :
    ℕ → String → SerializedCommand → ℕ → Proxy → RuntimeContext → RuntimeContext
after_dispatch token name cmd id p c = record (after_execute name cmd p c) {
  token_futures = append_at token (name, id) c.token_futures;
}

module _ (J : JsonText) (W : World) where
  abbrev pub sent_proxy : Bool → Proxy → Proxy
  sent_proxy sent p =
      if sent
      then count_sent (open_request p)
      else resolve p.next_message_id
          (error_response (command_id p) p.instrument_name "IPC send timeout") (open_request p)

  pub sent_proxy-IsRunning :
      (sent : Bool) (name : String) (p : Proxy)
      → IsRunning name p
      → IsRunning name (sent_proxy sent p)
  unfolding count_sent open_request resolve
  sent_proxy-IsRunning true name p g = record { on = g.on; open_ = g.open_; named = g.named }
  sent_proxy-IsRunning false name p g = record { on = g.on; open_ = g.open_; named = g.named }

  pub execute-open :
      (sent : Bool) (p : Proxy) (cmd : SerializedCommand)
      → p.queue_open ≡ true
      → execute J sent p cmd ≡ some (command_message J p cmd, sent_proxy sent p)
  unfolding execute
  execute-open sent p cmd open_ =
      ap (λ b. if b then some (command_message J p cmd, sent_proxy sent p) else none) open_

  pub execute_on-IsRunning :
      (name : String) (p : Proxy) (cmd : SerializedCommand) (c : RuntimeContext)
      → IsRunning name p
      → (p' : Proxy) × IsRunning name p'
        × (execute_on J W name p cmd c
            ≡ some ((name, p.next_message_id), after_execute name cmd p' c))
  unfolding execute_on after_execute command_message
  execute_on-IsRunning name p cmd c g = (
    sent_proxy (W.sent name p.next_message_id) p,
    sent_proxy-IsRunning (W.sent name p.next_message_id) name p g,
    ap (map_option (executed J W name cmd c))
        (execute-open (W.sent name p.next_message_id) p cmd g.open_),
  )

  pub dispatch-IsRunning :
      (token : ℕ) (name : String) (p : Proxy) (cmd : SerializedCommand) (c : RuntimeContext)
      → lookup name c.registry.instruments ≡ some p
      → IsRunning name p
      → (p' : Proxy) × IsRunning name p'
        × (dispatch J W token name cmd c
            ≡ some (after_dispatch token name cmd p.next_message_id p' c))
  unfolding dispatch get_instrument after_dispatch after_execute
  dispatch-IsRunning token name p cmd c there g =
      let (p', g', e) = execute_on-IsRunning name p cmd c g in
      (
        p',
        g',
        ap (dispatch_found J W token name cmd c) there ∙ ap (map_option (keep_future J W token)) e,
      )
