-- ===== src/Registry/Creation.antt =====
-- src/server/InstrumentRegistry.cpp: what a creation leaves, and what restarting a dead worker does.
use instrument_script_server.Json.Finite.{finite}
use instrument_script_server.Json.{Json}
use instrument_script_server.Base.{
  Bool, String, lookup, Dict, Option, ◌≡◌, has, some, true, Bool-cases, false, insert, none, inl,
  refl, string_key, ◌==◌, ◌∷◌, inr, arith, ap, ◌∙◌, [], Option-cases, subst, sym,
}
use instrument_script_server.Registry.{
  Registry, Launch, launched, with_protocol, with_json, store_metadata, drop_metadata,
  create_instrument_from_json, protocol_type_of, restart, restart_one, start_all,
}
use instrument_script_server.Registry.Invariant.{IsRunning, IsValid, start-new_proxy, stored-known}
use instrument_script_server.Json.Codec.{JsonText}
use instrument_script_server.Proxy.{Proxy, start, new_proxy}

-- The instruments after a creation.
abbrev pub Created : String → Registry → Option Bool × Registry → Type 0
Created name r (some true, r') =
    (p : Proxy) × IsRunning name p × (r'.instruments ≡ insert name p r.instruments)
Created name r (_, r') = r'.instruments ≡ r.instruments

launched-Created :
    (name : String) (r : Registry) (o : Option (Bool × Proxy))
    → ((p : Proxy) → o ≡ some (true, p) → IsRunning name p)
    → Created name r (launched name r o)
unfolding drop_metadata
launched-Created name r none good = refl
launched-Created name r (some (false, p)) good = refl
launched-Created name r (some (true, p)) good = (p, good p refl, refl)

with_protocol-Created :
    (env : Launch) (name : String) (r : Registry) (type : Option String)
    → Created name r (with_protocol env name r type)
unfolding drop_metadata
with_protocol-Created env name r none = refl
with_protocol-Created env name r (some type) = elim (Bool-cases (env.plugin_path type == "")) [
  | inl no_plugin ↦ rw no_plugin refl
  | inr plugin ↦ rw plugin (
      launched-Created name r (start env.queue_made env.spawned env.alive (new_proxy name))
        (start-new_proxy env.queue_made env.spawned env.alive name))
]

-- `start` ends the process on a proxy that runs, once its queue is made and its worker spawned.
start_running : (ready : Bool) (p : Proxy) → p.running ≡ true → start true true ready p ≡ none
unfolding start
start_running ready p on = simp on refl

restart-none :
    (alive : String → Bool) (ready : Bool) (name : String) (p : Proxy) (ps : Dict String Proxy)
    → lookup name ps ≡ some p
    → p.running ≡ true
    → alive name ≡ false
    → restart alive true true ready ps ≡ none
unfolding restart lookup
restart-none alive ready name p [] h on dead = cc
restart-none alive ready name p ((n, q) ∷ ps) h on dead = elim (Bool-cases (n == name)) [
  | inl same ↦
      let found : q ≡ p = ground (arith, h, same) in
      let here : alive n ≡ false = ap alive ((string_key.eqb_iff n name).0 same) ∙ dead in
      let gone : start true true ready q ≡ none =
        start_running ready q (ap (λ x. x.running) found ∙ on) in
      rw (here, gone) refl
  | inr other ↦
      let rest : restart alive true true ready ps ≡ none =
        restart-none alive ready name p ps (ground (arith, h, other)) on dead in
      elim (Option-cases (restart_one (alive n) true true ready q)) [
        | inl stopped ↦ rw (stopped, restart) refl
        | inr (x, kept) ↦ rw (kept, rest) refl
      ]
]

-- In a registry as its calls leave it, `start_all` ends the process when it meets an instrument whose worker has
-- died and gets a new queue and a new process for it: the thread of the old worker is still joinable.
pub start_all-dead_worker :
    (alive : String → Bool) (ready : Bool) (name : String) (p : Proxy) (r : Registry)
    → IsValid r
    → lookup name r.instruments ≡ some p
    → alive name ≡ false
    → start_all alive true true ready r ≡ none
unfolding start_all
start_all-dead_worker alive ready name p r v h dead =
    rw (restart-none alive ready name p r.instruments h (v.running name p h).on dead) refl

module _ (J : JsonText) where
  -- A creation that returns true adds the instrument, with a running proxy, under a name that was free, and
  -- changes no other; one that returns false, or throws, leaves the instruments as they were.
  pub create-Created :
      (env : Launch) (name : String) (config api_def : J.Text) (r : Registry)
      → Created name r (create_instrument_from_json J env name config api_def r)
        × ((create_instrument_from_json J env name config api_def r).0 ≡ some true
            → has name r.instruments ≡ false)
  unfolding create_instrument_from_json store_metadata
  create-Created env name config api_def r = elim (Bool-cases (has name r.instruments)) [
    | inl there ↦ rw (create_instrument_from_json, there) (refl, λ e. cc)
    | inr new ↦
        rw (create_instrument_from_json, new)
          (by_json (J.parse config) (J.parse api_def), λ e. refl)
  ]
    where
      by_json : (c a : Option Json) → Created name r (with_json env name r c a)
      by_json none a = refl
      by_json (some c) none = refl
      by_json (some c) (some a) =
          with_protocol-Created env name (store_metadata name c a r) (protocol_type_of a)

  -- A definition without a protocol type makes the creation throw, and the metadata stays behind without
  -- an instrument.
  pub create-no_protocol :
      (env : Launch) (name : String) (config api_def : Json) (r : Registry)
      → has name r.instruments ≡ false
      → protocol_type_of (finite api_def) ≡ none
      → (create_instrument_from_json J env name (J.dump config) (J.dump api_def) r).0 ≡ none
        × (has name
              (create_instrument_from_json J env name (J.dump config) (J.dump api_def) r).1.metadata
            ≡ true)
        × (has name
              (create_instrument_from_json J env name
                (J.dump config)
                (J.dump api_def)
                r).1.instruments
            ≡ false)
  unfolding create_instrument_from_json store_metadata
  create-no_protocol env name config api_def r new bad =
      subst Left (sym same) (refl, stored-known name (finite config) (finite api_def) r, new)
    where
      Left : Option Bool × Registry → Type 0
      Left (b, q) = (b ≡ none) × (has name q.metadata ≡ true) × (has name q.instruments ≡ false)

      same :
          create_instrument_from_json J env name (J.dump config) (J.dump api_def) r
          ≡ (none, store_metadata name (finite config) (finite api_def) r)
      same =
          rw (create_instrument_from_json, new)
            (ap (λ c. with_json env name r c (J.parse (J.dump api_def))) (J.parse-dump config)
              ∙ ap (with_json env name r (some (finite config))) (J.parse-dump api_def)
              ∙ ap (with_protocol env name (store_metadata name (finite config) (finite api_def) r))
                  bad)
