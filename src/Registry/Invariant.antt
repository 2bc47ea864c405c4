-- ===== src/Registry/Invariant.antt =====
-- src/server/InstrumentRegistry.cpp: what holds of a registry in every history of its calls.
use instrument_script_server.Json.{Json}
use instrument_script_server.Base.{
  Bool, String, has, lookup, Option, ◌≡◌, arith, false, some, true, lookup-erase, lookup-insert,
  string_key, subst, ap, some_inj, refl, Bool-cases, List, none, inl, ◌==◌, ◌∷◌, [], inr,
}
use instrument_script_server.Registry.{
  Registry, Launch, no_instruments, launched, with_protocol, with_json, store_metadata,
  drop_metadata, remove_instrument, stop_all, create_instrument_from_json, protocol_type_of,
}
use instrument_script_server.Json.Codec.{JsonText}
use instrument_script_server.Proxy.{Proxy, start, new_proxy}

-- A worker's proxy as the registry keeps it.
pub record IsRunning (name : String) (p : Proxy) : Type 0 where
  pub on : p.running ≡ true
  pub open_ : p.queue_open ≡ true
  pub named : p.instrument_name ≡ name

pub record IsValid (r : Registry) : Type 0 where
  pub described : (name : String) → has name r.instruments ≡ true → has name r.metadata ≡ true
  pub running : (name : String) (p : Proxy) → lookup name r.instruments ≡ some p → IsRunning name p

pub no_instruments-IsValid : IsValid no_instruments
unfolding lookup has
no_instruments-IsValid = record { described = λ name h. h; running = λ name p h. cc }

store_metadata-IsValid :
    (name : String) (config api_def : Json) (r : Registry)
    → IsValid r
    → IsValid (store_metadata name config api_def r)
unfolding store_metadata has
store_metadata-IsValid name config api_def r v = record {
  described = λ n h. ground (
    arith,
    v.described n h,
    lookup-insert name n (record { name = name; config = config; api_def = api_def }) r.metadata,
  );
  running = v.running;
}

drop_metadata-IsValid :
    (name : String) (r : Registry)
    → has name r.instruments ≡ false
    → IsValid r
    → IsValid (drop_metadata name r)
unfolding drop_metadata has
drop_metadata-IsValid name r new v = record {
  described = λ n h.
      ground
        (arith, v.described n h, new, lookup-erase name n r.metadata, string_key.eqb_iff name n);
  running = v.running;
}

-- A start of a new proxy that succeeds leaves it running.
pub start-new_proxy :
    (a b c : Bool) (name : String) (p : Proxy)
    → start a b c (new_proxy name) ≡ some (true, p)
    → IsRunning name p
unfolding start
start-new_proxy false b c name p h = cc
start-new_proxy true false c name p h = cc
start-new_proxy true true false name p h = cc
start-new_proxy true true true name p h =
    subst (IsRunning name) (ap (λ x. x.1) (some_inj h))
      (record { on = refl; open_ = refl; named = refl })

launched-IsValid :
    (name : String) (r : Registry) (o : Option (Bool × Proxy))
    → has name r.instruments ≡ false
    → has name r.metadata ≡ true
    → ((p : Proxy) → o ≡ some (true, p) → IsRunning name p)
    → IsValid r
    → IsValid (launched name r o).1
unfolding has
launched-IsValid name r none new known good v = v
launched-IsValid name r (some (false, p)) new known good v = drop_metadata-IsValid name r new v
launched-IsValid name r (some (true, p)) new known good v = record {
  described = λ n h. ground (
    arith,
    v.described n,
    known,
    h,
    lookup-insert name n p r.instruments,
    string_key.eqb_iff name n,
  );
  running = λ n q h. elim (Bool-cases (name == n)) [
    | inl same ↦
        let found : p ≡ q = ground (arith, h, same, lookup-insert name n p r.instruments) in
        let here : name ≡ n = (string_key.eqb_iff name n).0 same in
        subst (λ x. IsRunning x q) here (subst (IsRunning name) found (good p refl))
    | inr other ↦ v.running n q (ground (arith, h, other, lookup-insert name n p r.instruments))
  ];
}

pub stored-known :
    (name : String) (config api_def : Json) (r : Registry)
    → has name (store_metadata name config api_def r).metadata ≡ true
unfolding store_metadata has
stored-known name config api_def r = ground (
  arith,
  lookup-insert name name (record { name = name; config = config; api_def = api_def }) r.metadata,
  string_key.eqb_iff name name,
)

with_protocol-IsValid :
    (env : Launch) (name : String) (r : Registry) (type : Option String)
    → has name r.instruments ≡ false
    → has name r.metadata ≡ true
    → IsValid r
    → IsValid (with_protocol env name r type).1
with_protocol-IsValid env name r none new known v = v
with_protocol-IsValid env name r (some type) new known v =
    elim (Bool-cases (env.plugin_path type == "")) [
      | inl no_plugin ↦ rw no_plugin (drop_metadata-IsValid name r new v)
      | inr plugin ↦ rw plugin (
          launched-IsValid name r (start env.queue_made env.spawned env.alive (new_proxy name)) new
            known (start-new_proxy env.queue_made env.spawned env.alive name) v)
    ]

with_json-IsValid :
    (env : Launch) (name : String) (r : Registry) (config api_def : Option Json)
    → has name r.instruments ≡ false
    → IsValid r
    → IsValid (with_json env name r config api_def).1
unfolding store_metadata
with_json-IsValid env name r none api_def new v = v
with_json-IsValid env name r (some config) none new v = v
with_json-IsValid env name r (some config) (some api_def) new v =
    with_protocol-IsValid env name (store_metadata name config api_def r) (protocol_type_of api_def)
      new (stored-known name config api_def r) (store_metadata-IsValid name config api_def r v)

pub remove_instrument-IsValid :
    (name : String) (r : Registry) → IsValid r → IsValid (remove_instrument name r)
unfolding remove_instrument has
remove_instrument-IsValid name r v = elim (Bool-cases (has name r.instruments)) [
  | inl there ↦
      rw (there, remove_instrument)
        (record {
          described = λ n h. ground (
            arith,
            v.described n,
            h,
            lookup-erase name n r.instruments,
            lookup-erase name n r.metadata,
          );
          running = λ n q h. v.running n q (ground (arith, h, lookup-erase name n r.instruments));
        })
  | inr missing ↦ rw (missing, remove_instrument) v
]

pub stop_all-IsValid : (r : Registry) → IsValid (stop_all r)
unfolding stop_all lookup has
stop_all-IsValid r = record { described = λ n h. h; running = λ n p h. cc }

module _ (J : JsonText) where
  pub create-IsValid :
      (env : Launch) (name : String) (config api_def : J.Text) (r : Registry)
      → IsValid r
      → IsValid (create_instrument_from_json J env name config api_def r).1
  unfolding create_instrument_from_json
  create-IsValid env name config api_def r v = elim (Bool-cases (has name r.instruments)) [
    | inl there ↦ rw (create_instrument_from_json, there) v
    | inr new ↦
        rw (create_instrument_from_json, new)
          (with_json-IsValid env name r (J.parse config) (J.parse api_def) new v)
  ]

  pub data Call : Type 0 where
    creates : Launch → String → J.Text → J.Text → Call
    removes : String → Call
    stops_all : Call

  abbrev pub apply_call : Registry → Call → Registry
  apply_call r (creates env name config api_def) =
      (create_instrument_from_json J env name config api_def r).1
  apply_call r (removes name) = remove_instrument name r
  apply_call r stops_all = stop_all r

  abbrev pub apply_calls : Registry → List Call → Registry
  apply_calls r [] = r
  apply_calls r (c ∷ cs) = apply_calls (apply_call r c) cs

  apply_call-IsValid : (r : Registry) (c : Call) → IsValid r → IsValid (apply_call r c)
  apply_call-IsValid r (creates env name config api_def) v =
      create-IsValid env name config api_def r v
  apply_call-IsValid r (removes name) v = remove_instrument-IsValid name r v
  apply_call-IsValid r stops_all v = stop_all-IsValid r

  apply_calls-kept : (cs : List Call) (r : Registry) → IsValid r → IsValid (apply_calls r cs)
  apply_calls-kept [] r v = v
  apply_calls-kept (c ∷ cs) r v = apply_calls-kept cs (apply_call r c) (apply_call-IsValid r c v)

  -- After any history of creations, removals and stops, with any outcome of each creation, exceptions
  -- included, every instrument has its metadata, and its proxy carries its name and runs with an open
  -- queue.
  pub apply_calls-no_instruments-IsValid :
      (cs : List Call) → IsValid (apply_calls no_instruments cs)
  apply_calls-no_instruments-IsValid cs = apply_calls-kept cs no_instruments no_instruments-IsValid
