-- ===== src/Handlers/Effects.antt =====
-- src/server/CommandHandlers.cpp: what the handlers leave of the registry of instruments.
use instrument_script_server.Base.{
  ℕ, String, Bool, true, false, Option, none, some, Dict, lookup, has, if◌then◌else◌, is_some,
  string_key, nat_key, ◌==◌, ◌≡◌, refl, sym, ap, subst, not, ◌>>=◌,
}
use instrument_script_server.Json.{Json, at, as_text}
use instrument_script_server.Json.Codec.{JsonText}
use instrument_script_server.Wire.{ParamValue, SerializedCommand, CommandResponse}
use instrument_script_server.Proxy.{
  Proxy, finish_sync, count_timeout, resolve, count_done, command_message, error_response,
}
use instrument_script_server.Registry.{
  Registry, Launch, create_instrument, create_loaded, create_named, get_instrument, has_instrument,
  list_instruments,
}
use instrument_script_server.Registry.Invariant.{
  IsRunning, IsValid, create-IsValid, remove_instrument-IsValid,
}
use instrument_script_server.Plugins.{PluginMetadata}
use instrument_script_server.Context.{put_proxy, Awaited, responds, throws, silent, kills}
use instrument_script_server.Context.Workers.{
  put_proxy-IsValid, sent_proxy, sent_proxy-IsRunning, execute-open,
}
use instrument_script_server.Handlers.{
  Server, Host, HandlerOutcome, replied, thrown, thrown_in, ended, refuse, with_value, with_text,
}
use instrument_script_server.Handlers.Plugins.{load_custom}
use instrument_script_server.Handlers.Instruments.{
  last_of, with_plugin, stop_named, start_reply, launch_of, exception_reply, test_command,
  params_of_json, create_from, sync_on, sync_end, after_test, test_with, test_found, test_last,
  test_created,
}

-- What goes on behind a handler has a valid registry.
abbrev pub Serves : HandlerOutcome → Type 0
Serves (replied r s) = IsValid s.registry
Serves thrown = Unit
Serves (thrown_in s) = IsValid s.registry
Serves ended = Unit

pub if-Serves :
    (b : Bool) (x y : HandlerOutcome) → Serves x → Serves y → Serves (if b then x else y)
if-Serves true x y hx hy = hx
if-Serves false x y hx hy = hy

pub with_value-Serves {ℓ} :
    {A : Type ℓ} (o : Option A) (f : A → HandlerOutcome)
    → ((a : A) → Serves (f a))
    → Serves (with_value o f)
with_value-Serves none f h = tt
with_value-Serves (some a) f h = h a

pub with_text-Serves :
    (message : String) (s : Server) (f : String → HandlerOutcome) (o : Option String)
    → IsValid s.registry
    → ((v : String) → Serves (f v))
    → Serves (with_text message s f o)
with_text-Serves message s f none valid h = tt
with_text-Serves message s f (some v) valid h =
    if-Serves (v == "") (replied (refuse message) s) (f v) valid (h v)

pub stop_named-Serves :
    (name : String) (s : Server) → IsValid s.registry → Serves (stop_named name s)
stop_named-Serves name s v =
    if-Serves (has_instrument name s.registry) _ _ (remove_instrument-IsValid name s.registry v) v

pub start_reply-Serves : (r : Bool × Registry) (s : Server) → IsValid r.1 → Serves (start_reply r s)
start_reply-Serves (true, r) s v = v
start_reply-Serves (false, r) s v = v

pub with_plugin-Serves :
    (host : Host) (path : String) (s : Server) (f : Server → HandlerOutcome)
    → IsValid s.registry
    → ((s' : Server) → IsValid s'.registry → Serves (f s'))
    → Serves (with_plugin host path s f)
with_plugin-Serves host path s f v h = if-Serves (path == "") (f s) _ (h s v) (
    if-Serves (not (host.disk.exists path)) (replied (refuse "plugin file not found") s) _ v
      (by_loader (host.disk.load path)))
  where
    by_loader :
        (o : Option PluginMetadata)
        → Serves (elim o [
          | none ↦ replied (exception_reply host) s
          | some metadata ↦ f (load_custom host path metadata s)
        ])
    by_loader none = v
    by_loader (some m) = h (load_custom host path m s) v

module _ (J : JsonText) where
  create_named-IsValid :
      (env : Launch) (config : Json) (api : Option Json) (name : Option String) (r : Registry)
      → IsValid r
      → IsValid (create_named J env config api name r).1
  create_named-IsValid env config (some api) (some name) r v =
      create-IsValid J env name (J.dump config) (J.dump api) r v
  create_named-IsValid env config (some api) none r v = v
  create_named-IsValid env config none name r v = v

  create_instrument-IsValid :
      (env : Launch) (load : String → Option Json) (load_api : String → String → Option Json)
      (path : String) (r : Registry)
      → IsValid r
      → IsValid (create_instrument J env load load_api path r).1
  unfolding create_instrument
  create_instrument-IsValid env load load_api path r v = by_config (load path)
    where
      by_config : (o : Option Json) → IsValid (create_loaded J env (load_api path) o r).1
      by_config none = v
      by_config (some config) =
          create_named-IsValid env config (at "api_ref" config >>= λ a. as_text a >>= load_api path)
            (at "name" config >>= as_text) r v

  pub create_from-IsValid :
      (host : Host) (path : String) (s : Server)
      → IsValid s.registry
      → IsValid (create_from J host path s).1
  create_from-IsValid host path s v =
      create_instrument-IsValid (launch_of host s) host.load_config host.load_api path s.registry v

  resolved-IsRunning :
      (msg_id : ℕ) (resp : CommandResponse) (name : String) (p : Proxy)
      → IsRunning name p
      → IsRunning name (count_done resp.success (resolve msg_id resp p))
  unfolding resolve count_done
  resolved-IsRunning msg_id resp name p g = by_success resp.success
    where
      by_success : (b : Bool) → IsRunning name (count_done b (resolve msg_id resp p))
      by_success true = record { on = g.on; open_ = g.open_; named = g.named }
      by_success false = record { on = g.on; open_ = g.open_; named = g.named }

  finish_sync-IsRunning :
      (msg_id : ℕ) (moved_id name : String) (p : Proxy)
      → IsRunning name p
      → IsRunning name (finish_sync J msg_id moved_id p).1
  unfolding finish_sync count_timeout
  finish_sync-IsRunning msg_id moved_id name p g = by_found (lookup msg_id p.resolved)
    where
      by_found :
          (o : Option CommandResponse)
          → IsRunning name
              (elim o as (λ x. CommandResponse × Proxy) [
                | none ↦
                    (error_response moved_id p.instrument_name "Command timeout", count_timeout J p)
                | some resp ↦ (resp, p)
              ]).1
      by_found none = record { on = g.on; open_ = g.open_; named = g.named }
      by_found (some resp) = g

  abbrev Kept : String → Option (Option CommandResponse × Proxy) → Type 0
  Kept name none = Unit
  Kept name (some (resp, p)) = IsRunning name p

  sync_end-Kept :
      (host : Host) (msg_id : ℕ) (name : String) (p : Proxy) (a : Awaited)
      → IsRunning name p
      → Kept name (sync_end J host msg_id p a)
  sync_end-Kept host msg_id name p kills g = tt
  sync_end-Kept host msg_id name p throws g = g
  sync_end-Kept host msg_id name p silent g =
      finish_sync-IsRunning msg_id host.world.moved_id name p g
  sync_end-Kept host msg_id name p (responds resp) g =
      finish_sync-IsRunning msg_id host.world.moved_id name
        (count_done resp.success (resolve msg_id resp p)) (resolved-IsRunning msg_id resp name p g)

  -- A running proxy still runs behind a command.
  sync_on-Kept :
      (host : Host) (name : String) (p : Proxy) (cmd : SerializedCommand)
      → IsRunning name p
      → Kept name (sync_on J host name p cmd)
  sync_on-Kept host name p cmd g =
      let W = host.world in
      let id = (command_message J p cmd).id in
      let sent = W.sent name p.next_message_id in
      subst (λ o. Kept name (o >>= λ r. sync_end J host r.0.id r.1 (W.answer (name, r.0.id))))
        (sym (execute-open J W sent p cmd g.open_))
        (sync_end-Kept host id name (sent_proxy J W sent p) (W.answer (name, id))
          (sent_proxy-IsRunning J W sent name p g))

  after_test-Serves :
      (host : Host) (name : String) (p : Proxy) (s : Server)
      (o : Option (Option CommandResponse × Proxy))
      → IsValid s.registry
      → lookup name s.registry.instruments ≡ some p
      → Kept name o
      → Serves (after_test J host name s o)
  unfolding has
  after_test-Serves host name p s none v found g = tt
  after_test-Serves host name p s (some (none, q)) v found g =
      put_proxy-IsValid name q s.registry (ap is_some found) g v
  after_test-Serves host name p s (some (some resp, q)) v found g =
      remove_instrument-IsValid name (put_proxy name q s.registry)
        (put_proxy-IsValid name q s.registry (ap is_some found) g v)

  test_found-Serves :
      (host : Host) (name verb : String) (params : Json) (s : Server)
      → IsValid s.registry
      → Serves (test_found J host name verb params s (get_instrument name s.registry))
  unfolding get_instrument
  test_found-Serves host name verb params s v = by_proxy (lookup name s.registry.instruments) refl
    where
      by_params :
          (p : Proxy) (o : Option (Dict String ParamValue))
          → lookup name s.registry.instruments ≡ some p
          → Serves (test_with J host name verb p s o)
      by_params p none found = v
      by_params p (some ps) found =
          after_test-Serves host name p s (sync_on J host name p (test_command name verb ps)) v
            found (sync_on-Kept host name p (test_command name verb ps) (v.running name p found))

      by_proxy :
          (o : Option Proxy)
          → lookup name s.registry.instruments ≡ o
          → Serves (test_found J host name verb params s o)
      by_proxy none found = remove_instrument-IsValid name s.registry v
      by_proxy (some p) found = by_params p (params_of_json host params) found

  pub test_created-Serves :
      (host : Host) (verb : String) (params : Json) (s : Server) (r : Bool × Registry)
      → IsValid r.1
      → Serves (test_created J host verb params s r)
  test_created-Serves host verb params s (false, r) v = v
  test_created-Serves host verb params s (true, r) v = by_last (last_of (list_instruments r))
    where
      by_last :
          (o : Option String) → Serves (test_last J host verb params (record s { registry = r }) o)
      by_last none = v
      by_last (some name) = test_found-Serves host name verb params (record s { registry = r }) v
