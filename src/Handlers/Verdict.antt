-- ===== src/Handlers/Verdict.antt =====
-- src/server/CommandHandlers.cpp and src/server/HttpRpcServer.cpp: every reply says in `ok` what its code says.
use instrument_script_server.Base.{
  String, Bool, true, false, Option, none, some, [], ◌∷◌, lookup, insert, has, place, replace,
  if◌then◌else◌, string_key, nat_eqb, ◌==◌, ◌≡◌, refl, not,
}
use instrument_script_server.Json.{Json, boolean, text, integer, members}
use instrument_script_server.Json.Codec.{JsonText}
use instrument_script_server.Wire.{
  ParamValue, CommandResponse, double, int64, string, bool, doubles,
}
use instrument_script_server.Proxy.{Proxy}
use instrument_script_server.Registry.{Registry, list_instruments, has_instrument}
use instrument_script_server.JobManager.{
  JobInfo, JobStatus, queued, running, completed, failed, canceling, canceled,
}
use instrument_script_server.Plugins.{PluginMetadata}
use instrument_script_server.Handlers.{
  Server, Host, Reply, HandlerOutcome, replied, thrown, thrown_in, ended, refuse, with_value,
  with_text,
}
use instrument_script_server.Handlers.Plugins.{
  paths_in, discover_reply, discovered_by, handle_discover, handle_plugins, daemon_reply,
  load_custom,
}
use instrument_script_server.Handlers.Jobs.{
  job_reply, time_field, has_started, has_finished, status_text, unfinished, result_reply,
  cancel_reply,
}
use instrument_script_server.Handlers.Instruments.{
  exception_reply, status_reply, stop_named, start_reply, created_members, last_of, with_plugin,
  test_reply, put_value, after_test,
}

-- `ok` is true just if the code is 0.
abbrev pub Agrees : Reply → Type 0
Agrees (rc, out) = lookup "ok" out ≡ some (boolean (nat_eqb rc 0))

abbrev pub HasVerdict : HandlerOutcome → Type 0
HasVerdict (replied r s) = Agrees r
HasVerdict thrown = Unit
HasVerdict (thrown_in s) = Unit
HasVerdict ended = Unit

pub refuse-Agrees : (message : String) → Agrees (refuse message)
unfolding lookup
refuse-Agrees message = refl

pub if-HasVerdict :
    (b : Bool) (x y : HandlerOutcome)
    → HasVerdict x
    → HasVerdict y
    → HasVerdict (if b then x else y)
if-HasVerdict true x y hx hy = hx
if-HasVerdict false x y hx hy = hy

if-Agrees : (b : Bool) (x y : Reply) → Agrees x → Agrees y → Agrees (if b then x else y)
if-Agrees true x y hx hy = hx
if-Agrees false x y hx hy = hy

pub with_value-HasVerdict {ℓ} :
    {A : Type ℓ} (o : Option A) (f : A → HandlerOutcome)
    → ((a : A) → HasVerdict (f a))
    → HasVerdict (with_value o f)
with_value-HasVerdict none f h = tt
with_value-HasVerdict (some a) f h = h a

pub with_text-HasVerdict :
    (message : String) (s : Server) (f : String → HandlerOutcome) (o : Option String)
    → ((v : String) → HasVerdict (f v))
    → HasVerdict (with_text message s f o)
with_text-HasVerdict message s f none h = tt
with_text-HasVerdict message s f (some v) h =
    if-HasVerdict (v == "") (replied (refuse message) s) (f v) (refuse-Agrees message) (h v)

-- The jobs.
pub job_reply-Agrees : (host : Host) (o : Option JobInfo) → Agrees (job_reply host o)
unfolding lookup
job_reply-Agrees host none = refl
job_reply-Agrees host (some info) = by_times (has_finished info.status) (has_started info.status)
  where
    by_times :
        (finished started : Bool)
        → lookup {K = String} "ok" (
            ("created_at", integer (host.job_time info.id "created_at"))
            ∷ time_field host "finished_at" info finished (
                ("job_id", text info.id)
                ∷ ("ok", boolean true)
                ∷ time_field host "started_at" info started
                    (("status", text (status_text info.status)) ∷ [])))
          ≡ some (boolean true)
    by_times true started = refl
    by_times false started = refl

detail_lem :
    (b : Bool) (error status : String)
    → lookup {K = String} "ok" (
        ("error", text "job not completed")
        ∷ (if b
            then ("ok", boolean false) ∷ ("status", text status) ∷ []
            else ("error_detail", text error)
              ∷ ("ok", boolean false)
              ∷ ("status", text status)
              ∷ []))
      ≡ some (boolean false)
unfolding lookup
detail_lem true error status = refl
detail_lem false error status = refl

unfinished-Agrees : (info : JobInfo) (status : JobStatus) → Agrees (unfinished info status)
unfinished-Agrees info completed = refuse-Agrees "no result available"
unfinished-Agrees info queued = detail_lem (info.error == "") info.error "queued"
unfinished-Agrees info running = detail_lem (info.error == "") info.error "running"
unfinished-Agrees info failed = detail_lem (info.error == "") info.error "failed"
unfinished-Agrees info canceling = detail_lem (info.error == "") info.error "canceling"
unfinished-Agrees info canceled = detail_lem (info.error == "") info.error "canceled"

pub result_reply-Agrees : (o : Option Json) (info : Option JobInfo) → Agrees (result_reply o info)
unfolding lookup
result_reply-Agrees (some result) info = refl
result_reply-Agrees none none = refl
result_reply-Agrees none (some info) = unfinished-Agrees info info.status

pub cancel_reply-Agrees : (b : Bool) → Agrees (cancel_reply b)
unfolding lookup
cancel_reply-Agrees true = refl
cancel_reply-Agrees false = refl

-- The plugins and the daemon.
pub daemon_reply-Agrees : (host : Host) (action : String) → Agrees (daemon_reply host action)
unfolding lookup
daemon_reply-Agrees host action =
    if-Agrees (action == "start") _ _
      (if-Agrees host.daemon_starts _ _ refl (refuse-Agrees "Failed to start daemon"))
      (if-Agrees (action == "stop") _ _ (if-Agrees host.daemon_runs _ _ refl refl) (
        if-Agrees (action == "status") _ _ (if-Agrees host.daemon_runs _ _ refl refl)
          (refuse-Agrees "Unknown daemon action")))

pub handle_discover-HasVerdict :
    (host : Host) (params : Json) (s : Server) → HasVerdict (handle_discover host params s)
unfolding handle_discover lookup
handle_discover-HasVerdict host params s =
    with_value-HasVerdict (paths_in (lookup "paths" (members params)))
      (λ search_paths. discover_reply search_paths (discovered_by host search_paths s)) (λ ps. refl)

pub handle_plugins-HasVerdict : (host : Host) (s : Server) → HasVerdict (handle_plugins host s)
unfolding handle_plugins lookup
handle_plugins-HasVerdict host s = refl

-- The instruments.
pub status_reply-Agrees :
    (host : Host) (name : String) (o : Option Proxy) → Agrees (status_reply host name o)
unfolding lookup
status_reply-Agrees host name none = refl
status_reply-Agrees host name (some p) = refl

pub stop_named-HasVerdict : (name : String) (s : Server) → HasVerdict (stop_named name s)
unfolding lookup
stop_named-HasVerdict name s =
    if-HasVerdict (has_instrument name s.registry) _ _ refl (refuse-Agrees "instrument not found")

created_members-Agrees : (o : Option String) → Agrees (0, created_members o)
unfolding lookup
created_members-Agrees none = refl
created_members-Agrees (some name) = refl

pub start_reply-HasVerdict : (r : Bool × Registry) (s : Server) → HasVerdict (start_reply r s)
start_reply-HasVerdict (true, r) s = created_members-Agrees (last_of (list_instruments r))
start_reply-HasVerdict (false, r) s = refuse-Agrees "failed to create instrument"

pub with_plugin-HasVerdict :
    (host : Host) (path : String) (s : Server) (f : Server → HandlerOutcome)
    → ((s' : Server) → HasVerdict (f s'))
    → HasVerdict (with_plugin host path s f)
with_plugin-HasVerdict host path s f h = if-HasVerdict (path == "") (f s) _ (h s) (
    if-HasVerdict (not (host.disk.exists path)) (replied (refuse "plugin file not found") s) _
      (refuse-Agrees "plugin file not found") (by_loader (host.disk.load path)))
  where
    by_loader :
        (o : Option PluginMetadata)
        → HasVerdict (elim o [
          | none ↦ replied (exception_reply host) s
          | some metadata ↦ f (load_custom host path metadata s)
        ])
    by_loader none = refuse-Agrees _
    by_loader (some m) = h (load_custom host path m s)

test_reply-Agrees : (resp : CommandResponse) → Agrees (test_reply resp)
unfolding lookup insert has place replace
test_reply-Agrees resp = by_value resp.success (if resp.success then resp.return_value else none)
  where
    by_value :
        (b : Bool) (o : Option ParamValue)
        → lookup {K = String} "ok" (
            put_value o (
              ("error_message", text resp.error_message)
              ∷ ("ok", boolean b)
              ∷ ("success", boolean b)
              ∷ ("text_response", text resp.text_response)
              ∷ []))
          ≡ some (boolean (nat_eqb (if b then 0 else 1) 0))
    by_value true none = refl
    by_value false none = refl
    by_value true (some (double d)) = refl
    by_value false (some (double d)) = refl
    by_value true (some (int64 z)) = refl
    by_value false (some (int64 z)) = refl
    by_value true (some (string t)) = refl
    by_value false (some (string t)) = refl
    by_value true (some (bool c)) = refl
    by_value false (some (bool c)) = refl
    by_value true (some (doubles ds)) = refl
    by_value false (some (doubles ds)) = refl

pub after_test-HasVerdict :
    (J : JsonText) (host : Host) (name : String) (s : Server)
    (o : Option (Option CommandResponse × Proxy))
    → HasVerdict (after_test J host name s o)
after_test-HasVerdict J host name s none = tt
after_test-HasVerdict J host name s (some (none, p)) = refuse-Agrees _
after_test-HasVerdict J host name s (some (some resp, p)) = test_reply-Agrees resp
