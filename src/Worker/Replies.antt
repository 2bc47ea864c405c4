-- ===== src/Worker/Replies.antt =====
-- What the worker sends back.
use Prim.Native.String.{slice}
use instrument_script_server.Base.{
  ℕ, ◌<◌, ◌≡◌, ◌≢◌, refl, Bool, true, false, Option, none, some, List, [], ◌∷◌, ◌++◌, arith,
  string_key, if◌then◌else◌, Option-cases, Bool-cases, inl, inr, ◌∙◌, subst, All, ◌⊎◌, ◌==◌,
}
use instrument_script_server.Json.{fields}
use instrument_script_server.Json.Codec.{JsonText}
use instrument_script_server.Ipc.{
  IpcMessage, MessageType, command, response, heartbeat, shutdown, sync_ack, sync_continue,
  ipc_max_payload, fit_payload,
}
use instrument_script_server.Wire.{
  SerializedCommand, command_members, serialize_command, deserialize_command, new_response,
}
use instrument_script_server.Worker.Abi.{
  copy_text, Plugin, from_plugin_response, to_plugin_command, zero_response,
}
use instrument_script_server.Worker.Loop.{main_loop-Cases}
use instrument_script_server.Worker.Barrier.{loop_round-Awake, Awake}
use instrument_script_server.Worker.{
  Worker, Outcome, after, command_response, sync_ack_of, run_command, nop_response, handle_command,
  handle_sync_continue, handle_shutdown, by_type, process_message, send_heartbeat_if_needed,
  heartbeat_message, loop_round, main_loop, barrier_nop,
}

abbrev is_response : MessageType → Bool
is_response response = true
is_response _ = false

abbrev is_command : MessageType → Bool
is_command command = true
is_command _ = false

module _ (J : JsonText) where
  -- The ids of the responses among some messages, in order.
  pub answers : List (IpcMessage J) → List ℕ
  answers [] = []
  answers (m ∷ ms) = if is_response m.type then m.id ∷ answers ms else answers ms

  answers-append : (ms ns : List (IpcMessage J)) → answers (ms ++ ns) ≡ answers ms ++ answers ns
  unfolding answers
  answers-append [] ns = refl
  answers-append (m ∷ ms) ns = ground (arith, answers-append ms ns)

  abbrev asked : Option (IpcMessage J) → List ℕ
  asked none = []
  asked (some m) = if is_command m.type then m.id ∷ [] else []

  -- The ids of the commands that arrive in some rounds, in order.
  pub requests : List (ℕ × Option (IpcMessage J)) → List ℕ
  requests [] = []
  requests ((now, m) ∷ rs) = asked m ++ requests rs

  abbrev pub NoShutdown : ℕ × Option (IpcMessage J) → Type 0
  NoShutdown (now, none) = Unit
  NoShutdown (now, some m) = m.type ≢ shutdown

  module _ (P : Plugin) where
    abbrev Answered : Worker J P → List ℕ → Outcome J P → Type 0
    Answered w ids none = Unit
    Answered w ids (some (w1, out)) = (answers out ≡ ids) × (w1.running ≡ w.running)

    handle_command-Answered :
        (w : Worker J P) (msg : IpcMessage J) → Answered w (msg.id ∷ []) (handle_command J P w msg)
    unfolding handle_command command_response sync_ack_of answers
    handle_command-Answered w msg = elim (Option-cases (deserialize_command J msg.payload)) [
      | inl e ↦ rw (e, handle_command) tt
      | inr (cmd, e) ↦ rw (e, handle_command) (ground arith)
    ]

    by_type-Answered :
        (w : Worker J P) (msg : IpcMessage J) (t : MessageType)
        → w.waiting_sync_token ≡ none
        → t ≢ shutdown
        → Answered w (if is_command t then msg.id ∷ [] else []) (by_type J P w msg t)
    unfolding handle_shutdown handle_sync_continue answers
    by_type-Answered w msg shutdown a n = absurd (n refl)
    by_type-Answered w msg sync_continue a n = (refl, refl)
    by_type-Answered w msg command a n = simp a (handle_command-Answered w msg)
    by_type-Answered w msg response a n = (refl, refl)
    by_type-Answered w msg heartbeat a n = (refl, refl)
    by_type-Answered w msg sync_ack a n = (refl, refl)

    Answered-after :
        (w v : Worker J P) (ids : List ℕ) (out : List (IpcMessage J)) (o : Outcome J P)
        → answers out ≡ []
        → v.running ≡ w.running
        → Answered v ids o
        → Answered w ids (after J P out o)
    Answered-after w v ids out none e r a = tt
    Answered-after w v ids out (some (u, later)) e r a = ground (arith, answers-append out later)

    heartbeat_lem :
        (now : ℕ) (w : Worker J P)
        → (answers (send_heartbeat_if_needed J P now w).1 ≡ [])
          × ((send_heartbeat_if_needed J P now w).0.running ≡ w.running)
          × ((send_heartbeat_if_needed J P now w).0.waiting_sync_token ≡ w.waiting_sync_token)
    unfolding send_heartbeat_if_needed heartbeat_message answers
    heartbeat_lem now w = ground arith

    loop_round-Answered :
        (w : Worker J P) (r : ℕ × Option (IpcMessage J))
        → w.waiting_sync_token ≡ none
        → NoShutdown r
        → Answered w (asked r.1) (loop_round J P w r)
    unfolding loop_round process_message
    loop_round-Answered w (now, none) a n = ((heartbeat_lem now w).0, (heartbeat_lem now w).1)
    loop_round-Answered w (now, some msg) a n =
        let beat = heartbeat_lem now w in
        Answered-after w (send_heartbeat_if_needed J P now w).0 _ _ _ beat.0 beat.1
          (by_type-Answered (send_heartbeat_if_needed J P now w).0 msg msg.type (beat.2 ∙ a) n)

    -- In a run without SHUTDOWN that ends without an exception, every command that arrives is
    -- answered by exactly one response with its id, in the order of arrival.
    pub main_loop-answers :
        (rs : List (ℕ × Option (IpcMessage J))) (w : Worker J P)
        → w.waiting_sync_token ≡ none
        → w.running ≡ true
        → All NoShutdown rs
        → (w' : Worker J P) (out : List (IpcMessage J)) → main_loop J P w rs ≡ some (w', out)
        → answers out ≡ requests rs
    unfolding main_loop answers requests
    main_loop-answers [] w a on n w' out h = ground arith
    main_loop-answers (r ∷ rs) w a on n w' out h = elim (main_loop-Cases J P w r rs w' out h) [
      | inl (off, _) ↦ cc
      | inr (w1, out1, out2, here, later, joined, _) ↦
          let one = subst (Answered w (asked r.1)) here (loop_round-Answered w r a n.0) in
          let rest =
            main_loop-answers rs w1 (subst (Awake J P) here (loop_round-Awake J P w r a))
              (one.1 ∙ on) n.1 w' out2 later in
          joined_answers out1 out2 (asked r.1) (requests rs) out joined one.0 rest
    ]
      where
        joined_answers :
            (out1 out2 : List (IpcMessage J)) (xs ys : List ℕ) (o : List (IpcMessage J))
            → o ≡ out1 ++ out2
            → answers out1 ≡ xs
            → answers out2 ≡ ys
            → answers o ≡ xs ++ ys
        joined_answers out1 out2 xs ys o e f g = cc (e, f, g, answers-append out1 out2)

    -- A command whose text has more bytes than a message holds ends the worker: the text arrives cut,
    -- it does not parse, and nothing but `main` catches the exception.
    pub oversized_command_ends_worker :
        (w : Worker J P) (msg : IpcMessage J) (cmd : SerializedCommand)
        → ipc_max_payload < J.size (serialize_command J cmd)
        → w.waiting_sync_token ≡ none
        → msg.type ≡ command
        → msg.payload ≡ fit_payload J (serialize_command J cmd)
        → process_message J P w msg ≡ none
    unfolding process_message handle_command deserialize_command serialize_command
    oversized_command_ends_worker w msg cmd big a t p =
        simp (t, a)
          (rw (p, handle_command)
            (rw (J.parse-cut ipc_max_payload (fields (command_members cmd)) big) refl))

    -- A synthetic barrier command leaves the plugin alone and is answered with success, the text BARRIER_NOP, no
    -- value and no buffer, and the first 127 characters of the command's own id and instrument; any other
    -- command runs the plugin once, on the converted command.
    pub run_command_cases :
        (s : P.State) (cmd : SerializedCommand)
        → ((cmd.verb ≡ barrier_nop)
            × ((run_command J P s cmd).0 ≡ s)
            × (from_plugin_response (run_command J P s cmd).1 ≡ record new_response {
              command_id = slice cmd.id 0 127;
              instrument_name = slice cmd.instrument_name 0 127;
              success = true;
              text_response = "BARRIER_NOP";
            }))
          ⊎ ((cmd.verb ≢ barrier_nop)
              × (run_command J P s cmd ≡ P.execute_command s (to_plugin_command cmd) zero_response))
    unfolding run_command nop_response from_plugin_response copy_text
    run_command_cases s cmd = elim (Bool-cases (cmd.verb == barrier_nop)) [
      | inl e ↦ inl ((string_key.eqb_iff cmd.verb barrier_nop).0 e, rw e refl, rw e refl)
      | inr e ↦ inr (λ same. cc (e, (string_key.eqb_iff cmd.verb barrier_nop).1 same), rw e)
    ]
