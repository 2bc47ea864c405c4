-- ===== src/Worker/Barrier.antt =====
-- The barrier mark of a command does not cross the wire, so the worker never waits.
use instrument_script_server.Base.{
  ℕ, ◌≡◌, refl, false, Option, none, some, List, [], ◌∷◌, arith, string_key, Option-cases, ◌∙◌,
  subst, >>=-eq-some, inl, inr,
}
use instrument_script_server.Json.{Json}
use instrument_script_server.Json.Codec.{JsonText}
use instrument_script_server.Ipc.{
  IpcMessage, MessageType, command, response, heartbeat, shutdown, sync_ack, sync_continue,
}
use instrument_script_server.Wire.{SerializedCommand, command_of, deserialize_command}
use instrument_script_server.Worker.Abi.{Plugin}
use instrument_script_server.Worker.Loop.{main_loop-Cases}
use instrument_script_server.Worker.{
  Worker, Outcome, handle_command, handle_sync_continue, handle_shutdown, by_type, process_message,
  send_heartbeat_if_needed, loop_round, main_loop, after,
}

module _ (J : JsonText) where
  command_of-unmarked :
      (j : Json) (cmd : SerializedCommand) → command_of J j ≡ some cmd → cmd.is_sync_barrier ≡ false
  unfolding command_of
  command_of-unmarked j cmd h = ground arith

  -- Whatever bytes arrive, no command that is read from them is marked as a barrier.
  pub deserialize_command-unmarked :
      (t : J.Text) (cmd : SerializedCommand)
      → deserialize_command J t ≡ some cmd
      → cmd.is_sync_barrier ≡ false
  unfolding deserialize_command
  deserialize_command-unmarked t cmd h =
      let (j, _, e) = >>=-eq-some (J.parse t) (command_of J) h in command_of-unmarked j cmd e

  module _ (P : Plugin) where
    -- Nothing in the outcome waits.
    abbrev pub Awake : Outcome J P → Type 0
    Awake none = Unit
    Awake (some (w, out)) = w.waiting_sync_token ≡ none

    handle_command-Awake :
        (w : Worker J P) (msg : IpcMessage J)
        → w.waiting_sync_token ≡ none
        → Awake (handle_command J P w msg)
    unfolding handle_command
    handle_command-Awake w msg a = elim (Option-cases (deserialize_command J msg.payload)) [
      | inl e ↦ rw (e, handle_command) tt
      | inr (cmd, e) ↦
          rw (e, handle_command) (ground (arith, deserialize_command-unmarked msg.payload cmd e))
    ]

    by_type-Awake :
        (w : Worker J P) (msg : IpcMessage J) (t : MessageType)
        → w.waiting_sync_token ≡ none
        → Awake (by_type J P w msg t)
    unfolding handle_shutdown handle_sync_continue
    by_type-Awake w msg shutdown a = a
    by_type-Awake w msg sync_continue a = rw a refl
    by_type-Awake w msg command a = simp a (handle_command-Awake w msg a)
    by_type-Awake w msg response a = a
    by_type-Awake w msg heartbeat a = a
    by_type-Awake w msg sync_ack a = a

    heartbeat-Awake :
        (now : ℕ) (w : Worker J P)
        → (send_heartbeat_if_needed J P now w).0.waiting_sync_token ≡ w.waiting_sync_token
    unfolding send_heartbeat_if_needed
    heartbeat-Awake now w = ground arith

    Awake-bind : (out : List (IpcMessage J)) (o : Outcome J P) → Awake o → Awake (after J P out o)
    Awake-bind out none a = tt
    Awake-bind out (some done) a = a

    pub loop_round-Awake :
        (w : Worker J P) (r : ℕ × Option (IpcMessage J))
        → w.waiting_sync_token ≡ none
        → Awake (loop_round J P w r)
    unfolding loop_round process_message
    loop_round-Awake w (now, none) a = rw heartbeat-Awake a
    loop_round-Awake w (now, some msg) a =
        Awake-bind (send_heartbeat_if_needed J P now w).1
          (by_type J P (send_heartbeat_if_needed J P now w).0 msg msg.type)
          (by_type-Awake _ msg msg.type (heartbeat-Awake now w ∙ a))

    -- Whatever messages arrive, barrier commands included, the worker never waits for
    -- SYNC_CONTINUE: it starts with no token to wait for, and has none after any number of rounds.
    pub main_loop-never_waits :
        (rs : List (ℕ × Option (IpcMessage J))) (w : Worker J P)
        → w.waiting_sync_token ≡ none
        → (w' : Worker J P) (out : List (IpcMessage J)) → main_loop J P w rs ≡ some (w', out)
        → w'.waiting_sync_token ≡ none
    unfolding main_loop
    main_loop-never_waits [] w a w' out h = ground arith
    main_loop-never_waits (r ∷ rs) w a w' out h = elim (main_loop-Cases J P w r rs w' out h) [
      | inl (_, same) ↦ rw same.0 a
      | inr (w1, out1, out2, here, later, _, _) ↦
          main_loop-never_waits rs w1 (subst Awake here (loop_round-Awake w r a)) w' out2 later
    ]
