-- ===== src/Context/Sends.antt =====
-- src/server/RuntimeContext.cpp: steps that send commands to workers, and the results they leave room for.
use instrument_script_server.Base.{
  ℕ, ◌+◌, ◌<◌, String, Bool, true, false, some, List, [], ◌∷◌, ◌++◌, lookup, has, lookup-insert,
  length, length-append, All, All-append, push_back, if◌then◌else◌, nat_key, string_key, ◌==◌, ◌≡◌,
  refl, sym, ap, ◌∙◌, subst, arith, inl, inr, append_assoc, append-nil, Option-cases,
}
use instrument_script_server.Wire.{SerializedCommand}
use instrument_script_server.Json.Codec.{JsonText}
use instrument_script_server.Proxy.{Proxy}
use instrument_script_server.Registry.Invariant.{IsValid}
use instrument_script_server.Context.{
  CallResult, RuntimeContext, World, WorkerCall, executes, append_at, list_at, add_placeholder,
  put_proxy, dispatch,
}
use instrument_script_server.Context.Workers.{
  put_proxy-IsValid, after_execute, after_dispatch, dispatch-IsRunning,
}

-- Each future of a token has the index of a result.
pub record IsAligned (c : RuntimeContext) : Type 0 where
  pub paired :
      (token : ℕ)
      → length (list_at token c.token_futures) ≡ length (list_at token c.token_result_indices)
  pub in_range :
      (token : ℕ) → All (λ i. i < length c.collected_results) (list_at token c.token_result_indices)

-- A step from one context to another that makes these calls of the workers.
pub record Sends (c : RuntimeContext) (xs : List WorkerCall) (c' : RuntimeContext) : Type 0 where
  pub valid : IsValid c'.registry
  pub names : (n : String) → has n c'.registry.instruments ≡ has n c.registry.instruments
  pub calls : c'.calls ≡ c.calls ++ xs
  pub counted : length c'.collected_results ≡ length c.collected_results + length xs
  pub enqueues : c'.enqueue_mode ≡ c.enqueue_mode
  pub blocked : c'.in_parallel_block ≡ c.in_parallel_block
  pub aligned : IsAligned c → IsAligned c'

pub Sends-refl : (c : RuntimeContext) → IsValid c.registry → Sends c [] c
Sends-refl c v = record {
  valid = v;
  names = λ n. refl;
  calls = sym (append-nil c.calls);
  counted = omega arith;
  enqueues = refl;
  blocked = refl;
  aligned = λ a. a;
}

pub Sends-trans :
    {c c' c'' : RuntimeContext} (xs ys : List WorkerCall)
    → Sends c xs c'
    → Sends c' ys c''
    → Sends c (xs ++ ys) c''
Sends-trans {c} xs ys s t = record {
  valid = t.valid;
  names = λ n. t.names n ∙ s.names n;
  calls = t.calls ∙ ap (λ zs. zs ++ ys) s.calls ∙ append_assoc c.calls xs ys;
  counted = omega (arith, s.counted, t.counted, length-append xs ys);
  enqueues = t.enqueues ∙ s.enqueues;
  blocked = t.blocked ∙ s.blocked;
  aligned = λ a. t.aligned (s.aligned a);
}

pub list_at-append_at {ℓ} :
    {A : Type ℓ} (k j : ℕ) (a : A) (m : List (ℕ × List A))
    → list_at j (append_at k a m) ≡ (if k == j then push_back a (list_at k m) else list_at j m)
unfolding append_at
list_at-append_at k j a m = ground (arith, lookup-insert k j (push_back a (list_at k m)) m)

All_weaken : (n : ℕ) (xs : List ℕ) → All (λ i. i < n) xs → All (λ i. i < n + 1) xs
All_weaken n [] h = tt
All_weaken n (x ∷ xs) h = (omega (arith, h.0), All_weaken n xs h.1)

has-put_proxy :
    (name n : String) (p : Proxy) (c : RuntimeContext)
    → has name c.registry.instruments ≡ true
    → has n (put_proxy name p c.registry).instruments ≡ has n c.registry.instruments
unfolding put_proxy has
has-put_proxy name n p c there =
    ground (arith, there, lookup-insert name n p c.registry.instruments, string_key.eqb_iff name n)

-- The placeholder of a result and the future of its command keep the two lists of a token in step.
placed-IsAligned :
    (token : ℕ) (name : String) (cr : CallResult) (cmd : SerializedCommand) (id : ℕ) (p : Proxy)
    (c : RuntimeContext)
    → IsAligned c
    → IsAligned (after_dispatch token name cmd id p (add_placeholder token cr c))
unfolding after_dispatch after_execute add_placeholder
placed-IsAligned token name cr cmd id p c a = record {
  paired = λ t. ground (
    arith,
    a.paired t,
    a.paired token,
    list_at-append_at token t (name, id) c.token_futures,
    list_at-append_at token t (length c.collected_results) c.token_result_indices,
    length-append (list_at token c.token_futures) ((name, id) ∷ []),
    length-append (list_at token c.token_result_indices) (length c.collected_results ∷ []),
  );
  in_range = λ t.
      subst (λ n. All (λ i. i < n) (list_at t (append_at token len c.token_result_indices)))
        (sym (length-append c.collected_results (cr ∷ [])))
        (subst (All (λ i. i < len + 1)) (sym (list_at-append_at token t len c.token_result_indices))
          (by_test t (token == t)));
}
  where
    len : ℕ
    len = length c.collected_results

    by_test :
        (t : ℕ) (b : Bool)
        → All
            (λ i. i < len + 1)
            (if b
              then push_back len (list_at token c.token_result_indices)
              else list_at t c.token_result_indices)
    by_test t true =
        All-append (λ i. i < len + 1) (list_at token c.token_result_indices) (len ∷ [])
          (All_weaken len (list_at token c.token_result_indices) (a.in_range token))
          (omega arith, tt)
    by_test t false = All_weaken len (list_at t c.token_result_indices) (a.in_range t)

known_worker :
    (name : String) (c : RuntimeContext)
    → has name c.registry.instruments ≡ true
    → (p : Proxy) × (lookup name c.registry.instruments ≡ some p)
unfolding has
known_worker name c h = elim (Option-cases (lookup name c.registry.instruments)) [
  | inl missing ↦ ground (arith, missing, h)
  | inr found ↦ found
]

-- A placeholder and a dispatch to an instrument that is there.
pub dispatch-Sends :
    (J : JsonText) (W : World) (token : ℕ) (name : String) (cr : CallResult)
    (cmd : SerializedCommand) (c : RuntimeContext)
    → IsValid c.registry
    → has name c.registry.instruments ≡ true
    → (c' : RuntimeContext) × (dispatch J W token name cmd (add_placeholder token cr c) ≡ some c')
      × Sends c (executes name cmd ∷ []) c'
unfolding add_placeholder after_dispatch after_execute
dispatch-Sends J W token name cr cmd c v there =
    let (p, found) = known_worker name c there in
    let (p', running, e) =
      dispatch-IsRunning J W token name p cmd (add_placeholder token cr c) found
        (v.running name p found) in
    (
      after_dispatch token name cmd p.next_message_id p' (add_placeholder token cr c),
      e,
      record {
        valid = put_proxy-IsValid name p' c.registry there running v;
        names = λ n. has-put_proxy name n p' c there;
        calls = refl;
        counted = length-append c.collected_results (cr ∷ []);
        enqueues = refl;
        blocked = refl;
        aligned = placed-IsAligned token name cr cmd p.next_message_id p' c;
      },
    )
