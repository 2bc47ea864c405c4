-- ===== src/Context/Tokens/Stuck.antt =====
-- src/server/RuntimeContext.cpp: the release of the tokens when a worker never answers.
use instrument_script_server.Base.{
  ℕ, Option, none, some, List, [], ◌∷◌, ◌++◌, nat_key, ◌≡◌, refl, ap, ◌∙◌, ◌>>=◌, map_option, sym,
  some_inj,
}
use instrument_script_server.Context.{
  RuntimeContext, World, CallResult, Future, silent, get, list_at,
}
use instrument_script_server.Context.Tokens.{
  answer_at, answer_new, await, released, release, release_all, process_tokens_and_wait,
  without_tokens,
}
use instrument_script_server.Context.Tokens.Release.{continue_all_lem}

-- What follows a step that does not return, or after which nothing returns, does not return.
stuck_after {ℓ κ} :
    {A : Type ℓ} {B : Type κ} (o : Option A) (f : A → Option B)
    → ((a : A) → o ≡ some a → f a ≡ none)
    → (o >>= f) ≡ none
stuck_after none f h = refl
stuck_after (some a) f h = h a refl

await-stuck :
    (W : World) (fs gs : List Future) (future : Future) (inds : List ℕ) (results : List CallResult)
    → W.answer future ≡ silent
    → await W (fs ++ future ∷ gs) inds results ≡ none
unfolding await
await-stuck W [] gs future [] results h =
    ap (λ a. get a >>= λ o. await W gs [] (answer_new W o results)) h
await-stuck W [] gs future (i ∷ inds) results h =
    ap (λ a. get a >>= λ o. answer_at W i o results >>= λ rs. await W gs inds rs) h
await-stuck W (f ∷ fs) gs future [] results h =
    stuck_after (get (W.answer f)) _
      (λ o e. await-stuck W fs gs future [] (answer_new W o results) h)
await-stuck W (f ∷ fs) gs future (i ∷ inds) results h =
    stuck_after (get (W.answer f)) _ (λ o e.
      stuck_after (answer_at W i o results) _ (λ rs e'. await-stuck W fs gs future inds rs h))

released-futures :
    (token : ℕ) (c : RuntimeContext) (results : List CallResult)
    → (released token c results).token_futures ≡ c.token_futures
released-futures token c results =
    ap (λ x. x.token_futures)
      (continue_all_lem token (list_at token c.token_instruments)
        (record c { collected_results = results }))

release-futures :
    (W : World) (token : ℕ) (c c' : RuntimeContext)
    → release W token c ≡ some c'
    → c'.token_futures ≡ c.token_futures
unfolding release
release-futures W token c c' e =
    by_wait
      (await W (list_at token c.token_futures) (list_at token c.token_result_indices)
        c.collected_results)
      e
  where
    by_wait :
        (o : Option (List CallResult))
        → map_option (released token c) o ≡ some c'
        → c'.token_futures ≡ c.token_futures
    by_wait none h = cc
    by_wait (some results) h =
        ap (λ x. x.token_futures) (sym (some_inj h)) ∙ released-futures token c results

release_all-stuck :
    (W : World) (ts us : List ℕ) (token : ℕ) (c : RuntimeContext) (fs gs : List Future)
    (future : Future)
    → list_at token c.token_futures ≡ fs ++ future ∷ gs
    → W.answer future ≡ silent
    → release_all W (ts ++ token ∷ us) c ≡ none
unfolding release_all release
release_all-stuck W [] us token c fs gs future e h =
    let inds = list_at token c.token_result_indices in
    let results = c.collected_results in
    ap (λ xs. map_option (released token c) (await W xs inds results) >>= λ c'. release_all W us c')
      e
    ∙ ap (λ o. map_option (released token c) o >>= λ c'. release_all W us c')
        (await-stuck W fs gs future inds results h)
release_all-stuck W (t ∷ ts) us token c fs gs future e h = stuck_after (release W t c) _ (λ c' ran.
    release_all-stuck W ts us token c' fs gs future
      (ap (list_at token) (release-futures W t c c' ran) ∙ e) h)

-- When the worker never answers one command of a token, the release of the tokens does not return, whatever the
-- other futures give: `get` has no time limit.
pub process_tokens-hangs :
    (W : World) (c : RuntimeContext) (ts us : List ℕ) (token : ℕ) (fs gs : List Future)
    (future : Future)
    → c.token_order ≡ ts ++ token ∷ us
    → list_at token c.token_futures ≡ fs ++ future ∷ gs
    → W.answer future ≡ silent
    → process_tokens_and_wait W c ≡ none
unfolding process_tokens_and_wait
process_tokens-hangs W c ts us token fs gs future order e h =
    ap (λ tokens. map_option without_tokens (release_all W tokens c)) order
    ∙ ap (map_option without_tokens) (release_all-stuck W ts us token c fs gs future e h)
