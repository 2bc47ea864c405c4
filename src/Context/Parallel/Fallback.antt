-- ===== src/Context/Parallel/Fallback.antt =====
-- src/server/RuntimeContext.cpp: the results of a block without enqueue mode.
use instrument_script_server.Base.{
  Option, none, some, List, [], ◌∷◌, ◌++◌, All, All-append, ◌≡◌, refl, sym, ap, ◌∙◌, append_assoc,
  append-nil, ◌>>=◌,
}
use instrument_script_server.Wire.{CommandResponse}
use instrument_script_server.Json.Codec.{JsonText}
use instrument_script_server.Context.{CallResult, new_result, Future, World}
use instrument_script_server.Context.Calls.{populate}
use instrument_script_server.Context.Tokens.Answers.{header, header-populate, Settles, get-Settles}
use instrument_script_server.Context.Parallel.{collect, collect_one}

-- A result that names no command.
abbrev pub IsNameless : CallResult → Type 0
IsNameless cr = header cr ≡ header new_result

module _ (J : JsonText) (W : World) where
  collect_one-IsNameless :
      (o : Option CommandResponse) (results : List CallResult)
      → (added : List CallResult) × (collect_one J W o results ≡ results ++ added)
        × All IsNameless added
  collect_one-IsNameless none results = ([], sym (append-nil results), tt)
  collect_one-IsNameless (some resp) results =
      let cr = populate (record new_result { executed_at = W.now }) resp in
      (cr ∷ [], refl, (header-populate (record new_result { executed_at = W.now }) resp, tt))

  -- When every future of a block without enqueue mode gives a response or throws, the results that the responses add
  -- name neither the instrument nor the verb
  -- nor the parameters of their commands, whatever the commands were.
  pub collect-IsNameless :
      (futures : List Future) (results : List CallResult)
      → All (λ f. Settles (W.answer f)) futures
      → (added : List CallResult) × (collect J W futures results ≡ some (results ++ added))
        × All IsNameless added
  unfolding collect
  collect-IsNameless [] results s = ([], ap some (sym (append-nil results)), tt)
  collect-IsNameless (future ∷ futures) results s =
      let (o, got) = get-Settles (W.answer future) s.0 in
      let (added, e, n) = collect-IsNameless futures (collect_one J W o results) s.1 in
      let (first, e', n') = collect_one-IsNameless o results in
      (
        first ++ added,
        ap (λ x. x >>= λ r. collect J W futures (collect_one J W r results)) got
            ∙ e
            ∙ ap (λ xs. some (xs ++ added)) e'
            ∙ ap some (append_assoc results first added),
        All-append IsNameless first added n' n,
      )
