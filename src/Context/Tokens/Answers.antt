-- ===== src/Context/Tokens/Answers.antt =====
-- src/server/RuntimeContext.cpp: the responses put in the results of their commands.
use instrument_script_server.Base.{
  ℕ, ◌<◌, String, Bool, true, false, Option, none, some, List, [], ◌∷◌, Dict, get_elem?, set,
  length, All, map, nat_key, string_key, ◌≡◌, refl, sym, ap, ◌∙◌, subst, arith, zero, suc, some_inj,
  ◌>>=◌, is_some,
}
use instrument_script_server.Wire.{
  ParamValue, CommandResponse, double, int64, string, bool, doubles,
}
use instrument_script_server.Context.{CallResult, Future, World, Awaited, get}
use instrument_script_server.Context.Calls.{populate, with_return}
use instrument_script_server.Context.Tokens.{answer_at, put_answer, await, answer_at, put_answer}

-- A future whose `get` returns or throws: it is not one that waits for ever.
unfoldable pub Settles : Awaited → Type 0
Settles a = is_some (get a) ≡ true

settled_get :
    (o : Option (Option CommandResponse))
    → is_some o ≡ true
    → (r : Option CommandResponse) × (o ≡ some r)
settled_get none h = cc
settled_get (some r) h = (r, refl)

pub get-Settles : (a : Awaited) → Settles a → (r : Option CommandResponse) × (get a ≡ some r)
unfolding Settles
get-Settles a h = settled_get (get a) h

-- What a placeholder says of its command.
abbrev pub header : CallResult → String × String × Dict String ParamValue
header cr = (cr.instrument_name, cr.verb, cr.params)

header-with_return :
    (cr : CallResult) (resp : CommandResponse) (large : Bool) (v : Option ParamValue)
    → header (with_return cr resp large v) ≡ header cr
header-with_return cr resp true v = refl
header-with_return cr resp false none = refl
header-with_return cr resp false (some (double d)) = refl
header-with_return cr resp false (some (int64 z)) = refl
header-with_return cr resp false (some (string s)) = refl
header-with_return cr resp false (some (bool b)) = refl
header-with_return cr resp false (some (doubles ds)) = refl

pub header-populate :
    (cr : CallResult) (resp : CommandResponse) → header (populate cr resp) ≡ header cr
unfolding populate
header-populate cr resp =
    header-with_return
      (record cr {
        command_id = resp.command_id;
        success = resp.success;
        error_message = resp.error_message;
      })
      resp resp.has_large_data resp.return_value

map-set :
    (i : ℕ) (x cr : CallResult) (results : List CallResult)
    → get_elem? results i ≡ some cr
    → header x ≡ header cr
    → map header (set results i x) ≡ map header results
map-set i x cr [] h e = refl
map-set zero x cr (r ∷ results) h e =
    ap (λ y. y ∷ map header results) (e ∙ ap header (sym (some_inj h)))
map-set (suc i) x cr (r ∷ results) h e = ap (λ hs. header r ∷ hs) (map-set i x cr results h e)

length-set :
    (i : ℕ) (x : CallResult) (results : List CallResult) → length (set results i x) ≡ length results
length-set i x [] = refl
length-set zero x (r ∷ results) = refl
length-set (suc i) x (r ∷ results) = omega (arith, length-set i x results)

-- Results that agree in what they say of their commands.
pub record Keeps (old new : List CallResult) : Type 0 where
  pub same_length : length new ≡ length old
  pub same_headers : map header new ≡ map header old

abbrev pub Answers : List CallResult → Option (List CallResult) → Type 0
Answers old o = (new : List CallResult) × (o ≡ some new) × Keeps old new

pub Keeps-trans : {a b c : List CallResult} → Keeps a b → Keeps b c → Keeps a c
Keeps-trans s t = record {
  same_length = t.same_length ∙ s.same_length;
  same_headers = t.same_headers ∙ s.same_headers;
}

get_elem?-in_range {ℓ} :
    {A : Type ℓ} (xs : List A) (i : ℕ) → i < length xs → (a : A) × (get_elem? xs i ≡ some a)
get_elem?-in_range [] i h = elim h [ ]
get_elem?-in_range (x ∷ xs) zero h = (x, refl)
get_elem?-in_range (x ∷ xs) (suc i) h = get_elem?-in_range xs i (omega (arith, h))

answer_at-Answers :
    (W : World) (i : ℕ) (o : Option CommandResponse) (results : List CallResult)
    → i < length results
    → Answers results (answer_at W i o results)
answer_at-Answers W i none results h =
    (results, refl, record { same_length = refl; same_headers = refl })
answer_at-Answers W i (some resp) results h =
    let (cr, e) = get_elem?-in_range results i h in
    let cr' = record (populate cr resp) { executed_at = W.now } in
    (
      set results i cr',
      ap (put_answer W i resp results) e,
      record {
        same_length = length-set i cr' results;
        same_headers = map-set i cr' cr results e (header-populate cr resp);
      },
    )

pub await-Answers :
    (W : World) (futures : List Future) (inds : List ℕ) (results : List CallResult)
    → length futures ≡ length inds
    → All (λ i. i < length results) inds
    → All (λ f. Settles (W.answer f)) futures
    → Answers results (await W futures inds results)
unfolding await
await-Answers W [] inds results e h s =
    (results, refl, record { same_length = refl; same_headers = refl })
await-Answers W (future ∷ futures) [] results e h s =
    let bad : 0 < 0 = omega (arith, e) in elim bad [ ]
await-Answers W (future ∷ futures) (i ∷ inds) results e h s =
    let (o, got) = get-Settles (W.answer future) s.0 in
    let (results', e', k) = answer_at-Answers W i o results h.0 in
    let (results'', e'', k') =
      await-Answers W futures inds results' (omega (arith, e))
        (subst (λ n. All (λ j. j < n) inds) (sym k.same_length) h.1) s.1 in
    (
      results'',
      ap (λ x. x >>= λ r. answer_at W i r results >>= λ rs. await W futures inds rs) got
          ∙ ap (λ x. x >>= λ r. await W futures inds r) e'
          ∙ e'',
      Keeps-trans k k',
    )
