-- ===== src/Registry/ApiRef.antt =====
-- src/server/ApiRefResolver.cpp: where the reference to an API definition leads. Paths are their texts, and what
-- std::filesystem says of them is a parameter; `none` is an exception.
use Prim.Native.Char.{code}
use instrument_script_server.Base.{
  String, Bool, true, false, Option, none, some, if◌then◌else◌, string_key, ◌==◌, ◌≡◌, ◌⊎◌, refl,
  nat_eqb, inl, inr, some_inj,
}

pub record Files : Type 0 where
  pub exists : String → Bool
  pub is_absolute : String → Bool
  pub canonical : String → String
  pub parent_path : String → String
  pub current_path : String
  -- operator/
  pub join : String → String → String

-- The text behind a prefix, if it has that.
unfoldable pub strip_prefix : String → String → Option String
strip_prefix String.[] s = some s
strip_prefix (String.◌∷◌ c p) String.[] = none
strip_prefix (String.◌∷◌ c p) (String.◌∷◌ d s) =
    let rest = strip_prefix p s in if nat_eqb (code c) (code d) then rest else none

abbrev or_whole : String → Option String → String
or_whole s none = s
or_whole s (some rest) = rest

unfoldable pub strip_file_scheme : String → String
strip_file_scheme s = or_whole s (strip_prefix "file://" s)

module _ (F : Files) where
  abbrev pub config_parent : String → String
  config_parent config_path =
      if F.parent_path config_path == "" then F.current_path else F.parent_path config_path

  -- The first of two candidates that exists.
  abbrev pub first_existing : String → String → Option String
  first_existing a b =
      if F.exists a then some (F.canonical a) else if F.exists b then some (F.canonical b) else none

  abbrev pub resolve_candidate : String → String → Option String
  resolve_candidate p config_path =
      if p == ""
      then none
      else if F.is_absolute p
      then (if F.exists p then some (F.canonical p) else none)
      else first_existing (F.join (config_parent config_path) p) (F.join F.current_path p)

  unfoldable pub resolve_api_ref : String → String → Option String
  resolve_api_ref api_ref config_path =
      if api_ref == "" then none else resolve_candidate (strip_file_scheme api_ref) config_path

  -- A place where a reference may lead: an absolute path itself, a file beside the configuration, or one in the
  -- current directory if there is none beside the configuration.
  abbrev pub IsPlace : String → String → String → Type 0
  IsPlace p config_path place =
      ((F.is_absolute p ≡ true) × (place ≡ p))
      ⊎ ((F.is_absolute p ≡ false)
          × ((place ≡ F.join (config_parent config_path) p)
              ⊎ ((place ≡ F.join F.current_path p)
                  × (F.exists (F.join (config_parent config_path) p) ≡ false))))

  abbrev pub Resolved : String → String → String → Type 0
  Resolved p config_path result =
      (place : String) × IsPlace p config_path place
      × (F.exists place ≡ true)
      × (F.canonical place ≡ result)

  resolve_candidate-Resolved :
      (p config_path result : String)
      → resolve_candidate p config_path ≡ some result
      → Resolved p config_path result
  resolve_candidate-Resolved p config_path result e =
      by_tests (p == "") (F.is_absolute p) (F.exists p) (F.exists a) (F.exists b) refl refl refl
        refl e
    where
      a : String
      a = F.join (config_parent config_path) p

      b : String
      b = F.join F.current_path p

      by_tests :
          (none_left absolute there there_a there_b : Bool)
          → F.is_absolute p ≡ absolute
          → F.exists p ≡ there
          → F.exists a ≡ there_a
          → F.exists b ≡ there_b
          → (if none_left
              then none
              else if absolute
              then (if there then some (F.canonical p) else none)
              else if there_a
              then some (F.canonical a)
              else if there_b
              then some (F.canonical b)
              else none)
            ≡ some result
          → Resolved p config_path result
      by_tests true absolute there there_a there_b h i j k e = cc
      by_tests false true true there_a there_b h i j k e = (p, inl (h, refl), i, some_inj e)
      by_tests false true false there_a there_b h i j k e = cc
      by_tests false false there true there_b h i j k e = (a, inr (h, inl refl), j, some_inj e)
      by_tests false false there false true h i j k e = (b, inr (h, inr (refl, j)), k, some_inj e)
      by_tests false false there false false h i j k e = cc

  -- A reference that resolves leads to the canonical path of a file that exists: the path itself, if it is
  -- absolute once its file scheme is gone, otherwise the one beside the configuration, and only if there is
  -- none, the one in the current directory.
  pub resolve_api_ref-Resolved :
      (api_ref config_path result : String)
      → resolve_api_ref api_ref config_path ≡ some result
      → Resolved (strip_file_scheme api_ref) config_path result
  unfolding resolve_api_ref
  resolve_api_ref-Resolved api_ref config_path result e = by_test (api_ref == "") e
    where
      by_test :
          (b : Bool)
          → (if b then none else resolve_candidate (strip_file_scheme api_ref) config_path)
            ≡ some result
          → Resolved (strip_file_scheme api_ref) config_path result
      by_test true e = cc
      by_test false e = resolve_candidate-Resolved (strip_file_scheme api_ref) config_path result e
