-- ===== src/Context/Parallel/Grouping.antt =====
-- src/server/RuntimeContext.cpp: the commands of a block by instrument.
use instrument_script_server.Base.{
  String, Bool, true, false, Option, none, some, List, [], ◌∷◌, ◌++◌, Dict, lookup, insert,
  lookup-insert, push_back, if◌then◌else◌, string_key, ◌==◌, ◌≡◌, refl, sym, ap, ◌∙◌, arith,
  append-nil, append_assoc, Bool-cases, inl, inr,
}
use instrument_script_server.Wire.{SerializedCommand}
use instrument_script_server.Context.Parallel.{commands_at, group}

-- The commands for one instrument, picked out of a list.
unfoldable pub commands_of : String → List SerializedCommand → List SerializedCommand
commands_of name [] = []
commands_of name (cmd ∷ cmds) =
    let rest = commands_of name cmds in if cmd.instrument_name == name then cmd ∷ rest else rest

-- No entry for an empty list.
abbrev pub or_none {ℓ} : {A : Type ℓ} → List A → Option (List A)
or_none [] = none
or_none (x ∷ xs) = some (x ∷ xs)

or_none-push_back {ℓ} :
    {A : Type ℓ} (a : A) (xs : List A) → or_none (push_back a xs) ≡ some (push_back a xs)
or_none-push_back a [] = refl
or_none-push_back a (x ∷ xs) = refl

commands_at-insert :
    (k name : String) (cmds : List SerializedCommand) (m : Dict String (List SerializedCommand))
    → commands_at name (insert k cmds m) ≡ (if k == name then cmds else commands_at name m)
unfolding commands_at
commands_at-insert k name cmds m = ground (arith, lookup-insert k name cmds m)

commands_of-cons :
    (name : String) (cmd : SerializedCommand) (cmds : List SerializedCommand)
    → commands_of name (cmd ∷ cmds) ≡ commands_of name (cmd ∷ []) ++ commands_of name cmds
unfolding commands_of
commands_of-cons name cmd cmds = ground arith

abbrev add_to_group :
    SerializedCommand → Dict String (List SerializedCommand) → Dict String (List SerializedCommand)
add_to_group cmd m =
    insert cmd.instrument_name (push_back cmd (commands_at cmd.instrument_name m)) m

commands_at-add_to_group :
    (name : String) (cmd : SerializedCommand) (m : Dict String (List SerializedCommand))
    → commands_at name (add_to_group cmd m) ≡ commands_at name m ++ commands_of name (cmd ∷ [])
unfolding commands_of
commands_at-add_to_group name cmd m = elim (Bool-cases (cmd.instrument_name == name)) [
  | inl same ↦
      let key : cmd.instrument_name ≡ name = (string_key.eqb_iff cmd.instrument_name name).0 same in
      commands_at-insert cmd.instrument_name name
        (push_back cmd (commands_at cmd.instrument_name m)) m
      ∙ rw same (ap (λ k. push_back cmd (commands_at k m)) key)
  | inr other ↦
      commands_at-insert cmd.instrument_name name
        (push_back cmd (commands_at cmd.instrument_name m)) m
      ∙ rw other (sym (append-nil (commands_at name m)))
]

commands_at-group :
    (name : String) (cmds : List SerializedCommand) (m : Dict String (List SerializedCommand))
    → commands_at name (group cmds m) ≡ commands_at name m ++ commands_of name cmds
unfolding group commands_of
commands_at-group name [] m = sym (append-nil (commands_at name m))
commands_at-group name (cmd ∷ cmds) m =
    commands_at-group name cmds (add_to_group cmd m)
    ∙ ap (λ xs. xs ++ commands_of name cmds) (commands_at-add_to_group name cmd m)
    ∙ append_assoc (commands_at name m) (commands_of name (cmd ∷ [])) (commands_of name cmds)
    ∙ ap (λ xs. commands_at name m ++ xs) (sym (commands_of-cons name cmd cmds))

-- An instrument has an entry when it has a command.
abbrev IsFilled : Dict String (List SerializedCommand) → Type 0
IsFilled m = (name : String) → lookup name m ≡ or_none (commands_at name m)

add_to_group-IsFilled :
    (cmd : SerializedCommand) (m : Dict String (List SerializedCommand))
    → IsFilled m
    → IsFilled (add_to_group cmd m)
add_to_group-IsFilled cmd m f name =
    lookup-insert k name cmds m
    ∙ by_test (k == name)
    ∙ ap or_none (sym (commands_at-insert k name cmds m))
  where
    k : String
    k = cmd.instrument_name

    cmds : List SerializedCommand
    cmds = push_back cmd (commands_at k m)

    by_test :
        (b : Bool)
        → (if b then some cmds else lookup name m)
          ≡ or_none (if b then cmds else commands_at name m)
    by_test true = sym (or_none-push_back cmd (commands_at k m))
    by_test false = f name

group-IsFilled :
    (cmds : List SerializedCommand) (m : Dict String (List SerializedCommand))
    → IsFilled m
    → IsFilled (group cmds m)
unfolding group
group-IsFilled [] m f = f
group-IsFilled (cmd ∷ cmds) m f =
    group-IsFilled cmds (add_to_group cmd m) (add_to_group-IsFilled cmd m f)

-- Grouping gives each instrument its commands in the order in which they were buffered, and no entry where there are
-- none.
pub lookup-group :
    (name : String) (cmds : List SerializedCommand)
    → lookup name (group cmds []) ≡ or_none (commands_of name cmds)
unfolding commands_at lookup
lookup-group name cmds =
    group-IsFilled cmds [] (λ n. refl) name ∙ ap or_none (commands_at-group name cmds [])
