-- ===== src/DataBuffers/References.antt =====
-- src/ipc/DataBufferManager.cpp: counts of references.
use Prim.Native.Nat.{zero}
use instrument_script_server.Base.{
  String, ℕ, List, Option, suc, ◌≡◌, if◌then◌else◌, map_option, none, some, ◌+◌, ◌∷◌, [], lookup,
  nat_eqb, ◌<◌, Option-cases, arith, string_key, ◌^◌, ap, inl, inr, ◌∙◌, lookup-insert, ◌%◌, ◌-◌,
  lookup-erase, length, ◌≤◌,
}
use instrument_script_server.DataBuffers.{
  DataBufferManager, BufferEntry, get_buffer, get_found, release_buffer, release_found,
}

pub data Use : Type 0 where
  gets releases : Use

abbrev pub apply : String → Use → DataBufferManager → DataBufferManager
apply id gets m = (get_buffer id m).1
apply id releases m = release_buffer id m

abbrev pub apply_all : String → List Use → DataBufferManager → DataBufferManager
apply_all id [] m = m
apply_all id (u ∷ us) m = apply_all id us (apply id u m)

-- A counter that is gone once it is 0.
abbrev pub counted : ℕ → Use → ℕ
counted zero u = 0
counted (suc n) gets = suc (suc n)
counted (suc n) releases = n

abbrev pub counted_all : ℕ → List Use → ℕ
counted_all n [] = n
counted_all n (u ∷ us) = counted_all (counted n u) us

-- The count that is stored for a buffer, and a counter read the same way.
abbrev pub stored : String → DataBufferManager → Option ℕ
stored id m = map_option (λ e. e.ref_count) (lookup id m.buffers)

abbrev pub unless_zero : ℕ → Option ℕ
unless_zero n = if nat_eqb n 0 then none else some n

found :
    (id : String) (n : ℕ) (m : DataBufferManager)
    → stored id m ≡ some n
    → (e : BufferEntry) × (lookup id m.buffers ≡ some e) × (e.ref_count ≡ n)
found id n m h = elim (Option-cases (lookup id m.buffers)) [
  | inl missing ↦ ground (arith, missing, h)
  | inr (e, there) ↦ (e, there, ground (arith, there, h))
]

absent : (id : String) (m : DataBufferManager) → stored id m ≡ none → lookup id m.buffers ≡ none
absent id m h = ground arith

get_buffer-stored :
    (id : String) (n : ℕ) (m : DataBufferManager)
    → stored id m ≡ some n
    → n + 1 < 2 ^ 32
    → stored id (get_buffer id m).1 ≡ some (n + 1)
unfolding get_buffer
get_buffer-stored id n m h room =
    let (e, there, same) = found id n m h in
    ap (λ o. stored id (get_found id m o).1) there
    ∙ ground (
      arith,
      same,
      lookup-insert id id (record e { ref_count = (e.ref_count + 1) % 2 ^ 32 }) m.buffers,
      string_key.eqb_iff id id,
    )

release_buffer-stored :
    (id : String) (n : ℕ) (m : DataBufferManager)
    → stored id m ≡ some (suc n)
    → n + 1 < 2 ^ 32
    → stored id (release_buffer id m) ≡ unless_zero n
unfolding release_buffer
release_buffer-stored id n m h room =
    let (e, there, same) = found id (suc n) m h in
    ap (λ o. stored id (release_found id m o)) there
    ∙ ground (
      arith,
      same,
      lookup-insert id id (record e { ref_count = (e.ref_count + (2 ^ 32 - 1)) % 2 ^ 32 })
          m.buffers,
      lookup-erase id id m.buffers,
      string_key.eqb_iff id id,
    )

apply-stored :
    (id : String) (n : ℕ) (u : Use) (m : DataBufferManager)
    → stored id m ≡ unless_zero n
    → n + 1 < 2 ^ 32
    → stored id (apply id u m) ≡ unless_zero (counted n u)
unfolding get_buffer release_buffer
apply-stored id zero gets m h room = ap (λ o. stored id (get_found id m o).1) (absent id m h) ∙ h
apply-stored id zero releases m h room =
    ap (λ o. stored id (release_found id m o)) (absent id m h) ∙ h
apply-stored id (suc n) gets m h room =
    get_buffer-stored id (suc n) m (h ∙ ground arith) room ∙ ground arith
apply-stored id (suc n) releases m h room =
    release_buffer-stored id n m (h ∙ ground arith) (omega (arith, room))

-- However a buffer is taken and released, by anybody and in any order, as long as the 32-bit count has room: its
-- stored count is that of a counter that goes up by one with each `get_buffer` and down by one with
-- each release, and the buffer is gone from the moment the counter reaches 0.
pub apply_all-stored :
    (id : String) (us : List Use) (n : ℕ) (m : DataBufferManager)
    → stored id m ≡ unless_zero n
    → n + length us < 2 ^ 32
    → stored id (apply_all id us m) ≡ unless_zero (counted_all n us)
apply_all-stored id [] n m h room = h
apply_all-stored id (u ∷ us) n m h room =
    apply_all-stored id us (counted n u) (apply id u m)
      (apply-stored id n u m h (ground (arith, room))) (ground (arith, room, counted_bound n u))
  where
    counted_bound : (n : ℕ) (u : Use) → counted n u ≤ n + 1
    counted_bound zero u = omega arith
    counted_bound (suc n) gets = omega arith
    counted_bound (suc n) releases = omega arith
