-- ===== src/DataBuffers/Sizes.antt =====
-- src/ipc/DataBufferManager.cpp: the memory in use.
use instrument_script_server.Base.{
  ◌∙◌, has, ℕ, String, ◌%◌, Option, ◌^◌, nat_eqb, ◌+◌, ◌≡◌, arith, false, true, some, ◌*◌, ◌<◌, ◌≤◌,
  is_some, none, lookup, lookup-insert, string_key, ap, total-insert_new, ◌∙◌, total, refl,
  map_option, ◌↔◌,
}
use instrument_script_server.DataBuffers.{
  DataBufferManager, DataType, data_type_size, create_buffer, generate_buffer_id, new_entry,
  try_emplace, total_memory_usage, BufferEntry,
}
use instrument_script_server.DataBuffers.References.{stored}

wrapped_sum : (x t : ℕ) → (x % 2 ^ 64 + t) % 2 ^ 64 ≡ (t % 2 ^ 64 + x) % 2 ^ 64
wrapped_sum x t = omega arith

-- The counts of elements and the sizes in bytes of a buffer and of its metadata.
abbrev pub sizes : String → DataBufferManager → Option (ℕ × ℕ × ℕ × ℕ)
sizes id m =
    map_option
      (λ e. (
        e.buffer.element_count, e.buffer.byte_size, e.metadata.element_count, e.metadata.byte_size,
      ))
      (lookup id m.buffers)

-- A new buffer, of a valid type, for which there is memory and whose id is new, has one reference and adds the
-- size of its elements to the memory in use, modulo 2 ^ 64. The buffer and its metadata keep the full
-- count of elements, while their size in bytes is taken modulo 2 ^ 64: it is too small for the
-- elements just if these need 2 ^ 64 bytes or more.
pub create_buffer-total :
    (ms : ℕ) (instrument_name command_id : String) (type : DataType) (count : ℕ)
    (memory : Option (ℕ → ℕ)) (m : DataBufferManager)
    → nat_eqb (data_type_size type) 0 ≡ false
    → has (generate_buffer_id ms m) m.buffers ≡ false
    → (stored
          (generate_buffer_id ms m)
          (create_buffer true ms instrument_name command_id type count memory m).1
        ≡ some 1)
      × (total_memory_usage (create_buffer true ms instrument_name command_id type count memory m).1
          ≡ (total_memory_usage m + count * data_type_size type) % 2 ^ 64)
      × (sizes
            (generate_buffer_id ms m)
            (create_buffer true ms instrument_name command_id type count memory m).1
          ≡ some (
            count,
            (count * data_type_size type) % 2 ^ 64,
            count,
            (count * data_type_size type) % 2 ^ 64,
          ))
      × (((count * data_type_size type) % 2 ^ 64 < count * data_type_size type)
          ↔ (2 ^ 64 ≤ count * data_type_size type))
unfolding create_buffer try_emplace total_memory_usage has data_type_size
create_buffer-total ms instrument_name command_id type count memory m valid fresh =
    let id = generate_buffer_id ms m in
    let entry = new_entry ms id instrument_name command_id type count memory in
    let missing : lookup id m.buffers ≡ none = absent_of (lookup id m.buffers) fresh in
    (
      rw (create_buffer, valid, fresh)
          (ground (arith, lookup-insert id id entry m.buffers, string_key.eqb_iff id id)),
      rw (create_buffer, valid, fresh)
          (ap (λ n. n % 2 ^ 64)
              (total-insert_new (λ e. e.metadata.byte_size) id entry m.buffers missing)
            ∙ wrapped_sum (count * data_type_size type)
                (total (λ e. e.metadata.byte_size) m.buffers)),
      rw (create_buffer, valid, fresh)
          (ground (arith, lookup-insert id id entry m.buffers, string_key.eqb_iff id id)),
      too_short (count * data_type_size type),
    )
  where
    absent_of : (o : Option BufferEntry) → is_some o ≡ false → o ≡ none
    absent_of none h = refl
    absent_of (some e) h = cc

    too_short : (x : ℕ) → (x % 2 ^ 64 < x) ↔ (2 ^ 64 ≤ x)
    too_short x = (λ h. omega (arith, h), λ h. omega (arith, h))
