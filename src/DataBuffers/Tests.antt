-- ===== src/DataBuffers/Tests.antt =====
-- Buffers that are made, taken and released.
use instrument_script_server.DataBuffers.{
  DataBufferManager, float64, create_buffer, new_entry, total_memory_usage, generate_buffer_id,
  data_type_size,
}
use instrument_script_server.DataBuffers.References.{
  apply_all-stored, apply_all, stored, unless_zero, counted_all, gets, releases,
}
use instrument_script_server.DataBuffers.Sizes.{create_buffer-total, sizes}
use instrument_script_server.Base.{
  none, some, [], ◌∷◌, ◌≡◌, refl, arith, ◌+◌, ◌*◌, ◌%◌, ◌^◌, ◌<◌, ◌≤◌, has, lookup, true, ◌↔◌,
}

abbrev one_buffer : DataBufferManager
one_buffer = record {
  buffers = ("buffer_5_1", new_entry 5 "buffer_5_1" "DMM1" "DMM1-1" float64 100 none) ∷ [];
  next_buffer_id = 2;
}

apply_all-stored_example :
    stored "buffer_5_1" (apply_all "buffer_5_1" (gets ∷ releases ∷ releases ∷ gets ∷ []) one_buffer)
    ≡ unless_zero (counted_all 1 (gets ∷ releases ∷ releases ∷ gets ∷ []))
unfolding lookup
apply_all-stored_example =
    apply_all-stored "buffer_5_1" (gets ∷ releases ∷ releases ∷ gets ∷ []) 1 one_buffer refl
      (omega arith)

abbrev no_buffers : DataBufferManager
no_buffers = record { buffers = []; next_buffer_id = 1 }

create_buffer-total_example :
    (stored
        (generate_buffer_id 5 no_buffers)
        (create_buffer true 5 "DMM1" "DMM1-1" float64 100 none no_buffers).1
      ≡ some 1)
    × (total_memory_usage (create_buffer true 5 "DMM1" "DMM1-1" float64 100 none no_buffers).1
        ≡ (total_memory_usage no_buffers + 100 * data_type_size float64) % 2 ^ 64)
    × (sizes
          (generate_buffer_id 5 no_buffers)
          (create_buffer true 5 "DMM1" "DMM1-1" float64 100 none no_buffers).1
        ≡ some (
          100,
          (100 * data_type_size float64) % 2 ^ 64,
          100,
          (100 * data_type_size float64) % 2 ^ 64,
        ))
    × (((100 * data_type_size float64) % 2 ^ 64 < 100 * data_type_size float64)
        ↔ (2 ^ 64 ≤ 100 * data_type_size float64))
unfolding data_type_size has lookup
create_buffer-total_example =
    create_buffer-total 5 "DMM1" "DMM1-1" float64 100 none no_buffers refl refl
