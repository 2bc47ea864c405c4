-- ===== src/DataBuffers.antt =====
-- src/ipc/DataBufferManager.cpp and include/instrument-server/ipc/DataBufferManager.hpp: the buffers for large
-- data, with their counts of references. A pointer to memory is a function from offsets to bytes; whether
-- malloc succeeds and what the clock shows are arguments.
pub mod References
pub mod Sizes
mod Tests
use instrument_script_server.Base.{
  Bool, Dict, List, Option, String, [], ℕ, if◌then◌else◌, lookup, map, map_option, some, to_decimal,
  total, ◌*◌, has, insert, nat_eqb, none, string_key, ◌%◌, ◌+◌, not, ◌^◌, ◌-◌, erase,
}
use Prim.Native.String.{◌++◌}

pub data DataType : Type 0 where
  float32 float64 int32 int64 uint32 uint64 uint8 other : DataType

unfoldable pub data_type_to_string : DataType → String
data_type_to_string float32 = "float32"
data_type_to_string float64 = "float64"
data_type_to_string int32 = "int32"
data_type_to_string int64 = "int64"
data_type_to_string uint32 = "uint32"
data_type_to_string uint64 = "uint64"
data_type_to_string uint8 = "uint8"
data_type_to_string other = "unknown"

unfoldable pub data_type_size : DataType → ℕ
data_type_size float32 = 4
data_type_size float64 = 8
data_type_size int32 = 4
data_type_size uint32 = 4
data_type_size int64 = 8
data_type_size uint64 = 8
data_type_size uint8 = 1
data_type_size other = 0

pub record DataBuffer : Type 0 where
  pub buffer_id : String
  pub contents : ℕ → ℕ
  pub byte_size : ℕ
  pub element_count : ℕ
  pub data_type : DataType

-- The accessors: the pointer if the buffer has the type asked for, or nullptr.
unfoldable pub as_float32 : DataBuffer → Option (ℕ → ℕ)
as_float32 b = elim b.data_type [ float32 ↦ some b.contents | _ ↦ none ]

unfoldable pub as_float64 : DataBuffer → Option (ℕ → ℕ)
as_float64 b = elim b.data_type [ float64 ↦ some b.contents | _ ↦ none ]

unfoldable pub as_int32 : DataBuffer → Option (ℕ → ℕ)
as_int32 b = elim b.data_type [ int32 ↦ some b.contents | _ ↦ none ]

unfoldable pub as_int64 : DataBuffer → Option (ℕ → ℕ)
as_int64 b = elim b.data_type [ int64 ↦ some b.contents | _ ↦ none ]

unfoldable pub as_uint32 : DataBuffer → Option (ℕ → ℕ)
as_uint32 b = elim b.data_type [ uint32 ↦ some b.contents | _ ↦ none ]

unfoldable pub as_uint64 : DataBuffer → Option (ℕ → ℕ)
as_uint64 b = elim b.data_type [ uint64 ↦ some b.contents | _ ↦ none ]

unfoldable pub as_uint8 : DataBuffer → Option (ℕ → ℕ)
as_uint8 b = elim b.data_type [ uint8 ↦ some b.contents | _ ↦ none ]

-- Without the description and the dimensions, which `create_buffer` leaves empty.
pub record DataBufferMetadata : Type 0 where
  pub buffer_id : String
  pub instrument_name : String
  pub command_id : String
  pub data_type : DataType
  pub element_count : ℕ
  pub byte_size : ℕ
  pub timestamp_ms : ℕ

pub record BufferEntry : Type 0 where
  pub buffer : DataBuffer
  pub metadata : DataBufferMetadata
  pub ref_count : ℕ

pub record DataBufferManager : Type 0 where
  pub buffers : Dict String BufferEntry
  pub next_buffer_id : ℕ

unfoldable pub generate_buffer_id : ℕ → DataBufferManager → String
generate_buffer_id ms m = "buffer_" ++ to_decimal ms ++ "_" ++ to_decimal m.next_buffer_id

abbrev pub buffer_bytes : DataType → ℕ → ℕ
buffer_bytes type count = (count * data_type_size type) % 2 ^ 64

-- What is copied into the new memory: what `data` points to, or zeros.
abbrev pub filled : Option (ℕ → ℕ) → ℕ → ℕ
filled none i = 0
filled (some memory) i = memory i

-- buffers_.try_emplace
unfoldable pub try_emplace :
    String → BufferEntry → Dict String BufferEntry → Dict String BufferEntry
try_emplace id entry buffers = if has id buffers then buffers else insert id entry buffers

abbrev pub new_entry : ℕ → String → String → String → DataType → ℕ → Option (ℕ → ℕ) → BufferEntry
new_entry ms id instrument_name command_id type count memory = record {
  buffer = record {
    buffer_id = id;
    contents = filled memory;
    byte_size = buffer_bytes type count;
    element_count = count;
    data_type = type;
  };
  metadata = record {
    buffer_id = id;
    instrument_name = instrument_name;
    command_id = command_id;
    data_type = type;
    element_count = count;
    byte_size = buffer_bytes type count;
    timestamp_ms = ms;
  };
  ref_count = 1;
}

-- The id of the new buffer, or "" if there is none.
unfoldable pub create_buffer :
    Bool
    → ℕ
    → String
    → String
    → DataType
    → ℕ
    → Option (ℕ → ℕ)
    → DataBufferManager
    → String × DataBufferManager
create_buffer allocated ms instrument_name command_id type count memory m =
    let id = generate_buffer_id ms m in
    if nat_eqb (data_type_size type) 0 then ("", m) else if not allocated then ("", m) else (
      id,
      record {
        buffers =
            try_emplace id (new_entry ms id instrument_name command_id type count memory) m.buffers;
        next_buffer_id = (m.next_buffer_id + 1) % 2 ^ 64;
      },
    )

abbrev pub get_found :
    String → DataBufferManager → Option BufferEntry → Option DataBuffer × DataBufferManager
get_found id m none = (none, m)
get_found id m (some e) = (
  some e.buffer,
  record m { buffers = insert id (record e { ref_count = (e.ref_count + 1) % 2 ^ 32 }) m.buffers },
)

unfoldable pub get_buffer : String → DataBufferManager → Option DataBuffer × DataBufferManager
get_buffer id m = get_found id m (lookup id m.buffers)

unfoldable pub get_metadata : String → DataBufferManager → Option DataBufferMetadata
get_metadata id m = map_option (λ e. e.metadata) (lookup id m.buffers)

-- A count of 0 would go round to 2 ^ 32 - 1.
abbrev pub release_found : String → DataBufferManager → Option BufferEntry → DataBufferManager
release_found id m none = m
release_found id m (some e) =
    let left = (e.ref_count + (2 ^ 32 - 1)) % 2 ^ 32 in
    if nat_eqb left 0
    then record m { buffers = erase id m.buffers }
    else record m { buffers = insert id (record e { ref_count = left }) m.buffers }

unfoldable pub release_buffer : String → DataBufferManager → DataBufferManager
release_buffer id m = release_found id m (lookup id m.buffers)

unfoldable pub list_buffers : DataBufferManager → List String
list_buffers m = map (λ e. e.0) m.buffers

unfoldable pub total_memory_usage : DataBufferManager → ℕ
total_memory_usage m = total (λ e. e.metadata.byte_size) m.buffers % 2 ^ 64

unfoldable pub clear_all : DataBufferManager → DataBufferManager
clear_all m = record m { buffers = [] }
