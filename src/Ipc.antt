-- ===== src/Ipc.antt =====
-- include/instrument-server/ipc/IPCMessage.hpp: the messages between the server and a worker. The
-- payload stands for the array and its size together: the first `payload_size` bytes.
use instrument_script_server.Base.{ℕ}
use instrument_script_server.Json.Codec.{JsonText}

abbrev pub ipc_max_payload : ℕ
ipc_max_payload = 4096

pub data MessageType : Type 0 where
  command response heartbeat shutdown sync_ack sync_continue : MessageType

module _ (J : JsonText) where
  open J use {Text, cut}

  pub record IpcMessage : Type 0 where
    pub type : MessageType
    pub id : ℕ
    pub sync_token : ℕ
    pub payload : Text

  -- payload_size = min(size, sizeof(payload)), and a copy of so many bytes.
  abbrev pub fit_payload : Text → Text
  fit_payload t = cut ipc_max_payload t
