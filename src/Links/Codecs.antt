-- ===== src/Links/Codecs.antt =====
-- relay-engine/src/proto/mod.rs: the messages of a registration, and the protobuf codec as a parameter.
use cozmio.Prelude.{ℕ, ◌≡◌, String, Bool, Option, some, List}
use cozmio.Prelude.Int.{ℤ}

pub record WorkerRegisterRequest : Type 0 where
  pub worker_id : String
  pub worker_type : String
  pub endpoint : String
  pub heartbeat_interval_secs : ℤ

pub record WorkerRegisterResponse : Type 0 where
  pub success : Bool
  pub error : String
  pub registration_id : ℕ

-- `encode` and `decode` of prost.
pub record Codec : Type 0 where
  pub encode_register : WorkerRegisterRequest → List ℕ
  pub decode_register : List ℕ → Option WorkerRegisterRequest
  pub encode_registered : WorkerRegisterResponse → List ℕ
  pub decode_registered : List ℕ → Option WorkerRegisterResponse

-- What a connection relies on: the two messages of a registration are decoded as they were encoded.
pub record IsFaithful (c : Codec) (req : WorkerRegisterRequest) (answer : WorkerRegisterResponse)
    : Type 0 where
  pub register : c.decode_register (c.encode_register req) ≡ some req
  pub registered : c.decode_registered (c.encode_registered answer) ≡ some answer
