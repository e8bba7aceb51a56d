-- ===== src/Docker/Http.antt =====
-- What cli-cpp-legacy/src/docker_client.cpp calls: the operations of `HttpClient`, as
-- cli-cpp-legacy/src/http_client.hpp declares them, and those of the C++ libraries.
use expo_builder_local.Prelude.{ℕ, Bytes, List, [], ◌∷◌, Bool, codes}
use expo_builder_local.Exception.{Result}
use expo_builder_local.Doubles.{Doubles}

-- `HttpResponse`; a status is not negative.
pub record HttpResponse : Type 0 where
  pub status : ℕ
  pub body : Bytes

-- The arguments of `HttpClient::request` and of `HttpClient::streamRequest`, which has no timeout.
pub record Request : Type 0 where
  pub method : Bytes
  pub path : Bytes
  pub body : Bytes
  pub headers : List Bytes
  pub timeout_seconds : ℕ

-- The default arguments of `HttpClient::request`.
abbrev pub plain : Bytes → Bytes → Request
plain method path = record {
  method = method;
  path = path;
  body = [];
  headers = [];
  timeout_seconds = 120;
}

abbrev pub post_json : Bytes → Bytes → Request
post_json path body = record {
  method = codes "POST";
  path = path;
  body = body;
  headers = codes "Content-Type: application/json" ∷ [];
  timeout_seconds = 120;
}

-- What a stream delivers: its chunks, and then its status or an exception.
pub record Delivery : Type 0 where
  pub chunks : List Bytes
  pub ending : Result ℕ

-- The machine that the client runs on: `World` is the daemon behind the HTTP client.
pub record Machine : Type 1 where
  pub World : Type 0
  pub send : Request → World → Result HttpResponse × World
  pub open_stream : Request → World → Delivery × World
  pub doubles : Doubles
  -- snprintf with "%.4g"
  pub print_g4 : doubles.Double → Bytes
  -- whether _WIN32 is defined
  pub windows : Bool
