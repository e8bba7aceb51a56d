-- ===== src/Docker/Single.antt =====
-- A daemon with one name for containers, for the runs of the tests: its container is there or not,
-- and so is its network.
pub mod Laws
use expo_builder_local.Prelude.{
  ℕ, Bytes, List, [], ◌∷◌, ◌++◌, Bool, true, false, ◌&&◌, bytes_eq, bytes_eq_iff, bytes_eq_refl,
  Option, none, some, codes, ◌≡◌, ◌≢◌, refl, sym, ap, arith, if◌then◌else◌, Bool-cases, inl, inr,
  ◌⊎◌, ◌∙◌,
}
use expo_builder_local.Prelude.Int.{ℤ}
use expo_builder_local.Exception.{Result, ok, ok_inj}
use expo_builder_local.Decimal.{print_int, read_int}
use expo_builder_local.Url.{url_encode}
use expo_builder_local.Json.Integers.{ints}
use expo_builder_local.Json.Access.{at_key, as_string}
use expo_builder_local.Json.Parser.{parse}
use expo_builder_local.Docker.Http.{HttpResponse, Request, Delivery, Machine}
use expo_builder_local.Docker.Replies.{read_id, text_at}
use expo_builder_local.Docker.Client.{inspect_request}
use expo_builder_local.Docker.Services.{Engine}

pub record State : Type 0 where
  pub present : Bool
  pub networks : Bool

abbrev pub web : Bytes
web = codes "ebl-web"

abbrev pub web_id : Bytes
web_id = codes "c1"

abbrev pub reply : ℕ → Bytes → State → Result HttpResponse × State
reply status body state = (ok (record { status = status; body = body }), state)

abbrev pub id_body : Bytes
id_body = codes "{\"Id\":\"c1\"}"

abbrev pub answer : Bytes → Bytes → State → Result HttpResponse × State
answer method path state =
    if bytes_eq path (codes "/containers/ebl-web/json")
    then (if state.present then reply 200 id_body state else reply 404 [] state)
    else if bytes_eq path (codes "/containers/c1?force=1")
    then reply 204 [] (record state { present = false })
    else if bytes_eq path (codes "/networks/create")
    then reply 201 [] (record state { networks = true })
    else if bytes_eq path (codes "/containers/create?name=ebl-web")
    then reply 201 id_body (record state { present = true })
    else if bytes_eq method (codes "GET")
    then reply (if state.networks then 200 else 404) [] state
    else reply 404 [] state

abbrev pub stream : List Bytes
stream =
    codes "{\"stream\":\"Step 1\\n\"}\n{\"sta" ∷ codes "tus\":\"Pulling\",\"id\":\"ab\"}\n" ∷ []

abbrev pub single : Machine
single = record {
  World = State;
  send = λ request. answer request.method request.path;
  open_stream = λ request state. (record { chunks = stream; ending = ok 200 }, state);
  doubles = ints;
  print_g4 = print_int;
  windows = false;
}

abbrev pub named_in : State → Bytes → Option Bytes
named_in state n = if bytes_eq n web && state.present then some web_id else none
