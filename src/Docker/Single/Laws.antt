-- ===== src/Docker/Single/Laws.antt =====
-- The daemon with one name for containers answers as the Docker Engine API documents.
use expo_builder_local.Prelude.{
  Bytes, [], Bool, true, false, ◌==◌, bytes_eq, bytes_eq_iff, bytes_eq_refl, none, some, codes, ◌≡◌,
  ◌≢◌, refl, sym, ap, arith, if◌then◌else◌, Bool-cases, inl, inr, ◌⊎◌, ◌∙◌,
}
use expo_builder_local.Exception.{ok, ok_inj}
use expo_builder_local.Steps.{ret_ok}
use expo_builder_local.Decimal.{read_int}
use expo_builder_local.Url.{url_encode}
use expo_builder_local.Json.Integers.{ints}
use expo_builder_local.Json.Access.{at_key, as_string}
use expo_builder_local.Json.Parser.{parse}
use expo_builder_local.Docker.Http.{HttpResponse}
use expo_builder_local.Docker.Replies.{read_id, text_at}
use expo_builder_local.Docker.Client.{inspect_request}
use expo_builder_local.Docker.Services.{Engine, delete_request, network_request, create_request}
use expo_builder_local.Docker.Single.{State, web, web_id, reply, id_body, single, named_in}

read_web_id : read_id ints id_body ≡ ok web_id
unfolding read_id parse read_int at_key text_at as_string
read_web_id = refl

named_in-once :
    (w : State) (n m id : Bytes) → named_in w n ≡ some id → named_in w m ≡ some id → n ≡ m
named_in-once w n m id h k = ground (arith, bytes_eq_iff n web, bytes_eq_iff m web)

named_in-web : (w : State) → named_in w web ≡ (if w.present then some web_id else none)
named_in-web w = ground (arith, bytes_eq_refl web)

-- A container's id is that of the one container.
id_of_web : (w : State) (m id : Bytes) → named_in w m ≡ some id → id ≡ web_id
id_of_web w m id h = ground arith

-- What the daemon answers to an inspection.
Inspected : State → HttpResponse → Type 0
Inspected w res =
    ((w.present ≡ true) × (res ≡ record { status = 200; body = id_body }))
    ⊎ ((w.present ≡ false) × (res ≡ record { status = 404; body = [] }))

inspection :
    (w w' : State) (b : Bool) (res : HttpResponse)
    → w.present ≡ b
    → (if b then reply 200 id_body w else reply 404 [] w) ≡ (ok res, w')
    → (w ≡ w') × Inspected w res
unfolding Inspected
inspection w w' true res e h = (ap (λ x. x.1) h, inl (e, sym (ok_inj (ap (λ x. x.0) h))))
inspection w w' false res e h = (ap (λ x. x.1) h, inr (e, sym (ok_inj (ap (λ x. x.0) h))))

inspect_web :
    (w w' : State) (name : Bytes) (res : HttpResponse)
    → name ≡ web
    → single.send (inspect_request single name) w ≡ (ok res, w')
    → (w ≡ w') × Inspected w res
unfolding inspect_request
inspect_web w w' name res hn h = inspection w w' w.present res refl (rw hn at h)

inspect_404 :
    (w w' : State) (name : Bytes) (res : HttpResponse)
    → name ≡ web
    → single.send (inspect_request single name) w ≡ (ok res, w')
    → res.status ≡ 404
    → named_in w name ≡ none
unfolding Inspected
inspect_404 w w' name res hn h e =
    rw hn (ground (arith, (inspect_web w w' name res hn h).1, named_in-web w))

inspect_200 :
    (w w' : State) (name id : Bytes) (res : HttpResponse)
    → name ≡ web
    → single.send (inspect_request single name) w ≡ (ok res, w')
    → res.status ≡ 200
    → read_id ints res.body ≡ ok id
    → named_in w name ≡ some id
unfolding Inspected
inspect_200 w w' name id res hn h e r = elim ((inspect_web w w' name res hn h).1) [
  | inl (there, q) ↦
      let k : read_id ints id_body ≡ ok id = rw q at r in
      rw (hn, ← ok_inj (sym read_web_id ∙ k)) (ground (arith, named_in-web w))
  | inr (gone, q) ↦ absurd (ground arith)
]

delete_web :
    (w w' : State) (id : Bytes) (res : HttpResponse)
    → id ≡ web_id
    → single.send (delete_request id) w ≡ (ok res, w')
    → w' ≡ record w { present = false }
delete_web w w' id res e h = sym (ap (λ x. x.1) (rw e at h))

create_web :
    (w w' : State) (name body : Bytes) (res : HttpResponse)
    → name ≡ web
    → single.send (create_request name body) w ≡ (ok res, w')
    → (w' ≡ record w { present = true }) × (res ≡ record { status = 201; body = id_body })
unfolding url_encode
create_web w w' name body res e h =
    let k = rw e at h in (sym (ap (λ x. x.1) k), sym (ok_inj (ap (λ x. x.0) k)))

named_in-other : (w : State) (n : Bytes) → n ≢ web → named_in w n ≡ none
named_in-other w n h = elim (Bool-cases (bytes_eq n web)) [
  | inl e ↦ absurd (h ((bytes_eq_iff n web).0 e))
  | inr e ↦ rw e refl
]

named_in-absent : (w : State) (n : Bytes) → w.present ≡ false → named_in w n ≡ none
named_in-absent w n h = ground arith

named_in-ne : (w : State) (n : Bytes) → named_in w n ≢ some web_id → named_in w n ≡ none
named_in-ne w n h = ground arith

delete_keeps :
    (w w' : State) (id : Bytes) (res : HttpResponse)
    → single.send (delete_request id) w ≡ (ok res, w')
    → (n m : Bytes) → named_in w m ≡ some id
    → named_in w n ≢ some id
    → named_in w' n ≡ named_in w n
delete_keeps w w' id res h n m e k =
    let i = id_of_web w m id e in
    let q = delete_web w w' id res i h in
    rw q (named_in-absent (record w { present = false }) n refl ∙ sym (named_in-ne w n (rw i at k)))

-- What a request for a network leaves, for a network that is called "create" too.
network_step :
    (w w' : State) (name : Bytes) (b : Bool) (res : HttpResponse)
    → bytes_eq name (codes "create") ≡ b
    → single.send (network_request name) w ≡ (ok res, w')
    → (w'.present ≡ w.present) × ((res.status == 200) ≡ true → w'.networks ≡ true)
network_step w w' name true res e h =
    let (r, v) =
      ret_ok {W = State} (record { status = 201; body = [] }) (record w { networks = true })
        (rw e at h) in
    (rw (← v) refl, λ k. rw (← v) refl)
network_step w w' name false res e h =
    let (r, v) =
      ret_ok {W = State} (record { status = (if w.networks then 200 else 404); body = [] }) w
        (rw e at h) in
    (rw (← v) refl, λ k. rw (← v) (found w.networks (rw (← r) at k)))
  where
    found : (b : Bool) → ((if b then 200 else 404) == 200) ≡ true → b ≡ true
    found true h = refl
    found false h = cc

named_in-present :
    (w w' : State) (n : Bytes) → w'.present ≡ w.present → named_in w' n ≡ named_in w n
named_in-present w w' n h = rw h refl

create_web_id :
    (w w' : State) (name body id : Bytes) (res : HttpResponse)
    → name ≡ web
    → single.send (create_request name body) w ≡ (ok res, w')
    → read_id ints res.body ≡ ok id
    → named_in w' name ≡ some id
create_web_id w w' name body id res hn h read =
    let (v, r) = create_web w w' name body res hn h in
    let k : read_id ints id_body ≡ ok id = rw r at read in
    rw (hn, v, ← ok_inj (sym read_web_id ∙ k)) refl

create_keeps :
    (w w' : State) (name body : Bytes) (res : HttpResponse)
    → name ≡ web
    → single.send (create_request name body) w ≡ (ok res, w')
    → ((n : Bytes) → n ≢ name → named_in w' n ≡ named_in w n)
      × ((n : Bytes) → w'.networks ≡ w.networks)
create_keeps w w' name body res hn h =
    let (v, r) = create_web w w' name body res hn h in
    (
      λ n k.
          named_in-other w' n (λ e. k (e ∙ sym hn))
          ∙ sym (named_in-other w n (λ e. k (e ∙ sym hn))),
      λ n. ap (λ x. x.networks) v,
    )

pub single-Engine : Engine single
single-Engine = record {
  IsName = λ n. n ≡ web;
  named = named_in;
  has_network = λ w n. w.networks;
  named_once = named_in-once;
  inspect_404 = inspect_404;
  inspect_200 = inspect_200;
  inspect_keeps =
      λ w w' name res hn h n. ap (λ v. named_in v n) (sym ((inspect_web w w' name res hn h).0));
  delete_gone = λ w w' id res h fine n e.
      rw (delete_web w w' id res (id_of_web w n id e) h)
        (named_in-absent (record w { present = false }) n refl);
  delete_keeps = delete_keeps;
  network_200 = λ w w' name res h fine.
      (network_step w w' name (bytes_eq name (codes "create")) res refl h).1 fine;
  network_keeps = λ w w' name res h n.
      named_in-present w w' n
        (network_step w w' name (bytes_eq name (codes "create")) res refl h).0;
  network_201 = λ w w' name body res made h fine. ap (λ x. x.1.networks) (sym h);
  network_create_keeps =
      λ w w' body res h n. named_in-present w w' n (ap (λ x. x.1.present) (sym h));
  create_201 =
      λ w w' name body id res hn free h fine read. create_web_id w w' name body id res hn h read;
  create_keeps = create_keeps;
}

pub web-IsName : single-Engine.IsName web
unfolding single-Engine
web-IsName = refl
