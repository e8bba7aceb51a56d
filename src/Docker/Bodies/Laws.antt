-- ===== src/Docker/Bodies/Laws.antt =====
-- The texts of a request's body, as the daemon reads them.
use expo_builder_local.Prelude.{
  Bytes, List, [], ◌∷◌, ◌++◌, append_assoc, append-nil, true, false, codes, ◌≡◌, refl, sym, ◌∙◌, ap,
}
use expo_builder_local.Exception.{ok, ok_inj}
use expo_builder_local.Doubles.{Doubles, PrintLaws}
use expo_builder_local.Json.Value.{
  Json, Items, Fields, string, boolean, array, object, nil, cons, end, field,
}
use expo_builder_local.Json.Access.{lookup, set, set_field, push_back, push_item}
use expo_builder_local.Json.Dump.{dump}
use expo_builder_local.Json.Parser.{parse}
use expo_builder_local.Json.Parser.Steps.{IsPrintable, ItemsPrintable}
use expo_builder_local.Json.Parser.RoundTrip.{parse-dump}
use expo_builder_local.Docker.Params.{container_app_dir, app_path_label}
use expo_builder_local.Docker.Bodies.{push_all, container_body}

module _ {D : Type 0} where
  -- The items of an array of texts.
  abbrev pub texts : List Bytes → Items D
  texts [] = nil
  texts (s ∷ ss) = cons (string s) (texts ss)

  push_item-texts :
      (s : Bytes) (ss : List Bytes) → push_item (string s) (texts ss) ≡ texts (ss ++ s ∷ [])
  unfolding push_item
  push_item-texts s [] = refl
  push_item-texts s (t ∷ ss) = ap (λ x. cons (string t) x) (push_item-texts s ss)

  push_all_lem :
      (ss front : List Bytes) → push_all ss (array (texts front)) ≡ ok (array (texts (front ++ ss)))
  unfolding push_all push_back
  push_all_lem [] front = ap (λ l. ok (array (texts l))) (sym (append-nil front))
  push_all_lem (s ∷ ss) front = rw (push_item-texts s front) (
      push_all_lem ss (front ++ s ∷ [])
      ∙ ap (λ l. ok (array (texts l))) (append_assoc front (s ∷ []) ss))

  abbrev pub container_fields : Bytes → Bytes → List Bytes → List Bytes → Fields D
  container_fields app_path image env binds = field (codes "Image") (string image) (
      field (codes "Env") (array (texts env)) (
        field (codes "Labels") (object (field app_path_label (string app_path) end)) (
          field (codes "Tty") (boolean true) (
            field (codes "OpenStdin") (boolean false) (
              field (codes "AttachStdout") (boolean true) (
                field (codes "AttachStderr") (boolean true) (
                  field (codes "WorkingDir") (string container_app_dir) (
                    field (codes "HostConfig")
                      (object (
                        field (codes "Binds") (array (texts binds))
                          (field (codes "AutoRemove") (boolean false) end)))
                      end))))))))

  pub container_body_lem :
      (app_path image : Bytes) (env binds : List Bytes)
      → container_body {D = D} app_path image env binds
        ≡ ok (object (container_fields app_path image env binds))
  unfolding container_body set set_field
  container_body_lem app_path image env binds = rw (push_all_lem env [], push_all_lem binds []) refl

module _ (fp : Doubles) where
  texts-IsPrintable : (ss : List Bytes) → ItemsPrintable fp (texts ss)
  texts-IsPrintable [] = tt
  texts-IsPrintable (s ∷ ss) = (tt, texts-IsPrintable ss)

  container-IsPrintable :
      (app_path image : Bytes) (env binds : List Bytes)
      → IsPrintable fp (object (container_fields app_path image env binds))
  unfolding lookup
  container-IsPrintable app_path image env binds = (
    refl,
    tt,
    (
      refl,
      texts-IsPrintable env,
      (
        refl,
        (refl, tt, tt),
        (
          refl,
          tt,
          (
            refl,
            tt,
            (
              refl,
              tt,
              (refl, tt, (refl, tt, (refl, (refl, texts-IsPrintable binds, (refl, tt, tt)), tt))),
            ),
          ),
        ),
      ),
    ),
  )

  -- `Json::parse` reads from the text that `Json::dump` writes for the body of a create request
  -- exactly the image, the environment, the label with the project's path and the bind mounts that
  -- the body was made of, whatever bytes are in them, if the doubles keep the laws of printing.
  pub parse-container_body :
      (laws : PrintLaws fp) (app_path image : Bytes) (env binds : List Bytes)
      {body : Json fp.Double}
      → container_body app_path image env binds ≡ ok body
      → parse fp (dump fp body) ≡ ok (object (container_fields app_path image env binds))
  parse-container_body laws app_path image env binds {body} h =
      let e : object (container_fields app_path image env binds) ≡ body =
        ok_inj (sym (container_body_lem app_path image env binds) ∙ h) in
      rw (← e) (
        parse-dump fp laws (object (container_fields app_path image env binds))
          (container-IsPrintable app_path image env binds))
