-- ===== src/Config/Fields.antt =====
-- The parts of the JSON of a configuration that hold no secret.
use expo_builder_local.Prelude.{Bytes, codes}
use expo_builder_local.Prelude.Int.{ℤ}
use expo_builder_local.Exception.{Result, ◌>>=◌}
use expo_builder_local.Doubles.{Doubles}
use expo_builder_local.Json.Value.{Json, number, string, object, end}
use expo_builder_local.Json.Access.{set}
use expo_builder_local.Config.{EblConfig}

module _ (fp : Doubles) where
  open fp use {Double}

  -- an entry of expoTokensByOwner
  unfoldable pub entry_value : Bytes → Bytes → Result (Json Double)
  entry_value owner enc = do
    obj ← set (codes "owner") (string owner) (object end)
    set (codes "tokenEnc") (string enc) obj

  -- `Json(int)`, and the Json of the double to which setupCompletedAt is cast
  abbrev pub num : ℤ → Json Double
  num z = number (fp.of_int z)

  -- The members that `saveConfig` sets before it encrypts.
  unfoldable pub plain_fields : EblConfig → Result (Json Double)
  plain_fields cfg = do
    r1 ← set (codes "projectsRoot") (string cfg.projects_root) (object end)
    r2 ← set (codes "orchestratorPort") (num cfg.orchestrator_port) r1
    r3 ← set (codes "webPort") (num cfg.web_port) r2
    set (codes "setupCompletedAt") (num cfg.setup_completed_at) r3
