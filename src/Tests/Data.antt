-- ===== src/Tests/Data.antt =====
-- A small table: two actors, a scene with a door, and the players who sit at it.
use vtt_platform.Prelude.{◌≡◌, true, false, none, some, List, [], ◌∷◌, ◌++◌, arith}
use vtt_platform.Prelude.Int.{ℤ, pos}
use vtt_platform.Store.Log.{Database}
use vtt_platform.Contract.Event.{
  Envelope, Payload, Actor, party_member, non_party, kind_unspecified, ControlGranted, DoorAt,
  ObjectRef,
}
use vtt_platform.Go.GoMap
use vtt_platform.Go.GoMap.{Map, put}
use vtt_platform.Identity.{Participant, dm, player, spectator}
use vtt_platform.Engine.State.{State, Scene, Token, SceneObject}

abbrev pub hero : Actor
hero = record {
  actor_id = "hero";
  name = "Hero";
  module_id = "";
  attributes = GoMap.empty;
  resources = record { entries = ("hp", record { current = pos 5; max = pos 10 }) ∷ [] };
  controller_id = "ann";
  controller_ids = "ann" ∷ [];
  kind = party_member;
}

abbrev pub goblin : Actor
goblin = record {
  actor_id = "goblin";
  name = "Goblin";
  module_id = "";
  attributes = GoMap.empty;
  resources = GoMap.empty;
  controller_id = "";
  controller_ids = [];
  kind = non_party;
}

abbrev pub crate : SceneObject
crate = record {
  object_id = "crate";
  kind = "crate";
  x = pos 3;
  y = pos 3;
  width = pos 1;
  height = pos 1;
  rotation_degrees = pos 0;
  blocks_sight = false;
  blocks_move = true;
  art = "";
}

abbrev pub seen_crate : ObjectRef
seen_crate = record {
  object_id = "crate";
  kind = "crate";
  at = some (record { x = pos 4; y = pos 3 });
  width = pos 1;
  height = pos 1;
  rotation_degrees = pos 0;
  blocks_sight = false;
  blocks_move = true;
  art = "";
}

abbrev pub cellar : Scene
cellar = record {
  id = "cellar";
  name = "Cellar";
  grid_width = pos 8;
  grid_height = pos 8;
  tiles =
      some
        (record { entries = ("2,1", record { kind = "door"; material = "oak"; art = "" }) ∷ [] });
  objects = crate ∷ [];
  open_doors = none;
  explored = none;
  visible = none;
}

abbrev pub hero_token : Token
hero_token = record {
  id = "t1";
  scene_id = "cellar";
  actor_id = "hero";
  x = pos 1;
  y = pos 1;
  name = "";
  notes = "";
  gm_name = "";
  gm_notes = "";
}

abbrev pub table : State
table = record {
  scenes = record { entries = ("cellar", cellar) ∷ [] };
  actors = record { entries = ("goblin", goblin) ∷ ("hero", hero) ∷ [] };
  tokens = record { entries = ("t1", hero_token) ∷ [] };
  sessions = [];
  conditions = GoMap.empty;
  notes = GoMap.empty;
}

abbrev pub ann : Participant
ann = record { id = "ann"; name = "Ann"; role = player }

abbrev pub watcher : Participant
watcher = record { id = "wim"; name = "Wim"; role = spectator }

abbrev pub master : Participant
master = record { id = "dora"; name = "Dora"; role = dm }

abbrev pub event : ℤ → Payload → Envelope
event n p = record {
  event_id = "e";
  sequence = n;
  session_id = "";
  actor_role = "dm";
  participant_id = "dora";
  payload = p;
}

-- An actor as it is added: without controllers.
abbrev pub recruit : Actor
recruit = record {
  actor_id = "hero";
  name = "Hero";
  module_id = "";
  attributes = GoMap.empty;
  resources = GoMap.empty;
  controller_id = "";
  controller_ids = [];
  kind = kind_unspecified;
}

abbrev pub to_ann : ControlGranted
to_ann = record { actor_id = "hero"; participant_id = "ann"; kind = party_member }

abbrev pub door_at : DoorAt
door_at = record { scene_id = "cellar"; at = some (record { x = pos 2; y = pos 1 }) }

pub rows_kept : (db db' new : List Envelope) → some (db ++ new) ≡ some db' → db' ≡ db ++ new
rows_kept db db' new h = ground arith

-- A database that is its rows, and never fails.
abbrev pub rows_alone : Database
rows_alone = record {
  Db = List Envelope;
  rows = λ db. db;
  commit = λ db new. some (db ++ new);
  rows-commit = rows_kept;
}
