-- ===== src/Builder/Sample.antt =====
-- A small puzzle that the model of build.py accepts, with its registry.
use system_design_course.Common.{if◌then◌else◌, codes, text_eq, Dict, false, none, some, [], ◌∷◌}
use system_design_course.Builder.Puzzle.{Group, Node, Slot, Edge, Puzzle, Context, index_by}
use system_design_course.Builder.Validate.{File, admitted, absent}

abbrev pub network : Group
network = record {
  id = codes "g-net";
  kind = codes "vpc";
  label = codes "VPC";
  parent = none;
  cell = record { c = 0; r = 0; w = 4500000; h = 3500000 };
}

-- Inside the network, by its margins.
abbrev pub subnet : Group
subnet = record {
  id = codes "g-sub";
  kind = codes "public-subnet";
  label = codes "Sub";
  parent = some (codes "g-net");
  cell = record { c = 100000; r = 300000; w = 4000000; h = 3000000 };
}

abbrev pub server : Node
server = record {
  id = codes "n-1";
  icon = codes "vm";
  label = some (codes "x");
  number = some 1;
  cell = record { c = 500000; r = 1000000 };
  group = some (codes "g-sub");
}

abbrev pub blank : Slot
blank = record {
  id = codes "s1";
  number = 2;
  cell = record { c = 2000000; r = 1000000 };
  group = some (codes "g-sub");
  accept = codes "db";
  near_miss = none;
  hint_cue = codes "b";
  category = none;
  label = none;
  niche = none;
  explanation = codes "why";
  refs = [];
}

abbrev pub arrow : Edge
arrow = record {
  id = codes "e1";
  source = codes "n-1";
  target = codes "s1";
  step = some 1;
  label = none;
  route = none;
  points = none;
}

abbrev pub small : Puzzle
small = record {
  id = codes "e1-aws";
  scenario = codes "e1";
  cloud = codes "aws";
  title = codes "t";
  summary = codes "u";
  status = codes "draft";
  cols = 5;
  rows = 4000000;
  groups = network ∷ subnet ∷ [];
  nodes = server ∷ [];
  slots = blank ∷ [];
  edges = arrow ∷ [];
  requirements =
      record { n = 1; slot = none; text = codes "a" }
      ∷ record { n = 2; slot = some (codes "s1"); text = codes "b" }
      ∷ [];
  palette =
      record { service = codes "db"; uses = none; role = none; why_not = none }
      ∷ record {
        service = codes "vm";
        uses = none;
        role = some (codes "distractor");
        why_not = some ((codes "*", codes "no") ∷ []);
      }
      ∷ [];
  urls = [];
  allow_mention = [];
  topics = none;
  difficulty_override = none;
}

-- The blank stands in the text "b".
abbrev pub context : Context
context = record {
  services =
      (
        codes "vm",
        record {
          label = codes "VM";
          short = codes "V";
          aliases = [];
          category = some (codes "compute");
          cloud = none;
        },
      )
      ∷ (
        codes "db",
        record {
          label = codes "DB";
          short = codes "D";
          aliases = [];
          category = some (codes "database");
          cloud = none;
        },
      )
      ∷ [];
  patterns = record {
    find_tokens = λ t. if text_eq t (codes "b") then codes "s1" ∷ [] else [];
    strip_tokens = λ t. t;
    article_es = λ t. false;
    article_en = λ t. false;
    parenthesis = λ t. none;
    names = λ name t. false;
    category_words = λ c. none;
  };
}

abbrev pub good : File
good = record { stem = codes "e1-aws"; puzzle = some (admitted small); translation = absent }

abbrev pub groups_by_id : Dict Group
groups_by_id = index_by Group.id small.groups
