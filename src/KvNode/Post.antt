-- ===== src/KvNode/Post.antt =====
-- kv_node.py, `do_POST`: replication from a peer, the mode switch and the crash of lab 05.
use system_design_course.Common.{
  if◌then◌else◌, Text, codes, text_eq, strip, Dict, Bool, true, false, not, ◌||◌, Option, none,
  some, List, [], ◌∷◌,
}
use system_design_course.KvNode.Version.{Record}
use system_design_course.KvNode.Store.{Config, Store}
use system_design_course.KvNode.Sync.{apply_all}
use system_design_course.KvNode.Http.{
  text, number, reply, Outcome, replied, exits, raises, not_found,
}

-- `json.loads` of a replication body, read as its list of records. The whole is `none` where the
-- text is no JSON object with a list, and an item is `none` where its fields are missing: both raise.
abbrev pub ReadItems : Type 0
ReadItems = Text → Option (List (Option (Text × Record)))

-- The items that the generator yields, which ends at the first one that raises: the flag is whether
-- all items were read.
unfoldable pub read_items : List (Option (Text × Record)) → Bool × Dict Record
read_items [] = (true, [])
read_items (none ∷ items) = (false, [])
read_items (some item ∷ items) = let (finished, read) = read_items items in (finished, item ∷ read)

-- What was applied before an item raised stays applied.
unfoldable pub replicate : Config → ReadItems → Text → Store → Outcome
unfolding read_items
replicate cfg loads body s = elim (loads (if text_eq body [] then codes "{}" else body)) [
  | none ↦ raises s
  | some items ↦
      let (finished, read) = read_items items in
      let (count, s') = apply_all read s in
      if finished
      then replied
          (reply 200 ((codes "node", text cfg.node_id) ∷ (codes "applied", number count) ∷ [])) s'
      else raises s'
]

unfoldable pub set_mode : Config → Text → Store → Outcome
set_mode cfg body s =
    let mode = strip body in
    if not (text_eq mode (codes "ap") || text_eq mode (codes "cp"))
    then replied (reply 400 ((codes "error", text (codes "mode must be ap or cp")) ∷ [])) s
    else replied (reply 200 ((codes "node", text cfg.node_id) ∷ (codes "mode", text mode) ∷ []))
        (record s { mode = mode })

unfoldable pub do_post : Config → ReadItems → Text → Text → Store → Outcome
unfolding replicate set_mode not_found
do_post cfg loads path body s =
    if text_eq path (codes "/internal/replicate")
    then replicate cfg loads body s
    else if text_eq path (codes "/admin/mode")
    then set_mode cfg body s
    else if text_eq path (codes "/admin/crash")
    then exits (
        reply 200
          ((codes "node", text cfg.node_id) ∷ (codes "status", text (codes "crashing")) ∷ []))
    else replied not_found s
