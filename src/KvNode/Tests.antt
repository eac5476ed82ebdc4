-- ===== src/KvNode/Tests.antt =====
-- Runs of the model of kv_node.py at concrete inputs, and each theorem at an input that meets its
-- hypotheses.
use system_design_course.Common.{
  ltb, if◌then◌else◌, All, Text, codes, text_eq, text_eq_iff, text_lt, strip, among, Dict, lookup,
  insert, ℕ, ◌+◌, ◌≤◌, min, ◌≡◌, refl, ap, ◌≢◌, ◌⊎◌, inl, inr, true, false, ◌&&◌, some, [], ◌∷◌,
  arith,
}
use system_design_course.KvNode.Version.{Version, Record, version_gt, is_newer}
use system_design_course.KvNode.Store.{Config, quorum, Store, init, new_record, apply, offer}
use system_design_course.KvNode.Quorum.{Network, count_until_quorum}
use system_design_course.KvNode.Sync.{apply_all}
use system_design_course.KvNode.Http.{
  reply, is_cp, show_key, no_quorum_read, get_key, do_get, rejected, committed, accepted, do_put,
  text, number, replied,
}
use system_design_course.KvNode.Post.{ReadItems, do_post}
use system_design_course.KvNode.Majority.{count_until_quorum-eq-min}
use system_design_course.KvNode.Merge.{newest, lookup-apply}
use system_design_course.KvNode.Convergence.{Covers, Within, Unambiguous, seen, convergence}
use system_design_course.KvNode.Frame.{init-AllQueued}
use system_design_course.KvNode.Delivery.{Link, LinkStep, LinkReach, IsSafe, LinkReach-IsSafe}
use system_design_course.KvNode.Clock.{Node, fresh_node, Step, Reach, IsClocked, Reach-IsClocked}
use system_design_course.KvNode.Replies.{
  get_key_availability, ap_put_then_get, cp_put_commits, cp_put_rejects,
}
use system_design_course.KvNode.Intake.{readable, replicate-Covers}

abbrev lab : Config
lab = record {
  node_id = codes "node1";
  peers = codes "node2" ∷ codes "node3" ∷ [];
  mode_default = codes "ap";
}

abbrev color : Text
color = codes "color"

abbrev blue : Record
blue = record {
  value = codes "blue";
  version = record { counter = 1; node = codes "node1" };
  ref = 0;
}

abbrev red : Record
red = record {
  value = codes "red";
  version = record { counter = 1; node = codes "node2" };
  ref = 7;
}

-- Both nodes write with counter 1, and the greater node id wins in either order.
concurrent_writes :
    (lookup color (apply_all ((color, blue) ∷ (color, red) ∷ []) (init lab)).1.entries ≡ some red)
    × (lookup color (apply_all ((color, red) ∷ (color, blue) ∷ []) (init lab)).1.entries ≡ some red)
unfolding apply_all apply is_newer version_gt text_lt init lookup insert text_eq
concurrent_writes = (refl, refl)

abbrev first_order : Dict Record
first_order = (color, blue) ∷ (color, red) ∷ []

abbrev second_order : Dict Record
second_order = (color, red) ∷ (color, blue) ∷ []

swapped : Within first_order second_order
swapped key r (inl e) = (r, inr (inl e), refl)
swapped key r (inr (inl e)) = (r, inl e, refl)
swapped key r (inr (inr h)) = absurd h

swapped_back : Within second_order first_order
swapped_back key r (inl e) = (r, inr (inl e), refl)
swapped_back key r (inr (inl e)) = (r, inl e, refl)
swapped_back key r (inr (inr h)) = absurd h

versions_differ : blue.version ≢ red.version
versions_differ e =
    ground (arith, ap (λ (v : Version). v.node) e, text_eq_iff (codes "node1") (codes "node2"))

one_value : Unambiguous first_order
one_value key r q (inl e) (inl e') v = cc
one_value key r q (inl e) (inr (inl e')) v = absurd (versions_differ (cc (e, e', v)))
one_value key r q (inl e) (inr (inr h)) v = absurd h
one_value key r q (inr (inl e)) (inl e') v = absurd (versions_differ (cc (e, e', v)))
one_value key r q (inr (inl e)) (inr (inl e')) v = cc
one_value key r q (inr (inl e)) (inr (inr h)) v = absurd h
one_value key r q (inr (inr h)) h' v = absurd h

convergence_example :
    seen (lookup color (apply_all first_order (init lab)).1.entries)
    ≡ seen (lookup color (apply_all second_order (init lab)).1.entries)
convergence_example =
    convergence lab lab first_order second_order swapped swapped_back one_value color

abbrev answered : Network
answered = record { answers = λ _. true; order = codes "node3" ∷ codes "node2" ∷ [] }

abbrev isolated : Network
isolated = record { answers = λ _. false; order = codes "node2" ∷ codes "node3" ∷ [] }

-- A node that has warmed up.
abbrev serving : Node
serving = record { store = record (init lab) { ready = true }; issued = [] }

serving-Reach : Reach lab serving
serving-Reach = Reach.next Reach.boot (Step.serve (fresh_node lab))

abbrev cp_store : Store
cp_store = record (init lab) { ready = true; mode = codes "cp" }

Reach-IsClocked_example : IsClocked serving
Reach-IsClocked_example = Reach-IsClocked lab serving-Reach

abbrev one_write : Link
one_write = record { offered = (color, blue) ∷ []; queue = offer color blue []; peer = init lab }

one_write-LinkReach : LinkReach (init lab) one_write
one_write-LinkReach =
    LinkReach.after LinkReach.opened
      (LinkStep.write color blue (record { offered = []; queue = []; peer = init lab }))

LinkReach-IsSafe_example : IsSafe one_write
LinkReach-IsSafe_example = LinkReach-IsSafe one_write-LinkReach

ap_put_then_get_example :
    (t : Store) × (do_put lab isolated (codes "/kv/color") (codes " blue ") serving.store
      ≡ replied (accepted lab color (new_record lab (codes "blue") serving.store).0) t)
    × (do_get lab isolated 3 (codes "/kv/color") t
        ≡ show_key lab color (some (new_record lab (codes "blue") serving.store).0))
unfolding init is_cp text_eq strip
ap_put_then_get_example =
    ap_put_then_get lab isolated isolated 3 color (codes " blue ") serving serving-Reach refl refl
      (init-AllQueued lab)

cp_put_commits_example :
    (t : Store) × (do_put lab answered (codes "/kv/color") (codes "blue") cp_store
      ≡ replied
          (committed lab color (new_record lab (codes "blue") cp_store).0 (quorum lab))
          (apply color (new_record lab (codes "blue") cp_store).0 t).1)
    × (t.entries ≡ cp_store.entries)
unfolding init is_cp text_eq quorum strip
cp_put_commits_example =
    cp_put_commits lab answered color (codes "blue") cp_store (omega arith) refl refl
      (init-AllQueued lab) (omega arith)

cp_put_rejects_example :
    do_put lab isolated (codes "/kv/color") (codes "blue") cp_store
    ≡ replied
        (rejected lab 1)
        (record cp_store { clock = cp_store.clock + 1; next_ref = cp_store.next_ref + 1 })
unfolding init is_cp text_eq quorum strip
cp_put_rejects_example =
    cp_put_rejects lab isolated color (codes "blue") cp_store (omega arith) refl refl (omega arith)

get_key_availability_example : get_key lab isolated color cp_store ≡ (
    if is_cp cp_store && ltb 1 (quorum lab)
    then no_quorum_read lab 1
    else show_key lab color (lookup color cp_store.entries))
get_key_availability_example = get_key_availability lab isolated color cp_store (omega arith) refl

count_until_quorum-eq-min_example : count_until_quorum 2 (false ∷ true ∷ true ∷ []) ≡ min 2 3
count_until_quorum-eq-min_example =
    count_until_quorum-eq-min 2 (false ∷ true ∷ true ∷ []) (omega arith)

lookup-apply_example : lookup color (apply color red (init lab)).1.entries ≡ (
    if text_eq color color
    then some (newest red (lookup color (init lab).entries))
    else lookup color (init lab).entries)
lookup-apply_example = lookup-apply color color red (init lab)

abbrev sends_red : ReadItems
sends_red body = some (readable ((color, red) ∷ []))

replicate-Covers_example :
    (count : ℕ) × (s : Store) × (do_post lab sends_red
        (codes "/internal/replicate")
        (codes "{}")
        (init lab)
      ≡ replied
          (reply 200 ((codes "node", text (codes "node1")) ∷ (codes "applied", number count) ∷ []))
          s)
    × (count ≤ 1)
    × All {A = Text × Record} (λ item. Covers s.entries item.0 item.1) ((color, red) ∷ [])
    × ((among (codes "size") (color ∷ []) ≡ true)
        ⊎ (lookup (codes "size") s.entries ≡ lookup (codes "size") (init lab).entries))
unfolding text_eq
replicate-Covers_example =
    replicate-Covers lab sends_red (codes "{}") ((color, red) ∷ []) (init lab) (codes "size") refl
      refl
