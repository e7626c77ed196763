-- ===== src/Compiler/Live/Nodes.antt =====
-- The nodes of the page's snapshot that the model selected, in worker/src/compiler.ts.
use price_scout.Base.{Bool, not, Option, none, some, List, [], ◌∷◌, ◌++◌, any, map}
use price_scout.Base.{if◌then◌else◌}
use price_scout.Base.Text.{Text, codes}
use price_scout.Base.Effects.{Result, Check, ok, err, plain, msg, ◌>>=◌}
use price_scout.Contracts.{Strategy, xpath_text}
use price_scout.Contracts.Entries.{lookup}
use price_scout.Outside.{Snapshot, NodeSelection}
use price_scout.Browser.{present}
use price_scout.Validation.Title.{or_empty}

abbrev optional_id : Option Text → List Text
optional_id id = if present id then or_empty id ∷ [] else []

abbrev pub selected_ids : NodeSelection → List Text
selected_ids n =
    (n.title_node_id ∷ n.current_price_node_id ∷ n.availability_node_id ∷ [])
    ++ (optional_id n.currency_node_id
        ++ (optional_id n.sku_node_id ++ map (λ entry. entry.1) n.variant_node_ids))

-- `Boolean(snapshot.xpathMap[id])`
abbrev pub is_known : Snapshot → Text → Bool
is_known snap id = present (lookup id snap.xpath_map)

-- The test on the answer in `selectSnapshotNodes`.
unfoldable pub check_selection : Snapshot → NodeSelection → Check
check_selection snap n =
    if any (λ id. not (is_known snap id)) (selected_ids n)
    then err (plain (msg "Model returned a node ID absent from snapshot.xpathMap"))
    else ok tt

-- `strategyFor(nodeId, attribute)`
unfoldable pub strategy_for : Snapshot → Text → Option Text → Result Strategy
strategy_for snap id attribute =
    if is_known snap id
    then ok (
        xpath_text (codes "xpath=" ++ or_empty (lookup id snap.xpath_map))
          (if present attribute then attribute else none))
    else err (plain (msg "Model selected unknown snapshot node " ++ id))

-- `nodeId ? strategyFor(nodeId) : …`
unfoldable pub optional_strategy : Snapshot → Option Text → Result (Option Strategy)
optional_strategy snap id =
    if present id then (do s ← strategy_for snap (or_empty id) none; ok (some s)) else ok none

-- The loop over the requested variants.
unfoldable pub variant_strategies :
    Snapshot → List (Text × Text) → List (Text × Text) → Result (List Strategy)
variant_strategies snap ids [] = ok []
variant_strategies snap ids ((attribute, value) ∷ rest) =
    if present (lookup attribute ids)
    then (do
      s ← strategy_for snap (or_empty (lookup attribute ids)) (some attribute)
      more ← variant_strategies snap ids rest
      ok (s ∷ more))
    else err (
        plain (
          msg "Model did not identify the selected "
          ++ (attribute ++ (msg " node (" ++ (value ++ codes ")")))))

pub record Chosen : Type 0 where
  pub title : Strategy
  pub price : Strategy
  pub availability : Strategy
  pub selected_variant : List Strategy

unfoldable pub choose_nodes : Snapshot → NodeSelection → List (Text × Text) → Result Chosen
choose_nodes snap n requested = do
  title ← strategy_for snap n.title_node_id none
  price ← strategy_for snap n.current_price_node_id none
  availability ← strategy_for snap n.availability_node_id none
  selected ← variant_strategies snap n.variant_node_ids requested
  ok (record {
    title = title;
    price = price;
    availability = availability;
    selected_variant = selected;
  })
