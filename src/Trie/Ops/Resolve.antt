-- ===== src/Trie/Ops/Resolve.antt =====
-- Collapsed children, and what an operation hands back. Go changes the nodes in place: each
-- operation returns the node as it has become, with its result.
use elrond_go.Prelude.{Bool, if◌then◌else◌}
use elrond_go.Prelude.Bytes.{Bytes}
use elrond_go.Trie.Node.{Node, Child, absent, present, Slot, Result, ok, err, is_empty}

-- what insert and delete return beside the error: whether the node is dirty, and the new node
abbrev pub Change : Type 0
Change = Bool × Child

abbrev pub Changed : Type 0
Changed = Node × Result Change

-- getNodeFromDBAndDecode, of the database and the marshalizer at hand
module _ (load : Bytes → Result Node) where
  abbrev loaded : Bytes → Result Node → Result Slot
  loaded enc (ok n) = ok (enc, present n)
  loaded enc (err e) = err e

  -- resolveIfCollapsed at a position whose node is not empty
  unfoldable pub resolve_slot : Slot → Result Slot
  resolve_slot (enc, present n) = ok (enc, present n)
  resolve_slot (enc, absent) =
      let decoded = loaded enc (load enc) in if is_empty enc then ok (enc, absent) else decoded
